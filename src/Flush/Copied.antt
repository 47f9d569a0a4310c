-- ===== src/Flush/Copied.antt =====
-- A flush makes the copies that still stand for an entry, each at its place, and no other.
use cla_mpi.Prelude.{
  ℕ, zero, suc, ◌+◌, ◌-◌, ◌≤◌, ◌<◌, ◌≡◌, ◌≢◌, refl, ◌⊎◌, inl, inr, true, false, arith, sym, ◌∙◌, ap,
  subst, ◌==◌, ◌==ℤ◌, ◌%◌, ◌^◌, ◌&&◌, not, ltb, if◌then◌else◌, none, some, ◌↔◌, eq_of_test, ℤ, pos,
  negsuc, lt_or_le, Bool-cases, update,
}
use cla_mpi.Cache.{Entry, Pending, Cache, to_size}
use cla_mpi.Window.{set_entry}
use cla_mpi.Flush.{copy_bytes, mem_copy, flush_round, flush_loop, flush_pending}

eq_of_test_ℤ : (a b : ℤ) → (a ==ℤ b) ≡ true → a ≡ b
eq_of_test_ℤ (pos a) (pos b) h = ap pos (ground arith)
eq_of_test_ℤ (pos a) (negsuc b) h = cc
eq_of_test_ℤ (negsuc a) (pos b) h = cc
eq_of_test_ℤ (negsuc a) (negsuc b) h = ap negsuc (ground arith)

test_refl_ℤ : (n : ℕ) → (pos n ==ℤ pos n) ≡ true
test_refl_ℤ n = ground arith

pub copy_bytes_in :
    (n : ℕ) (source target : ℕ → ℕ) (from to k : ℕ)
    → k < n
    → copy_bytes n source from target to (to + k) ≡ source (from + k)
unfolding copy_bytes
copy_bytes_in n source target from to k h =
    let same : to + k - to ≡ k = omega arith in ground (arith, ap (λ v. source (from + v)) same)

pub copy_bytes_out :
    (n : ℕ) (source target : ℕ → ℕ) (from to a : ℕ)
    → (a < to) ⊎ (to + n ≤ a)
    → copy_bytes n source from target to a ≡ target a
unfolding copy_bytes
copy_bytes_out n source target from to a h = ground arith

-- A copy is within the limit of the counter.
abbrev pub Copies : ℕ → (ℕ → ℕ) → ℕ → (ℕ → ℕ) → ℕ → Type 0
Copies n source from target to =
    mem_copy n source from target to ≡ some (copy_bytes n source from target to)

pub mem_copy-cases :
    (n : ℕ) (source : ℕ → ℕ) (from : ℕ) (target : ℕ → ℕ) (to : ℕ)
    → Copies n source from target to ⊎ (mem_copy n source from target to ≡ none)
unfolding mem_copy
mem_copy-cases n source from target to =
    let left = if to % 16 == from % 16 && not (from % 16 == 0) then n - (16 - from % 16) else n in
    elim (Bool-cases (ltb left (2 ^ 31))) [
      | inl fits ↦ inl (rw fits refl)
      | inr large ↦ inr (rw large refl)
    ]

pub mem_copy-Copies :
    (n : ℕ) (source : ℕ → ℕ) (from : ℕ) (target : ℕ → ℕ) (to : ℕ)
    → n < 2 ^ 31
    → Copies n source from target to
unfolding mem_copy
mem_copy-Copies n source from target to h =
    let left = if to % 16 == from % 16 && not (from % 16 == 0) then n - (16 - from % 16) else n in
    let fits : ltb left (2 ^ 31) ≡ true = ground arith in rw fits refl

-- The length of the copy of a record.
abbrev pub bytes : Pending → ℕ
bytes p = to_size p.size

-- An address is not where a record is copied to.
abbrev pub Outside : Pending → ℕ → Type 0
Outside p a = (a < p.target_addr) ⊎ (p.target_addr + bytes p ≤ a)

module _ {F : Type 0} where
  -- The entry of a record still waits for its copy.
  abbrev pub Live : Cache F → ℕ → Type 0
  Live c p = (c.table_ptr (c.pending p).entry).pending ≡ pos p

  -- The places of the records that are still waited for do not overlap.
  abbrev pub Disjoint : Cache F → ℕ → Type 0
  Disjoint c n =
      (p q : ℕ)
      → p < n
      → q < n
      → p ≢ q
      → Live c p
      → Live c q
      → (k : ℕ) → k < bytes (c.pending p)
      → Outside (c.pending q) ((c.pending p).target_addr + k)

  module _ (memory : ℕ → ℕ) (n : ℕ) (c : Cache F) where
    flush_round-skips :
        (c.table_ptr (c.pending n).entry).pending ==ℤ pos n ≡ false
        → flush_round memory n c ≡ some c
    unfolding flush_round
    flush_round-skips h = rw h refl

    -- The cache after a copy has been made.
    abbrev made : Cache F
    made =
        let p = c.pending n in
        record c {
          table_ptr =
              update c.table_ptr p.entry (record (c.table_ptr p.entry) { pending = negsuc 0 });
          mem = copy_bytes (bytes p) memory p.origin_addr c.mem p.target_addr;
        }

    flush_round-copies :
        Live c n → bytes (c.pending n) < 2 ^ 31 → flush_round memory n c ≡ some made
    unfolding flush_round set_entry
    flush_round-copies h small =
        let test : ((c.table_ptr (c.pending n).entry).pending ==ℤ pos n) ≡ true =
          rw h (test_refl_ℤ n) in
        let p = c.pending n in
        rw test (rw (mem_copy-Copies (bytes p) memory p.origin_addr c.mem p.target_addr small) refl)

    Live-made : (p : ℕ) → p < n → Live c n → Live c p ↔ Live made p
    Live-made p h l = elim (Bool-cases ((c.pending p).entry == (c.pending n).entry)) [
      | inl here ↦
          let same = eq_of_test (c.pending p).entry (c.pending n).entry here in
          (
            λ m. absurd (
                let e : pos p ≡ pos n = sym m ∙ ap (λ i. (c.table_ptr i).pending) same ∙ l in
                ground arith),
            λ m. absurd (let e = (rw here at m) in cc),
          )
      | inr there ↦ (λ m. rw there m, λ m. rw there at m)
    ]

  -- The records that are still waited for have fewer than 2^31 bytes.
  abbrev pub Small : Cache F → ℕ → Type 0
  Small c n = (p : ℕ) → p < n → Live c p → bytes (c.pending p) < 2 ^ 31

  -- The cache after the copies that the records under `n` stand for.
  pub record Flushed (memory : ℕ → ℕ) (n : ℕ) (c d : Cache F) : Type 0 where
    pub done : (p : ℕ) → p < n → Live c p → (d.table_ptr (c.pending p).entry).pending ≡ negsuc 0
    pub others :
        (e : ℕ)
        → ((p : ℕ) → p < n → Live c p → (c.pending p).entry ≢ e)
        → d.table_ptr e ≡ c.table_ptr e
    pub kept :
        (e : ℕ) → d.table_ptr e ≡ record (c.table_ptr e) { pending = (d.table_ptr e).pending }
    pub outside :
        (a : ℕ) → ((p : ℕ) → p < n → Live c p → Outside (c.pending p) a) → d.mem a ≡ c.mem a
    pub copied :
        (p k : ℕ)
        → p < n
        → Live c p
        → k < bytes (c.pending p)
        → d.mem ((c.pending p).target_addr + k) ≡ memory ((c.pending p).origin_addr + k)

  skipped :
      (memory : ℕ → ℕ) (n : ℕ) (c d : Cache F)
      → ¬ Live c n
      → Flushed memory n c d
      → Flushed memory (suc n) c d
  skipped memory n c d l f = record {
    done = λ p h m. f.done p (below p h m) m;
    others = λ e o. f.others e (λ p h. o p (omega arith));
    kept = f.kept;
    outside = λ a o. f.outside a (λ p h. o p (omega arith));
    copied = λ p k h m. f.copied p k (below p h m) m;
  }
    where
      below : (p : ℕ) → p < suc n → Live c p → p < n
      below p h m = elim (lt_or_le p n) [
        | inl lower ↦ lower
        | inr last ↦ absurd (l (subst (Live c) (omega arith) m))
      ]

  extended :
      (memory : ℕ → ℕ) (n : ℕ) (c d : Cache F)
      → Disjoint c (suc n)
      → Live c n
      → Flushed memory n (made memory n c) d
      → Flushed memory (suc n) c d
  extended memory n c d apart l f = record {
    done = λ p h m. elim (lt_or_le p n) [
      | inl lower ↦ f.done p lower ((Live-made memory n c p lower l).0 m)
      | inr last ↦
          subst (λ q. (d.table_ptr (c.pending q).entry).pending ≡ negsuc 0) (omega arith) entry_done
    ];
    others = λ e o.
        f.others e (λ p h m. o p (omega arith) (back p h m)) ∙ ground (arith, o n (omega arith) l);
    kept = λ e. f.kept e ∙ same_but e (d.table_ptr e).pending;
    outside = λ a o.
        f.outside a (λ p h m. o p (omega arith) (back p h m))
        ∙ copy_bytes_out (bytes (c.pending n)) memory c.mem (c.pending n).origin_addr
            (c.pending n).target_addr a (o n (omega arith) l);
    copied = λ p k h m b. elim (lt_or_le p n) [
      | inl lower ↦ f.copied p k lower ((Live-made memory n c p lower l).0 m) b
      | inr last ↦
          subst
            (λ q.
              k < bytes (c.pending q)
              → d.mem ((c.pending q).target_addr + k) ≡ memory ((c.pending q).origin_addr + k))
            (omega arith) (last_copied k) b
    ];
  }
    where
      back : (p : ℕ) → p < n → Live (made memory n c) p → Live c p
      back p h = (Live-made memory n c p h l).1

      same_but :
          (e : ℕ) (x : ℤ)
          → ◌≡◌ {A = Entry}
              (record ((made memory n c).table_ptr e) { pending = x })
              (record (c.table_ptr e) { pending = x })
      same_but e x = elim (Bool-cases (e == (c.pending n).entry)) [
        | inl here ↦ rw here (
            ap (λ i. record (c.table_ptr i) { pending = x })
              (sym (eq_of_test e (c.pending n).entry here)))
        | inr there ↦ rw there refl
      ]

      entry_done : (d.table_ptr (c.pending n).entry).pending ≡ negsuc 0
      entry_done =
          ap (λ (e : Entry). e.pending)
            (f.others (c.pending n).entry (λ p h m same.
              let e : pos p ≡ pos n =
                sym (back p h m) ∙ ap (λ i. (c.table_ptr i).pending) same ∙ l in
              absurd (ground arith)))
          ∙ ground arith

      last_copied :
          (k : ℕ)
          → k < bytes (c.pending n)
          → d.mem ((c.pending n).target_addr + k) ≡ memory ((c.pending n).origin_addr + k)
      last_copied k b =
          f.outside ((c.pending n).target_addr + k) (λ p h m.
            apart n p (omega arith) (omega arith) (λ e. absurd (omega arith)) l (back p h m) k b)
          ∙ copy_bytes_in (bytes (c.pending n)) memory c.mem (c.pending n).origin_addr
              (c.pending n).target_addr k b

  flush_loop-Flushed :
      (n : ℕ) (memory : ℕ → ℕ) (c : Cache F)
      → Small c n
      → Disjoint c n
      → (d : Cache F) × (flush_loop n memory c ≡ some d) × Flushed memory n c d
  unfolding flush_loop
  flush_loop-Flushed zero memory c small apart = (
    c,
    refl,
    record {
      done = λ p h. absurd (omega arith);
      others = λ e o. refl;
      kept = λ e. refl;
      outside = λ a o. refl;
      copied = λ p k h. absurd (omega arith);
    },
  )
  flush_loop-Flushed (suc n) memory c small apart =
      elim (Bool-cases ((c.table_ptr (c.pending n).entry).pending ==ℤ pos n)) [
        | inr skip ↦
            let (d, e, f) =
              flush_loop-Flushed n memory c (λ p h. small p (omega arith))
                (λ p q h k. apart p q (omega arith) (omega arith)) in
            (
              d,
              rw (flush_round-skips memory n c skip) e,
              skipped memory n c d (λ l. let e = (rw l at skip) in ground (arith, test_refl_ℤ n)) f,
            )
        | inl live ↦
            let l = eq_of_test_ℤ _ _ live in
            let back = λ (p : ℕ) (h : p < n). (Live-made memory n c p h l).1 in
            let (d, e, f) =
              flush_loop-Flushed n memory (made memory n c)
                (λ p h v. small p (omega arith) (back p h v))
                (λ p q h k ne v w.
                  apart p q (omega arith) (omega arith) ne (back p h v) (back q k w)) in
            (
              d,
              rw (flush_round-copies memory n c l (small n (omega arith) l)) e,
              extended memory n c d apart l f,
            )
      ]

  -- Where the pending records whose entry still waits for them have fewer than 2^31 bytes and
  -- places that do not overlap, the loop of `CMPI_Win_flush` ends, copies the data of each of
  -- these records to its place in the buffer and marks its entry as complete, changes no other
  -- byte of the buffer and nothing else in any descriptor, and leaves no record pending.
  pub flush_pending-Flushed :
      (memory : ℕ → ℕ) (c : Cache F)
      → Small c c.penptr
      → Disjoint c c.penptr
      → (d : Cache F) × (flush_pending memory c ≡ some d)
        × Flushed memory c.penptr c d
        × (d.penptr ≡ 0)
  unfolding flush_pending
  flush_pending-Flushed memory c small apart =
      let (d, e, f) = flush_loop-Flushed c.penptr memory c small apart in
      (
        record d { penptr = 0 },
        rw e refl,
        record {
          done = f.done;
          others = f.others;
          kept = f.kept;
          outside = f.outside;
          copied = f.copied;
        },
        refl,
      )
