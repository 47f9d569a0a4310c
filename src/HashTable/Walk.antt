-- ===== src/HashTable/Walk.antt =====
-- The loop of `ht_insert`: where its walk over the slots ends in an empty slot, nothing is lost on the way.
use cla_mpi.Prelude.{
  ℕ, zero, suc, ◌%◌, ◌≤◌, ◌<◌, ◌≡◌, ◌≢◌, refl, ◌⊎◌, inl, inr, true, false, arith, sym, ◌∙◌, subst,
}
use cla_mpi.Cache.{Slot, Cache}
use cla_mpi.HashTable.{slot_of, is_used, tables, next_table, displace, insert_loop}
use cla_mpi.HashTable.Slots.{
  slot_of_table, Holds, InPlace, Apart, next_slot, Reach, Reach-unique, displace-InPlace,
  displace-Apart, displace-Holds, displace_new, displace-Holds_back,
}

module _ {F : Type 0} where
  -- What a walk that starts with `v` in hand leaves: no victim, a table in order, and in it the
  -- entries that were there, and that of `v`.
  pub record Settled (c : Cache F) (v : Slot) (c' : Cache F) (left : Slot) : Type 0 where
    pub empty : is_used left ≡ false
    pub in_place : InPlace c'
    pub kept : (i : ℕ) → Holds c i → Holds c' i
    pub taken : is_used v ≡ true → Holds c' v.index
    pub nothing_else : (i : ℕ) → Holds c' i → Holds c i ⊎ ((is_used v ≡ true) × (v.index ≡ i))
    pub same_gets : (i : ℕ) → (c'.table_ptr i).get_info ≡ (c.table_ptr i).get_info
    pub same_size : c'.ht_entries ≡ c.ht_entries

  -- The table in a round of the walk against the table at its start, with `k` rounds to go.
  pub record Agrees (c₀ c : Cache F) (k : ℕ) : Type 0 where
    pub ahead : (u j : ℕ) → j < k → Reach c₀ j u → c.table u ≡ c₀.table u
    pub gets :
        (u : ℕ)
        → is_used (c₀.table u) ≡ true
        → (c.table_ptr (c₀.table u).index).get_info ≡ (c₀.table_ptr (c₀.table u).index).get_info
    pub htsize : c.ht_entries ≡ c₀.ht_entries

  Settled-stop : (c : Cache F) (v : Slot) → is_used v ≡ false → InPlace c → Settled c v c v
  Settled-stop c v e o = record {
    empty = e;
    in_place = o;
    kept = λ i h. h;
    taken = λ u. cc;
    nothing_else = λ i h. inl h;
    same_gets = λ i. refl;
    same_size = refl;
  }

  displace_gets :
      (c : Cache F) (v : Slot) (t i : ℕ)
      → ((displace c v t).table_ptr i).get_info ≡ (c.table_ptr i).get_info
  unfolding displace
  displace_gets c v t i = ground arith

  displace_size : (c : Cache F) (v : Slot) (t : ℕ) → (displace c v t).ht_entries ≡ c.ht_entries
  unfolding displace
  displace_size c v t = refl

  displace_other :
      (c : Cache F) (v : Slot) (t u : ℕ)
      → u ≢ slot_of c.ht_entries (c.table_ptr v.index).get_info t
      → (displace c v t).table u ≡ c.table u
  unfolding displace
  displace_other c v t u h = ground arith

  Settled-displace :
      (c : Cache F) (v : Slot) (t : ℕ) (c' : Cache F) (left : Slot)
      → is_used v ≡ true
      → Settled
          (displace c v t)
          (c.table (slot_of c.ht_entries (c.table_ptr v.index).get_info t))
          c'
          left
      → Settled c v c' left
  Settled-displace c v t c' left u d = record {
    empty = d.empty;
    in_place = d.in_place;
    kept = keep;
    taken = λ _. d.kept v.index (displace_new c v t u);
    nothing_else = back;
    same_gets = λ i. d.same_gets i ∙ displace_gets c v t i;
    same_size = d.same_size ∙ displace_size c v t;
  }
    where
      keep : (i : ℕ) → Holds c i → Holds c' i
      keep i h = elim (displace-Holds c v t i h) [
        | inl h' ↦ d.kept i h'
        | inr (w, e) ↦ subst (Holds c') e (d.taken w)
      ]

      back : (i : ℕ) → Holds c' i → Holds c i ⊎ ((is_used v ≡ true) × (v.index ≡ i))
      back i h = elim (d.nothing_else i h) [
        | inl h' ↦ elim (displace-Holds_back c v t i h') [ inl h'' ↦ inl h'' | inr e ↦ inr (u, e) ]
        | inr (w, e) ↦ inl (record {
          slot = slot_of c.ht_entries (c.table_ptr v.index).get_info t;
          used = w;
          index = e;
        })
      ]

  Agrees-displace :
      (c₀ c : Cache F) (k : ℕ) (v : Slot) (t : ℕ)
      → Agrees c₀ c (suc k)
      → Reach c₀ k (slot_of c.ht_entries (c.table_ptr v.index).get_info t)
      → Agrees c₀ (displace c v t) k
  Agrees-displace c₀ c k v t g r = record {
    ahead = λ u j h q.
        displace_other c v t u (λ e.
          let same = Reach-unique c₀ j k u q (subst (Reach c₀ k) (sym e) r) in absurd (omega arith))
        ∙ g.ahead u j (omega arith) q;
    gets = λ u w. displace_gets c v t _ ∙ g.gets u w;
    htsize = displace_size c v t ∙ g.htsize;
  }

  -- With enough rounds for the walk the loop settles the victim that it starts with.
  pub insert_loop-Settled :
      (c₀ : Cache F) (rounds k : ℕ) (c : Cache F) (v : Slot) (s t : ℕ)
      → v ≡ c₀.table s
      → t ≡ s % tables
      → Reach c₀ k s
      → k ≤ rounds
      → Agrees c₀ c k
      → InPlace c
      → (is_used v ≡ true → Apart c v.index)
      → Settled c v (insert_loop rounds c v t).0 (insert_loop rounds c v t).1
  unfolding insert_loop
  insert_loop-Settled c₀ zero zero c v s t ev et r h g o a = Settled-stop c v (rw ev r) o
  insert_loop-Settled c₀ (suc n) zero c v s t ev et r h g o a =
      let e : is_used v ≡ false = rw ev r in rw e (Settled-stop c v e o)
  insert_loop-Settled c₀ zero (suc k) c v s t ev et r h g o a = absurd (omega arith)
  insert_loop-Settled c₀ (suc n) (suc k) c v s t ev et r h g o a =
      let u : is_used v ≡ true = rw ev r.0 in
      let t' = next_table t in
      let place = slot_of c.ht_entries (c.table_ptr v.index).get_info t' in
      let e : place ≡ next_slot c₀ s = rw (ev, et, g.htsize, g.gets s r.0) in
      let r' : Reach c₀ k place = rw e r.1 in
      rw u (
        Settled-displace c v t' _ _ u (
          insert_loop-Settled c₀ n k (displace c v t') (c.table place) place t'
            (g.ahead place k (omega arith) r') (sym (slot_of_table c.ht_entries _ t' (omega arith)))
            r' (omega arith) (Agrees-displace c₀ c k v t' g r')
            (displace-InPlace c v t' (omega arith) u (a u) o) (displace-Apart c v t' (a u) o)))
