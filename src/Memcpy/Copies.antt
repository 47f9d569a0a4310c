-- ===== src/Memcpy/Copies.antt =====
-- `sse_memcpy` copies: it neither faults nor overflows, and does what `memcpy` does.
use cla_mpi.Prelude.{
  ℕ, zero, suc, ◌+◌, ◌-◌, ◌*◌, ◌/◌, ◌%◌, ◌^◌, ◌≤◌, ◌<◌, ◌≡◌, refl, ◌∙◌, ap, ◌⊎◌, inl, inr, Bool,
  true, false, ◌&&◌, some, arith, ltb, leb, ◌==◌, if◌then◌else◌, Bool-cases,
}
use cla_mpi.Flush.{copy_bytes}
use cla_mpi.Memcpy.{
  memcpy, load_registers, store_registers, portion, Copying, portions, copy_rest, sse_memcpy,
}

-- Stores of registers write the bytes of the registers in order.
store_registers-copies :
    (n : ℕ) (mem source : ℕ → ℕ) (from to a : ℕ)
    → store_registers n (load_registers source from) to mem a
      ≡ copy_bytes (16 * n) source from mem to a
unfolding store_registers load_registers copy_bytes
store_registers-copies zero mem source from to a = ground arith
store_registers-copies (suc n) mem source from to a =
    ground (arith, store_registers-copies n mem source from to a)

-- The operands of a copy do not overlap.
abbrev pub Apart : ℕ → ℕ → ℕ → Type 0
Apart to from n = (to + n ≤ from) ⊎ (from + n ≤ to)

-- A copy in two parts.
copy-copy :
    (n m to from : ℕ) (mem mem' : ℕ → ℕ) (a : ℕ)
    → Apart to from (n + m)
    → ((b : ℕ) → mem' b ≡ memcpy to from n mem b)
    → memcpy (to + n) (from + n) m mem' a ≡ memcpy to from (n + m) mem a
unfolding memcpy copy_bytes
copy-copy n m to from mem mem' a apart h =
    elim (Bool-cases (leb (to + n) a && ltb a (to + n + m))) [
      | inl here ↦
          let same : from + n + (a - (to + n)) ≡ from + (a - to) = ground arith in
          ground (arith, h (from + n + (a - (to + n))), ap mem same)
      | inr there ↦ ground (arith, h a)
    ]

-- Both addresses are multiples of 16, where the copy is an aligned one and something is left.
abbrev Fits : Bool → ℕ → ℕ → ℕ → Type 0
Fits is_aligned to from n = is_aligned ≡ true → 0 < n → (from % 16 ≡ 0) × (to % 16 ≡ 0)

portion-copies :
    (is_aligned : Bool) (to from : ℕ) (mem : ℕ → ℕ)
    → Fits is_aligned to from 1
    → portion is_aligned to from mem ≡ some (store_registers 16 (load_registers mem from) to mem)
unfolding portion
portion-copies false to from mem h = refl
portion-copies true to from mem h = ground (arith, h refl (omega arith))

-- What the loop leaves.
record Copied (rounds : ℕ) (s s' : Copying) : Type 0 where
  to : s'.to ≡ s.to + 256 * rounds
  from : s'.from ≡ s.from + 256 * rounds
  copied : (a : ℕ) → s'.mem a ≡ memcpy s.to s.from (256 * rounds) s.mem a

portions-Copied :
    (rounds : ℕ) (is_aligned : Bool) (limit : ℕ) (s : Copying)
    → limit ≡ s.i + 256 * rounds
    → limit < 2 ^ 31
    → Fits is_aligned s.to s.from rounds
    → Apart s.to s.from (256 * rounds)
    → (s' : Copying) × (portions rounds is_aligned limit s ≡ some s') × Copied rounds s s'
unfolding portions
portions-Copied zero is_aligned limit s e small fits apart = (
  s,
  ground arith,
  record {
    to = omega arith;
    from = omega arith;
    copied = λ a. unfold memcpy copy_bytes in ground arith;
  },
)
portions-Copied (suc rounds) is_aligned limit s e small fits apart =
    let mem' = store_registers 16 (load_registers s.mem s.from) s.to s.mem in
    let next : Copying = record {
      to = s.to + 256;
      from = s.from + 256;
      i = s.i + 256;
      mem = mem';
    } in
    let first : (b : ℕ) → mem' b ≡ memcpy s.to s.from 256 s.mem b =
      λ b. unfold memcpy in store_registers-copies 16 s.mem s.mem s.from s.to b in
    let go : ltb s.i limit ≡ true = ground arith in
    let fine : ltb (s.i + 256) (2 ^ 31) ≡ true = ground arith in
    let (s', f, c) =
      portions-Copied rounds is_aligned limit next (omega arith) small
        (λ t p. omega (arith, fits t (omega arith))) (omega arith) in
    (
      s',
      rw (go, fine, portion-copies is_aligned s.to s.from s.mem (λ t p. fits t (omega arith))) f,
      record {
        to = omega (arith, c.to);
        from = omega (arith, c.from);
        copied = λ a.
            c.copied a
            ∙ copy-copy 256 (256 * rounds) s.to s.from s.mem mem' a (omega arith) first
            ∙ ap (λ n. memcpy s.to s.from n s.mem a) (omega arith);
      },
    )

copy_rest-copies :
    (is_aligned : Bool) (to from len : ℕ) (mem : ℕ → ℕ)
    → len < 2 ^ 31
    → Fits is_aligned to from len
    → Apart to from len
    → (mem' : ℕ → ℕ) × (copy_rest is_aligned to from len mem ≡ some mem')
      × ((a : ℕ) → mem' a ≡ memcpy to from len mem a)
unfolding copy_rest
copy_rest-copies is_aligned to from len mem small fits apart =
    let start : Copying = record { to = to; from = from; i = 0; mem = mem } in
    let (s', f, c) =
      portions-Copied (len / 256) is_aligned (len - len % 256) start (omega arith) (omega arith)
        (λ t p. fits t (omega arith)) (omega arith) in
    (
      memcpy s'.to s'.from (len % 256) s'.mem,
      rw f refl,
      λ a.
          ap (λ t. memcpy t s'.from (len % 256) s'.mem a) c.to
          ∙ ap (λ t. memcpy (to + 256 * (len / 256)) t (len % 256) s'.mem a) c.from
          ∙ copy-copy (256 * (len / 256)) (len % 256) to from mem s'.mem a (omega arith) c.copied
          ∙ ap (λ n. memcpy to from n mem a) (omega arith),
    )

-- For operands that do not overlap and fewer than 2^31 bytes, `sse_memcpy` neither makes an
-- aligned access at an address that is not a multiple of 16 nor overflows its counter, and leaves
-- in every byte of the memory what `memcpy` leaves there.
pub sse_memcpy-copies :
    (to from len : ℕ) (mem : ℕ → ℕ)
    → len < 2 ^ 31
    → Apart to from len
    → (mem' : ℕ → ℕ) × (sse_memcpy to from len mem ≡ some mem')
      × ((a : ℕ) → mem' a ≡ memcpy to from len mem a)
unfolding sse_memcpy
sse_memcpy-copies to from len mem small apart = elim (Bool-cases (from % 16 == to % 16)) [
  | inr differ ↦ rw differ (copy_rest-copies false to from len mem small (λ t p. cc) apart)
  | inl alike ↦ elim (Bool-cases (from % 16 == 0)) [
    | inl at_line ↦
        rw (alike, at_line)
          (copy_rest-copies true to from len mem small (λ _ _. ground arith) apart)
    | inr inside ↦
        let left = 16 - from % 16 in
        let chunk = if ltb len left then len else left in
        let fewer : chunk ≤ len = ground arith in
        let (mem', f, c) =
          copy_rest-copies true (to + chunk) (from + chunk) (len - chunk) (memcpy to from chunk mem)
            (omega arith) (λ _ p. ground arith) (omega arith) in
        (
          mem',
          rw (alike, inside) f,
          λ a.
              c a
              ∙ copy-copy chunk (len - chunk) to from mem (memcpy to from chunk mem) a (omega arith)
                  (λ b. refl)
              ∙ ap (λ n. memcpy to from n mem a) (omega arith),
        )
  ]
]
