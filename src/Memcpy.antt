-- ===== src/Memcpy.antt =====
-- src/utils.c: `sse_memcpy`, the MEMCPY of the library. Both operands lie in one memory. An address
-- is a number that does not wrap around, since the operands are objects of the program. `none` is the
-- fault of an aligned access at an address that is not a multiple of 16, or the overflow of `int i`.
pub mod Copies
use cla_mpi.Prelude.{
  ℕ, zero, suc, ◌+◌, ◌-◌, ◌*◌, ◌/◌, ◌%◌, ◌^◌, Bool, true, false, ◌&&◌, ◌||◌, not, Option, none,
  some, ltb, ◌==◌, if◌then◌else◌, ◌>>=◌,
}
use cla_mpi.Flush.{copy_bytes}

-- `memcpy(to, from, n)` in one memory.
unfoldable pub memcpy : ℕ → ℕ → ℕ → (ℕ → ℕ) → ℕ → ℕ
memcpy to from n mem = copy_bytes n mem from mem to

-- The sixteen loads of a portion: byte `k` of register `r`.
unfoldable pub load_registers : (ℕ → ℕ) → ℕ → ℕ → ℕ → ℕ
load_registers mem from r k = mem (from + 16 * r + k)

-- The stores of the registers under `n`.
unfoldable pub store_registers : ℕ → (ℕ → ℕ → ℕ) → ℕ → (ℕ → ℕ) → ℕ → ℕ
store_registers zero registers to mem = mem
store_registers (suc n) registers to mem =
    copy_bytes 16 (registers n) 0 (store_registers n registers to mem) (to + 16 * n)

-- A portion of 256 bytes, by `movaps` or by `movups`.
unfoldable pub portion : Bool → ℕ → ℕ → (ℕ → ℕ) → Option (ℕ → ℕ)
portion is_aligned to from mem =
    if is_aligned && not (from % 16 == 0 && to % 16 == 0)
    then none
    else some (store_registers 16 (load_registers mem from) to mem)

-- The variables of a copy.
pub record Copying : Type 0 where
  pub to : ℕ
  pub from : ℕ
  pub i : ℕ
  pub mem : ℕ → ℕ

-- `for (i = 0; i < (len & ~0xff); i += 256)`, with the rounds that are left.
unfoldable pub portions : ℕ → Bool → ℕ → Copying → Option Copying
portions zero is_aligned limit s = if ltb s.i limit then none else some s
portions (suc rounds) is_aligned limit s =
    let rest : Option Copying = portion is_aligned s.to s.from s.mem >>= (λ m.
      portions rounds is_aligned limit
        (record { to = s.to + 256; from = s.from + 256; i = s.i + 256; mem = m })) in
    if ltb s.i limit then (if ltb (s.i + 256) (2 ^ 31) then rest else none) else some s

-- From a loop on, with the trailer.
unfoldable pub copy_rest : Bool → ℕ → ℕ → ℕ → (ℕ → ℕ) → Option (ℕ → ℕ)
copy_rest is_aligned to from len mem = do
  s ←
      portions (len / 256) is_aligned (len - len % 256)
        (record { to = to; from = from; i = 0; mem = mem })
  some (memcpy s.to s.from (len % 256) s.mem)

-- `sse_memcpy`. The low four bits of the operands are equal, or the copy is unaligned.
unfoldable pub sse_memcpy : ℕ → ℕ → ℕ → (ℕ → ℕ) → Option (ℕ → ℕ)
sse_memcpy to from len mem =
    if not (from % 16 == to % 16)
    then copy_rest false to from len mem
    else if from % 16 == 0
    then copy_rest true to from len mem
    else (let left = 16 - from % 16 in
        let chunk = if ltb len left then len else left in
        copy_rest true (to + chunk) (from + chunk) (len - chunk) (memcpy to from chunk mem))
