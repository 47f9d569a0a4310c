-- ===== src/Cache.antt =====
-- src/clampi_internal.h and src/clampi.h: the cache descriptor of a window and what it is made of.
-- An array is a function of its index; a pointer into the table of descriptors is an index of it.
-- The machine is little-endian with 32-bit `int`, as the layout of the union in `cl_entry_t` needs.
use Prim.Native.Nat.{ℕ}
use cla_mpi.Prelude.{
  ◌+◌, ◌-◌, ◌*◌, ◌/◌, ◌%◌, ◌^◌, ◌<◌, ◌≡◌, refl, Bool, Option, arith, ltb, if◌then◌else◌, ℤ, pos,
  negsuc,
}
use cla_mpi.Avl.Pool.{AvlTree}

-- The floating-point numbers of the machine, with the operations of the code and the literal 0.4.
pub record Double : Type 1 where
  pub F : Type 0
  pub of_ℕ : ℕ → F
  pub alpha : F
  pub add : F → F → F
  pub sub : F → F → F
  pub mul : F → F → F
  pub div : F → F → F
  pub opp : F → F
  pub lt : F → F → Bool
  pub le : F → F → Bool

-- `cl_get_t`: `rank` and `addr` are the bit patterns of 32-bit integers.
pub record Get : Type 0 where
  pub rank : ℕ
  pub addr : ℕ
  pub size : ℕ

-- `cl_index_t`: an entry of the hash table, empty if `lasthit` is 0.
pub record Slot : Type 0 where
  pub lasthit : ℕ
  pub index : ℕ
  pub penalty : ℕ

-- `type`: FREE is 0 and BUSY is 1.
pub data Kind : Type 0 where
  free busy : Kind

-- `cl_entry_t`. Its first field is a union: the 64-bit `size` of a free region lies over `rank`
-- and `addr` of `get_info`, so that a write of either destroys the other. `tnode` is the index
-- of a node of the tree, `none` the null pointer.
pub record Entry : Type 0 where
  pub get_info : Get
  pub kind : Kind
  pub htindex : ℕ
  pub index : ℕ
  pub tnode : Option ℕ
  pub mprev : ℤ
  pub mnext : ℤ
  pub offset : ℕ
  pub pending : ℤ

-- `e->size`, the other reading of the union.
abbrev pub size_of : Entry → ℕ
size_of e = e.get_info.rank + e.get_info.addr * 2 ^ 32

-- `e->size = n`
abbrev pub set_size : Entry → ℕ → Entry
set_size e n = record e {
  get_info = record e.get_info { rank = n % 2 ^ 32; addr = n / 2 ^ 32 % 2 ^ 32 };
}

-- `cl_pending_t`; the target is an offset in the buffer of the cache, and the size an `int`.
pub record Pending : Type 0 where
  pub target_addr : ℕ
  pub origin_addr : ℕ
  pub entry : ℕ
  pub size : ℤ

-- `cl_stats`
pub record Stats : Type 0 where
  pub hits : ℕ
  pub failed : ℕ
  pub ht_evictions : ℕ
  pub sp_evictions : ℕ
  pub evicted_size : ℕ
  pub cached : ℕ
  pub locals : ℕ
  pub last_eviction_scan : ℕ
  pub last_eviction_sample : ℕ
  pub tot_eviction_scan : ℕ
  pub tot_eviction_sample : ℕ
  pub last_ht_scan : ℕ
  pub total_data : ℕ

-- `cl_cache_t`; `mem` holds the bytes of the buffer.
pub record Cache (F : Type 0) : Type 0 where
  pub mem : ℕ → ℕ
  pub mms : F
  pub getcount : ℕ
  pub table_ptr : ℕ → Entry
  pub mode : ℕ
  pub free_entries : ℕ → ℕ
  pub next_free_entry : ℕ
  pub free_idx : AvlTree ℕ
  pub ht_entries : ℕ
  pub mem_size : ℕ
  pub table : ℕ → Slot
  pub table_size : ℕ
  pub penptr : ℕ
  pub pending : ℕ → Pending
  pub stat : Stats

-- The conversions of C: to `uint16_t`, `uint32_t` and `uint64_t`, and of an `int` to `uint64_t`.
abbrev pub u16 : ℕ → ℕ
u16 n = n % 2 ^ 16

abbrev pub u32 : ℕ → ℕ
u32 n = n % 2 ^ 32

abbrev pub u64 : ℕ → ℕ
u64 n = n % 2 ^ 64

abbrev pub sign_extend : ℕ → ℕ
sign_extend n = if ltb n (2 ^ 31) then n else n + 2 ^ 64 - 2 ^ 32

-- The conversion of a `uint32_t` to an `int`, and of an `int` to a `size_t`.
abbrev pub int_of : ℕ → ℤ
int_of n = if ltb (u32 n) (2 ^ 31) then pos (u32 n) else negsuc (2 ^ 32 - 1 - u32 n)

abbrev pub to_size : ℤ → ℕ
to_size (pos n) = n
to_size (negsuc n) = 2 ^ 64 - 1 - n

pub int_of-pos : (n : ℕ) → n < 2 ^ 31 → int_of n ≡ pos n
int_of-pos n h = ground arith

-- `NOENTRY`
abbrev pub no_entry : ℤ
no_entry = negsuc 0

-- The union holds a size of 64 bits.
pub size_of-set_size : (e : Entry) (n : ℕ) → n < 2 ^ 64 → size_of (set_size e n) ≡ n
size_of-set_size e n h = omega arith

-- A size that is written leaves the `size` of `get_info` as it was.
pub get_size-set_size : (e : Entry) (n : ℕ) → (set_size e n).get_info.size ≡ e.get_info.size
get_size-set_size e n = refl

module _ (double : Double) where
  open double use {F, of_ℕ, sub, mul, div, opp, lt}

  -- `ABS`
  abbrev abs : F → F
  abs a = if lt a (of_ℕ 0) then opp a else a

  -- `SCORE`
  unfoldable pub score : Cache F → ℕ → ℕ → F
  score c hit penalty =
      mul (div (abs (sub c.mms (of_ℕ penalty))) c.mms) (div (of_ℕ hit) (of_ℕ c.getcount))
