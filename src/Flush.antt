-- ===== src/Flush.antt =====
-- src/clampi_win_flush.c: the copies that wait for a flush. A copy goes from the memory of the
-- program, where the data of a get has arrived, to the buffer of the cache.
pub mod Copied
use cla_mpi.Prelude.{
  ℕ, zero, suc, ◌+◌, ◌-◌, ◌&&◌, Option, some, ltb, leb, ◌==◌, ◌==ℤ◌, if◌then◌else◌, pos, negsuc,
  ◌%◌, ◌^◌, not, none, ◌>>=◌,
}
use cla_mpi.Cache.{Double, Cache, to_size}
use cla_mpi.Window.{set_entry, invalidate}

-- `memcpy(to, from, n)` between two memories.
unfoldable pub copy_bytes : ℕ → (ℕ → ℕ) → ℕ → (ℕ → ℕ) → ℕ → ℕ → ℕ
copy_bytes n source from target to a =
    if leb to a && ltb a (to + n) then source (from + (a - to)) else target a

-- MEMCPY, which is `sse_memcpy`, between the memory of the program and the buffer, which starts at a
-- cache line, so that an offset in it has the alignment of its address. `none` is the overflow of the
-- counter, which runs over the bytes that are left: where both addresses are equally far from a
-- multiple of 16, the bytes before it are copied first.
unfoldable pub mem_copy : ℕ → (ℕ → ℕ) → ℕ → (ℕ → ℕ) → ℕ → Option (ℕ → ℕ)
mem_copy n source from target to =
    let left = if to % 16 == from % 16 && not (from % 16 == 0) then n - (16 - from % 16) else n in
    if ltb left (2 ^ 31) then some (copy_bytes n source from target to) else none

module _ {F : Type 0} where
  -- One round: the copy is made unless its entry has been evicted or used again since.
  unfoldable pub flush_round : (ℕ → ℕ) → ℕ → Cache F → Option (Cache F)
  flush_round memory curr c =
      let p = c.pending curr in
      if (c.table_ptr p.entry).pending ==ℤ pos curr
      then (let d = set_entry c p.entry (λ e. record e { pending = negsuc 0 }) in
          do
            m ← mem_copy (to_size p.size) memory p.origin_addr d.mem p.target_addr
            some (record d { mem = m }))
      else some c

  -- `while (curr>=bottom)`, from `curr = n - 1` down to 0.
  unfoldable pub flush_loop : ℕ → (ℕ → ℕ) → Cache F → Option (Cache F)
  flush_loop zero memory c = some c
  flush_loop (suc curr) memory c = do d ← flush_round memory curr c; flush_loop curr memory d

  unfoldable pub flush_pending : (ℕ → ℕ) → Cache F → Option (Cache F)
  flush_pending memory c = do d ← flush_loop c.penptr memory c; some (record d { penptr = 0 })

module _ (double : Double) where
  open double use {F}

  -- `CMPI_Win_flush` after the flush of the MPI library, at which the gets have been completed.
  -- The mode is compared with the character `1`.
  unfoldable pub win_flush : (ℕ → ℕ) → Cache F → Option (Cache F)
  win_flush memory c = do
    d ← flush_pending memory c
    if d.mode == b'1' then invalidate double d else some d
