-- ===== src/Adapt.antt =====
-- src/clampi_adaptive.c: the adaptive scheme, with CL_ADAPTIVE and CL_STATS. The thresholds on the
-- quotients of two 32-bit counters are 0.1, and a rounded quotient lies on the same side of it as
-- the exact one, so the tests are on products. Printing is left out. `none` is an `exit`.
pub mod Fresh
use cla_mpi.Prelude.{
  ℕ, ◌-◌, ◌*◌, ◌/◌, ◌^◌, Bool, true, false, ◌&&◌, Option, none, some, leb, ltb, if◌then◌else◌,
}
use cla_mpi.Avl.Pool.{tree_new}
use cla_mpi.Cache.{Double, Slot, Entry, Cache, u32, u64}
use cla_mpi.Window.{align, invalidate}

-- `cl_conf_t`, less its flag.
pub record Conf : Type 0 where
  pub htsize : ℕ
  pub memsize : ℕ

-- What `aligned_alloc` and `malloc` do: whether a buffer of a size is there, and the contents that
-- new memory happens to have.
pub record Heap : Type 0 where
  pub available : ℕ → Bool
  pub bytes : ℕ → ℕ
  pub entries : ℕ → Entry
  pub stack : ℕ → ℕ
  pub slots : ℕ → Slot
  pub nodes : ℕ → ℕ

-- `toflush`
pub data Flushing : Type 0 where
  keep grow_table grow_memory : Flushing

-- `newval_ht` for an increase by a half, and for a decrease by a quarter.
abbrev pub increased : ℕ → ℕ
increased n = n * 3 / 2

abbrev pub decreased : ℕ → ℕ
decreased n = n * 3 / 4

-- The value of `CLALIGN` on an `int`, given by its bit pattern, as a 64-bit size. Division is
-- towards zero.
unfoldable pub align_int : ℕ → ℕ
unfolding align
align_int n = if ltb n (2 ^ 31) then align n else u64 (2 ^ 64 - (2 ^ 32 - n - 63) / 64 * 64)

module _ {F : Type 0} where
  -- Which test of `cl_adapt` passes first, with the new size of the hash table.
  unfoldable pub decide_flush : Cache F → Flushing × ℕ
  decide_flush c =
      let s = c.stat in
      if ltb c.getcount (10 * s.ht_evictions)
      then (grow_table, increased c.ht_entries)
      else if ltb 0 s.last_eviction_scan && ltb (10 * s.tot_eviction_sample) s.tot_eviction_scan
      then (grow_table, decreased c.ht_entries)
      else if ltb c.getcount (10 * s.sp_evictions)
      then (grow_memory, 0)
      else (keep, 0)

  -- New arrays for a hash table of another size.
  unfoldable pub resize_table : Heap → Cache F → ℕ → Cache F
  resize_table heap c n = record c {
    ht_entries = n;
    table_ptr = heap.entries;
    table = heap.slots;
    free_entries = heap.stack;
    free_idx = tree_new heap.nodes n;
  }

  -- A new buffer; a null pointer is found by the reset that follows. `none` is also the overflow of
  -- the sum in `CLALIGN`.
  unfoldable pub resize_memory : Heap → Cache F → ℕ → Option (Cache F)
  resize_memory heap c n =
      let size = align_int n in
      if leb (2 ^ 31 - 63) n && ltb n (2 ^ 31)
      then none
      else if heap.available size
      then some (record c { mem_size = size; mem = heap.bytes })
      else none

module _ (double : Double) where
  open double use {F}

  -- The cache is made anew, as the tests have decided.
  unfoldable pub adapt_to : Heap → Cache F → Flushing → ℕ → Option (Bool × Cache F)
  adapt_to heap c keep n = some (false, c)
  adapt_to heap c grow_table n = elim (invalidate double (resize_table heap c n)) [
    | none ↦ none
    | some d ↦ some (true, d)
  ]
  adapt_to heap c grow_memory n = elim (resize_memory heap c (u32 (c.mem_size * 2))) [
    | none ↦ none
    | some m ↦ elim (invalidate double m) [ none ↦ none | some d ↦ some (true, d) ]
  ]

  -- `cl_adapt(win, 0)`: whether it has flushed the cache. `newval_mem` is an `int`.
  unfoldable pub cl_adapt : Heap → Cache F → Option (Bool × Cache F)
  cl_adapt heap c = let (flush, n) = decide_flush c in adapt_to heap c flush n

  -- `cl_adapt(win, 1)`, which is `cl_reset`: the sizes of the configuration, whatever the tests
  -- say; what they say is returned.
  unfoldable pub cl_reset : Heap → Conf → Cache F → Option (Flushing × Cache F)
  cl_reset heap conf c =
      elim (resize_memory heap (resize_table heap c conf.htsize) (u32 conf.memsize)) [
        | none ↦ none
        | some m ↦ elim (invalidate double m) [
          | none ↦ none
          | some d ↦ some ((decide_flush c).0, d)
        ]
      ]
