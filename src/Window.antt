-- ===== src/Window.antt =====
-- src/clampi_win.c, src/clampi_invalidate.c: a window's cache, its initial state and its reset, and
-- the macros on the descriptors of src/clampi_internal.h. `none` is `exit`.
pub mod Fresh
use cla_mpi.Prelude.{
  ℕ, zero, suc, ◌+◌, ◌-◌, ◌*◌, ◌/◌, ◌^◌, Option, none, some, ℤ, sub_ℕ, ltb, if◌then◌else◌, update,
}
use cla_mpi.Avl.Pool.{AvlTree, tree_empty}
use cla_mpi.Avl.Insert.{tree_insert}
use cla_mpi.Cache.{Double, Slot, free, Entry, size_of, set_size, Stats, Cache, u32, no_entry}

-- `CLALIGN` with `DIV_ROUND_UP`, on 64-bit sizes.
unfoldable pub align : ℕ → ℕ
align x = (x + 64 - 1) / 64 * 64

-- `free_entry_comp`, on the sizes of two descriptors.
unfoldable pub free_entry_comp : (ℕ → Entry) → ℕ → ℕ → ℤ
free_entry_comp table a b =
    let va = size_of (table a) in
    let vb = size_of (table b) in sub_ℕ (if ltb vb va then 1 else 0) (if ltb va vb then 1 else 0)

-- `cs->tnode = ct->tnode` in `free_entry_replace`.
unfoldable pub free_entry_replace : (ℕ → Entry) → ℕ → ℕ → ℕ → Entry
free_entry_replace table target source =
    update table source (record (table source) { tnode = (table target).tnode })

-- `for (i = from; i < from + n; i++) table[i].lasthit = 0`
unfoldable pub clear_slots : ℕ → ℕ → (ℕ → Slot) → ℕ → Slot
clear_slots zero i table = table
clear_slots (suc n) i table =
    clear_slots n (i + 1) (update table i (record (table i) { lasthit = 0 }))

-- The loop that resets the descriptors `from`, …, and puts them on the stack.
unfoldable pub reset_entries : ℕ → ℕ → (ℕ → Entry) → ℕ → Entry
reset_entries zero i table = table
reset_entries (suc n) i table =
    reset_entries n (i + 1)
      (update table i (record (table i) { index = i; mprev = no_entry; mnext = no_entry }))

unfoldable pub reset_stack : ℕ → ℕ → (ℕ → ℕ) → ℕ → ℕ
reset_stack zero i stack = stack
reset_stack (suc n) i stack = reset_stack n (i + 1) (update stack (i - 1) i)

abbrev pub no_stats : Stats
no_stats = record {
  hits = 0;
  failed = 0;
  ht_evictions = 0;
  sp_evictions = 0;
  evicted_size = 0;
  cached = 0;
  locals = 0;
  last_eviction_scan = 0;
  last_eviction_sample = 0;
  tot_eviction_scan = 0;
  tot_eviction_sample = 0;
  last_ht_scan = 0;
  total_data = 0;
}

-- The first descriptor, as one region of the whole buffer.
unfoldable pub whole_region : Entry → ℕ → Entry
whole_region e n = record (set_size e n) {
  kind = free;
  offset = 0;
  index = 0;
  mprev = no_entry;
  mnext = no_entry;
}

module _ (double : Double) where
  open double use {F, of_ℕ}

  -- The descriptors after the loop, with the first one as the whole buffer.
  unfoldable pub reset_table : Cache F → ℕ → Entry
  reset_table c =
      let reset = reset_entries (c.ht_entries * 2 - 1) 1 c.table_ptr in
      update reset 0 (whole_region (reset 0) c.mem_size)

  -- The cache after `TABLEENTRY(cache, 0)->tnode = Tree_Insert(…)`, with its result.
  unfoldable pub emptied : Cache F → ℕ → AvlTree ℕ → Cache F
  emptied c i t =
      let n = c.ht_entries in
      let table = reset_table c in
      record c {
        free_idx = t;
        penptr = 0;
        getcount = 0;
        mms = of_ℕ 0;
        table_size = 0;
        table = clear_slots n 0 c.table;
        table_ptr = update table 0 (record (table 0) { tnode = some i });
        free_entries = reset_stack (n * 2 - 1) 1 c.free_entries;
        next_free_entry = u32 (n * 2 + 2 ^ 32 - 2);
        stat = no_stats;
      }

  -- `reset_data_structures`, after the test that the buffer is there. The generator is seeded
  -- again, which shows in the numbers that later calls draw.
  unfoldable pub reset_data_structures : Cache F → Option (Cache F)
  reset_data_structures c =
      elim (tree_insert (free_entry_comp (reset_table c)) (tree_empty c.free_idx) 0) [
        | none ↦ none
        | some (i, t) ↦ some (emptied c i t)
      ]

  -- `CMPI_Win_invalidate`
  unfoldable pub invalidate : Cache F → Option (Cache F)
  invalidate c = reset_data_structures c

module _ {F : Type 0} where
  -- `FREE_CENTRY`
  unfoldable pub free_centry : Cache F → ℕ → Cache F
  free_centry c e =
      let top = u32 (c.next_free_entry + 1) in
      record c {
        free_entries = update c.free_entries top (c.table_ptr e).index;
        next_free_entry = top;
      }

  -- `NEW_CENTRY`: its assertion compares an unsigned number with 0 and never fails.
  unfoldable pub new_centry : Cache F → ℕ × Cache F
  new_centry c = (
    c.free_entries c.next_free_entry,
    record c { next_free_entry = u32 (c.next_free_entry + 2 ^ 32 - 1) },
  )

  -- `TABLEENTRY(cache, i)->… = …`
  unfoldable pub set_entry : Cache F → ℕ → (Entry → Entry) → Cache F
  set_entry c i f = record c { table_ptr = update c.table_ptr i (f (c.table_ptr i)) }
