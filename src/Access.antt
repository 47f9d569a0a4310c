-- ===== src/Access.antt =====
-- src/clampi_get.c: `CMPI_Get`, with CL_STATS and CL_ADAPTIVE. The state is the cache, the memory of
-- the program, and the gets that have been handed to the MPI library, last one first. The numbers
-- that `RAND` draws and what allocations give are arguments, and the extent of a datatype is a
-- function of it. `none` is an `exit`, a failed assertion, or a loop that does not end.
pub mod Hit
pub mod Served
pub mod Stored
pub mod Returned
use cla_mpi.Prelude.{
  ◌>>=◌, ℕ, ◌+◌, ◌*◌, ◌/◌, ◌%◌, Bool, true, false, Option, none, some, List, ◌∷◌, ltb, ltb_ℤ,
  if◌then◌else◌, pos, negsuc,
}
use cla_mpi.Cache.{Double, Get, size_of, Cache, u32, u64}
use cla_mpi.HashTable.{ht_lookup, ht_insert_check, tables}
use cla_mpi.Flush.{mem_copy}
use cla_mpi.Adapt.{Heap, cl_adapt}
use cla_mpi.Victim.{select_victim}
use cla_mpi.Regions.{find_region, delete_region, is_free}
use cla_mpi.Regions.Evict.{evict}
use cla_mpi.Regions.Allocate.{allocate}

-- The arguments of `CMPI_Get`, less the window.
pub record Request : Type 0 where
  pub origin_addr : ℕ
  pub origin_count : ℕ
  pub origin_datatype : ℕ
  pub target_rank : ℕ
  pub target_disp : ℕ
  pub target_count : ℕ
  pub target_datatype : ℕ

-- What `CMPI_Get` returns.
pub data Code : Type 0 where
  hit cached cached_r_ht cached_r_space not_cached in_flight flushed : Code
  not_cached_space not_cached_ht : Code

pub record World (F : Type 0) : Type 0 where
  pub cache : Cache F
  pub memory : ℕ → ℕ
  pub gets : List Request

-- The choices that are not the program's: two numbers drawn, and new memory.
pub record Chance : Type 0 where
  pub rand_slot : ℕ
  pub rand_table : ℕ
  pub heap : Heap

-- What the tests for conflicts and space decide: to go on with a victim or with none, or to stop
-- since the adaptive scheme has flushed the cache.
pub data Choice (F : Type 0) : Type 0 where
  proceed : Cache F → (victim : Option ℕ) → (kind : Code) → Choice F
  stop : Cache F → Choice F

-- `HT_ENTRIES_PER_CACHELINE`: 64 bytes, and 12 for a `cl_index_t`.
abbrev pub entries_per_line : ℕ
entries_per_line = 64 / 12

-- The key of a get: `ht_lookup` and the other functions of the table take `int` arguments, so that
-- a displacement loses its high bits.
unfoldable pub key_of : Request → ℕ → Get
key_of q size = record { rank = u32 q.target_rank; addr = u32 q.target_disp; size = size }

abbrev pub no_victim : Option ℕ → Bool
no_victim none = true
no_victim (some v) = false

-- `assert`, which does not return where its condition fails.
abbrev pub assert : Bool → Option (Unit {0})
assert true = some tt
assert false = none

module _ {F : Type 0} where
  -- `free_region`, taken out of the tree.
  unfoldable pub select_region : Cache F → ℕ → Option (Cache F × Option ℕ)
  select_region c size = elim (find_region c size) [
    | none ↦ some (c, none)
    | some r ↦ do d ← delete_region c r; some (d, some r)
  ]

  -- The condition of the assertion after it: there is no `free_region`, or its type is FREE.
  abbrev pub selected_is_free : Cache F → Option ℕ → Bool
  selected_is_free c none = true
  selected_is_free c (some r) = is_free (c.table_ptr r)

  abbrev pub count_ht_eviction : Cache F → Cache F
  count_ht_eviction c = record c {
    stat = record c.stat { ht_evictions = u32 (c.stat.ht_evictions + 1) };
  }

  abbrev pub count_sp_eviction : Cache F → Cache F
  count_sp_eviction c = record c {
    stat = record c.stat { sp_evictions = u32 (c.stat.sp_evictions + 1) };
  }

  abbrev pub count_scan : Cache F → ℕ → ℕ → Cache F
  count_scan c i n = record c {
    stat = record c.stat {
      last_eviction_scan = u32 i;
      last_eviction_sample = u32 n;
      tot_eviction_scan = u32 (c.stat.tot_eviction_scan + i);
      tot_eviction_sample = u32 (c.stat.tot_eviction_sample + n);
    };
  }

  -- The end of a get that finds no space: the code depends on what was evicted.
  unfoldable pub fail_get : Cache F → Code → Code × Cache F
  fail_get c kind = (
    elim kind [ cached_r_space ↦ not_cached_space | _ ↦ not_cached_ht ],
    record c { stat = record c.stat { failed = u32 (c.stat.failed + 1) } },
  )

  -- The get is handed to the MPI library, and its data counted.
  unfoldable pub issue : Request → ℕ → World F → Cache F → World F
  issue q size w c = record w {
    cache = record c { stat = record c.stat { total_data = u64 (c.stat.total_data + size) } };
    gets = q ∷ w.gets;
  }

module _ (double : Double) where
  open double use {F, of_ℕ, alpha, add, sub, mul}

  -- The counts at the start: the number of gets, and the mean size.
  unfoldable pub count_get : Cache F → ℕ → Cache F
  count_get c size = record c {
    getcount = u32 (c.getcount + 1);
    mms = add (mul alpha c.mms) (mul (sub (of_ℕ 1) alpha) (of_ℕ size));
  }

  -- A conflict in the hash table comes before a lack of space.
  unfoldable pub choose_victim : Chance → ℕ → Get → ℕ → Cache F → Option ℕ → Option (Choice F)
  choose_victim chance idx key start_table c selected =
      let (checked, htvictim) = ht_insert_check double c key start_table in
      elim htvictim [
        | pos v ↦ do
          (done, d) ← cl_adapt double chance.heap (count_ht_eviction checked)
          some (if done then stop d else proceed d (some v) cached_r_ht)
        | negsuc _ ↦ elim selected [
          | some r ↦ some (proceed checked none cached)
          | none ↦ do
            s ← select_victim double (count_sp_eviction checked) idx
            (done, d) ← cl_adapt double chance.heap (count_scan (count_sp_eviction checked) s.i s.c)
            elim s.ivictim [
              | pos v ↦ some (if done then stop d else proceed d (some v) cached_r_space)
              | negsuc _ ↦ if done then some (stop d) else none
            ]
        ]
      ]

  -- From the eviction on.
  unfoldable pub place : Get → ℕ → ℕ → Option ℕ → Choice F → Option (Code × Cache F)
  place key start_table origin selected (stop c) = some (flushed, c)
  place key start_table origin selected (proceed c victim kind) = do
    (d, region) ← elim victim [ none ↦ some (c, selected) | some v ↦ evict c v selected key.size ]
    elim region [
      | none ↦ some (fail_get d kind)
      | some r ↦
          if ltb (size_of (d.table_ptr r)) key.size
          then some (fail_get d kind)
          else do e ← allocate d r key start_table origin; some (kind, e)
    ]

  -- A get that is not in the table and fits into the buffer.
  unfoldable pub cache_get : Chance → Get → ℕ → Cache F → Option (Code × Cache F)
  cache_get chance key origin c = do
    (d, selected) ← select_region c key.size
    _ ← assert (selected_is_free d selected)
    let idx = chance.rand_slot % d.ht_entries / entries_per_line * entries_per_line
    let start_table = chance.rand_table % tables
    choice ← choose_victim chance idx key start_table d selected
    place key start_table origin selected choice

  -- After the lookup: a hit, a get whose data is in flight, or a miss.
  unfoldable pub respond :
      Chance → Request → ℕ → World F → Cache F → Option ℕ → Option (Code × World F)
  respond chance q size w c (some e) =
      let entry = c.table_ptr e in
      if ltb_ℤ entry.pending (pos 0)
      then (do
        m ← mem_copy entry.get_info.size c.mem entry.offset w.memory q.origin_addr
        some (
          hit,
          record w {
            cache = record c { stat = record c.stat { hits = u32 (c.stat.hits + 1) } };
            memory = m;
          },
        ))
      else some (in_flight, issue q size w c)
  respond chance q size w c none =
      let issued = issue q size w c in
      if ltb c.mem_size size then some (not_cached, issued) else do
        (code, d) ← cache_get chance (key_of q size) q.origin_addr issued.cache
        some (code, record issued { cache = d })

  -- `CMPI_Get`
  unfoldable pub get : (ℕ → ℕ) → Chance → Request → World F → Option (Code × World F)
  get extent chance q w =
      let size = u32 (extent q.origin_datatype * q.origin_count) in
      let (c, el) = ht_lookup (count_get w.cache size) (key_of q size) in
      respond chance q size w c el
