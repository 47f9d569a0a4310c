-- ===== src/Statistics/Entries.antt =====
-- `cl_get_stats`: the number of entries that it reports.
use cla_mpi.Prelude.{ℕ, ◌+◌, ◌*◌, ◌^◌, ◌<◌, ◌≡◌, arith, pos, ◌∙◌, ap}
use cla_mpi.Avl.{size}
use cla_mpi.Avl.Pool.{IsCounted, count_nodes-size}
use cla_mpi.Cache.{Double, Cache}
use cla_mpi.Statistics.{StatsFull, count_entries, get_stats}

count_entries_lem :
    (htsize next_free free_regions busy : ℕ)
    → busy + free_regions + (next_free + 1) ≡ htsize * 2
    → htsize < 2 ^ 30
    → count_entries htsize next_free (pos free_regions) ≡ pos (busy + 1)
unfolding count_entries
count_entries_lem htsize next_free free_regions busy h k = ground arith

module _ (double : Double) where
  open double use {F}

  -- Where the nodes and free nodes make up the pool of the tree, every descriptor is on the stack,
  -- is a region of the tree, or is one of a number of entries, and there are fewer than 2^30
  -- slots: `cl_get_stats` reports the number of regions of the tree, and one entry more than there
  -- are.
  pub get_stats-overcounts :
      (c : Cache F) (stats : StatsFull F) (busy : ℕ)
      → IsCounted c.free_idx
      → busy + size c.free_idx.root + (c.next_free_entry + 1) ≡ c.ht_entries * 2
      → c.ht_entries < 2 ^ 30
      → let r = get_stats double c stats in
        (r.free_regions ≡ pos (size c.free_idx.root)) × (r.entries ≡ pos (busy + 1))
  unfolding get_stats
  get_stats-overcounts c stats busy n h k =
      let free = count_nodes-size c.free_idx n in
      (
        free,
        ap (count_entries c.ht_entries c.next_free_entry) free
            ∙ count_entries_lem c.ht_entries c.next_free_entry (size c.free_idx.root) busy h k,
      )
