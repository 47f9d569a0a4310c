-- ===== src/Tests/Layouts.antt =====
-- The list of regions: instances on small buffers.
use cla_mpi.Prelude.{ℕ, ◌+◌, ◌≤◌, ◌≡◌, refl, some, pos, [], ◌∷◌, arith}
use cla_mpi.Cache.{Get, Cache}
use cla_mpi.Regions.Allocate.{allocate}
use cla_mpi.Regions.Index.{Indexed}
use cla_mpi.Regions.Layout.{extent, Layout}
use cla_mpi.Regions.Layout.Within.{Apart}
use cla_mpi.Regions.Placed.{allocate-Apart}
use cla_mpi.Tests.Table.{empty}

-- One free region of 4096 bytes, which has left the tree; the next descriptor is the seventh.
abbrev one_region : Cache ℕ
one_region = record empty {
  table_ptr =
      λ i. record (empty.table_ptr i) { get_info = record { rank = 4096; addr = 0; size = 0 } };
}

abbrev hundred : Get
hundred = record { rank = 1; addr = 200; size = 100 }

one_region-Layout : Layout one_region (0 ∷ [])
one_region-Layout = record {
  chain = (record { before = refl; start = refl; named = refl; after = refl }, tt);
  distinct = (tt, tt);
  filled = refl;
}

one_region-Indexed : Indexed one_region
one_region-Indexed = record {
  sorted = tt;
  balanced = tt;
  counted = omega arith;
  room = omega arith;
}

allocate-Apart_example :
    (e : Cache ℕ) × (allocate one_region 0 hundred 0 900 ≡ some e)
    × Apart e.table_ptr (λ j. extent (e.table_ptr j)) [] 7 (0 ∷ []) e.mem_size
    × ((e.pending 0).size ≡ pos 100)
    × ((e.pending 0).target_addr ≡ (e.table_ptr 7).offset)
    × ((e.pending 0).target_addr + 100 ≤ e.mem_size)
allocate-Apart_example =
    allocate-Apart one_region 0 hundred 0 900 [] [] one_region-Layout refl (omega arith)
      (omega arith) one_region-Indexed tt refl (λ e. omega (arith, e), tt) tt (omega arith)
      (omega arith)
