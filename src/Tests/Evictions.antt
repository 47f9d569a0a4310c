-- ===== src/Tests/Evictions.antt =====
-- An eviction of an entry between two free regions.
use cla_mpi.Access.{Request}
use cla_mpi.Access.Stored.{Outcome, cache_get-Stored}
use cla_mpi.Tests.Gets.{chance}
use cla_mpi.Prelude.{
  ℕ, ◌+◌, ◌*◌, ◌≡◌, refl, Option, none, some, [], ◌∷◌, arith, ◌==◌, if◌then◌else◌, pos, negsuc,
}
use cla_mpi.Access.{select_region}
use cla_mpi.Avl.{leaf, node}
use cla_mpi.Regions.Selection.{Picked, select_region-Picked}
use cla_mpi.Cache.{Cache, Get, free, busy}
use cla_mpi.Regions.Allocate.{allocate}
use cla_mpi.Regions.Allocation.{allocate-Secured}
use cla_mpi.Regions.Placed.{Allocated}
use cla_mpi.Regions.{is_region, delete_region, insert_region}
use cla_mpi.Regions.Added.{Added, insert_region-Added}
use cla_mpi.Regions.Evict.{evict}
use cla_mpi.Regions.Hung.{Unhung, delete_region-Unhung}
use cla_mpi.Regions.Eviction.{Evicted, evict-Evicted}
use cla_mpi.Regions.Layout.{Layout}
use cla_mpi.Regions.Shelved.{Shelved}
use cla_mpi.Regions.Sound.{Sound}
use cla_mpi.Regions.Tied.{Tied}
use cla_mpi.Tests.Table.{empty, numbers}
use cla_mpi.Window.{new_centry, reset_data_structures}
use cla_mpi.Regions.Stock.{Stocked, new_centry-Stocked}
use cla_mpi.Regions.Restart.{reset_data_structures-Sound}
use cla_mpi.Prelude.{count}

-- A free region of 64 bytes, an entry of 128 bytes that is evicted, and a free region of 192 bytes;
-- 8 descriptors, of which 5 are on the stack, and 4 nodes, of which 2 are.
abbrev between : Cache ℕ
between = record empty {
  ht_entries = 4;
  mem_size = 384;
  table_ptr = λ i. record (empty.table_ptr i) {
    get_info = record { rank = 64 * (i + 1); addr = 0; size = 64 * (i + 1) };
    index = i;
    kind = if i == 1 then busy else free;
    tnode = some i;
    offset = if i == 0 then 0 else if i == 1 then 64 else 192;
    mprev = if i == 0 then negsuc 0 else if i == 1 then pos 0 else pos 1;
    mnext = if i == 0 then pos 1 else if i == 1 then pos 2 else negsuc 0;
  };
  free_entries = λ i. i + 3;
  next_free_entry = 4;
  free_idx = record {
    root = node 0 0 (pos 1) leaf (node 2 2 (pos 0) leaf leaf);
    free_nodes = λ i. if i == 0 then 3 else 1;
    next_free_node = pos 1;
    tot_nodes = 4;
  };
}

between-Layout : Layout between (0 ∷ 1 ∷ 2 ∷ [])
between-Layout = record {
  chain = (
    record { before = refl; start = refl; named = refl; after = refl },
    (
      record { before = refl; start = refl; named = refl; after = refl },
      (record { before = refl; start = refl; named = refl; after = refl }, tt),
    ),
  );
  distinct = (
    ((λ e. omega (arith, e)), ((λ e. omega (arith, e)), tt)),
    (((λ e. omega (arith, e)), tt), (tt, tt)),
  );
  filled = refl;
}

between-Tied : Tied between.table_ptr between.free_idx
between-Tied = record {
  pool = record { each = λ k. ground arith; bottom = omega arith };
  tied = (refl, (refl, tt));
  once = λ e. ground arith;
}

between-Shelved : Shelved between (is_region none) (0 ∷ 1 ∷ 2 ∷ [])
between-Shelved = record {
  hung = record { balanced = omega arith; counted = omega arith; links = between-Tied };
  sorted = omega arith;
  members = λ e. ground arith;
}

between-Sound : Sound between none (0 ∷ 1 ∷ 2 ∷ [])
between-Sound = record {
  layout = between-Layout;
  shelved = between-Shelved;
  selected_there = λ s e. cc;
  stocked = record {
    each = λ e. ground arith;
    filled = refl;
    few = omega arith;
    narrow = omega arith;
    named = λ e h. refl;
  };
}

evict-Evicted_example :
    (r : Cache ℕ × Option ℕ) × (evict between 1 none 100 ≡ some r)
    × Evicted between 1 none 100 (0 ∷ []) (2 ∷ []) (omega arith) r
evict-Evicted_example =
    evict-Evicted between 1 none 100 (0 ∷ []) (2 ∷ []) (omega arith) between-Sound (λ s e. cc)
      (omega arith) refl

-- One free region of 384 bytes, which is selected; 7 descriptors are on the stack, and all 4 nodes.
abbrev alone : Cache ℕ
alone = record between {
  table_ptr = λ i. record (empty.table_ptr i) {
    get_info = record { rank = 384; addr = 0; size = 0 };
    index = i;
    tnode = some 0;
  };
  free_entries = λ i. i + 1;
  next_free_entry = 6;
  free_idx = record { root = leaf; free_nodes = λ i. i; next_free_node = pos 3; tot_nodes = 4 };
}

alone-Tied : Tied alone.table_ptr alone.free_idx
alone-Tied = record {
  pool = record { each = λ k. ground arith; bottom = omega arith };
  tied = tt;
  once = λ e. ground arith;
}

alone-Shelved : Shelved alone (is_region (some 0)) (0 ∷ [])
alone-Shelved = record {
  hung = record { balanced = tt; counted = omega arith; links = alone-Tied };
  sorted = tt;
  members = λ e. ground arith;
}

alone-Layout : Layout alone (0 ∷ [])
alone-Layout = record {
  chain = (record { before = refl; start = refl; named = refl; after = refl }, tt);
  distinct = (tt, tt);
  filled = refl;
}

alone-Sound : Sound alone (some 0) (0 ∷ [])
alone-Sound = record {
  layout = alone-Layout;
  shelved = alone-Shelved;
  selected_there = λ s e. (refl, ground (arith, e));
  stocked = record {
    each = λ e. ground arith;
    filled = refl;
    few = omega arith;
    narrow = omega arith;
    named = λ e h. refl;
  };
}

abbrev hundred : Get
hundred = record { rank = 1; addr = 200; size = 100 }

allocate-Secured_example :
    (e : Cache ℕ) × (allocate alone 0 hundred 0 900 ≡ some e)
    × Allocated alone e hundred 900 [] 7 (0 ∷ [])
    × Sound e none (7 ∷ 0 ∷ [])
allocate-Secured_example =
    allocate-Secured alone 0 hundred 0 900 [] [] alone-Sound (omega arith) (omega arith)
      (omega arith) (omega arith) (omega arith)

select_region-Picked_example :
    (d : Cache ℕ) × (selected : Option ℕ) × (select_region between 100 ≡ some (d, selected))
    × Picked between 100 (0 ∷ 1 ∷ 2 ∷ []) between-Sound (omega arith) d selected
select_region-Picked_example =
    select_region-Picked between 100 (0 ∷ 1 ∷ 2 ∷ []) between-Sound (omega arith)

delete_region-Unhung_example :
    (d : Cache ℕ) × (delete_region between 2 ≡ some d) × Unhung between d 2
delete_region-Unhung_example = delete_region-Unhung between 2 between-Shelved.hung (omega arith)

insert_region-Added_example : (d : Cache ℕ) × (insert_region between 5 ≡ some d) × Added between d 5
insert_region-Added_example =
    insert_region-Added between 5 between-Shelved.hung (omega arith) (omega arith) (omega arith)

new_centry-Stocked_example :
    (count (new_centry between).0 (0 ∷ 1 ∷ 2 ∷ []) ≡ 0)
    × Stocked (new_centry between).1 ((new_centry between).0 ∷ 0 ∷ 1 ∷ 2 ∷ [])
new_centry-Stocked_example =
    new_centry-Stocked between 0 (1 ∷ 2 ∷ []) (omega arith) between-Sound.stocked

reset_data_structures-Sound_example :
    (d : Cache ℕ) × (reset_data_structures numbers empty ≡ some d)
    × (d.mem_size ≡ 4096)
    × Sound d none (0 ∷ [])
reset_data_structures-Sound_example =
    reset_data_structures-Sound numbers empty (omega arith) (omega arith) (omega arith)
      (omega arith)

-- A get of 100 bytes, for which the last region is split.
cache_get-Stored_example :
    (d : Cache ℕ) × (r : ℕ) × (select_region between 100 ≡ some (d, some r))
    × Outcome numbers chance hundred 900 between
        (0 ∷ 1 ∷ 2 ∷ [])
        between-Sound
        (omega arith)
        (omega arith)
        (omega arith)
        (omega arith)
        (omega arith)
        d
        r
cache_get-Stored_example =
    cache_get-Stored numbers chance hundred 900 between (0 ∷ 1 ∷ 2 ∷ []) between-Sound (omega arith)
      (omega arith) (omega arith) (omega arith) (omega arith) 2 refl (omega arith) (omega arith)

-- The later get, of the same hundred bytes, into another place.
abbrev again : Request
again = record {
  origin_addr = 5000;
  origin_count = 100;
  origin_datatype = 1;
  target_rank = 1;
  target_disp = 200;
  target_count = 100;
  target_datatype = 1;
}
