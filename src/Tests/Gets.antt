-- ===== src/Tests/Gets.antt =====
-- Gets of a cache with one entry: one that hits, and one that is larger than the buffer.
use cla_mpi.Prelude.{ℕ, ◌≡◌, refl, ◌⊎◌, true, some, [], arith, ltb_ℤ, pos}
use cla_mpi.HashTable.{lookup_from, ht_lookup, insert_rest, insert_loop, place_entry}
use cla_mpi.Adapt.{cl_adapt}
use cla_mpi.Adapt.Fresh.{Adapted, cl_adapt-Adapted}
use cla_mpi.Prelude.{Bool}
use cla_mpi.Cache.{Cache}
use cla_mpi.Access.{Request, hit, not_cached, World, Chance, key_of, count_get, issue, respond, get}
use cla_mpi.Access.Hit.{Answered, Complete, Issued, get-Hit}
use cla_mpi.Access.Served.{get-Served}
use cla_mpi.Tests.Table.{numbers, empty, one, empty-InPlace, empty-Inserted}

abbrev pub chance : Chance
chance = record {
  rand_slot = 17;
  rand_table = 6;
  heap = record {
    available = λ _. true;
    bytes = λ _. 0;
    entries = empty.table_ptr;
    stack = λ i. i;
    slots = empty.table;
    nodes = λ i. i;
  };
}

abbrev small : Request
small = record {
  origin_addr = 1000;
  origin_count = 1;
  origin_datatype = 8;
  target_rank = 1;
  target_disp = 64;
  target_count = 1;
  target_datatype = 8;
}

abbrev big : Request
big = record small { origin_count = 1024 }

abbrev before : World ℕ
before = record { cache = one; memory = λ _. 0; gets = [] }

abbrev at_first : World ℕ
at_first = record { cache = empty; memory = λ _. 0; gets = [] }

one_complete : (i : ℕ) → ltb_ℤ (one.table_ptr i).pending (pos 0) ≡ true
unfolding insert_rest insert_loop place_entry
one_complete i = ground arith

get-Hit_example :
    (w' : World ℕ) × (d : ℕ) × (get numbers (λ n. n) chance small before ≡ some (hit, w'))
    × Complete numbers small 8 d one
    × Answered numbers small 8 d before w'
unfolding key_of
get-Hit_example =
    get-Hit numbers (λ n. n) small before chance 3 (omega arith) empty-Inserted.in_place
      (λ i _ _. one_complete i) empty-Inserted.inserted empty-Inserted.inserted_key

abbrev after : World ℕ
after = issue big 8192 at_first (ht_lookup (count_get numbers empty 8192) (key_of big 8192)).0

too_big : get numbers (λ n. n) chance big at_first ≡ some (not_cached, after)
unfolding get respond ht_lookup lookup_from count_get key_of
too_big = refl

get-Served_example :
    ((e : ℕ) × Complete numbers big 8192 e empty
      × (not_cached ≡ hit)
      × Answered numbers big 8192 e at_first after)
    ⊎ Issued numbers big at_first after
get-Served_example =
    get-Served numbers (λ n. n) chance big at_first not_cached after empty-InPlace too_big

cl_adapt-Adapted_example :
    (flushed : Bool) × (d : Cache ℕ) × (cl_adapt numbers chance.heap empty ≡ some (flushed, d))
    × Adapted numbers empty flushed d
cl_adapt-Adapted_example =
    cl_adapt-Adapted numbers chance.heap empty (omega arith) (omega arith) (omega arith)
      (omega arith) refl
