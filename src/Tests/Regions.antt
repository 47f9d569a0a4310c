-- ===== src/Tests/Regions.antt =====
-- Instances of the theorems on whole caches: small caches with a few entries.
use cla_mpi.Prelude.{
  ℕ, ◌+◌, ◌*◌, ◌%◌, ◌≡◌, refl, inl, inr, true, some, arith, ◌==◌, if◌then◌else◌, pos, negsuc,
}
use cla_mpi.Cache.{Cache}
use cla_mpi.Avl.{leaf, node}
use cla_mpi.HashTable.{insert_rest, insert_loop, place_entry, ht_insert_check, is_used}
use cla_mpi.HashTable.Exchange.{Exchanged, make_room, ht_insert_check-Exchanged}
use cla_mpi.Regions.{find_region}
use cla_mpi.Regions.Fit.{BestFit, find_region-BestFit}
use cla_mpi.Window.{reset_data_structures}
use cla_mpi.Window.Fresh.{Fresh, reset_data_structures-Fresh}
use cla_mpi.Victim.{Search, select_victim}
use cla_mpi.Victim.Found.{Chosen, select_victim-Chosen}
use cla_mpi.Flush.{flush_pending}
use cla_mpi.Flush.Copied.{Disjoint, Flushed, flush_pending-Flushed}
use cla_mpi.Tests.Table.{numbers, empty, one, key2, empty-Inserted, one_getcount}

one-index : (one.table_ptr 5).index ≡ 5
unfolding insert_rest insert_loop place_entry
one-index = refl

five_free :
    (s : ℕ)
    → is_used (one.table s) ≡ true
    → (one.table s).index ≡ 5
    → (ht_insert_check numbers one key2 0).1 ≡ pos 5
five_free s u e = elim (empty-Inserted.nothing_else 5 (record { slot = s; used = u; index = e })) [
  | inl h ↦ let v = h.used in cc
  | inr f ↦ absurd (omega (arith, f))
]

ht_insert_check-Exchanged_example :
    let r = ht_insert_check numbers one key2 0 in
    Exchanged numbers r.0 key2 5 r.1 (insert_rest (make_room numbers r.0 r.1) key2 0 5).0
ht_insert_check-Exchanged_example =
    ht_insert_check-Exchanged numbers one key2 0 5 (omega arith) one_getcount one-index
      empty-Inserted.in_place five_free

-- Regions of 64 and 128 bytes.
abbrev pub two_regions : Cache ℕ
two_regions = record empty {
  table_ptr = λ i. record (empty.table_ptr i) {
    get_info = record { rank = 64 * (i + 1); addr = 0; size = 0 };
  };
  free_idx = record empty.free_idx { root = node 0 0 (pos 1) leaf (node 1 1 (pos 0) leaf leaf) };
}

find_region-BestFit_example : BestFit two_regions 100 (find_region two_regions 100)
find_region-BestFit_example =
    find_region-BestFit two_regions 100 (omega arith) (omega arith) (omega arith)

reset_data_structures-Fresh_example :
    (d : Cache ℕ) × (reset_data_structures numbers empty ≡ some d) × Fresh 8 4096 d
reset_data_structures-Fresh_example =
    reset_data_structures-Fresh numbers empty (omega arith) (omega arith) (omega arith)
      (omega arith)

-- A table with one entry, at slot 5.
abbrev pub slot_five : Cache ℕ
slot_five = record empty {
  table_size = 1;
  table = λ s. record { lasthit = if s == 5 then 4 else 0; index = s; penalty = 0 };
}

select_victim-Chosen_example :
    (s : Search ℕ) × (select_victim numbers slot_five 6 ≡ some s) × Chosen numbers slot_five s
select_victim-Chosen_example =
    select_victim-Chosen numbers slot_five 6 5 (omega arith) (λ _. (omega arith, refl))

-- Two copies that wait, for the entries 1 and 2, and a third whose entry has gone.
abbrev two_pending : Cache ℕ
two_pending = record empty {
  penptr = 3;
  pending =
      λ p. record { target_addr = 8 * p; origin_addr = 100 + 16 * p; entry = p + 1; size = pos 8 };
  table_ptr = λ i. record (empty.table_ptr i) {
    pending = if i == 1 then pos 0 else if i == 2 then pos 1 else negsuc 0;
  };
}

two_pending-Disjoint : Disjoint two_pending 3
two_pending-Disjoint p q h k ne l m j b = omega arith

flush_pending-Flushed_example :
    (d : Cache ℕ) × (flush_pending (λ a. a % 256) two_pending ≡ some d)
    × Flushed (λ a. a % 256) 3 two_pending d
    × (d.penptr ≡ 0)
flush_pending-Flushed_example =
    flush_pending-Flushed (λ a. a % 256) two_pending (λ p h l. omega arith) two_pending-Disjoint
