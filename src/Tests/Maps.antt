-- ===== src/Tests/Maps.antt =====
-- The hash table as a map: instances at the empty table and at a table with an entry.
use cla_mpi.Prelude.{◌≡◌, refl, inl, none, arith}
use cla_mpi.HashTable.{insert_rest, ht_lookup, ht_remove}
use cla_mpi.HashTable.Map.{
  Map, put, drop, Represents, ht_lookup-Represents, insert_rest-Represents, ht_remove-Represents,
}
use cla_mpi.Tests.Table.{empty, one, key1, key2, empty-InPlace, one_getcount}

abbrev nothing : Map
nothing k = none

empty-Represents : Represents empty nothing
empty-Represents = record {
  in_place = empty-InPlace;
  held = λ k e h. cc;
  mapped = λ e q. let v = q.used in cc;
}

insert_rest-Represents_example : Represents (insert_rest empty key1 0 3).0 (put nothing key1 3)
insert_rest-Represents_example =
    insert_rest-Represents empty nothing empty-Represents key1 0 3 (omega arith) (omega arith) refl
      (λ s u. cc) refl (inl refl)

one-Represents : Represents one (put nothing key1 3)
one-Represents =
    insert_rest-Represents empty nothing empty-Represents key1 0 3 (omega arith) (omega arith) refl
      (λ s u. cc) refl (inl refl)

ht_lookup-Represents_example :
    ((ht_lookup one key2).1 ≡ none) × Represents (ht_lookup one key2).0 (put nothing key1 3)
ht_lookup-Represents_example =
    ht_lookup-Represents one (put nothing key1 3) one-Represents key2 one_getcount

ht_remove-Represents_example : Represents (ht_remove one 3) (drop (put nothing key1 3) key1)
ht_remove-Represents_example =
    ht_remove-Represents one (put nothing key1 3) one-Represents key1 3 refl
