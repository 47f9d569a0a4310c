-- ===== src/Tests/Table.antt =====
-- The hash table of two slots for each table: instances at the empty table and at a table with an
-- entry, where natural numbers take the part of the floating-point ones.
use cla_mpi.Prelude.{ℕ, ◌+◌, ◌-◌, ◌*◌, ◌/◌, ◌<◌, refl, inl, none, arith, ltb, leb, pos, negsuc}
use cla_mpi.Cache.{Double, Get, free, Cache}
use cla_mpi.Avl.{leaf}
use cla_mpi.HashTable.{slot_of, ht_insert_check, insert_rest, insert_loop, place_entry}
use cla_mpi.HashTable.Slots.{InPlace, slot_of-lt}
use cla_mpi.HashTable.Insert
use cla_mpi.HashTable.Insert.{insert_rest-Inserted}
use cla_mpi.HashTable.Check.{Verdict, ht_insert_check-Verdict}

abbrev pub numbers : Double
numbers = record {
  F = ℕ;
  of_ℕ = λ n. n;
  alpha = 1;
  add = λ a b. a + b;
  sub = λ a b. a - b;
  mul = λ a b. a * b;
  div = λ a b. a / b;
  opp = λ a. a;
  lt = ltb;
  le = leb;
}

abbrev pub key1 : Get
key1 = record { rank = 1; addr = 64; size = 8 }

abbrev pub key2 : Get
key2 = record { rank = 2; addr = 128; size = 16 }

abbrev pub empty : Cache ℕ
empty = record {
  mem = λ _. 0;
  mms = 4;
  getcount = 5;
  table_ptr = λ i. record {
    get_info = record { rank = 0; addr = 0; size = 0 };
    kind = free;
    htindex = 0;
    index = i;
    tnode = none;
    mprev = negsuc 0;
    mnext = negsuc 0;
    offset = 0;
    pending = negsuc 0;
  };
  mode = 0;
  free_entries = λ i. i;
  next_free_entry = 7;
  free_idx = record { root = leaf; free_nodes = λ i. i; next_free_node = pos 7; tot_nodes = 8 };
  ht_entries = 8;
  mem_size = 4096;
  table = λ _. record { lasthit = 0; index = 0; penalty = 0 };
  table_size = 0;
  penptr = 0;
  pending = λ _. record { target_addr = 0; origin_addr = 0; entry = 0; size = pos 0 };
  stat = record {
    hits = 0;
    failed = 0;
    ht_evictions = 0;
    sp_evictions = 0;
    evicted_size = 0;
    cached = 0;
    locals = 0;
    last_eviction_scan = 0;
    last_eviction_sample = 0;
    tot_eviction_scan = 0;
    tot_eviction_sample = 0;
    last_ht_scan = 0;
    total_data = 0;
  };
}

pub empty-InPlace : InPlace empty
empty-InPlace s u = cc

pub empty-Inserted : let r = insert_rest empty key1 0 3 in Insert.Inserted empty key1 3 r.0 r.1
empty-Inserted =
    insert_rest-Inserted empty key1 3 refl (λ s u. cc) empty-InPlace (omega arith) 0 (omega arith)
      (inl refl)

abbrev pub one : Cache ℕ
one = (insert_rest empty key1 0 3).0

slot_of-lt_example : slot_of 8 key2 3 < 8
slot_of-lt_example = slot_of-lt 8 key2 3 (omega arith) (omega arith)

ht_insert_check-Verdict_example :
    let r = ht_insert_check numbers one key2 0 in Verdict numbers key2 0 r.0 r.1
ht_insert_check-Verdict_example = ht_insert_check-Verdict numbers one key2 0 empty-Inserted.in_place

insert_rest-Inserted_example :
    let r = insert_rest empty key1 0 3 in Insert.Inserted empty key1 3 r.0 r.1
insert_rest-Inserted_example =
    insert_rest-Inserted empty key1 3 refl (λ s u. cc) empty-InPlace (omega arith) 0 (omega arith)
      (inl refl)

pub one_getcount : 0 < one.getcount
unfolding insert_rest insert_loop place_entry
one_getcount = omega arith
