-- ===== src/HashTable/Descriptors.antt =====
-- `ht_insert`: what it changes of the descriptors.
use cla_mpi.Prelude.{
  ℕ, zero, suc, ◌-◌, ◌+◌, ◌≡◌, ◌≢◌, refl, inl, inr, arith, ap, ◌∙◌, Bool-cases, ◌==◌, eq_of_test,
  if◌then◌else◌,
}
use cla_mpi.Cache.{u32, Get, Slot, Entry, Cache}
use cla_mpi.HashTable.{
  displace, insert_loop, place_entry, insert_rest, ht_insert, is_used, slot_of, next_table,
  max_insert,
}

-- The second descriptor is the first one with another place in the hash table.
abbrev pub Rehashed : Entry → Entry → Type 0
Rehashed x y = y ≡ record x { htindex = y.htindex }

Rehashed-trans : (x y z : Entry) → Rehashed x y → Rehashed y z → Rehashed x z
Rehashed-trans x y z e f = f ∙ ap (λ (w : Entry). record w { htindex = z.htindex }) e

module _ {F : Type 0} where
  displace-Rehashed :
      (c : Cache F) (v : Slot) (t i : ℕ) → Rehashed (c.table_ptr i) ((displace c v t).table_ptr i)
  unfolding displace
  displace-Rehashed c v t i = elim (Bool-cases (i == v.index)) [
    | inl here ↦ let same = eq_of_test i v.index here in ground (arith, same)
    | inr there ↦ rw there refl
  ]

  insert_loop-Rehashed :
      (rounds : ℕ) (c : Cache F) (v : Slot) (t i : ℕ)
      → Rehashed (c.table_ptr i) ((insert_loop rounds c v t).0.table_ptr i)
  unfolding insert_loop
  insert_loop-Rehashed zero c v t i = refl
  insert_loop-Rehashed (suc rounds) c v t i = elim (Bool-cases (is_used v)) [
    | inl used ↦ rw used (
        Rehashed-trans (c.table_ptr i) ((displace c v (next_table t)).table_ptr i)
          ((insert_loop rounds (displace c v (next_table t))
              (c.table (slot_of c.ht_entries (c.table_ptr v.index).get_info (next_table t)))
              (next_table t)).0.table_ptr
            i)
          (displace-Rehashed c v (next_table t) i)
          (insert_loop-Rehashed rounds (displace c v (next_table t))
            (c.table (slot_of c.ht_entries (c.table_ptr v.index).get_info (next_table t)))
            (next_table t) i))
    | inr empty ↦ rw empty refl
  ]

  insert_loop_frame :
      (rounds : ℕ) (c : Cache F) (v : Slot) (t : ℕ)
      → let d = (insert_loop rounds c v t).0 in
        d ≡ record c { table = d.table; table_ptr = d.table_ptr }
  unfolding insert_loop displace
  insert_loop_frame zero c v t = refl
  insert_loop_frame (suc rounds) c v t = elim (Bool-cases (is_used v)) [
    | inl used ↦
        let u = next_table t in
        rw used (
          insert_loop_frame rounds (displace c v u)
            (c.table (slot_of c.ht_entries (c.table_ptr v.index).get_info u)) u)
    | inr empty ↦ rw empty refl
  ]

  module _ (c : Cache F) (key : Get) (t entry : ℕ) where
    place_entry_here :
        (u : ℕ)
        → Rehashed
            (record (c.table_ptr entry) { get_info = key })
            ((place_entry c key u entry).table_ptr entry)
    unfolding place_entry
    place_entry_here u = ground arith

    place_entry_there :
        (u i : ℕ) → i ≢ entry → (place_entry c key u entry).table_ptr i ≡ c.table_ptr i
    unfolding place_entry
    place_entry_there u i h = ground (arith, h)

    -- The table in which the walk starts, and its rounds.
    abbrev start : ℕ
    start = if is_used (c.table (slot_of c.ht_entries key t)) then next_table t else t

    abbrev rounds : ℕ
    rounds = max_insert + 1 - (if is_used (c.table (slot_of c.ht_entries key t)) then 1 else 0)

    pub ht_insert-Rehashed_here :
        Rehashed
          (record (c.table_ptr entry) { get_info = key })
          ((ht_insert c key t entry).table_ptr entry)
    unfolding ht_insert insert_rest
    ht_insert-Rehashed_here =
        Rehashed-trans (record (c.table_ptr entry) { get_info = key })
          ((place_entry c key start entry).table_ptr entry)
          ((ht_insert c key t entry).table_ptr entry) (place_entry_here start)
          (insert_loop-Rehashed rounds (place_entry c key start entry)
            (c.table (slot_of c.ht_entries key start)) start entry)

    pub ht_insert-Rehashed_there :
        (i : ℕ) → i ≢ entry → Rehashed (c.table_ptr i) ((ht_insert c key t entry).table_ptr i)
    unfolding ht_insert insert_rest
    ht_insert-Rehashed_there i h =
        Rehashed-trans (c.table_ptr i) ((place_entry c key start entry).table_ptr i)
          ((ht_insert c key t entry).table_ptr i)
          (ap
            (λ (e : Entry). record e {
              htindex = ((place_entry c key start entry).table_ptr i).htindex;
            })
            (place_entry_there start i h))
          (insert_loop-Rehashed rounds (place_entry c key start entry)
            (c.table (slot_of c.ht_entries key start)) start i)

    -- Nothing else changes than the table, its counter and the descriptors.
    pub ht_insert-frame :
        let d = ht_insert c key t entry in
        d
        ≡ record c { table = d.table; table_size = u32 (c.table_size + 1); table_ptr = d.table_ptr }
    unfolding ht_insert insert_rest place_entry
    ht_insert-frame =
        insert_loop_frame rounds (place_entry c key start entry)
          (c.table (slot_of c.ht_entries key start)) start
