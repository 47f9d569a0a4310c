-- ===== src/HashTable/Place.antt =====
-- The first swap of `ht_insert`.
use cla_mpi.Prelude.{ℕ, ◌<◌, ◌≡◌, ◌≢◌, refl, ◌⊎◌, inl, inr, true, arith, ◌==◌, Bool-cases}
use cla_mpi.Cache.{Get, Cache}
use cla_mpi.HashTable.{slot_of, is_used, tables, place_entry}
use cla_mpi.HashTable.Slots.{slot_of_table, Holds, InPlace, Apart}

module _ {F : Type 0} where
  -- A new entry is put in its slot.
  module _ (c : Cache F) (key : Get) (t entry : ℕ) where
    pub place_entry-InPlace :
        t < tables
        → (c.table_ptr entry).index ≡ entry
        → Apart c entry
        → InPlace c
        → InPlace (place_entry c key t entry)
    unfolding place_entry
    place_entry-InPlace h e a o s r =
        let place = slot_of c.ht_entries key t in
        elim (Bool-cases (s == place)) [
          | inl here ↦ ground (arith, slot_of_table c.ht_entries key t h)
          | inr there ↦ ground (arith, o s, a s)
        ]

    pub place_entry-Apart :
        let w = c.table (slot_of c.ht_entries key t) in
        (c.table_ptr entry).index ≡ entry
        → Apart c entry
        → InPlace c
        → is_used w ≡ true
        → Apart (place_entry c key t entry) w.index
    unfolding place_entry
    place_entry-Apart e a o u s r f =
        let place = slot_of c.ht_entries key t in ground (arith, o s, o place, a place)

    pub place_entry-Holds :
        (i : ℕ)
        → Holds c i
        → Holds (place_entry c key t entry) i
          ⊎ (let w = c.table (slot_of c.ht_entries key t) in (is_used w ≡ true) × (w.index ≡ i))
    unfolding place_entry
    place_entry-Holds i h =
        let place = slot_of c.ht_entries key t in
        elim (Bool-cases (h.slot == place)) [
          | inl here ↦ inr (ground (arith, h.used, h.index))
          | inr there ↦
              inl (record { slot = h.slot; used = rw there h.used; index = rw there h.index })
        ]

    pub place_entry_new :
        (c.table_ptr entry).index ≡ entry → 0 < c.getcount → Holds (place_entry c key t entry) entry
    unfolding place_entry
    place_entry_new e g = record {
      slot = slot_of c.ht_entries key t;
      used = ground arith;
      index = ground arith;
    }

    pub place_entry-Holds_back :
        (c.table_ptr entry).index ≡ entry
        → (i : ℕ) → Holds (place_entry c key t entry) i
        → Holds c i ⊎ (entry ≡ i)
    unfolding place_entry
    place_entry-Holds_back e i h =
        let place = slot_of c.ht_entries key t in
        elim (Bool-cases (h.slot == place)) [
          | inl here ↦ inr (ground (arith, h.index))
          | inr there ↦ inl (record {
            slot = h.slot;
            used = ground (arith, h.used);
            index = ground (arith, h.index);
          })
        ]

    pub place_entry_other :
        (u : ℕ) → u ≢ slot_of c.ht_entries key t → (place_entry c key t entry).table u ≡ c.table u
    unfolding place_entry
    place_entry_other u h = ground arith

    pub place_entry_gets :
        (i : ℕ)
        → i ≢ entry
        → ((place_entry c key t entry).table_ptr i).get_info ≡ (c.table_ptr i).get_info
    unfolding place_entry
    place_entry_gets i h = ground arith

    pub place_entry_get : ((place_entry c key t entry).table_ptr entry).get_info ≡ key
    unfolding place_entry
    place_entry_get = ground arith

    pub place_entry_size : (place_entry c key t entry).ht_entries ≡ c.ht_entries
    unfolding place_entry
    place_entry_size = refl
