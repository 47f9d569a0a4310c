-- ===== src/HashTable/Insert.antt =====
-- `ht_insert`: an entry for which there is room is put in, and no other entry is lost.
use cla_mpi.Prelude.{
  ℕ, ◌≤◌, ◌<◌, ◌≡◌, ◌≢◌, refl, ◌⊎◌, inl, inr, false, arith, sym, ◌∙◌, Bool-cases, subst,
}
use cla_mpi.Cache.{Get, Slot, Cache}
use cla_mpi.HashTable.{
  slot_of, is_used, tables, max_insert, next_table, place_entry, insert_loop, insert_rest,
}
use cla_mpi.HashTable.Slots.{slot_of_table, Holds, InPlace, Apart, Reach, Reach-unique}
use cla_mpi.HashTable.Walk.{Settled, Agrees, insert_loop-Settled}
use cla_mpi.HashTable.Place.{
  place_entry-InPlace, place_entry-Apart, place_entry-Holds, place_entry_new,
  place_entry-Holds_back, place_entry_other, place_entry_gets, place_entry_get, place_entry_size,
}

module _ {F : Type 0} where
  -- There is room for an entry: its slot in the first table is empty, or the walk from its slot in
  -- the next one ends within the bound of the code.
  abbrev pub HasRoom : Cache F → Get → ℕ → Type 0
  HasRoom c key t =
      (is_used (c.table (slot_of c.ht_entries key t)) ≡ false)
      ⊎ ((k : ℕ) × (k ≤ max_insert) × Reach c k (slot_of c.ht_entries key (next_table t)))

  -- The table after the insertion of a key: in order, with the new entry and exactly the old ones.
  pub record Inserted (c : Cache F) (key : Get) (entry : ℕ) (c' : Cache F) (left : Slot)
      : Type 0 where
    pub nothing_left : is_used left ≡ false
    pub in_place : InPlace c'
    pub inserted : Holds c' entry
    pub inserted_key : (c'.table_ptr entry).get_info ≡ key
    pub kept : (i : ℕ) → Holds c i → Holds c' i
    pub nothing_else : (i : ℕ) → Holds c' i → Holds c i ⊎ (entry ≡ i)
    pub same_keys : (i : ℕ) → i ≢ entry → (c'.table_ptr i).get_info ≡ (c.table_ptr i).get_info

  module _ (c : Cache F) (key : Get) (entry : ℕ) (e : (c.table_ptr entry).index ≡ entry)
      (a : Apart c entry) (o : InPlace c) (g : 0 < c.getcount) where
    placed_walk :
        (t k rounds : ℕ)
        → t < tables
        → Reach c k (slot_of c.ht_entries key t)
        → k ≤ rounds
        → let r =
            insert_loop rounds
              (place_entry c key t entry)
              (c.table (slot_of c.ht_entries key t))
              t in
          Inserted c key entry r.0 r.1
    placed_walk t k rounds h r n = record {
      nothing_left = d.empty;
      in_place = d.in_place;
      inserted = d.kept entry (place_entry_new c key t entry e g);
      inserted_key = d.same_gets entry ∙ place_entry_get c key t entry;
      kept = keep;
      nothing_else = back;
      same_keys = λ i ne. d.same_gets i ∙ place_entry_gets c key t entry i ne;
    }
      where
        place : ℕ
        place = slot_of c.ht_entries key t

        agrees : Agrees c (place_entry c key t entry) k
        agrees = record {
          ahead = λ u j less q. place_entry_other c key t entry u (λ same.
              let twice = Reach-unique c j k u q (subst (Reach c k) (sym same) r) in
              absurd (omega arith));
          gets = λ u w. place_entry_gets c key t entry _ (a u w);
          htsize = place_entry_size c key t entry;
        }

        d :
            let s = insert_loop rounds (place_entry c key t entry) (c.table place) t in
            Settled (place_entry c key t entry) (c.table place) s.0 s.1
        d =
            insert_loop-Settled c rounds k (place_entry c key t entry) (c.table place) place t refl
              (sym (slot_of_table c.ht_entries key t h)) r n agrees
              (place_entry-InPlace c key t entry h e a o) (place_entry-Apart c key t entry e a o)

        keep :
            (i : ℕ)
            → Holds c i
            → Holds (insert_loop rounds (place_entry c key t entry) (c.table place) t).0 i
        keep i q = elim (place_entry-Holds c key t entry i q) [
          | inl q' ↦ d.kept i q'
          | inr (w, f) ↦ subst (Holds _) f (d.taken w)
        ]

        back :
            (i : ℕ)
            → Holds (insert_loop rounds (place_entry c key t entry) (c.table place) t).0 i
            → Holds c i ⊎ (entry ≡ i)
        back i q = elim (d.nothing_else i q) [
          | inl q' ↦ place_entry-Holds_back c key t entry e i q'
          | inr (w, f) ↦ inl (record { slot = place; used = w; index = f })
        ]

    -- For a table in order, a number of gets that is not 0, and a descriptor that has its own
    -- index and stands in no slot, `ht_insert` of a key for which there is room ends with nothing
    -- left over: the table is in order again, holds the descriptor under the key, still holds all
    -- that it held, and nothing else, and no other key has changed.
    pub insert_rest-Inserted :
        (t : ℕ)
        → t < tables
        → HasRoom c key t
        → let r = insert_rest c key t entry in Inserted c key entry r.0 r.1
    unfolding insert_rest
    insert_rest-Inserted t h room =
        elim (Bool-cases (is_used (c.table (slot_of c.ht_entries key t)))) [
          | inr first ↦ rw first (placed_walk t 0 11 h first (omega arith))
          | inl conflict ↦ elim room [
            | inl first ↦ cc
            | inr (k, n, r) ↦ rw conflict (placed_walk (next_table t) k 10 (omega arith) r n)
          ]
        ]
