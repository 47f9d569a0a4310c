-- ===== src/HashTable/Slots.antt =====
-- The slots of the hash table: where they are, what is in them, and when the table is in order.
use cla_mpi.Prelude.{
  ℕ, zero, suc, ◌/◌, ◌%◌, ◌≤◌, ◌<◌, ◌≡◌, ◌≢◌, refl, ◌⊎◌, inl, inr, true, false, arith, ◌==◌, ap,
  Bool-cases,
}
use cla_mpi.Cache.{Get, Slot, Cache}
use cla_mpi.HashTable.{hash, slot_of, is_used, tables, next_table, displace}

hash-lt : (t : ℕ) (o : Get) (htsize : ℕ) → 4 ≤ htsize → hash t o htsize < htsize / 4
unfolding hash
hash-lt t o htsize h = omega arith

-- Every slot is inside the array, if there is at least one entry in each table.
pub slot_of-lt :
    (htsize : ℕ) (o : Get) (t : ℕ) → 4 ≤ htsize → t < tables → slot_of htsize o t < htsize
unfolding slot_of
slot_of-lt htsize o t h k = omega (arith, hash-lt t o htsize h)

pub slot_of_table : (htsize : ℕ) (o : Get) (t : ℕ) → t < tables → slot_of htsize o t % tables ≡ t
unfolding slot_of
slot_of_table htsize o t k = omega arith

module _ {F : Type 0} where
  -- An entry is in the table.
  pub record Holds (c : Cache F) (i : ℕ) : Type 0 where
    pub slot : ℕ
    pub used : is_used (c.table slot) ≡ true
    pub index : (c.table slot).index ≡ i

  -- Each used slot is a place of its entry, and the entry knows it.
  abbrev pub InPlace : Cache F → Type 0
  InPlace c =
      (s : ℕ)
      → is_used (c.table s) ≡ true
      → let e = c.table_ptr (c.table s).index in
        (slot_of c.ht_entries e.get_info (s % tables) ≡ s) × (e.htindex ≡ s)

  -- No used slot holds an entry.
  abbrev pub Apart : Cache F → ℕ → Type 0
  Apart c i = (s : ℕ) → is_used (c.table s) ≡ true → (c.table s).index ≢ i

  -- The slot that the loops go to from a slot.
  abbrev pub next_slot : Cache F → ℕ → ℕ
  next_slot c s =
      slot_of c.ht_entries (c.table_ptr (c.table s).index).get_info (next_table (s % tables))

  -- From a slot the loops reach an empty one in a number of rounds.
  abbrev pub Reach : Cache F → ℕ → ℕ → Type 0
  Reach c zero s = is_used (c.table s) ≡ false
  Reach c (suc k) s = (is_used (c.table s) ≡ true) × Reach c k (next_slot c s)

  pub Reach-unique : (c : Cache F) (j k s : ℕ) → Reach c j s → Reach c k s → j ≡ k
  Reach-unique c zero zero s p q = refl
  Reach-unique c zero (suc k) s p q = cc
  Reach-unique c (suc j) zero s p q = cc
  Reach-unique c (suc j) (suc k) s p q = ap suc (Reach-unique c j k _ p.1 q.1)

  module _ (c : Cache F) (v : Slot) (t : ℕ) where
    pub displace-InPlace :
        t < tables → is_used v ≡ true → Apart c v.index → InPlace c → InPlace (displace c v t)
    unfolding displace
    displace-InPlace h u a o s r =
        let place = slot_of c.ht_entries (c.table_ptr v.index).get_info t in
        elim (Bool-cases (s == place)) [
          | inl here ↦ ground (arith, slot_of_table c.ht_entries (c.table_ptr v.index).get_info t h)
          | inr there ↦ ground (arith, o s, a s)
        ]

    -- The slot that the victim takes was held by the next victim, which now stands apart.
    pub displace-Apart :
        let w = c.table (slot_of c.ht_entries (c.table_ptr v.index).get_info t) in
        Apart c v.index → InPlace c → is_used w ≡ true → Apart (displace c v t) w.index
    unfolding displace
    displace-Apart a o u s r e =
        let place = slot_of c.ht_entries (c.table_ptr v.index).get_info t in
        ground (arith, o s, o place, a place)

    pub displace-Holds :
        (i : ℕ)
        → Holds c i
        → Holds (displace c v t) i
          ⊎ (let w = c.table (slot_of c.ht_entries (c.table_ptr v.index).get_info t) in
              (is_used w ≡ true) × (w.index ≡ i))
    unfolding displace
    displace-Holds i h =
        let place = slot_of c.ht_entries (c.table_ptr v.index).get_info t in
        elim (Bool-cases (h.slot == place)) [
          | inl here ↦ inr (ground (arith, h.used, h.index))
          | inr there ↦
              inl (record { slot = h.slot; used = rw there h.used; index = rw there h.index })
        ]

    pub displace_new : is_used v ≡ true → Holds (displace c v t) v.index
    unfolding displace
    displace_new u = record {
      slot = slot_of c.ht_entries (c.table_ptr v.index).get_info t;
      used = ground arith;
      index = ground arith;
    }

    pub displace-Holds_back : (i : ℕ) → Holds (displace c v t) i → Holds c i ⊎ (v.index ≡ i)
    unfolding displace
    displace-Holds_back i h =
        let place = slot_of c.ht_entries (c.table_ptr v.index).get_info t in
        elim (Bool-cases (h.slot == place)) [
          | inl here ↦ inr (ground (arith, h.index))
          | inr there ↦ inl (record {
            slot = h.slot;
            used = ground (arith, h.used);
            index = ground (arith, h.index);
          })
        ]
