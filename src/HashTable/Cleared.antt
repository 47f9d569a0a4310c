-- ===== src/HashTable/Cleared.antt =====
-- The removal of an entry shortens the walks over the hash table that pass it.
use cla_mpi.Prelude.{
  ℕ, zero, suc, ◌≤◌, ◌≡◌, ◌≢◌, refl, inl, inr, true, false, arith, ◌==◌, Bool-cases, ne_of_test,
  eq_of_test,
}
use cla_mpi.Cache.{Cache}
use cla_mpi.HashTable.{is_used, ht_remove}
use cla_mpi.HashTable.Slots.{InPlace, next_slot, Reach}

module _ {F : Type 0} where
  -- The walk from a slot passes a used slot after a number of rounds.
  abbrev pub OnWalk : Cache F → ℕ → ℕ → ℕ → Type 0
  OnWalk c zero s e = (s ≡ e) × (is_used (c.table s) ≡ true)
  OnWalk c (suc j) s e = (is_used (c.table s) ≡ true) × OnWalk c j (next_slot c s) e

  -- A table in which one slot has been emptied.
  pub record Cleared (c d : Cache F) (e : ℕ) : Type 0 where
    pub gone : is_used (d.table e) ≡ false
    pub others : (u : ℕ) → u ≢ e → d.table u ≡ c.table u
    pub gets : (i : ℕ) → (d.table_ptr i).get_info ≡ (c.table_ptr i).get_info
    pub htsize : d.ht_entries ≡ c.ht_entries

  -- The walk over a table from which a slot on it has been removed ends there, or before.
  pub walk-Cleared :
      (c d : Cache F) (j s e : ℕ) → Cleared c d e → OnWalk c j s e → (k : ℕ) × (k ≤ j) × Reach d k s
  walk-Cleared c d zero s e x w = (0, omega arith, rw w.0 x.gone)
  walk-Cleared c d (suc j) s e x w = elim (Bool-cases (s == e)) [
    | inl here ↦ (0, omega arith, rw (eq_of_test s e here) x.gone)
    | inr there ↦
        let same = x.others s (ne_of_test s e there) in
        let (k, h, r) = walk-Cleared c d j (next_slot c s) e x w.1 in
        let next : next_slot d s ≡ next_slot c s = rw (same, x.htsize, x.gets (c.table s).index) in
        (suc k, omega arith, (rw same w.0, rw next r))
  ]

  pub ht_remove-Cleared :
      (c : Cache F) (e : ℕ)
      → InPlace c
      → is_used (c.table e) ≡ true
      → Cleared c (ht_remove c (c.table e).index) e
  unfolding ht_remove
  ht_remove-Cleared c e o u =
      let place = (o e u).1 in
      record {
        gone = ground (arith, place);
        others = λ v h. ground (arith, place);
        gets = λ i. refl;
        htsize = refl;
      }
