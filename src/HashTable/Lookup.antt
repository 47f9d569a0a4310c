-- ===== src/HashTable/Lookup.antt =====
-- `ht_lookup` finds an entry exactly if the table holds one under the key.
use cla_mpi.Prelude.{
  ℕ, zero, suc, ◌+◌, ◌%◌, ◌≤◌, ◌<◌, ◌≡◌, ◌≢◌, refl, inl, inr, true, false, ◌&&◌, arith, ◌==◌, ap,
  sym, ◌∙◌, Bool-cases, update, Option, none, some, eq_of_test, eq_of_some, ◌↔◌,
}
use mathlib.Core.Bool.{false≢true}
use cla_mpi.Cache.{Get, Cache}
use cla_mpi.HashTable.{slot_of, is_used, tables, same_get, lookup_from, ht_lookup, ht_remove}
use cla_mpi.HashTable.Slots.{Holds, InPlace}

pub same_get→eq : (a b : Get) → same_get a b ≡ true → a ≡ b
same_get→eq a b h = ground arith

pub same_get_refl : (a : Get) → same_get a a ≡ true
same_get_refl a = ground arith

module _ {F : Type 0} where
  -- What a lookup answers: an entry of the table under the key, and then that entry has been hit
  -- now; or nothing, where the tables from the first one looked at on have no entry under the key.
  abbrev Answers : Cache F → ℕ → ℕ → Get → Cache F × Option ℕ → Type 0
  Answers c n i key (c', none) =
      (c' ≡ c)
      × ((j : ℕ)
          → i ≤ j
          → j < i + n
          → is_used (c.table (slot_of c.ht_entries key j)) ≡ true
          → (c.table_ptr (c.table (slot_of c.ht_entries key j)).index).get_info ≢ key)
  Answers c n i key (c', some e) =
      (s : ℕ) × (is_used (c.table s) ≡ true)
      × ((c.table s).index ≡ e)
      × ((c.table_ptr e).get_info ≡ key)
      × (c' ≡ record c { table = update c.table s (record (c.table s) { lasthit = c.getcount }) })

  later :
      (n i : ℕ) (c : Cache F) (key : Get)
      → let s = c.table (slot_of c.ht_entries key i) in
        (is_used s && same_get (c.table_ptr s.index).get_info key) ≡ false
        → (r : Cache F × Option ℕ) → Answers c n (i + 1) key r
        → Answers c (suc n) i key r
  later n i c key miss (c', some e) a = a
  later n i c key miss (c', none) (same, others) = (
    same,
    λ j h k u found. elim (Bool-cases (i == j)) [
      | inl here ↦
          let f = rw (← eq_of_test i j here) at found in
          let v = rw (← eq_of_test i j here) at u in
          false≢true (sym miss ∙ rw (v, f) (same_get_refl key))
      | inr there ↦ others j (ground arith) (omega arith) u found
    ],
  )

  lookup_from-Answers :
      (n i : ℕ) (c : Cache F) (key : Get) → Answers c n i key (lookup_from n i c key)
  unfolding lookup_from
  lookup_from-Answers zero i c key = (refl, λ j h k. absurd (omega arith))
  lookup_from-Answers (suc n) i c key =
      let place = slot_of c.ht_entries key i in
      let s = c.table place in
      elim (Bool-cases (is_used s && same_get (c.table_ptr s.index).get_info key)) [
        | inl hit ↦ rw hit (place, ground arith, refl, same_get→eq _ _ (ground arith), refl)
        | inr miss ↦ rw miss (
            later n i c key miss (lookup_from n (i + 1) c key)
              (lookup_from-Answers n (i + 1) c key))
      ]

  -- What is right for the answer of a lookup.
  pub record Looked (c : Cache F) (key : Get) (c' : Cache F) (r : Option ℕ) : Type 0 where
    pub found : (e : ℕ) → r ≡ some e → Holds c e × ((c.table_ptr e).get_info ≡ key)
    pub missing : r ≡ none → (c' ≡ c) × ((e : ℕ) → Holds c e → (c.table_ptr e).get_info ≢ key)

  looked :
      (c : Cache F) (key : Get) (r : Cache F × Option ℕ)
      → InPlace c
      → Answers c tables 0 key r
      → Looked c key r.0 r.1
  looked c key (c', none) o (same, others) = record {
    found = λ e h. cc;
    missing = λ _. (
      same,
      λ e h f.
          let place = (o h.slot h.used).0 in
          let key_of : (c.table_ptr (c.table h.slot).index).get_info ≡ key = rw h.index f in
          let at : slot_of c.ht_entries key (h.slot % tables) ≡ h.slot = rw key_of at place in
          others (h.slot % tables) (omega arith) (omega arith) (rw at h.used) (rw at key_of),
    );
  }
  looked c key (c', some d) o (s, u, e, k, same) = record {
    found = λ e' h. (
      record { slot = s; used = u; index = e ∙ eq_of_some h },
      ap (λ i. (c.table_ptr i).get_info) (sym (eq_of_some h)) ∙ k,
    );
    missing = λ h. cc;
  }

  -- For a table in order, `ht_lookup` finds an entry only if the table holds it under the key, and
  -- if it finds nothing then no entry of the table has the key and the cache is as it was.
  pub ht_lookup-Looked :
      (c : Cache F) (key : Get) → InPlace c → let r = ht_lookup c key in Looked c key r.0 r.1
  unfolding ht_lookup
  ht_lookup-Looked c key o = looked c key _ o (lookup_from-Answers tables 0 c key)

  -- A hit sets the time of the entry's slot, and otherwise the cache stays as it was.
  Answers-InPlace :
      (c : Cache F) (key : Get) (n i : ℕ) (r : Cache F × Option ℕ)
      → 0 < c.getcount
      → InPlace c
      → Answers c n i key r
      → InPlace r.0 × ((e : ℕ) → Holds c e ↔ Holds r.0 e)
  Answers-InPlace c key n i (c', none) g o (same, others) = rw same (o, λ e. (λ h. h, λ h. h))
  Answers-InPlace c key n i (c', some x) g o (s, u, e, k, same) = rw same (hit, λ i. (to i, from i))
    where
      d : Cache F
      d = record c { table = update c.table s (record (c.table s) { lasthit = c.getcount }) }

      hit : InPlace d
      hit v w = elim (Bool-cases (v == s)) [
        | inl here ↦ ground (arith, o s)
        | inr there ↦ ground (arith, o v)
      ]

      to : (i : ℕ) → Holds c i → Holds d i
      to i h = elim (Bool-cases (h.slot == s)) [
        | inl here ↦ record { slot = h.slot; used = ground arith; index = ground (arith, h.index) }
        | inr there ↦ record {
          slot = h.slot;
          used = ground (arith, h.used);
          index = ground (arith, h.index);
        }
      ]

      from : (i : ℕ) → Holds d i → Holds c i
      from i h = elim (Bool-cases (h.slot == s)) [
        | inl here ↦ record { slot = s; used = u; index = ground (arith, h.index) }
        | inr there ↦ record {
          slot = h.slot;
          used = ground (arith, h.used);
          index = ground (arith, h.index);
        }
      ]

  -- For a table in order and a number of gets that is not 0, `ht_lookup` leaves the table in
  -- order, and with exactly the entries that it held.
  pub ht_lookup-InPlace :
      (c : Cache F) (key : Get)
      → 0 < c.getcount
      → InPlace c
      → let r = ht_lookup c key in InPlace r.0 × ((e : ℕ) → Holds c e ↔ Holds r.0 e)
  unfolding ht_lookup
  ht_lookup-InPlace c key g o =
      Answers-InPlace c key tables 0 _ g o (lookup_from-Answers tables 0 c key)

  -- For a table in order that holds an entry, `ht_remove` leaves the table in order without the
  -- entry, with every other entry that it held, and with no new one.
  pub ht_remove-Removed :
      (c : Cache F) (i : ℕ)
      → InPlace c
      → Holds c i
      → let d = ht_remove c i in
        InPlace d
        × (¬ Holds d i)
        × ((e : ℕ) → e ≢ i → Holds c e → Holds d e)
        × ((e : ℕ) → Holds d e → Holds c e)
  unfolding ht_remove
  ht_remove-Removed c i o h =
      let place = (o h.slot h.used).1 in
      (
        λ v w. ground (arith, o v),
        λ q. ground (arith, place, h.index, q.used, q.index, o q.slot),
        λ e ne q. record {
          slot = q.slot;
          used = ground (arith, q.used, q.index, place, h.index, o q.slot);
          index = ground (arith, q.index, q.used, place, h.index);
        },
        λ e q. record {
          slot = q.slot;
          used = ground (arith, q.used);
          index = ground (arith, q.index, q.used);
        },
      )
