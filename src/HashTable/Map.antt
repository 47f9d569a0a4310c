-- ===== src/HashTable/Map.antt =====
-- The hash table as a map from keys to entries, and what its operations do to the map.
use cla_mpi.Prelude.{
  ℕ, zero, suc, ◌+◌, ◌<◌, ◌≡◌, ◌≢◌, refl, inl, inr, true, false, ◌&&◌, ap, sym, ◌∙◌, subst,
  Bool-cases, Option-cases, Option, none, some, eq_of_some, if◌then◌else◌,
}
use mathlib.Core.Bool.{false≢true}
use cla_mpi.Cache.{Get, Cache}
use cla_mpi.HashTable.{
  tables, is_used, same_get, lookup_from, ht_lookup, ht_remove, insert_rest, slot_of,
}
use cla_mpi.HashTable.Slots.{Holds, InPlace, Apart}
use cla_mpi.HashTable.Insert.{HasRoom, insert_rest-Inserted}
use cla_mpi.HashTable.Lookup.{
  ht_lookup-Looked, ht_lookup-InPlace, ht_remove-Removed, same_get→eq, same_get_refl,
}

-- The entry of each key.
abbrev pub Map : Type 0
Map = Get → Option ℕ

abbrev pub put : Map → Get → ℕ → Map
put f key e k = if same_get key k then some e else f k

abbrev pub drop : Map → Get → Map
drop f key k = if same_get key k then none else f k

same_get_other : (a b : Get) → a ≢ b → same_get a b ≡ false
same_get_other a b ne = elim (Bool-cases (same_get a b)) [
  | inl same ↦ absurd (ne (same_get→eq a b same))
  | inr other ↦ other
]

differ : (a b : Get) → same_get a b ≡ false → a ≢ b
differ a b h e = false≢true (sym h ∙ subst (λ b. same_get a b ≡ true) e (same_get_refl a))

absent : (o : Option ℕ) (e : ℕ) → o ≡ none → o ≢ some e
absent o e h k = cc

-- Writing a key in the map or taking it out of it concerns no other key.
module _ (f : Map) (key : Get) where
  put_here : (e : ℕ) → put f key e key ≡ some e
  put_here e = rw (same_get_refl key) refl

  put_there : (e : ℕ) (k : Get) → key ≢ k → put f key e k ≡ f k
  put_there e k ne = rw (same_get_other key k ne) refl

  drop_here : drop f key key ≡ none
  drop_here = rw (same_get_refl key) refl

  drop_there : (k : Get) → key ≢ k → drop f key k ≡ f k
  drop_there k ne = rw (same_get_other key k ne) refl

module _ {F : Type 0} where
  -- A table in order that holds exactly the entries of a map, each under its key.
  pub record Represents (c : Cache F) (f : Map) : Type 0 where
    pub in_place : InPlace c
    pub held : (key : Get) (e : ℕ) → f key ≡ some e → Holds c e × ((c.table_ptr e).get_info ≡ key)
    pub mapped : (e : ℕ) → Holds c e → f (c.table_ptr e).get_info ≡ some e

  lookup_from_descriptors :
      (n i : ℕ) (c : Cache F) (key : Get) → (lookup_from n i c key).0.table_ptr ≡ c.table_ptr
  unfolding lookup_from
  lookup_from_descriptors zero i c key = refl
  lookup_from_descriptors (suc n) i c key =
      let s = c.table (slot_of c.ht_entries key i) in
      elim (Bool-cases (is_used s && same_get (c.table_ptr s.index).get_info key)) [
        | inl hit ↦ rw hit refl
        | inr miss ↦ rw miss (lookup_from_descriptors n (i + 1) c key)
      ]

  ht_lookup_descriptors : (c : Cache F) (key : Get) → (ht_lookup c key).0.table_ptr ≡ c.table_ptr
  unfolding ht_lookup
  ht_lookup_descriptors c key = lookup_from_descriptors tables 0 c key

  module _ (c : Cache F) (f : Map) (r : Represents c f) where
    answer : (key : Get) → (ht_lookup c key).1 ≡ f key
    answer key =
        let l = ht_lookup-Looked c key r.in_place in
        elim (Option-cases (ht_lookup c key).1) [
          | inl miss ↦ elim (Option-cases (f key)) [
            | inl absent ↦ miss ∙ sym absent
            | inr (e, there) ↦ let h = r.held key e there in absurd ((l.missing miss).1 e h.0 h.1)
          ]
          | inr (e, hit) ↦
              let h = l.found e hit in hit ∙ sym (subst (λ k. f k ≡ some e) h.1 (r.mapped e h.0))
        ]

    -- For a table that represents a map, that is, which is in order and holds exactly the entries
    -- of the map, each under its key, and a number of gets that is not 0: `ht_lookup` answers what
    -- the map has for the key, an entry or nothing, and leaves a table that represents the same
    -- map.
    pub ht_lookup-Represents :
        (key : Get)
        → 0 < c.getcount
        → ((ht_lookup c key).1 ≡ f key) × Represents (ht_lookup c key).0 f
    ht_lookup-Represents key g =
        let (o, same) = ht_lookup-InPlace c key g r.in_place in
        let gets = ht_lookup_descriptors c key in
        (
          answer key,
          record {
            in_place = o;
            held = λ k e h.
                let b = r.held k e h in
                ((same e).0 b.0, subst (λ u. (u e).get_info ≡ k) (sym gets) b.1);
            mapped = λ e h.
                subst (λ u. f (u e).get_info ≡ some e) (sym gets) (r.mapped e ((same e).1 h));
          },
        )

    -- For a table that represents a map without the key, with room for it, a number of gets that
    -- is not 0, and a descriptor that has its own index and stands in no slot: after `ht_insert`
    -- the table represents the map in which the key has this descriptor and every other key what
    -- it had.
    pub insert_rest-Represents :
        (key : Get) (t entry : ℕ)
        → 0 < c.getcount
        → t < tables
        → (c.table_ptr entry).index ≡ entry
        → Apart c entry
        → f key ≡ none
        → HasRoom c key t
        → Represents (insert_rest c key t entry).0 (put f key entry)
    insert_rest-Represents key t entry g h named a new room =
        let i = insert_rest-Inserted c key entry named a r.in_place g t h room in
        let c' = (insert_rest c key t entry).0 in
        let fresh : (e : ℕ) → Holds c e → e ≢ entry =
          λ e q same. a q.slot q.used (q.index ∙ same) in
        record {
          in_place = i.in_place;
          held = λ k e w. elim (Bool-cases (same_get key k)) [
            | inl here ↦
                let k_is = same_get→eq key k here in
                let e_is : entry ≡ e = eq_of_some (
                  sym (put_here f key entry)
                  ∙ subst (λ k. put f key entry k ≡ some e) (sym k_is) w) in
                (
                  subst (Holds c') e_is i.inserted,
                  subst (λ e. (c'.table_ptr e).get_info ≡ k) e_is (i.inserted_key ∙ k_is),
                )
            | inr there ↦
                let w' : f k ≡ some e = rw there at w in
                let b = r.held k e w' in (i.kept e b.0, i.same_keys e (fresh e b.0) ∙ b.1)
          ];
          mapped = λ e q. elim (i.nothing_else e q) [
            | inr new_one ↦
                subst (λ e. put f key entry (c'.table_ptr e).get_info ≡ some e) new_one
                  (subst (λ k. put f key entry k ≡ some entry) (sym i.inserted_key)
                    (put_here f key entry))
            | inl old ↦
                let m = r.mapped e old in
                subst (λ k. put f key entry k ≡ some e) (sym (i.same_keys e (fresh e old)))
                  (put_there f key entry (c.table_ptr e).get_info
                      (λ same. absent (f key) e new (subst (λ k. f k ≡ some e) (sym same) m))
                    ∙ m)
          ];
        }

    -- For a table that represents a map with an entry for a key: after `ht_remove` of the entry
    -- the table represents the map without the key.
    pub ht_remove-Represents :
        (key : Get) (entry : ℕ) → f key ≡ some entry → Represents (ht_remove c entry) (drop f key)
    unfolding ht_remove
    ht_remove-Represents key entry e =
        let at = r.held key entry e in
        let (o, gone, others, back) = ht_remove-Removed c entry r.in_place at.0 in
        record {
          in_place = o;
          held = λ k x w. elim (Bool-cases (same_get key k)) [
            | inl here ↦ let w' : none ≡ some x = rw here at w in cc
            | inr there ↦
                let w' : f k ≡ some x = rw there at w in
                let b = r.held k x w' in
                (
                  others x
                      (λ same.
                        differ key k there
                          (sym at.1 ∙ subst (λ x. (c.table_ptr x).get_info ≡ k) same b.1))
                      b.0,
                  b.1,
                )
          ];
          mapped = λ x q.
              let m = r.mapped x (back x q) in
              drop_there f key (c.table_ptr x).get_info (λ same.
                gone
                  (subst (Holds (ht_remove c entry)) (eq_of_some (sym m ∙ ap f (sym same) ∙ e)) q))
              ∙ m;
        }
