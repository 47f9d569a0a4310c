-- ===== src/Regions/Joining.antt =====
-- src/clampi_get.c: a step of an eviction that joins two regions, one of which is a free neighbour.
use cla_mpi.Prelude.{
  update, ℕ, ◌+◌, ◌≤◌, ◌<◌, ◌≡◌, ◌≢◌, ◌⊎◌, refl, sym, ap, ◌∙◌, subst, inl, inr, Bool, true, false,
  ◌&&◌, not, Option, none, some, List, ◌∷◌, ◌++◌, arith, same, count, count-append, ◌==◌,
  Bool-cases, ne_of_test, eq_of_test,
}
use cla_mpi.Avl.{size}
use cla_mpi.Cache.{u32, Entry, Cache, Kind, free, busy}
use cla_mpi.Regions.{is_region, is_free}
use cla_mpi.Regions.Drawn.{
  Drawn, unindexed-Drawn, relink_tree, relink_kept, relink_stack, grow_index,
}
use cla_mpi.Regions.Stock.{Stocked, Stocked-pushed}
use cla_mpi.Regions.Join.{relink, grow}
use cla_mpi.Regions.Merged.{unindexed}
use cla_mpi.Regions.Merging.{Merging, Selected}
use cla_mpi.Regions.Rejoined.{rejoined-Shelved, rejoined_still, after_kind}

one_region :
    (selected : Option ℕ) (a b : ℕ)
    → is_region selected a ≡ true
    → is_region selected b ≡ true
    → a ≡ b
one_region none a b p q = cc
one_region (some j) a b p q = sym (eq_of_test j a p) ∙ eq_of_test j b q

and_left : (a b : Bool) → (a && b) ≡ true → a ≡ true
and_left true b h = refl
and_left false b h = cc

and_right : (a b : Bool) → (a && not b) ≡ true → b ≡ false
and_right true true h = cc
and_right true false h = refl
and_right false b h = cc

and_false : (a b : Bool) → (a && not b) ≡ false → (a ≡ false) ⊎ (b ≡ true)
and_false true true h = inr refl
and_false true false h = cc
and_false false b h = inl refl

module _ {F : Type 0} (c : Cache F) (left right other region : ℕ) (to_index : Bool)
    (selected : Option ℕ) (xs ys : List ℕ)
    (m : Merging c region to_index selected (xs ++ (left ∷ (right ∷ ys))))
    (f : is_free (c.table_ptr other) ≡ true)
    (sides : ((left ≡ other) × (right ≡ region)) ⊎ ((left ≡ region) × (right ≡ other)))
    (once : (e : ℕ) → count e (xs ++ (left ∷ (right ∷ ys))) ≤ 1) (apart : left ≢ right)
    (named : (c.table_ptr right).index ≡ right) where
  shorter :
      (e : ℕ) → count e (xs ++ (left ∷ (right ∷ ys))) ≡ count e (xs ++ (left ∷ ys)) + same e right
  shorter e = omega (arith, count-append e xs (left ∷ (right ∷ ys)), count-append e xs (left ∷ ys))

  gone : (e : ℕ) → e ≡ right → count e (xs ++ (left ∷ ys)) ≡ 0
  gone e at =
      let self : same e right ≡ 1 = ground (arith, at) in omega (arith, self, shorter e, once e)

  other_there : 1 ≤ count other (xs ++ (left ∷ (right ∷ ys)))
  other_there =
      let parts = count-append other xs (left ∷ (right ∷ ys)) in
      elim sides [
        | inl (p, q) ↦
            let self : same other left ≡ 1 = ground (arith, p) in omega (arith, self, parts)
        | inr (p, q) ↦
            let self : same other right ≡ 1 = ground (arith, q) in omega (arith, self, parts)
      ]

  not_region : other ≢ region
  not_region e = elim sides [
    | inl (p, q) ↦ apart (p ∙ e ∙ sym q)
    | inr (p, q) ↦ apart (p ∙ sym e ∙ sym q)
  ]

  module _ (d : Cache F) (w : Drawn c (grow c left right) d other selected) where
    abbrev after : Cache F
    after = relink d left right

    unmarked : to_index && not (is_region selected other) ≡ true → is_region selected left ≡ false
    unmarked h =
        let not_it = (m.waits (and_left to_index _ h)).0 in
        elim sides [
          | inl (p, q) ↦ ap (is_region selected) p ∙ and_right to_index (is_region selected other) h
          | inr (p, q) ↦ ap (is_region selected) p ∙ not_it
        ]

    still_there :
        to_index && not (is_region selected other) ≡ true
        → Selected after selected (xs ++ (left ∷ ys))
    still_there h s mine =
        let (region_off, there) = m.waits (and_left to_index _ h) in
        let other_off = and_right to_index (is_region selected other) h in
        let (is, present) = there s mine in
        let not_right : s ≢ right = λ at. elim sides [
          | inl (p, q) ↦ let no = sym (ap (is_region selected) (at ∙ q)) ∙ mine in cc
          | inr (p, q) ↦ let no = sym (ap (is_region selected) (at ∙ q)) ∙ mine in cc
        ] in
        let zero : same s right ≡ 0 = ground (arith, not_right) in
        (
          ap (λ (k : Kind). elim k [ free ↦ true | busy ↦ false ])
                (after_kind c d left right other region selected xs ys m.shelved f sides once apart
                  w s)
              ∙ is,
          omega (arith, present, shorter s, zero),
        )

    gone_from :
        to_index && not (is_region selected other) ≡ false
        → (e : ℕ) → is_region selected e ≡ true
        → e ≢ left
        → count e (xs ++ (left ∷ ys)) ≡ 0
    gone_from h e mine off = elim (and_false to_index (is_region selected other) h) [
      | inl was ↦ elim (Bool-cases (e == region)) [
        | inl here ↦
            let at = eq_of_test e region here in
            elim sides [ inl (p, q) ↦ gone e (at ∙ sym q) | inr (p, q) ↦ absurd (off (at ∙ sym p)) ]
        | inr there ↦ omega (arith, m.done was e mine (ne_of_test e region there), shorter e)
      ]
      | inr it ↦
          let at = one_region selected e other mine it in
          elim sides [ inl (p, q) ↦ absurd (off (at ∙ sym p)) | inr (p, q) ↦ gone e (at ∙ sym q) ]
    ]

    after_Stocked : Stocked after (xs ++ (left ∷ ys))
    after_Stocked =
        let (n, next, entries) = relink_stack d left right in
        let index =
          ap (λ (x : Entry). x.index) (w.retied right) ∙ grow_index c left right right ∙ named in
        Stocked-pushed c after xs ys left right (n ∙ ap (λ (x : Cache F). x.ht_entries) w.frame)
          (next ∙ ap (λ (x : Cache F). u32 (x.next_free_entry + 1)) w.frame)
          (entries
            ∙ ap (update d.free_entries (u32 (d.next_free_entry + 1))) index
            ∙ ap (λ (x : Cache F). update x.free_entries (u32 (x.next_free_entry + 1)) right)
                w.frame)
          (λ i.
            relink_kept (λ e. e.index) d left right (λ x k. refl) (λ x p. refl) i
            ∙ ap (λ (x : Entry). x.index) (w.retied i)
            ∙ grow_index c left right i)
          m.stocked

    joined-Merging :
        Merging after left (to_index && not (is_region selected other)) selected (xs ++ (left ∷ ys))
    joined-Merging = record {
      shelved =
          rejoined-Shelved c d left right other region selected xs ys m.shelved f sides once apart
            w;
      linked = λ s mine.
          let (j, tied) = m.linked s mine in
          rejoined_still c d left right other region selected xs ys m.shelved f sides once apart w s
            j tied;
      room =
          subst (λ t. size t.root < t.tot_nodes) (sym (relink_tree d left right)) (w.room m.room);
      stocked = after_Stocked;
      waits = λ h. (unmarked h, still_there h);
      done = gone_from;
    }

  -- Two regions are joined: the neighbour leaves the tree, unless it is the selected one.
  pub join-Merging :
      (d : Cache F) × (unindexed (grow c left right) other selected ≡ some d)
      × Merging
          (relink d left right)
          left
          (to_index && not (is_region selected other))
          selected
          (xs ++ (left ∷ ys))
  join-Merging =
      let (d, run, w) =
        unindexed-Drawn c left right other region selected (xs ++ (left ∷ (right ∷ ys))) m.shelved f
          not_region other_there in
      (d, run, joined-Merging d w)
