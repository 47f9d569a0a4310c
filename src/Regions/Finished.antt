-- ===== src/Regions/Finished.antt =====
-- src/clampi_get.c: the end of an eviction, where the new free region is selected or put in the tree.
use cla_mpi.Prelude.{
  ℕ, ◌<◌, ◌≡◌, ◌≢◌, refl, sym, ap, ◌∙◌, subst, inl, inr, Bool, true, false, ◌&&◌, not, Option, some,
  List, arith, same, count, ◌==◌, Bool-cases, eq_of_test, ne_of_test,
}
use cla_mpi.Avl.{size}
use cla_mpi.Cache.{Entry, Cache, Kind, free, busy, size_of}
use cla_mpi.Window.{set_entry}
use cla_mpi.Regions.{Merge, is_region, is_free}
use cla_mpi.Regions.Added.{Added}
use cla_mpi.Regions.Evicted.{Linked-kind}
use cla_mpi.Regions.Steps.{release}
use cla_mpi.Regions.Links.{set_entry_kept, set_entry_here, set_entry_elsewhere}
use cla_mpi.Regions.Merging.{Merging, Selected}
use cla_mpi.Regions.Stock.{Stocked, Stocked-same}
use cla_mpi.Regions.Shelved.{Shelved, Shelved-same, both, Room}

module _ {F : Type 0} (n : Merge F) (selected : Option ℕ) (xs : List ℕ)
    (m : Merging n.cache n.region n.to_index selected xs) (there : count n.region xs ≡ 1) where
  -- The freed region is free, and others are as they were.
  freed_here : is_free ((release n).cache.table_ptr n.region) ≡ true
  freed_here = ap is_free (set_entry_here n.cache n.region (λ e. record e { kind = free }))

  freed_elsewhere :
      (i : ℕ)
      → i ≢ n.region
      → is_free ((release n).cache.table_ptr i) ≡ is_free (n.cache.table_ptr i)
  freed_elsewhere i h =
      ap is_free (set_entry_elsewhere n.cache n.region i (λ e. record e { kind = free }) h)

  freed_kept :
      {A : Type 0} (g : Entry → A)
      → ((x : Entry) → g (record x { kind = free }) ≡ g x)
      → (i : ℕ) → g ((release n).cache.table_ptr i) ≡ g (n.cache.table_ptr i)
  freed_kept g h = set_entry_kept g n.cache n.region (λ e. record e { kind = free }) h

  freed_tree : (release n).cache.free_idx ≡ n.cache.free_idx
  unfolding set_entry
  freed_tree = refl

  pub freed-Shelved : Shelved (release n).cache (both selected n.region) xs
  freed-Shelved =
      Shelved-same n.cache (release n).cache (both selected n.region) xs
        (freed_kept (λ e. e.tnode) (λ x. refl))
        (λ i. elim (Bool-cases (i == n.region)) [
          | inl here ↦ ground (arith, here)
          | inr off ↦
              ap (λ (t : Bool). t && not (both selected n.region i))
                (freed_elsewhere i (ne_of_test i n.region off))
        ])
        (λ i _. freed_kept size_of (λ x. refl) i) freed_tree m.shelved

  pub freed-Room : Room (release n).cache
  freed-Room = subst (λ t. size t.root < t.tot_nodes) (sym freed_tree) m.room

  pub freed-Stocked : Stocked (release n).cache xs
  unfolding set_entry
  freed-Stocked =
      Stocked-same n.cache (release n).cache xs refl refl refl
        (freed_kept (λ e. e.index) (λ x. refl)) m.stocked

  -- The new region is the selected one.
  pub taken-Shelved :
      ((e : ℕ) → is_region selected e ≡ true → e ≢ n.region → count e xs ≡ 0)
      → Shelved (release n).cache (is_region (some n.region)) xs
  taken-Shelved none_other =
      let s = freed-Shelved in
      record {
        hung = s.hung;
        sorted = s.sorted;
        members = λ e. elim (Bool-cases (e == n.region)) [
          | inl here ↦
              let at : (n.region == e) ≡ true = ground (arith, here) in
              ground (arith, s.members e, here, at)
          | inr off ↦
              let apart : (n.region == e) ≡ false = ground (arith, off) in
              elim (Bool-cases (is_region selected e)) [
                | inl mine ↦
                    let gone = none_other e mine (ne_of_test e n.region off) in
                    ground (arith, s.members e, mine, gone)
                | inr hers ↦ ground (arith, s.members e, off, apart, hers)
              ]
        ];
      }

  pub taken-Selected : Selected (release n).cache (some n.region) xs
  taken-Selected s mine =
      let at = eq_of_test n.region s mine in
      (
        ap (λ i. is_free ((release n).cache.table_ptr i)) (sym at) ∙ freed_here,
        omega (arith, there, ap (λ i. count i xs) at),
      )

  -- The new region is in the tree, with the others.
  pub indexed-Shelved :
      (d : Cache F)
      → n.to_index ≡ true
      → Added (release n).cache d n.region
      → Shelved d (is_region selected) xs × Selected d selected xs
  indexed-Shelved d t a =
      let s = freed-Shelved in
      let (off, present) = m.waits t in
      let kinds : (i : ℕ) → is_free (d.table_ptr i) ≡ is_free ((release n).cache.table_ptr i) = λ i.
        ap (λ (k : Kind). elim k [ free ↦ true | busy ↦ false ])
          (Linked-kind (release n).cache d n.region a.linked i) in
      (
        record {
          hung = a.hung;
          sorted = a.sorted;
          members = λ e. elim (Bool-cases (e == n.region)) [
            | inl here ↦
                let at = eq_of_test e n.region here in
                let self : same e n.region ≡ 1 = ground (arith, at) in
                let is =
                  kinds e ∙ ap (λ i. is_free ((release n).cache.table_ptr i)) at ∙ freed_here in
                let mine = ap (is_region selected) at ∙ off in
                let one = ap (λ i. count i xs) at ∙ there in
                ground (arith, a.more e, s.members e, self, is, mine, one, here)
            | inr other ↦
                let zero : same e n.region ≡ 0 = ground (arith, other) in
                ground (arith, a.more e, s.members e, zero, kinds e, other)
          ];
        },
        λ e mine.
            let not_it : e ≢ n.region =
              λ at. let no = sym (ap (is_region selected) at ∙ off) ∙ mine in cc in
            (kinds e ∙ freed_elsewhere e not_it ∙ (present e mine).0, (present e mine).1),
      )
