-- ===== src/Regions/Secure.antt =====
-- src/clampi_get.c: the eviction of an entry, on the list of regions and the tree of the free ones.
use cla_mpi.Prelude.{
  ℕ, ◌≡◌, ◌⊎◌, refl, sym, ap, ◌∙◌, subst, inl, inr, Bool, true, false, ◌&&◌, ◌||◌, not, Option,
  none, some, List, arith, count, ◌==◌, Bool-cases, negsuc, eq_of_some, leb,
}
use cla_mpi.Avl.{inorder, size}
use cla_mpi.Cache.{Entry, Cache, size_of}
use cla_mpi.HashTable.{ht_remove}
use cla_mpi.Window.{set_entry}
use cla_mpi.Regions.{Merge, is_region, is_free}
use cla_mpi.Regions.Added.{insert_region-Added}
use cla_mpi.Regions.Evict.{update_penalties, choose_region}
use cla_mpi.Regions.Evicted.{penalties_frame}
use cla_mpi.Regions.Steps.{release, finish}
use cla_mpi.Regions.Finished.{
  taken-Shelved, taken-Selected, indexed-Shelved, freed-Shelved, freed-Room,
}
use cla_mpi.Regions.Layout.{Layout}
use cla_mpi.Regions.Links.{set_entry_kept}
use cla_mpi.Regions.Merging.{Merging, Selected}
use cla_mpi.Regions.Stock.{Stocked, Stocked-same}
use cla_mpi.Regions.Shelved.{Shelved, Shelved-same}
use cla_mpi.Regions.Sound.{Sound}

-- What the test of the new region says.
alone :
    (selected : Option ℕ) (b i : Bool)
    → ((elim selected as (λ _. Bool) [ none ↦ true | some j ↦ false ]) && b || not i) ≡ true
    → (selected ≡ none) ⊎ (i ≡ false)
alone none b i h = inl refl
alone (some j) b true h = cc
alone (some j) b false h = inr refl

waiting : (a i : Bool) → (a || not i) ≡ false → i ≡ true
waiting true i h = cc
waiting false true h = refl
waiting false false h = cc

module _ {F : Type 0} where
  -- The new region is selected, or in the tree.
  pub chosen-Sound :
      (n : Merge F) (selected : Option ℕ) (size : ℕ) (xs : List ℕ) (r : Cache F × Option ℕ)
      → Merging n.cache n.region n.to_index selected xs
      → count n.region xs ≡ 1
      → choose_region (release n) selected size ≡ some r
      → Shelved r.0 (is_region r.1) xs × Selected r.0 r.1 xs
  unfolding choose_region
  chosen-Sound n selected size xs r m there run =
      let none_selected : Bool = elim selected [ none ↦ true | some j ↦ false ] in
      let fits = leb size (size_of ((release n).cache.table_ptr n.region)) in
      let GoodEnd : Cache F × Option ℕ → Type 0 =
        λ q. Shelved q.0 (is_region q.1) xs × Selected q.0 q.1 xs in
      elim (Bool-cases (none_selected && fits || not n.to_index)) [
        | inl here ↦
            let made : choose_region (release n) selected size
                ≡ some ((release n).cache, some n.region) =
              rw here refl in
            subst GoodEnd (eq_of_some (sym made ∙ run)) (
              taken-Shelved n selected xs m there (λ e mine off.
                  elim (alone selected fits n.to_index here) [
                    | inl nothing ↦
                        let no : false ≡ true = ap (λ s. is_region s e) (sym nothing) ∙ mine in cc
                    | inr i ↦ m.done i e mine off
                  ]),
              taken-Selected n selected xs m there,
            )
        | inr on ↦
            let s = freed-Shelved n selected xs m there in
            let free_one : count n.region (inorder (release n).cache.free_idx.root) ≡ 0 =
              let self : (n.region == n.region) ≡ true = ground arith in
              ground (arith, s.members n.region, self) in
            let (d, added, a) =
              insert_region-Added (release n).cache n.region s.hung s.sorted
                (freed-Room n selected xs m there) free_one in
            let made : choose_region (release n) selected size ≡ some (d, selected) =
              rw on (rw added refl) in
            subst GoodEnd (eq_of_some (sym made ∙ run)) (
              indexed-Shelved n selected xs m there d
                (waiting (none_selected && fits) n.to_index on) a)
      ]

  -- The last steps show neither in the tree nor in the free regions.
  finished_kept :
      {A : Type 0} (g : Entry → A)
      → ((x : Entry) → g (record x { pending = negsuc 0 }) ≡ g x)
      → (d : Cache F) (victim : ℕ) (prev next : Option ℕ) (i : ℕ)
      → g ((finish d victim prev next).table_ptr i) ≡ g (d.table_ptr i)
  unfolding ht_remove
  finished_kept g h d victim prev next i =
      set_entry_kept g (ht_remove (update_penalties d victim prev next) victim) victim
        (λ e. record e { pending = negsuc 0 }) h i
      ∙ ap (λ (x : Cache F). g (x.table_ptr i)) (penalties_frame d victim prev next)

  finished_tree :
      (d : Cache F) (victim : ℕ) (prev next : Option ℕ)
      → (finish d victim prev next).free_idx ≡ d.free_idx
  unfolding ht_remove set_entry
  finished_tree d victim prev next =
      ap (λ (x : Cache F). x.free_idx) (penalties_frame d victim prev next)

  -- The last steps change a slot of the hash table, and what they write in the descriptors.
  pub finished_frame :
      (d : Cache F) (victim : ℕ) (prev next : Option ℕ)
      → finish d victim prev next ≡ record d {
        table = (finish d victim prev next).table;
        table_size = (finish d victim prev next).table_size;
        table_ptr = (finish d victim prev next).table_ptr;
      }
  unfolding ht_remove set_entry
  finished_frame d victim prev next =
      let r = finish d victim prev next in
      ap
        (λ (x : Cache F). record x {
          table = r.table;
          table_size = r.table_size;
          table_ptr = r.table_ptr;
        })
        (penalties_frame d victim prev next)

  pub finished-Sound :
      (d : Cache F) (victim : ℕ) (prev next selected : Option ℕ) (xs : List ℕ)
      → Layout (finish d victim prev next) xs
      → Shelved d (is_region selected) xs
      → Selected d selected xs
      → Stocked d xs
      → Sound (finish d victim prev next) selected xs
  finished-Sound d victim prev next selected xs l s t k =
      let kinds = finished_kept is_free (λ x. refl) d victim prev next in
      let frame = finished_frame d victim prev next in
      record {
        layout = l;
        shelved =
            Shelved-same d (finish d victim prev next) (is_region selected) xs
              (finished_kept (λ e. e.tnode) (λ x. refl) d victim prev next)
              (λ i. ap (λ (b : Bool). b && not (is_region selected i)) (kinds i))
              (λ i _. finished_kept size_of (λ x. refl) d victim prev next i)
              (finished_tree d victim prev next) s;
        stocked =
            Stocked-same d (finish d victim prev next) xs (ap (λ (x : Cache F). x.ht_entries) frame)
              (ap (λ (x : Cache F). x.next_free_entry) frame)
              (ap (λ (x : Cache F). x.free_entries) frame)
              (finished_kept (λ e. e.index) (λ x. refl) d victim prev next) k;
        selected_there = λ i mine. (kinds i ∙ (t i mine).0, (t i mine).1);
      }
