-- ===== src/Regions/Sound.antt =====
-- src/clampi_get.c: the list of regions and the tree of the free ones together, at the start and at
-- the end of an eviction.
use cla_mpi.Prelude.{
  ℕ, ◌<◌, ◌≡◌, ◌≢◌, refl, sym, ap, ◌∙◌, subst, inl, inr, Bool, true, false, ◌&&◌, not, Option, List,
  arith, count, ◌==◌, Bool-cases, eq_of_test, if◌then◌else◌,
}
use cla_mpi.Avl.{size}
use cla_mpi.Cache.{Entry, Cache, busy, size_of}
use cla_mpi.Window.{set_entry}
use cla_mpi.Regions.{is_region, is_free}
use cla_mpi.Regions.Evicted.{sized}
use cla_mpi.Regions.Layout.{Layout}
use cla_mpi.Regions.Merging.{Merging, Selected, LinkedOnce}
use cla_mpi.Regions.Stock.{Stocked, Stocked-same}
use cla_mpi.Regions.Shelved.{Shelved, Shelved-same, both, Room}

busy_test : (e : Entry) → e.kind ≡ busy → is_free e ≡ false
busy_test e b = rw b refl

module _ {F : Type 0} where
  -- The regions fill the buffer, one behind the other, and the free ones, but for the selected one,
  -- are in the tree, which is sorted, balanced and linked to. The other descriptors are on the stack.
  pub record Sound (c : Cache F) (selected : Option ℕ) (xs : List ℕ) : Type 0 where
    pub layout : Layout c xs
    pub shelved : Shelved c (is_region selected) xs
    pub selected_there : Selected c selected xs
    pub stocked : Stocked c xs

  sized_kept :
      {A : Type 0} (g : Entry → A) (c : Cache F) (victim : ℕ)
      → ((x : Entry) (n m : ℕ)
          → g (record x { get_info = record x.get_info { rank = n; addr = m } }) ≡ g x)
      → (i : ℕ) → g ((sized c victim).table_ptr i) ≡ g (c.table_ptr i)
  unfolding sized set_entry
  sized_kept g c victim h i = elim (Bool-cases (i == victim)) [
    | inl here ↦
        rw here (
          h (c.table_ptr victim) _ _ ∙ ap (λ j. g (c.table_ptr j)) (sym (eq_of_test i victim here)))
    | inr there ↦ rw there refl
  ]

  sized_elsewhere :
      (c : Cache F) (victim i : ℕ) → i ≢ victim → (sized c victim).table_ptr i ≡ c.table_ptr i
  unfolding sized set_entry
  sized_elsewhere c victim i h = let off : (i == victim) ≡ false = ground (arith, h) in rw off refl

  sized_tree : (c : Cache F) (victim : ℕ) → (sized c victim).free_idx ≡ c.free_idx
  unfolding sized set_entry
  sized_tree c victim = refl

  sized-Stocked :
      (c : Cache F) (victim : ℕ) (xs : List ℕ) → Stocked c xs → Stocked (sized c victim) xs
  unfolding sized set_entry
  sized-Stocked c victim xs s =
      Stocked-same c (sized c victim) xs refl refl refl
        (sized_kept (λ e. e.index) c victim (λ x n k. refl)) s

  pub start-Merging :
      (c : Cache F) (victim : ℕ) (selected : Option ℕ) (xs : List ℕ)
      → Sound c selected xs
      → LinkedOnce c selected
      → Room c
      → (c.table_ptr victim).kind ≡ busy
      → Merging c victim true selected xs
  start-Merging c victim selected xs s linked room b =
      let off = busy_test (c.table_ptr victim) b in
      record {
        shelved = record {
          hung = s.shelved.hung;
          sorted = s.shelved.sorted;
          members = λ e.
              s.shelved.members e
              ∙ ap (λ (t : Bool). if t then count e xs else 0)
                  (elim (Bool-cases (e == victim)) [
                    | inl here ↦
                        let it =
                          ap (λ i. is_free (c.table_ptr i)) (eq_of_test e victim here) ∙ off in
                        ground (arith, it, here)
                    | inr there ↦ ground (arith, there)
                  ]);
        };
        linked = linked;
        room = room;
        stocked = s.stocked;
        waits = λ _. (
          elim (Bool-cases (is_region selected victim)) [
            | inl mine ↦ let no = sym (s.selected_there victim mine).0 ∙ off in cc
            | inr hers ↦ hers
          ],
          s.selected_there,
        );
        done = λ e. cc;
      }

  -- The size of the victim is written, which shows in no free region.
  pub sized-Merging :
      (c : Cache F) (victim : ℕ) (selected : Option ℕ) (xs : List ℕ)
      → (c.table_ptr victim).kind ≡ busy
      → Merging c victim true selected xs
      → Merging (sized c victim) victim true selected xs
  sized-Merging c victim selected xs b m =
      let kinds = sized_kept is_free c victim (λ x n k. refl) in
      let off = busy_test (c.table_ptr victim) b in
      record {
        shelved =
            Shelved-same c (sized c victim) (both selected victim) xs
              (sized_kept (λ e. e.tnode) c victim (λ x n k. refl))
              (λ i. ap (λ (t : Bool). t && not (both selected victim i)) (kinds i))
              (λ i there. ap size_of (
                sized_elsewhere c victim i (λ at. there (
                  ground (arith, m.shelved.members i, ap (λ j. is_free (c.table_ptr j)) at, off)))))
              (sized_tree c victim) m.shelved;
        linked = λ s mine.
            let (j, tied) = m.linked s mine in
            (j, sized_kept (λ e. e.tnode) c victim (λ x n k. refl) s ∙ tied);
        room = subst (λ t. size t.root < t.tot_nodes) (sym (sized_tree c victim)) m.room;
        stocked = sized-Stocked c victim xs m.stocked;
        waits = λ h.
            let (hers, there) = m.waits h in
            (hers, λ s mine. (kinds s ∙ (there s mine).0, (there s mine).1));
        done = m.done;
      }
