-- ===== src/Regions/Allotted.antt =====
-- src/clampi_get.c: the allocation of a new entry, on the tree of free regions and on the stack of
-- descriptors.
use cla_mpi.Prelude.{
  ℕ, ◌+◌, ◌-◌, ◌≡◌, ◌≢◌, refl, ap, ◌∙◌, inl, inr, true, false, none, some, List, arith, same, ◌==◌,
  Bool-cases, pos, ℤ, eq_of_test, ne_of_test,
}
use cla_mpi.Avl.{size}
use cla_mpi.Cache.{Entry, Cache, Get, busy, size_of, set_size}
use cla_mpi.HashTable.Descriptors.{ht_insert-frame}
use cla_mpi.Window.{set_entry}
use cla_mpi.Regions.{is_region, is_free}
use cla_mpi.Regions.Evicted.{by_cases}
use cla_mpi.Regions.Links.{set_entry_kept, set_mnext_kept, update_on, update_off}
use cla_mpi.Regions.Opened.{
  inserted, inserted_new, inserted_other, placed, placed_frame, finished, marked,
}
use cla_mpi.Regions.Shelved.{Shelved, Shelved-moved}
use cla_mpi.Regions.Split.{step_h}
use cla_mpi.Regions.Stock.{Stocked, Stocked-same}

module _ {F : Type 0} where
  -- What a split does not touch.
  pub step_h_kept :
      {A : Type 0} (g : Entry → A) (d : Cache F) (new region size : ℕ)
      → ((x : Entry) (n : ℤ) → g (record x { mnext = n }) ≡ g x)
      → ((x : Entry) (p : ℤ) → g (record x { mprev = p }) ≡ g x)
      → ((x : Entry) (o : ℕ) → g (record x { offset = o }) ≡ g x)
      → ((x : Entry) (s : ℕ) → g (set_size x s) ≡ g x)
      → (i : ℕ) → g ((step_h d new region size).table_ptr i) ≡ g (d.table_ptr i)
  unfolding step_h
  step_h_kept g d new region size n p o s i =
      set_entry_kept g _ region
        (λ q. set_size (record q { offset = q.offset + size }) (size_of q - size))
        (λ x. s (record x { offset = x.offset + size }) (size_of x - size) ∙ o x (x.offset + size))
        i
      ∙ set_entry_kept g _ new _ (λ x. o x _) i
      ∙ set_entry_kept g _ region _ (λ x. p x _) i
      ∙ set_entry_kept g _ new _ (λ x. p x _) i
      ∙ set_mnext_kept g _ (d.table_ptr region).mprev _ n i
      ∙ set_entry_kept g d new _ (λ x. n x _) i

  module _ (d : Cache F) (new : ℕ) (key : Get) (start origin : ℕ) where
    abbrev after : Cache F
    after = finished d new key start origin

    -- The new entry, and the other descriptors.
    after_new : after.table_ptr new ≡ record (d.table_ptr new) {
      kind = busy;
      get_info = key;
      htindex = ((inserted d new key start).table_ptr new).htindex;
      pending = pos (placed d new key start).penptr;
    }
    unfolding finished
    after_new =
        update_on (placed d new key start).table_ptr new new (marked (placed d new key start) new)
        ∙ ap
            (λ (x : Cache F). record (x.table_ptr new) {
              pending = pos (placed d new key start).penptr;
            })
            (placed_frame d new key start)
        ∙ ap (λ (x : Entry). record x { pending = pos (placed d new key start).penptr })
            (inserted_new d new key start)

    after_other :
        (i : ℕ)
        → i ≢ new
        → after.table_ptr i
          ≡ record (d.table_ptr i) { htindex = ((inserted d new key start).table_ptr i).htindex }
    unfolding finished
    after_other i h =
        update_off (placed d new key start).table_ptr new i (marked (placed d new key start) new) h
        ∙ ap (λ (x : Cache F). x.table_ptr i) (placed_frame d new key start)
        ∙ inserted_other d new key start i h

    after_kept :
        {A : Type 0} (g : Entry → A)
        → ((x : Entry) (n : ℕ) → g (record x { htindex = n }) ≡ g x)
        → (i : ℕ) → i ≢ new
        → g (after.table_ptr i) ≡ g (d.table_ptr i)
    after_kept g same i h =
        ap g (after_other i h)
        ∙ same (d.table_ptr i) ((inserted d new key start).table_ptr i).htindex

    after_tnode : (i : ℕ) → (after.table_ptr i).tnode ≡ (d.table_ptr i).tnode
    after_tnode =
        by_cases (λ i. (after.table_ptr i).tnode) (λ i. (d.table_ptr i).tnode) new
          (ap (λ (x : Entry). x.tnode) after_new) (after_kept (λ x. x.tnode) (λ x n. refl))

    after_index : (i : ℕ) → (after.table_ptr i).index ≡ (d.table_ptr i).index
    after_index =
        by_cases (λ i. (after.table_ptr i).index) (λ i. (d.table_ptr i).index) new
          (ap (λ (x : Entry). x.index) after_new) (after_kept (λ x. x.index) (λ x n. refl))

    after_frame :
        (after.free_idx ≡ d.free_idx)
        × (after.ht_entries ≡ d.ht_entries)
        × (after.next_free_entry ≡ d.next_free_entry)
        × (after.free_entries ≡ d.free_entries)
    unfolding finished inserted set_entry
    after_frame =
        let p = placed_frame d new key start in
        let i = ht_insert-frame (set_entry d new (λ e. record e { kind = busy })) key start new in
        (
          ap (λ (x : Cache F). x.free_idx) p ∙ ap (λ (x : Cache F). x.free_idx) i,
          ap (λ (x : Cache F). x.ht_entries) p ∙ ap (λ (x : Cache F). x.ht_entries) i,
          ap (λ (x : Cache F). x.next_free_entry) p ∙ ap (λ (x : Cache F). x.next_free_entry) i,
          ap (λ (x : Cache F). x.free_entries) p ∙ ap (λ (x : Cache F). x.free_entries) i,
        )

    pub after-Stocked : (xs : List ℕ) → Stocked d xs → Stocked after xs
    after-Stocked xs =
        let (_, n, next, entries) = after_frame in
        Stocked-same d after xs n next entries after_index

    -- The free regions of the list but for the new entry are in the tree.
    pub after-Shelved :
        (xs : List ℕ) → Shelved d (is_region (some new)) xs → Shelved after (is_region none) xs
    after-Shelved xs s =
        let self : (new == new) ≡ true = ground arith in
        Shelved-moved d after (is_region (some new)) (is_region none) xs after_tnode
          (λ i. elim (Bool-cases (i == new)) [
            | inl here ↦
                let at = eq_of_test i new here in
                let off : is_free (after.table_ptr i) ≡ false =
                  ap (λ j. is_free (after.table_ptr j)) at ∙ ap is_free after_new in
                let mine : (new == i) ≡ true = ground (arith, here) in ground (arith, off, mine)
            | inr there ↦
                let kept = after_kept is_free (λ x n. refl) i (ne_of_test i new there) in
                let other : (new == i) ≡ false = ground (arith, there) in
                ground (arith, kept, other)
          ])
          (λ i present.
            after_kept size_of (λ x n. refl) i
              (λ at.
                let mine : (new == i) ≡ true = ground (arith, at) in
                present (ground (arith, s.members i, mine))))
          after_frame.0 s
