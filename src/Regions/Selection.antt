-- ===== src/Regions/Selection.antt =====
-- src/clampi_get.c: the free region that a get selects leaves the tree.
use cla_mpi.Prelude.{
  ℕ, ◌≤◌, ◌<◌, ◌^◌, ◌≡◌, refl, sym, ap, ◌∙◌, subst, inl, inr, true, false, ◌&&◌, not, Option, none,
  some, List, [], ◌∷◌, arith, same, count, ◌==◌, if◌then◌else◌, Bool-cases, Option-cases,
  eq_of_test, All-everywhere, leb, leb→le, ltb→lt, All, ◌*◌,
}
use mathlib.Core.List.{Mem, not-mem-nil, eq-or-mem_of_mem-cons}
use mathlib.Core.Logic.Or
use cla_mpi.Access.{select_region}
use cla_mpi.Avl.{inorder}
use cla_mpi.Cache.{Entry, Cache, size_of}
use cla_mpi.Regions.{is_region, is_free, find_region, delete_region}
use cla_mpi.Regions.Added.{sizes_of}
use cla_mpi.Regions.Alike.{Alike, Alike-Kept}
use cla_mpi.Regions.Drawn.{Sorted-Unhung}
use cla_mpi.Regions.Fit.{BestFit, find_region-BestFit, Sorted-same}
use cla_mpi.Regions.Hung.{Unhung, delete_region-Unhung}
use cla_mpi.Regions.Layout.{extent, Layout, Tiled}
use cla_mpi.Regions.Layout.Change.{Tiled-Kept}
use cla_mpi.Regions.Merging.{LinkedOnce}
use cla_mpi.Regions.Shelved.{Room, All-present}
use cla_mpi.Regions.Sound.{Sound}
use cla_mpi.Regions.Stock.{Stocked-same}
use cla_mpi.Regions.Tied.{found_at}

counted-Mem : (e : ℕ) (xs : List ℕ) → Mem e xs → leb 1 (count e xs) ≡ true
counted-Mem e [] m = absurd (not-mem-nil m)
counted-Mem e (x ∷ xs) m =
    Or.elim (hlevel) (eq-or-mem_of_mem-cons m) (λ at. ground (arith, at))
      (λ n. ground (arith, counted-Mem e xs n))

module _ {F : Type 0} (c d : Cache F) (r : ℕ) (xs : List ℕ) (s : Sound c none xs)
    (there : 1 ≤ count r (inorder c.free_idx.root)) (u : Unhung c d r) where
  kept :
      {A : Type 0} (g : Entry → A)
      → ((x : Entry) (n : _) → g (record x { tnode = n }) ≡ g x)
      → (i : ℕ) → g (d.table_ptr i) ≡ g (c.table_ptr i)
  kept g same i = ap g (u.unlinked.table i) ∙ same (c.table_ptr i) (d.table_ptr i).tnode

  selected-Layout : Layout d xs
  selected-Layout =
      let t = c.table_ptr in
      let alike : (i : ℕ) → Alike (t i) (d.table_ptr i) = λ i. record {
        before = kept (λ e. e.mprev) (λ x n. refl) i;
        start = kept (λ e. e.offset) (λ x n. refl) i;
        named = kept (λ e. e.index) (λ x n. refl) i;
        after = kept (λ e. e.mnext) (λ x n. refl) i;
        same_extent = kept extent (λ x n. refl) i;
      } in
      subst (λ n. Tiled d.table_ptr (λ i. extent (d.table_ptr i)) xs n)
        (sym (ap (λ (x : Cache F). x.mem_size) u.unlinked.whole))
        (Tiled-Kept t d.table_ptr (λ i. extent (t i)) (λ i. extent (d.table_ptr i)) xs c.mem_size
          (All-everywhere _ (λ i. Alike-Kept t d.table_ptr i (alike i)) xs) s.layout)

  -- The region was free, and in the list.
  was : (is_free (c.table_ptr r) ≡ true) × (1 ≤ count r xs)
  was = elim (Bool-cases (is_free (c.table_ptr r))) [
    | inl f ↦ (f, ground (arith, s.shelved.members r, there, f))
    | inr b ↦ absurd (ground (arith, s.shelved.members r, there, b))
  ]

  selected-members :
      (e : ℕ)
      → count e (inorder d.free_idx.root)
        ≡ (if is_free (d.table_ptr e) && not (is_region (some r) e) then count e xs else 0)
  selected-members e =
      let kinds = kept is_free (λ x n. refl) e in
      elim (Bool-cases (e == r)) [
        | inl here ↦
            let mine : (r == e) ≡ true = ground (arith, here) in
            let self : same e r ≡ 1 = ground (arith, here) in
            let top = s.shelved.hung.links.once e in ground (arith, u.fewer e, top, self, mine)
        | inr other ↦
            let off : (r == e) ≡ false = ground (arith, other) in
            let zero : same e r ≡ 0 = ground (arith, other) in
            ground (arith, u.fewer e, s.shelved.members e, zero, off, kinds)
      ]

  pub selected-Sound : Sound d (some r) xs
  selected-Sound = record {
    layout = selected-Layout;
    shelved = record {
      hung = u.hung;
      sorted =
          Sorted-same (sizes_of c) (sizes_of d) (inorder d.free_idx.root)
            (All-everywhere _ (kept size_of (λ x n. refl)) (inorder d.free_idx.root))
            (Sorted-Unhung c c d r (sizes_of c) refl u s.shelved.sorted);
      members = selected-members;
    };
    selected_there = λ i mine.
        let at = eq_of_test r i mine in
        subst (λ j. (is_free (d.table_ptr j) ≡ true) × (1 ≤ count j xs)) at
          (kept is_free (λ x n. refl) r ∙ was.0, was.1);
    stocked =
        let w = u.unlinked.whole in
        Stocked-same c d xs (ap (λ (x : Cache F). x.ht_entries) w)
          (ap (λ (x : Cache F). x.next_free_entry) w) (ap (λ (x : Cache F). x.free_entries) w)
          (kept (λ e. e.index) (λ x n. refl)) s.stocked;
  }

  pub selected-LinkedOnce : LinkedOnce d (some r)
  selected-LinkedOnce i mine =
      let (k, tied, _) = found_at c.table_ptr c.free_idx r s.shelved.hung.links there in
      subst (λ j. (l : ℕ) × ((d.table_ptr j).tnode ≡ some l)) (eq_of_test r i mine)
        (u.linked_still r k tied)

module _ {F : Type 0} (c : Cache F) (size : ℕ) (xs : List ℕ) (s : Sound c none xs)
    (small : size < 2 ^ 64) where
  -- What the search for a free region leaves.
  pub record Picked (d : Cache F) (selected : Option ℕ) : Type 0 where
    pub sound : Sound d selected xs
    pub linked : LinkedOnce d selected
    pub best : BestFit c size selected
    pub whole : d ≡ record c { free_idx = d.free_idx; table_ptr = d.table_ptr }
    pub entries : (i : ℕ) → d.table_ptr i ≡ record (c.table_ptr i) { tnode = (d.table_ptr i).tnode }
    pub room : Room c → Room d

  in_table : All (λ i. i < c.ht_entries * 2) (inorder c.free_idx.root)
  in_table =
      All-present (λ i. i < c.ht_entries * 2) (inorder c.free_idx.root)
        (λ i present.
          ltb→lt i (c.ht_entries * 2)
            (ground (arith, s.shelved.members i, s.stocked.each i, present)))

  found : BestFit c size (find_region c size)
  found = find_region-BestFit c size small s.shelved.sorted in_table

  select_region-none : find_region c size ≡ none → select_region c size ≡ some (c, none)
  unfolding select_region
  select_region-none e = rw (e, select_region) refl

  select_region-some :
      (r : ℕ) (d : Cache F)
      → find_region c size ≡ some r
      → delete_region c r ≡ some d
      → select_region c size ≡ some (d, some r)
  unfolding select_region
  select_region-some r d e f = rw (e, select_region) (rw f refl)

  -- For a size under 2^64 and a cache in which the regions fill the buffer one behind the other,
  -- the free ones are in the tree, once each, sorted by size and linked to their nodes, the tree
  -- is balanced, each node of the pool is once in the tree or on its stack, and each descriptor is
  -- once in the list of regions or on its stack: the choice of a free region succeeds. It is one
  -- of the tree that is large enough, and no smaller one that is large enough is there, or there
  -- is none that is large enough; a region that is chosen has left the tree, the others are there,
  -- and the rest of the cache is as it was, but for links to nodes.
  pub select_region-Picked :
      (d : Cache F) × (selected : Option ℕ) × (select_region c size ≡ some (d, selected))
      × Picked d selected
  select_region-Picked = elim (Option-cases (find_region c size)) [
    | inl e ↦ (
      c,
      none,
      select_region-none e,
      record {
        sound = s;
        linked = λ i no. cc;
        best = subst (BestFit c size) e found;
        whole = refl;
        entries = λ i. refl;
        room = λ h. h;
      },
    )
    | inr (r, e) ↦
        let best = subst (BestFit c size) e found in
        let there = leb→le 1 _ (counted-Mem r (inorder c.free_idx.root) best.1) in
        let (d, run, u) = delete_region-Unhung c r s.shelved.hung there in
        (
          d,
          some r,
          select_region-some r d e run,
          record {
            sound = selected-Sound c d r xs s there u;
            linked = selected-LinkedOnce c d r xs s there u;
            best = best;
            whole = u.unlinked.whole;
            entries = u.unlinked.table;
            room = u.room;
          },
        )
  ]
