-- ===== src/Regions/Merging.antt =====
-- src/clampi_get.c: an eviction between the change of the list of regions and that of the tree: what
-- `new_free_region` and `free_region` are while the neighbours are joined.
use cla_mpi.Prelude.{
  ℕ, ◌≤◌, ◌≡◌, ◌≢◌, refl, sym, ap, ◌∙◌, subst, inl, inr, Bool, true, false, Option, some, List, [],
  ◌∷◌, ◌++◌, arith, count, Bool-cases, pos,
}
use cla_mpi.Cache.{Entry, Cache, free, no_entry}
use cla_mpi.Regions.{is_region, is_free}
use cla_mpi.Regions.Coalesce.{snoc_cases, last-snoc}
use cla_mpi.Regions.Layout.{Tiled, last, pos-injective}
use cla_mpi.Regions.Layout.Cut.{Tiled-Cut}
use cla_mpi.Regions.Merged.{Findable}
use cla_mpi.Regions.Shelved.{Shelved, both, Room}
use cla_mpi.Regions.Stock.{Stocked}
use cla_mpi.Regions.Tied.{found_at}

-- The regions beside one of the list are those that it is linked to.
module _ (t : ℕ → Entry) (s : ℕ → ℕ) (xs : List ℕ) (x : ℕ) (ys : List ℕ) (size : ℕ)
    (l : Tiled t s (xs ++ x ∷ ys) size) where
  pub before_it : (prev : ℕ) → (t x).mprev ≡ pos prev → (ws : List ℕ) × (xs ≡ ws ++ prev ∷ [])
  before_it prev e =
      let cut = Tiled-Cut t s xs x ys size l in
      elim (snoc_cases xs) [
        | inl first ↦
            let no : no_entry ≡ pos prev =
              subst (λ ws. last no_entry ws ≡ pos prev) first (sym cut.here.before ∙ e) in
            cc
        | inr (ws, w, split) ↦
            let at : w ≡ prev = pos-injective (
              sym (last-snoc no_entry ws w)
              ∙ subst (λ zs. last no_entry zs ≡ pos prev) split (sym cut.here.before ∙ e)) in
            (ws, split ∙ ap (λ v. ws ++ v ∷ []) at)
      ]

  pub link_before : (ws : List ℕ) (w : ℕ) → xs ≡ ws ++ w ∷ [] → (t x).mprev ≡ pos w
  link_before ws w e =
      (Tiled-Cut t s xs x ys size l).here.before ∙ ap (last no_entry) e ∙ last-snoc no_entry ws w

pub behind_it :
    (t : ℕ → Entry) (s : ℕ → ℕ) (xs : List ℕ) (x : ℕ) (ys : List ℕ) (size : ℕ)
    → Tiled t s (xs ++ x ∷ ys) size
    → (next : ℕ) → (t x).mnext ≡ pos next
    → (zs : List ℕ) × (ys ≡ next ∷ zs)
behind_it t s xs x [] size l next e =
    let no : no_entry ≡ pos next = sym (Tiled-Cut t s xs x [] size l).here.after ∙ e in cc
behind_it t s xs x (y ∷ ys) size l next e =
    let at : y ≡ next = pos-injective (sym (Tiled-Cut t s xs x (y ∷ ys) size l).here.after ∙ e) in
    (ys, ap (λ v. v ∷ ys) at)

pub link_behind :
    (t : ℕ → Entry) (s : ℕ → ℕ) (xs : List ℕ) (x y : ℕ) (ys : List ℕ) (size : ℕ)
    → Tiled t s (xs ++ x ∷ y ∷ ys) size
    → (t x).mnext ≡ pos y
link_behind t s xs x y ys size l = (Tiled-Cut t s xs x (y ∷ ys) size l).here.after

module _ {F : Type 0} where
  -- The selected region is free and in the list, and linked to the node that it had.
  abbrev pub Selected : Cache F → Option ℕ → List ℕ → Type 0
  Selected c selected xs =
      (s : ℕ) → is_region selected s ≡ true → (is_free (c.table_ptr s) ≡ true) × (1 ≤ count s xs)

  abbrev pub LinkedOnce : Cache F → Option ℕ → Type 0
  LinkedOnce c selected =
      (s : ℕ) → is_region selected s ≡ true → (j : ℕ) × ((c.table_ptr s).tnode ≡ some j)

  -- The free regions but for the new one and the selected one are in the tree. The new region is
  -- still to be put in the tree if the selected one is another one, which is in the list; otherwise
  -- the selected one is the new region, or has been joined to it.
  pub record Merging (c : Cache F) (region : ℕ) (to_index : Bool) (selected : Option ℕ)
      (xs : List ℕ) : Type 0 where
    pub shelved : Shelved c (both selected region) xs
    pub linked : LinkedOnce c selected
    pub room : Room c
    pub stocked : Stocked c xs
    pub waits : to_index ≡ true → (is_region selected region ≡ false) × Selected c selected xs
    pub done :
        to_index ≡ false → (e : ℕ) → is_region selected e ≡ true → e ≢ region → count e xs ≡ 0

  -- A free neighbour is the selected region, or in the tree at its node.
  pub Merging-Findable :
      (c : Cache F) (region : ℕ) (to_index : Bool) (selected : Option ℕ) (xs : List ℕ) (e : ℕ)
      → Merging c region to_index selected xs
      → (c.table_ptr e).kind ≡ free
      → e ≢ region
      → 1 ≤ count e xs
      → Findable c selected e
  Merging-Findable c region to_index selected xs e m f apart there =
      let hung = m.shelved.hung in
      elim (Bool-cases (is_region selected e)) [
        | inl mine ↦
            let (j, tied) = m.linked e mine in
            record {
              node = j;
              tied = tied;
              is_free = f;
              held = inl mine;
              balanced = hung.balanced;
              counted = hung.counted;
            }
        | inr hers ↦
            let (j, tied, at) = found_at c.table_ptr c.free_idx e hung.links (
              let k : is_free (c.table_ptr e) ≡ true = rw f refl in
              ground (arith, m.shelved.members e, k, hers, apart, there)) in
            record {
              node = j;
              tied = tied;
              is_free = f;
              held = inr at;
              balanced = hung.balanced;
              counted = hung.counted;
            }
      ]
