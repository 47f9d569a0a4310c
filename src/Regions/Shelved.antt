-- ===== src/Regions/Shelved.antt =====
-- src/clampi_get.c: which regions are in the tree. All the free ones of the list are, except the one
-- that `CMPI_Get` has selected for the new entry and the one that an eviction is at work on.
use cla_mpi.Prelude.{
  ℕ, ◌≤◌, ◌<◌, ◌≡◌, ◌≢◌, refl, sym, ap, ◌∙◌, subst, inl, inr, Bool, false, ◌&&◌, ◌||◌, not, Option,
  some, List, [], ◌∷◌, arith, same, count, ◌==◌, if◌then◌else◌, All, All-mono, Bool-cases,
  eq_of_test,
}
use cla_mpi.Avl.{inorder, IsAvl, size}
use cla_mpi.Avl.Pool.{AvlTree, IsCounted}
use cla_mpi.Avl.Order.{Sorted}
use cla_mpi.Avl.Cells.{cells}
use cla_mpi.Cache.{Entry, Cache}
use cla_mpi.Regions.{is_region, is_free}
use cla_mpi.Regions.Layout.{Absent, Distinct}
use cla_mpi.Regions.Fit.{Sorted-same}
use cla_mpi.Regions.Hung.{Hung}
use cla_mpi.Regions.Added.{sizes_of}
use cla_mpi.Regions.Tied.{Ties, Tied}

pub count-Absent : (e : ℕ) (xs : List ℕ) → Absent e xs → count e xs ≡ 0
count-Absent e [] a = refl
count-Absent e (x ∷ xs) a =
    let other : (x == e) ≡ false = ground (arith, a.0) in
    ground (arith, other, count-Absent e xs a.1)

pub count-Distinct : (e : ℕ) (xs : List ℕ) → Distinct xs → count e xs ≤ 1
count-Distinct e [] d = omega arith
count-Distinct e (x ∷ xs) d = elim (Bool-cases (x == e)) [
  | inl here ↦
      let at = eq_of_test x e here in
      let gone = count-Absent e xs (subst (λ y. Absent y xs) at d.0) in ground (arith, here, gone)
  | inr there ↦ ground (arith, there, count-Distinct e xs d.1)
]

pub Absent-count : (e : ℕ) (xs : List ℕ) → count e xs ≡ 0 → Absent e xs
Absent-count e [] h = tt
Absent-count e (x ∷ xs) h = (
  λ at. let self : same e x ≡ 1 = ground (arith, at) in absurd (omega (arith, self, h)),
  Absent-count e xs (omega (arith, h)),
)

pub All-present : (P : ℕ → Type 0) (xs : List ℕ) → ((x : ℕ) → count x xs ≢ 0 → P x) → All P xs
All-present P [] h = tt
All-present P (x ∷ xs) h = (
  h x (λ e. let self : same x x ≡ 1 = ground arith in absurd (omega (arith, self, e))),
  All-present P xs (λ y n. h y (λ e. n (omega (arith, e)))),
)

-- Only the links of descriptors to nodes matter for the tree.
pub Tied-same :
    (t u : ℕ → Entry) (tree : AvlTree ℕ)
    → ((i : ℕ) → (u i).tnode ≡ (t i).tnode)
    → Tied t tree
    → Tied u tree
Tied-same t u tree e w = record {
  pool = w.pool;
  tied = All-mono (Ties t) (Ties u) (λ c h. e c.1 ∙ h) (cells tree.root) w.tied;
  once = w.once;
}

-- The selected region and another one are out of the tree.
abbrev pub both : Option ℕ → ℕ → ℕ → Bool
both selected region e = is_region selected e || e == region

module _ {F : Type 0} where
  -- The free regions of a list are in the tree, sorted by size, but for those that are out of it.
  pub record Shelved (c : Cache F) (out : ℕ → Bool) (xs : List ℕ) : Type 0 where
    pub hung : Hung c
    pub sorted : Sorted (sizes_of c) (inorder c.free_idx.root)
    pub members :
        (e : ℕ)
        → count e (inorder c.free_idx.root)
          ≡ (if is_free (c.table_ptr e) && not (out e) then count e xs else 0)

  -- A descriptor that has been linked to a node still is.
  abbrev pub StillLinked : Cache F → Cache F → Type 0
  StillLinked c d =
      (i j : ℕ) → (c.table_ptr i).tnode ≡ some j → (l : ℕ) × ((d.table_ptr i).tnode ≡ some l)

  -- The pool has a node left.
  abbrev pub Room : Cache F → Type 0
  Room c = size c.free_idx.root < c.free_idx.tot_nodes

  pub Hung-same :
      (c d : Cache F)
      → ((i : ℕ) → (d.table_ptr i).tnode ≡ (c.table_ptr i).tnode)
      → d.free_idx ≡ c.free_idx
      → Hung c
      → Hung d
  Hung-same c d e f h = record {
    balanced = subst (λ t. IsAvl t.root) (sym f) h.balanced;
    counted = subst IsCounted (sym f) h.counted;
    links =
        subst (Tied d.table_ptr) (sym f) (Tied-same c.table_ptr d.table_ptr c.free_idx e h.links);
  }

  -- What is written elsewhere does not matter for the tree.
  pub Shelved-moved :
      (c d : Cache F) (out waiting : ℕ → Bool) (xs : List ℕ)
      → ((i : ℕ) → (d.table_ptr i).tnode ≡ (c.table_ptr i).tnode)
      → ((i : ℕ)
          → is_free (d.table_ptr i) && not (waiting i) ≡ is_free (c.table_ptr i) && not (out i))
      → ((i : ℕ) → count i (inorder c.free_idx.root) ≢ 0 → sizes_of d i ≡ sizes_of c i)
      → d.free_idx ≡ c.free_idx
      → Shelved c out xs
      → Shelved d waiting xs
  Shelved-moved c d out waiting xs links kinds sizes tree h = record {
    hung = Hung-same c d links tree h.hung;
    sorted =
        subst (λ t. Sorted (sizes_of d) (inorder t.root)) (sym tree)
          (Sorted-same (sizes_of c) (sizes_of d) (inorder c.free_idx.root)
            (All-present (λ i. sizes_of d i ≡ sizes_of c i) (inorder c.free_idx.root) sizes)
            h.sorted);
    members = λ e.
        ap (λ t. count e (inorder t.root)) tree
        ∙ h.members e
        ∙ ap (λ (b : Bool). if b then count e xs else 0) (sym (kinds e));
  }

  pub Shelved-same :
      (c d : Cache F) (out : ℕ → Bool) (xs : List ℕ)
      → ((i : ℕ) → (d.table_ptr i).tnode ≡ (c.table_ptr i).tnode)
      → ((i : ℕ) → is_free (d.table_ptr i) && not (out i) ≡ is_free (c.table_ptr i) && not (out i))
      → ((i : ℕ) → count i (inorder c.free_idx.root) ≢ 0 → sizes_of d i ≡ sizes_of c i)
      → d.free_idx ≡ c.free_idx
      → Shelved c out xs
      → Shelved d out xs
  Shelved-same c d out xs = Shelved-moved c d out out xs
