-- ===== src/Avl.antt =====
-- src/AVL/AvlTree.c: the tree of free regions. A node is a value that holds its own index in the
-- pool, its data, its balance and its subtrees; a null pointer is `leaf`. The parent pointers of
-- a node are its path: the nodes above it, nearest first, each with the side on which the path
-- went down and with its other subtree.
pub mod Rotate
pub mod Rebalance
pub mod Pool
pub mod Order
pub mod Insert
pub mod Delete
pub mod Search
pub mod Walk
pub mod Cells
pub mod Handles
pub mod Stack
use cla_mpi.Prelude.{
  ℕ, suc, ◌+◌, ◌≤◌, max, ◌≡◌, refl, List, [], ◌∷◌, ◌++◌, append_assoc, append-nil, length,
  length-append, arith, ℤ, pos, negsuc, pos_part, neg_part,
}

-- `struct Node`.
pub data Tree {ℓ} (A : Type ℓ) : Type ℓ where
  leaf : Tree A
  node : (index : ℕ) → (item : A) → (balance : ℤ) → (left right : Tree A) → Tree A

-- A parent, as seen from its left child (with the right one kept) or from its right child.
pub data Crumb {ℓ} (A : Type ℓ) : Type ℓ where
  at_left : (index : ℕ) → (item : A) → (balance : ℤ) → (right : Tree A) → Crumb A
  at_right : (index : ℕ) → (item : A) → (balance : ℤ) → (left : Tree A) → Crumb A

abbrev pub Trail {ℓ} : Type ℓ → Type ℓ
Trail A = List (Crumb A)

-- The balance of a node is the height of its right subtree less that of its left one, and is
-- -1, 0 or 1.
abbrev pub Balanced : ℤ → ℕ → ℕ → Type 0
Balanced b hl hr = (pos_part b + hl ≡ neg_part b + hr) × (pos_part b ≤ 1) × (neg_part b ≤ 1)

module _ {ℓ} {A : Type ℓ} where
  -- A node put back in its parent: what its parent's child pointer and its own parent pointer say.
  abbrev pub plug : Crumb A → Tree A → Tree A
  plug (at_left i x b r) t = node i x b t r
  plug (at_right i x b l) t = node i x b l t

  -- The whole tree, seen from its root.
  abbrev pub zip : Trail A → Tree A → Tree A
  zip [] t = t
  zip (c ∷ p) t = zip p (plug c t)

  abbrev pub height : Tree A → ℕ
  height leaf = 0
  height (node i x b l r) = suc (max (height l) (height r))

  abbrev pub size : Tree A → ℕ
  size leaf = 0
  size (node i x b l r) = suc (size l + size r)

  -- A node as a pointer; `leaf`, the null pointer, has none.
  abbrev pub index_of : Tree A → ℕ
  index_of leaf = 0
  index_of (node i x b l r) = i

  abbrev pub balance_of : Tree A → ℤ
  balance_of leaf = pos 0
  balance_of (node i x b l r) = b

  -- What a function makes of each node, from left to right, for a tree and what lies beside a path.
  module _ {κ} {B : Type κ} (g : ℕ → A → B) where
    abbrev pub visit : Tree A → List B
    visit leaf = []
    visit (node i x b l r) = visit l ++ (g i x ∷ visit r)

    abbrev pub visit_before : Trail A → List B
    visit_before [] = []
    visit_before (at_left i x b r ∷ p) = visit_before p
    visit_before (at_right i x b l ∷ p) = visit_before p ++ (visit l ++ (g i x ∷ []))

    abbrev pub visit_after : Trail A → List B
    visit_after [] = []
    visit_after (at_left i x b r ∷ p) = g i x ∷ (visit r ++ visit_after p)
    visit_after (at_right i x b l ∷ p) = visit_after p

  -- The data.
  abbrev pub inorder : Tree A → List A
  inorder = visit (λ i x. x)

  abbrev pub before : Trail A → List A
  before = visit_before (λ i x. x)

  abbrev pub after : Trail A → List A
  after = visit_after (λ i x. x)

  abbrev pub IsAvl : Tree A → Type 0
  IsAvl leaf = Unit {0}
  IsAvl (node i x b l r) = Balanced b (height l) (height r) × IsAvl l × IsAvl r

  -- The nodes of a path are balanced if a subtree of height `h` hangs at its end.
  abbrev pub Fits : Trail A → ℕ → Type 0
  Fits [] h = Unit {0}
  Fits (at_left i x b r ∷ p) h = Balanced b h (height r) × IsAvl r × Fits p (suc (max h (height r)))
  Fits (at_right i x b l ∷ p) h =
      Balanced b (height l) h × IsAvl l × Fits p (suc (max (height l) h))

  pub visit-zip {κ} :
      {B : Type κ} (g : ℕ → A → B) (p : Trail A) (t : Tree A)
      → visit g (zip p t) ≡ visit_before g p ++ (visit g t ++ visit_after g p)
  visit-zip g [] t = simp append-nil
  visit-zip g (at_left i x b r ∷ p) t = simp (visit-zip g p, append_assoc)
  visit-zip g (at_right i x b l ∷ p) t = simp (visit-zip g p, append_assoc)

  pub zip-IsAvl : (p : Trail A) (t : Tree A) → IsAvl t → Fits p (height t) → IsAvl (zip p t)
  zip-IsAvl [] t v f = v
  zip-IsAvl (at_left i x b r ∷ p) t v f = zip-IsAvl p _ (f.0, v, f.1) f.2
  zip-IsAvl (at_right i x b l ∷ p) t v f = zip-IsAvl p _ (f.0, f.1, v) f.2

  pub size-length : (t : Tree A) → size t ≡ length (inorder t)
  size-length leaf = refl
  size-length (node i y b l r) =
      omega (arith, length-append (inorder l) (y ∷ inorder r), size-length l, size-length r)

  -- What hangs at the end of a path in a balanced tree is balanced, and fits there.
  pub IsAvl-zip : (p : Trail A) (t : Tree A) → IsAvl (zip p t) → IsAvl t × Fits p (height t)
  IsAvl-zip [] t v = (v, tt)
  IsAvl-zip (at_left i x b r ∷ p) t v =
      let (w, f) = IsAvl-zip p (node i x b t r) v in (w.1, (w.0, w.2, f))
  IsAvl-zip (at_right i x b l ∷ p) t v =
      let (w, f) = IsAvl-zip p (node i x b l t) v in (w.2, (w.0, w.1, f))
