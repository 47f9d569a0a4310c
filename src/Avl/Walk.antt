-- ===== src/Avl/Walk.antt =====
-- src/AVL/AvlTree.c: `Tree_FirstNode`, `Tree_LastNode`, `Tree_NextNode`, `Tree_PrevNode` and
-- `Node_GetData`. A node is given with its path; the null pointer is `leaf`, with no path.
use cla_mpi.Prelude.{
  ℕ, ◌≡◌, refl, sym, ap, ◌∙◌, Option, none, some, List, [], ◌∷◌, ◌++◌, append_assoc, append-nil, ℤ,
}
use cla_mpi.Avl.{Tree, leaf, node, at_left, at_right, Trail, inorder, before, after}

abbrev pub Place {ℓ} : Type ℓ → Type ℓ
Place A = Trail A × Tree A

module _ {ℓ} {A : Type ℓ} where
  abbrev null : Place A
  null = ([], leaf)

  -- `while (node->left != NULL) node = node->left`
  unfoldable pub leftmost : ℕ → A → ℤ → Tree A → Tree A → Trail A → Place A
  leftmost i x b leaf r p = (p, node i x b leaf r)
  leftmost i x b (node j y c ll lr) r p = leftmost j y c ll lr (at_left i x b r ∷ p)

  -- `while (node->right != NULL) node = node->right`
  unfoldable pub rightmost : ℕ → A → ℤ → Tree A → Tree A → Trail A → Place A
  rightmost i x b l leaf p = (p, node i x b l leaf)
  rightmost i x b l (node j y c rl rr) p = rightmost j y c rl rr (at_right i x b l ∷ p)

  unfoldable pub first_node : Tree A → Place A
  unfolding leftmost
  first_node leaf = null
  first_node (node i x b l r) = leftmost i x b l r []

  unfoldable pub last_node : Tree A → Place A
  unfolding rightmost
  last_node leaf = null
  last_node (node i x b l r) = rightmost i x b l r []

  -- `do { nTemp = n; n = n->parent; } while (n != NULL && n->right == nTemp)`
  unfoldable pub up_from_right : Trail A → Tree A → Place A
  up_from_right [] t = null
  up_from_right (at_left i x b r ∷ p) t = (p, node i x b t r)
  up_from_right (at_right i x b l ∷ p) t = up_from_right p (node i x b l t)

  unfoldable pub up_from_left : Trail A → Tree A → Place A
  up_from_left [] t = null
  up_from_left (at_left i x b r ∷ p) t = up_from_left p (node i x b t r)
  up_from_left (at_right i x b l ∷ p) t = (p, node i x b l t)

  unfoldable pub next_node : Place A → Place A
  unfolding leftmost up_from_right
  next_node (p, leaf) = null
  next_node (p, node i x b l leaf) = up_from_right p (node i x b l leaf)
  next_node (p, node i x b l (node j y c rl rr)) = leftmost j y c rl rr (at_right i x b l ∷ p)

  unfoldable pub prev_node : Place A → Place A
  unfolding rightmost up_from_left
  prev_node (p, leaf) = null
  prev_node (p, node i x b leaf r) = up_from_left p (node i x b leaf r)
  prev_node (p, node i x b (node j y c ll lr) r) = rightmost j y c ll lr (at_left i x b r ∷ p)

  -- `Node_GetData`, of a node or a null pointer.
  unfoldable pub get_data : Tree A → Option A
  get_data leaf = none
  get_data (node i x b l r) = some x

  -- The data from a node on to the right, and up to it from the left; none at the null pointer.
  abbrev pub rest_of : Place A → List A
  rest_of (p, leaf) = []
  rest_of (p, node i x b l r) = x ∷ (inorder r ++ after p)

  abbrev pub lead_of : Place A → List A
  lead_of (p, leaf) = []
  lead_of (p, node i x b l r) = before p ++ (inorder l ++ (x ∷ []))

  rest_of-leftmost :
      (i : ℕ) (x : A) (b : ℤ) (l r : Tree A) (p : Trail A)
      → rest_of (leftmost i x b l r p) ≡ inorder (node i x b l r) ++ after p
  unfolding leftmost
  rest_of-leftmost i x b leaf r p = refl
  rest_of-leftmost i x b (node j y c ll lr) r p =
      rest_of-leftmost j y c ll lr (at_left i x b r ∷ p) ∙ (simp append_assoc)

  lead_of-rightmost :
      (i : ℕ) (x : A) (b : ℤ) (l r : Tree A) (p : Trail A)
      → lead_of (rightmost i x b l r p) ≡ before p ++ inorder (node i x b l r)
  unfolding rightmost
  lead_of-rightmost i x b l leaf p = refl
  lead_of-rightmost i x b l (node j y c rl rr) p =
      lead_of-rightmost j y c rl rr (at_right i x b l ∷ p) ∙ (simp append_assoc)

  rest_of-up : (p : Trail A) (t : Tree A) → rest_of (up_from_right p t) ≡ after p
  unfolding up_from_right
  rest_of-up [] t = refl
  rest_of-up (at_left i x b r ∷ p) t = refl
  rest_of-up (at_right i x b l ∷ p) t = rest_of-up p (node i x b l t)

  lead_of-up : (p : Trail A) (t : Tree A) → lead_of (up_from_left p t) ≡ before p
  unfolding up_from_left
  lead_of-up [] t = refl
  lead_of-up (at_left i x b r ∷ p) t = lead_of-up p (node i x b t r)
  lead_of-up (at_right i x b l ∷ p) t = refl

  -- From `Tree_FirstNode` on the data are those of the whole tree in order, and from each node
  -- `Tree_NextNode` leads to the next data.
  pub next_node-in_order :
      ((t : Tree A) → rest_of (first_node t) ≡ inorder t)
      × ((p : Trail A) (i : ℕ) (x : A) (b : ℤ) (l r : Tree A)
          → rest_of (p, node i x b l r) ≡ x ∷ rest_of (next_node (p, node i x b l r)))
  next_node-in_order = (first, next)
    where
      first : (t : Tree A) → rest_of (first_node t) ≡ inorder t
      first leaf = unfold first_node in refl
      first (node i x b l r) = unfold first_node in rest_of-leftmost i x b l r [] ∙ append-nil _

      next :
          (p : Trail A) (i : ℕ) (x : A) (b : ℤ) (l r : Tree A)
          → rest_of (p, node i x b l r) ≡ x ∷ rest_of (next_node (p, node i x b l r))
      next p i x b l leaf = unfold next_node in ap (◌∷◌ x) (sym (rest_of-up p (node i x b l leaf)))
      next p i x b l (node j y c rl rr) =
          unfold next_node in ap (◌∷◌ x) (sym (rest_of-leftmost j y c rl rr (at_right i x b l ∷ p)))

  -- Up to `Tree_LastNode` the data are those of the whole tree in order, and from each node
  -- `Tree_PrevNode` leads to the data before it.
  pub prev_node-in_order :
      ((t : Tree A) → lead_of (last_node t) ≡ inorder t)
      × ((p : Trail A) (i : ℕ) (x : A) (b : ℤ) (l r : Tree A)
          → lead_of (p, node i x b l r) ≡ lead_of (prev_node (p, node i x b l r)) ++ (x ∷ []))
  prev_node-in_order = (last, prev)
    where
      last : (t : Tree A) → lead_of (last_node t) ≡ inorder t
      last leaf = unfold last_node in refl
      last (node i x b l r) = unfold last_node in lead_of-rightmost i x b l r []

      prev :
          (p : Trail A) (i : ℕ) (x : A) (b : ℤ) (l r : Tree A)
          → lead_of (p, node i x b l r) ≡ lead_of (prev_node (p, node i x b l r)) ++ (x ∷ [])
      prev p i x b leaf r =
          unfold prev_node in ap (λ xs. xs ++ (x ∷ [])) (sym (lead_of-up p (node i x b leaf r)))
      prev p i x b (node j y c ll lr) r =
          unfold prev_node in
          sym (append_assoc (before p) (inorder (node j y c ll lr)) (x ∷ []))
          ∙ ap (λ xs. xs ++ (x ∷ [])) (sym (lead_of-rightmost j y c ll lr (at_left i x b r ∷ p)))
