-- ===== src/Avl/Delete.antt =====
-- src/AVL/AvlTree.c: `Tree_DeleteNode` and `Tree_Replace`.
pub mod At
pub mod Whole
use cla_mpi.Prelude.{
  ℕ, zero, suc, ◌+◌, ◌≤◌, max, ◌≡◌, refl, sym, ap, ◌∙◌, Bool, true, false, inl, inr, Option, none,
  some, List, [], ◌∷◌, ◌++◌, append_assoc, append-nil, arith, ℤ, pos, negsuc, if◌then◌else◌,
  Bool-cases, Option-cases, ◌==◌, pos_part, neg_part, ◌+ℤ◌, length, length-append,
}
use cla_mpi.Avl.{
  Tree, leaf, node, index_of, Crumb, at_left, at_right, Trail, plug, zip, height, size, inorder,
  before, after, IsAvl, Fits, size-length,
}
use cla_mpi.Avl.Rebalance.{shrunk_side, delete_balance, delete_step}
use cla_mpi.Avl.Rebalance.Shrink.{
  delete_balance-IsAvl, delete_step_left, delete_step_right, delete_step_single,
}
use cla_mpi.Avl.Pool.{AvlTree, release_node, release_node-counted, IsCounted}
use cla_mpi.Avl.Order.{Sorted, Sorted-remove}

-- A deletion: the tree, the node that goes back to the pool, and the data that `Tree_Replace`
-- hands to the callback, target first, where the data of a node has moved to another node.
pub record Deletion {ℓ} (A : Type ℓ) : Type ℓ where
  pub result : Tree A
  pub freed : ℕ
  pub replaced : Option (A × A)

-- The node that takes the place of a deleted one, with its right subtree and the left turns that
-- lead down to it.
pub record Successor {ℓ} (A : Type ℓ) : Type ℓ where
  pub index : ℕ
  pub item : A
  pub right : Tree A
  pub turns : Trail A

module _ {ℓ} {A : Type ℓ} where
  -- A subtree that has lost one in height, put back below its parent; at the root there is none.
  unfoldable pub shrink : Trail A → Tree A → Tree A
  shrink [] t = t
  shrink (c ∷ p) t = delete_balance p (plug c t) (shrunk_side c)

  -- `while (successor->left != NULL) successor = successor->left`, from a node.
  unfoldable pub successor : ℕ → A → ℤ → Tree A → Tree A → Trail A → Successor A
  successor k z d leaf rr q = record { index = k; item = z; right = rr; turns = q }
  successor k z d (node j y c ll lr) rr q = successor j y c ll lr (at_left k z d rr ∷ q)

  -- `Tree_DeleteNode` on the node at the end of a path.
  unfoldable pub delete_at : Trail A → Tree A → Deletion A
  delete_at p leaf = record { result = zip p leaf; freed = 0; replaced = none }
  delete_at p (node i x b leaf leaf) = record { result = shrink p leaf; freed = i; replaced = none }
  delete_at p (node i x b leaf (node j y c rl rr)) = record {
    result = delete_balance p (node i y c rl rr) (pos 0);
    freed = j;
    replaced = some (x, y);
  }
  delete_at p (node i x b (node j y c ll lr) leaf) = record {
    result = delete_balance p (node i y c ll lr) (pos 0);
    freed = j;
    replaced = some (x, y);
  }
  delete_at p (node i x b (node j y c ll lr) (node k z d rl rr)) =
      let s = successor k z d rl rr [] in
      let place = at_right s.index s.item b (node j y c ll lr) in
      record { result = shrink (s.turns ++ (place ∷ p)) s.right; freed = i; replaced = none }

  -- The node with an index, and its path. (The code has a pointer to it.)
  unfoldable pub locate : ℕ → Tree A → Trail A → Option (Trail A × Tree A)
  locate k leaf p = none
  locate k (node i x b l r) p =
      let in_right = locate k r (at_right i x b l ∷ p) in
      if i == k
      then some (p, node i x b l r)
      else elim (locate k l (at_left i x b r ∷ p)) [ none ↦ in_right | some f ↦ some f ]

  -- `Tree_DeleteNode`, with the pair for the callback. `none` is a pointer to a node that is not in
  -- the tree, which the code does not test for.
  unfoldable pub tree_delete_node : AvlTree A → ℕ → Option (AvlTree A × Option (A × A))
  unfolding release_node
  tree_delete_node t k = elim (locate k t.root []) [
    | none ↦ none
    | some (p, n) ↦
        let d = delete_at p n in
        some (record (release_node t d.freed) { root = d.result }, d.replaced)
  ]

  -- The data of the node with an index.
  unfoldable pub item_at : ℕ → Tree A → Option A
  item_at k leaf = none
  item_at k (node i x b l r) =
      let in_right = item_at k r in
      if i == k then some x else elim (item_at k l) [ none ↦ in_right | some y ↦ some y ]
