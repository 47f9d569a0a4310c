-- ===== src/Tests/Trees.antt =====
-- The tree of free regions: instances at small trees of numbers, compared by their values.
use cla_mpi.Prelude.{
  [], ◌++◌, ℕ, ◌≡◌, refl, Option, none, some, ◌∷◌, arith, ℤ, pos, negsuc, sub_ℕ, ltb, if◌then◌else◌,
  update, ◌+ℤ◌, neg,
}
use cla_mpi.Avl.{Tree, leaf, node, inorder}
use cla_mpi.Avl.Rotate.{rotate_left}
use cla_mpi.Avl.Rebalance.{insert_balance, delete_balance, insert_step, delete_step}
use cla_mpi.Avl.Pool.{node_new, release_node, AvlTree}
use cla_mpi.Avl.Order.{Compares}
use cla_mpi.Avl.Insert
use cla_mpi.Avl.Handles.{Pooled, tree_insert-Pooled, tree_delete_node-Pooled}
use cla_mpi.Avl.Insert.{tree_insert, tree_insert-Inserted, tree_insert-none, descend, attach}
use cla_mpi.Avl.Delete.{locate, delete_at, tree_delete_node, item_at}
use cla_mpi.Avl.Delete.Whole
use cla_mpi.Avl.Delete.Whole.{tree_delete_node-Deleted}
use cla_mpi.Avl.Search.{tree_csearch_node, IsCeiling, tree_csearch_node-IsCeiling}
use cla_mpi.Avl.Walk.{
  last_node, prev_node, lead_of, prev_node-in_order, first_node, next_node, rest_of,
  next_node-in_order,
}

abbrev by_value : ℕ → ℕ → ℤ
by_value a b = sub_ℕ (if ltb b a then 1 else 0) (if ltb a b then 1 else 0)

by_value-Compares : Compares by_value (λ n. n)
by_value-Compares = record {
  below = λ a b. ground arith;
  above = λ a b. ground arith;
  not_above = λ a b. ground arith;
}

-- A pool of five nodes, of which four are in the tree.
abbrev four : AvlTree ℕ
four = record {
  root =
      node 4 20 (pos 1) (node 3 10 (pos 0) leaf leaf)
        (node 2 30 (pos 1) leaf (node 1 40 (pos 0) leaf leaf));
  free_nodes = λ i. i;
  next_free_node = pos 0;
  tot_nodes = 5;
}

tree_insert-Inserted_example :
    (t' : AvlTree ℕ) × (tree_insert by_value four 50 ≡ some (0, t'))
    × Insert.Inserted (λ n. n) 50 four t'
tree_insert-Inserted_example =
    tree_insert-Inserted by_value (λ n. n) 50 four by_value-Compares (omega arith) (omega arith)
      (omega arith) (omega arith)

tree_delete_node-Deleted_example :
    (t' : AvlTree ℕ) × (moved : Option (ℕ × ℕ)) × (tree_delete_node four 3 ≡ some (t', moved))
    × Whole.Deleted 10 four t'
unfolding item_at
tree_delete_node-Deleted_example =
    tree_delete_node-Deleted 3 10 four refl (omega arith) (omega arith)

tree_csearch_node-IsCeiling_example :
    IsCeiling (λ n. n) 25 (inorder four.root) none (tree_csearch_node by_value 25 four.root)
tree_csearch_node-IsCeiling_example =
    tree_csearch_node-IsCeiling (λ n. n) 25 by_value by_value-Compares four.root (omega arith)

next_node-in_order_example :
    ((t : Tree ℕ) → rest_of (first_node t) ≡ inorder t)
    × ((p : _) (i x : ℕ) (b : ℤ) (l r : Tree ℕ)
        → rest_of (p, node i x b l r) ≡ x ∷ rest_of (next_node (p, node i x b l r)))
next_node-in_order_example = next_node-in_order {A = ℕ}

prev_node-in_order_example :
    ((t : Tree ℕ) → lead_of (last_node t) ≡ inorder t)
    × ((p : _) (i x : ℕ) (b : ℤ) (l r : Tree ℕ)
        → lead_of (p, node i x b l r) ≡ lead_of (prev_node (p, node i x b l r)) ++ (x ∷ []))
prev_node-in_order_example = prev_node-in_order {A = ℕ}

-- A root with one child, and a pool of three nodes: the child is given back, with its data in the root.
abbrev pair : AvlTree ℕ
pair = record {
  root = node 0 10 (pos 1) leaf (node 1 20 (pos 0) leaf leaf);
  free_nodes = λ i. 2;
  next_free_node = pos 0;
  tot_nodes = 3;
}

pair-Pooled : Pooled pair
pair-Pooled = record { each = λ k. ground arith; bottom = omega arith }

abbrev shrunk : AvlTree ℕ
shrunk = record pair {
  root = node 0 20 (pos 0) leaf leaf;
  free_nodes = update pair.free_nodes 1 1;
  next_free_node = pos 1;
}

pair_shrinks : tree_delete_node pair 0 ≡ some (shrunk, some (10, 20))
unfolding tree_delete_node locate delete_at delete_balance delete_step release_node ◌+ℤ◌
pair_shrinks = refl

pair_at : item_at 0 pair.root ≡ some 10
unfolding item_at
pair_at = refl

tree_delete_node-Pooled_example : Pooled shrunk
tree_delete_node-Pooled_example =
    tree_delete_node-Pooled 0 10 pair shrunk (some (10, 20)) pair-Pooled pair_at (omega arith)
      pair_shrinks

abbrev grown : AvlTree ℕ
grown = record pair {
  root = node 1 20 (pos 0) (node 0 10 (pos 0) leaf leaf) (node 2 30 (pos 0) leaf leaf);
  next_free_node = negsuc 0;
}

pair_grows : tree_insert by_value pair 30 ≡ some (2, grown)
unfolding tree_insert node_new attach descend insert_balance insert_step rotate_left neg ◌+ℤ◌
pair_grows = refl

tree_insert-Pooled_example : Pooled grown
tree_insert-Pooled_example = tree_insert-Pooled by_value 30 pair grown 2 pair-Pooled pair_grows
