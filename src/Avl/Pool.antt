-- ===== src/Avl/Pool.antt =====
-- src/AVL/AvlTree.c: `struct Tree`, with the pool that its nodes come from. The pool's array of
-- nodes is not kept: a node stands in the tree under its index, and a node that is not in the
-- tree holds nothing that the code reads. `exit` is `none`.
use cla_mpi.Prelude.{
  false, ℕ, zero, suc, ◌+◌, ◌≤◌, Option, none, some, arith, ◌≡◌, ℤ, pos, negsuc, sub_ℕ, ◌+ℤ◌, ltb_ℤ,
  if◌then◌else◌, update, pos_part, neg_part,
}
use cla_mpi.Avl.{Tree, leaf, node, size}

-- `free_nodes` is a stack whose top is at `next_free_node`, -1 when it is empty.
pub record AvlTree {ℓ} (A : Type ℓ) : Type ℓ where
  pub root : Tree A
  pub free_nodes : ℕ → ℕ
  pub next_free_node : ℤ
  pub tot_nodes : ℕ

-- `for (i = from; i < from + n; i++) free_nodes[i] = i`
unfoldable pub fill : ℕ → ℕ → (ℕ → ℕ) → ℕ → ℕ
fill zero from a = a
fill (suc n) from a = fill n (from + 1) (update a from from)

-- Taking a node off the stack as the tree grows, and putting one back as it shrinks.
pub node_new-counted :
    (k : ℤ) (m n tot : ℕ)
    → m ≡ suc n
    → (n + pos_part k + 1 ≡ tot + neg_part k) × (neg_part k ≤ 1)
    → ltb_ℤ k (pos 0) ≡ false
    → (m + pos_part (k +ℤ negsuc 0) + 1 ≡ tot + neg_part (k +ℤ negsuc 0))
      × (neg_part (k +ℤ negsuc 0) ≤ 1)
unfolding ◌+ℤ◌
node_new-counted k m n tot e c h = ground arith

pub release_node-counted :
    (k : ℤ) (m n tot : ℕ)
    → suc m ≡ n
    → (n + pos_part k + 1 ≡ tot + neg_part k) × (neg_part k ≤ 1)
    → (m + pos_part (k +ℤ pos 1) + 1 ≡ tot + neg_part (k +ℤ pos 1)) × (neg_part (k +ℤ pos 1) ≤ 1)
unfolding ◌+ℤ◌
release_node-counted k m n tot e c = ground arith

module _ {ℓ} {A : Type ℓ} where
  -- `Tree_New`, with what `malloc` left in the new array.
  unfoldable pub tree_new : (ℕ → ℕ) → ℕ → AvlTree A
  tree_new garbage n = record {
    root = leaf;
    free_nodes = fill n 0 garbage;
    next_free_node = sub_ℕ n 1;
    tot_nodes = n;
  }

  -- `Tree_Empty`
  unfoldable pub tree_empty : AvlTree A → AvlTree A
  tree_empty t = record t {
    free_nodes = fill t.tot_nodes 0 t.free_nodes;
    next_free_node = sub_ℕ t.tot_nodes 1;
    root = leaf;
  }

  -- `Node_New`: the new node, with no children; its parent is the path at which it is put.
  unfoldable pub node_new : AvlTree A → A → Option (Tree A × AvlTree A)
  node_new t x =
      if ltb_ℤ t.next_free_node (pos 0)
      then none
      else some (
        node (t.free_nodes (pos_part t.next_free_node)) x (pos 0) leaf leaf,
        record t { next_free_node = t.next_free_node +ℤ negsuc 0 },
      )

  -- `t->free_nodes[++(t->next_free_node)] = index`
  unfoldable pub release_node : AvlTree A → ℕ → AvlTree A
  release_node t i =
      let top = t.next_free_node +ℤ pos 1 in
      record t { free_nodes = update t.free_nodes (pos_part top) i; next_free_node = top }

  -- `Tree_CountNodes`
  unfoldable pub count_nodes : AvlTree A → ℤ
  count_nodes t =
      sub_ℕ (t.tot_nodes + neg_part t.next_free_node) (pos_part t.next_free_node) +ℤ negsuc 0

  -- The nodes in the tree and those on the stack are all the nodes of the pool.
  abbrev pub IsCounted : AvlTree A → Type 0
  IsCounted t =
      (size t.root + pos_part t.next_free_node + 1 ≡ t.tot_nodes + neg_part t.next_free_node)
      × (neg_part t.next_free_node ≤ 1)

  pub tree_empty-IsCounted : (t : AvlTree A) → IsCounted (tree_empty t)
  unfolding tree_empty
  tree_empty-IsCounted t = ground arith

  -- Where the nodes of the tree and the free nodes make up the pool, `Tree_CountNodes` is the
  -- number of nodes of the tree.
  pub count_nodes-size : (t : AvlTree A) → IsCounted t → count_nodes t ≡ pos (size t.root)
  unfolding count_nodes ◌+ℤ◌
  count_nodes-size t c = ground arith

pub tree_new-IsCounted {ℓ} :
    (A : Type ℓ) (garbage : ℕ → ℕ) (n : ℕ) → IsCounted (tree_new {ℓ} {A = A} garbage n)
unfolding tree_new
tree_new-IsCounted A garbage n = ground arith
