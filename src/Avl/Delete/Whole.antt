-- ===== src/Avl/Delete/Whole.antt =====
-- `Tree_DeleteNode`: a node of the tree is found, and goes.
use cla_mpi.Prelude.{
  ℕ, suc, ◌≡◌, refl, sym, ap, ◌∙◌, inl, inr, Option, none, some, List, [], ◌∷◌, ◌++◌, append_assoc,
  arith, ℤ, Bool-cases, Option-cases, ◌==◌, length, length-append,
}
use cla_mpi.Avl.{
  Tree, leaf, node, at_left, at_right, Trail, zip, size, inorder, before, after, IsAvl, size-length,
}
use cla_mpi.Avl.Pool.{AvlTree, release_node, release_node-counted, IsCounted}
use cla_mpi.Avl.Delete.{delete_at, locate, tree_delete_node, item_at}
use cla_mpi.Avl.Delete.At.{inorder-delete_at, delete_at-IsAvl}
use cla_mpi.Avl.{IsAvl-zip, visit-zip}
use cla_mpi.Prelude.{subst}

module _ {ℓ} {A : Type ℓ} where
  locate-none : (k : ℕ) (t : Tree A) (p : Trail A) → item_at k t ≡ none → locate k t p ≡ none
  unfolding item_at locate
  locate-none k leaf p e = refl
  locate-none k (node i x b l r) p e =
      ground (arith, locate-none k l (at_left i x b r ∷ p), locate-none k r (at_right i x b l ∷ p))

  -- A node that is in the tree is found, under the path that leads to it.
  pub record Located (k : ℕ) (x : A) (t : Tree A) (p : Trail A) : Type ℓ where
    pub path : Trail A
    pub balance : ℤ
    pub left : Tree A
    pub right : Tree A
    pub found : locate k t p ≡ some (path, node k x balance left right)
    pub joined : zip path (node k x balance left right) ≡ zip p t

  pub locate-Located :
      (k : ℕ) (x : A) (t : Tree A) (p : Trail A) → item_at k t ≡ some x → Located k x t p
  unfolding item_at locate
  locate-Located k x leaf p e = cc
  locate-Located k x (node i y b l r) p e = elim (Bool-cases (i == k)) [
    | inl here ↦ record {
      path = p;
      balance = b;
      left = l;
      right = r;
      found = ground arith;
      joined = ground arith;
    }
    | inr there ↦ elim (Option-cases (item_at k l)) [
      | inl no_left ↦
          let d = locate-Located k x r (at_right i y b l ∷ p) (ground arith) in
          record {
            path = d.path;
            balance = d.balance;
            left = d.left;
            right = d.right;
            found = ground (arith, d.found, locate-none k l (at_left i y b r ∷ p) no_left);
            joined = d.joined;
          }
      | inr (z, in_left) ↦
          let d = locate-Located k x l (at_left i y b r ∷ p) (ground arith) in
          record {
            path = d.path;
            balance = d.balance;
            left = d.left;
            right = d.right;
            found = ground (arith, d.found);
            joined = d.joined;
          }
    ]
  ]

  size-remove :
      (t t' : Tree A) (x : A) (xs ys : List A)
      → inorder t ≡ xs ++ (x ∷ ys)
      → inorder t' ≡ xs ++ ys
      → suc (size t') ≡ size t
  size-remove t t' x xs ys e e' = omega (
    arith,
    size-length t ∙ ap length e,
    size-length t' ∙ ap length e',
    length-append xs (x ∷ ys),
    length-append xs ys,
  )

  -- The tree after a deletion: the data `x` of the node is gone from its place, and nothing else.
  pub record Deleted (x : A) (t t' : AvlTree A) : Type ℓ where
    pub prefix : List A
    pub suffix : List A
    pub was : inorder t.root ≡ prefix ++ (x ∷ suffix)
    pub now : inorder t'.root ≡ prefix ++ suffix
    pub balanced : IsAvl t'.root
    pub counted : IsCounted t'

  -- For a balanced tree whose nodes and free nodes make up the pool, `Tree_DeleteNode` of a node
  -- of the tree succeeds: the data of the node is gone from its place, the other data are in the
  -- same order, the tree is balanced, and the nodes and free nodes still make up the pool.
  pub tree_delete_node-Deleted :
      (k : ℕ) (x : A) (t : AvlTree A)
      → item_at k t.root ≡ some x
      → IsAvl t.root
      → IsCounted t
      → (t' : AvlTree A) × (moved : Option (A × A)) × (tree_delete_node t k ≡ some (t', moved))
        × Deleted x t t'
  unfolding tree_delete_node
  tree_delete_node-Deleted k x t e v n =
      let f = locate-Located k x t.root [] e in
      let d = delete_at f.path (node k x f.balance f.left f.right) in
      let (w, g) =
        IsAvl-zip f.path (node k x f.balance f.left f.right) (subst IsAvl (sym f.joined) v) in
      let was = ap inorder (sym f.joined) ∙ visit-zip (λ i a. a) f.path _ ∙ (simp append_assoc) in
      let now = inorder-delete_at f.path k x f.balance f.left f.right ∙ (simp append_assoc) in
      (
        record (release_node t d.freed) { root = d.result },
        d.replaced,
        rw (f.found, tree_delete_node),
        record {
          prefix = before f.path ++ inorder f.left;
          suffix = inorder f.right ++ after f.path;
          was = was;
          now = now;
          balanced = delete_at-IsAvl f.path k x f.balance f.left f.right w g;
          counted = release_node-counted _ _ _ _ (size-remove t.root d.result x _ _ was now) n;
        },
      )
