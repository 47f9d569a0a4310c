-- ===== src/Avl/Insert.antt =====
-- src/AVL/AvlTree.c: `Tree_Insert`.
use native.Mathlib.Nat.{le_trans}
use Prim.Native.Nat.{suc-le-suc}
use cla_mpi.Prelude.{
  ℕ, suc, ◌≤◌, ◌≡◌, refl, sym, ap, ◌∙◌, true, false, inl, inr, Option, none, some, List, [], ◌∷◌,
  ◌++◌, append_assoc, append-nil, arith, ℤ, pos, negsuc, leb_ℤ, ltb_ℤ, Bool-cases, pos_part, ◌+ℤ◌,
  length, All-append, All-mono, leb→le, ltb→lt, ◌<◌,
}
use cla_mpi.Avl.{
  Tree, leaf, node, index_of, size-length, at_left, at_right, Trail, plug, height, size, inorder,
  before, after, visit, visit_before, visit_after, IsAvl, Fits,
}
use cla_mpi.Avl.Rebalance.{grown_side, insert_balance, visit-insert_balance}
use cla_mpi.Avl.Rebalance.Grow.{insert_balance-IsAvl, insert_step_left, insert_step_right}
use cla_mpi.Avl.Pool.{AvlTree, node_new, node_new-counted, IsCounted}
use cla_mpi.Avl.Order.{
  Compares, AllBelow, AllFrom, Sorted, Sorted-left, Sorted-append_left, Sorted-append_right,
  insert_sorted, insert_sorted-append,
}

module _ {ℓ} {A : Type ℓ} where
  -- The loop of `Tree_Insert`: the place of the missing child where the search ends.
  unfoldable pub descend : (A → A → ℤ) → A → Tree A → Trail A → Trail A
  descend comp x leaf p = p
  descend comp x (node i y b l r) p = elim (leb_ℤ (comp x y) (pos 0)) [
    | true ↦ descend comp x l (at_left i y b r ∷ p)
    | false ↦ descend comp x r (at_right i y b l ∷ p)
  ]

  -- The new node becomes the root, or a child of the node where the search ended.
  unfoldable pub attach : Trail A → Tree A → Tree A
  attach [] t = t
  attach (c ∷ p) t = insert_balance p (plug c t) (grown_side c)

  -- `Tree_Insert`: the tree, and the index of the new node; `none` is the `exit` of `Node_New`.
  unfoldable pub tree_insert : (A → A → ℤ) → AvlTree A → A → Option (ℕ × AvlTree A)
  unfolding node_new
  tree_insert comp t x = elim (node_new t x) [
    | none ↦ none
    | some (n, t') ↦ some (index_of n, record t' { root = attach (descend comp x t.root []) n })
  ]

  -- A new node in a balanced tree.
  attach-IsAvl :
      (p : Trail A) (i : ℕ) (x : A) → Fits p 0 → IsAvl (attach p (node i x (pos 0) leaf leaf))
  unfolding attach
  attach-IsAvl [] i x f = omega arith
  attach-IsAvl (at_left j y b r ∷ p) i x f =
      let s = insert_step_left j y b (node i x (pos 0) leaf leaf) r 0 (omega arith) f.1 f.0 in
      insert_balance-IsAvl p _ (negsuc 0) _ s.0 s.1 f.2
  attach-IsAvl (at_right j y b l ∷ p) i x f =
      let s = insert_step_right j y b l (node i x (pos 0) leaf leaf) 0 f.1 (omega arith) f.0 in
      insert_balance-IsAvl p _ (pos 1) _ s.0 s.1 f.2

  pub visit-attach {κ} :
      {B : Type κ} (g : ℕ → A → B) (p : Trail A) (i : ℕ) (x : A)
      → visit g (attach p (node i x (pos 0) leaf leaf))
        ≡ visit_before g p ++ (g i x ∷ visit_after g p)
  unfolding attach
  visit-attach g [] i x = refl
  visit-attach g (at_left j y b r ∷ p) i x = visit-insert_balance g p _ _
  visit-attach g (at_right j y b l ∷ p) i x = visit-insert_balance g p _ _ ∙ simp append_assoc

  module _ (comp : A → A → ℤ) (x : A) where
    descend-Fits :
        (t : Tree A) (p : Trail A) → IsAvl t → Fits p (height t) → Fits (descend comp x t p) 0
    unfolding descend
    descend-Fits leaf p v f = f
    descend-Fits (node i y b l r) p v f = elim (Bool-cases (leb_ℤ (comp x y) (pos 0))) [
      | inl low ↦ rw (low, descend) (descend-Fits l (at_left i y b r ∷ p) v.1 (v.0, v.2, f))
      | inr high ↦ rw (high, descend) (descend-Fits r (at_right i y b l ∷ p) v.2 (v.0, v.1, f))
    ]

    pub descend_rest {κ} :
        {B : Type κ} (g : ℕ → A → B) (t : Tree A) (p : Trail A)
        → visit_before g (descend comp x t p) ++ visit_after g (descend comp x t p)
          ≡ visit_before g p ++ (visit g t ++ visit_after g p)
    unfolding descend
    descend_rest g leaf p = refl
    descend_rest g (node i y b l r) p = elim (Bool-cases (leb_ℤ (comp x y) (pos 0))) [
      | inl low ↦ rw (low, descend) (descend_rest g l (at_left i y b r ∷ p) ∙ simp append_assoc)
      | inr high ↦ rw (high, descend) (descend_rest g r (at_right i y b l ∷ p) ∙ simp append_assoc)
    ]

    module _ (key : A → ℕ) (c : Compares comp key) where
      -- What the search leaves on its left is below the new data, what it leaves on its right is not.
      descend-Sorted :
          (t : Tree A) (p : Trail A)
          → Sorted key (inorder t)
          → AllBelow key (key x) (before p)
          → AllFrom key (key x) (after p)
          → AllBelow key (key x) (before (descend comp x t p))
            × AllFrom key (key x) (after (descend comp x t p))
      unfolding descend
      descend-Sorted leaf p s b f = (b, f)
      descend-Sorted (node i y d l r) p s b f = elim (Bool-cases (leb_ℤ (comp x y) (pos 0))) [
        | inl low ↦
            let h : key x ≤ key y = leb→le _ _ (sym (c.not_above x y) ∙ low) in
            let right =
              All-mono _ _ (λ a (e : key y ≤ key a). le_trans h e) (inorder r)
                (Sorted-append_right key (inorder l) _ s).0 in
            rw (low, descend)
              (descend-Sorted l (at_left i y d r ∷ p) (Sorted-append_left key (inorder l) _ s) b
                (h, All-append _ (inorder r) (after p) right f))
        | inr high ↦
            let h : key y < key x = ltb→lt _ _ (ground (arith, c.not_above x y, high)) in
            let left =
              All-mono _ _ (λ a (e : key a ≤ key y). le_trans (suc-le-suc e) h) (inorder l)
                (Sorted-left key (inorder l) y (inorder r) s) in
            rw (high, descend)
              (descend-Sorted r (at_right i y d l ∷ p) (Sorted-append_right key (inorder l) _ s).1
                (All-append _ (before p) _ b (All-append _ (inorder l) _ left (h, tt))) f)
      ]

      attach-insert_sorted :
          (t : Tree A) (i : ℕ)
          → Sorted key (inorder t)
          → inorder (attach (descend comp x t []) (node i x (pos 0) leaf leaf))
            ≡ insert_sorted key x (inorder t)
      attach-insert_sorted t i s =
          let q = descend comp x t [] in
          let (b, f) = descend-Sorted t [] s tt tt in
          visit-attach (λ i a. a) q i x
          ∙ sym (insert_sorted-append key x (before q) (after q) b f)
          ∙ ap (insert_sorted key x) (descend_rest (λ i a. a) t [] ∙ append-nil (inorder t))

  -- The tree after an insertion: sorted data, balance, and the count of its nodes.
  pub record Inserted (key : A → ℕ) (x : A) (t t' : AvlTree A) : Type ℓ where
    pub data_inserted : inorder t'.root ≡ insert_sorted key x (inorder t.root)
    pub balanced : IsAvl t'.root
    pub counted : IsCounted t'

  length-insert_sorted :
      (key : A → ℕ) (x : A) (xs : List A) → length (insert_sorted key x xs) ≡ suc (length xs)
  unfolding insert_sorted
  length-insert_sorted key x [] = refl
  length-insert_sorted key x (y ∷ ys) = ground (arith, length-insert_sorted key x ys)

  -- With a comparison by a number, and a sorted and balanced tree whose nodes and free nodes make
  -- up the pool, of which one is left, `Tree_Insert` succeeds: the data in order are those of an
  -- insertion into the sorted list, before the first that is not below the new one, the tree is
  -- balanced, and the nodes and free nodes still make up the pool.
  pub tree_insert-Inserted :
      (comp : A → A → ℤ) (key : A → ℕ) (x : A) (t : AvlTree A)
      → Compares comp key
      → Sorted key (inorder t.root)
      → IsAvl t.root
      → IsCounted t
      → size t.root < t.tot_nodes
      → (t' : AvlTree A) × (tree_insert comp t x
          ≡ some (t.free_nodes (pos_part t.next_free_node), t'))
        × Inserted key x t t'
  unfolding tree_insert
  tree_insert-Inserted comp key x t c s v n room =
      let i = t.free_nodes (pos_part t.next_free_node) in
      let new = attach (descend comp x t.root []) (node i x (pos 0) leaf leaf) in
      let e = attach-insert_sorted comp x key c t.root i s in
      let grown : size new ≡ suc (size t.root) =
        size-length new
        ∙ ap length e
        ∙ length-insert_sorted key x (inorder t.root)
        ∙ ap suc (sym (size-length t.root)) in
      let some_left : ltb_ℤ t.next_free_node (pos 0) ≡ false = ground arith in
      (
        record t { root = new; next_free_node = t.next_free_node +ℤ negsuc 0 },
        rw (some_left, tree_insert),
        record {
          data_inserted = e;
          balanced = attach-IsAvl _ i x (descend-Fits comp x t.root [] v tt);
          counted = node_new-counted _ _ _ _ grown n some_left;
        },
      )

  -- Where the nodes and free nodes make up the pool, and all are in the tree, `Tree_Insert` exits.
  pub tree_insert-none :
      (comp : A → A → ℤ) (x : A) (t : AvlTree A)
      → IsCounted t
      → size t.root ≡ t.tot_nodes
      → tree_insert comp t x ≡ none
  unfolding tree_insert
  tree_insert-none comp x t n full =
      let none_left : ltb_ℤ t.next_free_node (pos 0) ≡ true = ground arith in
      rw (none_left, tree_insert)
