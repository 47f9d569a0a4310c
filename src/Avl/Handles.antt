-- ===== src/Avl/Handles.antt =====
-- src/AVL/AvlTree.c: the pool of nodes. Each of its nodes is in the tree or on the stack of free
-- nodes, and there once only: no node is given out twice.
use cla_mpi.Prelude.{
  ℕ, ◌+◌, ◌≤◌, ◌<◌, ◌≡◌, ◌⊎◌, refl, sym, ap, ◌∙◌, subst, inl, inr, false, Option, none, some, List,
  [], ◌∷◌, arith, ℤ, pos, negsuc, ◌+ℤ◌, pos_part, neg_part, ltb, if◌then◌else◌, same, count, tally,
  tally-append, ltb_ℤ, Bool-cases, eq_of_some,
}
use cla_mpi.Avl.{Tree, leaf, node, IsAvl, IsAvl-zip, visit-zip}
use cla_mpi.Avl.Pool.{AvlTree, fill, tree_empty, release_node}
use cla_mpi.Avl.Insert.{tree_insert, attach, descend}
use cla_mpi.Avl.Delete.{delete_at, tree_delete_node, item_at}
use cla_mpi.Avl.Delete.Whole.{locate-Located}
use cla_mpi.Avl.Cells.{
  cells, indices, Unseated, Seated, delete_at-Unseated, attach-Seated, tally-visit,
}
use cla_mpi.Avl.Stack.{stack, depth, fill_at, count-stack, all_free, released-each, taken-each}

module _ {ℓ} {A : Type ℓ} where
  pub record Pooled (t : AvlTree A) : Type 0 where
    pub each :
        (k : ℕ)
        → count k (indices t.root) + count k (stack t.free_nodes (depth t.next_free_node))
          ≡ (if ltb k t.tot_nodes then 1 else 0)
    pub bottom : neg_part t.next_free_node ≤ 1

  -- A sum over the cells that are left, and over those that are gone.
  tally-Unseated :
      (w : ℕ × A → ℕ) (k : ℕ) (x : A) (was now : List (ℕ × A)) (freed : ℕ)
      (replaced : Option (A × A))
      → Unseated k x was now freed replaced
      → ((tally w was ≡ tally w now + w (k, x)) × (freed ≡ k))
        ⊎ ((y : A) × (tally w was + w (k, y) ≡ tally w now + w (k, x) + w (freed, y)))
  tally-Unseated w k x was now freed replaced (before, after, u) = elim u [
    | inl (e, n, f, _) ↦ inl (
      omega (
        arith,
        ap (tally w) e,
        ap (tally w) n,
        tally-append w before ((k, x) ∷ after),
        tally-append w before after,
      ),
      f,
    )
    | inr (j, y, e, n, f, _) ↦
        let parts : tally w was ≡ tally w before + (w (k, x) + (w (j, y) + tally w after)) =
          elim e [
            | inl left ↦
                omega (arith, ap (tally w) left, tally-append w before ((k, x) ∷ ((j, y) ∷ after)))
            | inr right ↦
                omega (arith, ap (tally w) right, tally-append w before ((j, y) ∷ ((k, x) ∷ after)))
          ] in
        inr (
          y,
          omega (
            arith,
            parts,
            ap (tally w) n,
            tally-append w before ((k, y) ∷ after),
            ap (λ i. w (i, y)) f,
          ),
        )
  ]

  -- A sum over indices is one over cells.
  tally-indices : (m : ℕ) (t : Tree A) → count m (indices t) ≡ tally (λ c. same m c.0) (cells t)
  tally-indices m t =
      tally-visit (same m) (λ c. same m c.0) (λ i x. i) (λ i x. (i, x)) (λ i x. refl) t

  count-Unseated :
      (k m : ℕ) (x : A) (s t : Tree A) (freed : ℕ) (replaced : Option (A × A))
      → Unseated k x (cells s) (cells t) freed replaced
      → count m (indices t) + same m freed ≡ count m (indices s)
  count-Unseated k m x s t freed replaced u =
      let ps = tally-indices m s in
      let pt = tally-indices m t in
      elim (tally-Unseated (λ c. same m c.0) k x (cells s) (cells t) freed replaced u) [
        | inl (e, f) ↦ let g = ap (same m) f in omega (arith, ps, pt, e, g)
        | inr (y, e) ↦ omega (arith, ps, pt, e)
      ]

  -- `Tree_DeleteNode` takes the cell of its node out, and puts the freed index on the stack.
  pub record Emptied (k : ℕ) (x : A) (t t' : AvlTree A) (replaced : Option (A × A)) : Type ℓ where
    pub freed : ℕ
    pub unseated : Unseated k x (cells t.root) (cells t'.root) freed replaced
    pub released : t' ≡ record (release_node t freed) { root = t'.root }

  pub tree_delete_node-Emptied :
      (k : ℕ) (x : A) (t t' : AvlTree A) (replaced : Option (A × A))
      → item_at k t.root ≡ some x
      → IsAvl t.root
      → tree_delete_node t k ≡ some (t', replaced)
      → Emptied k x t t' replaced
  unfolding tree_delete_node
  tree_delete_node-Emptied k x t t' replaced at v run =
      let f = locate-Located k x t.root [] at in
      let n = node k x f.balance f.left f.right in
      let d = delete_at f.path n in
      let (w, g) = IsAvl-zip f.path n (subst IsAvl (sym f.joined) v) in
      let made : AvlTree A = record (release_node t d.freed) { root = d.result } in
      let runs : tree_delete_node t k ≡ some (made, d.replaced) =
        rw (f.found, tree_delete_node) refl in
      let e : (made, d.replaced) ≡ (t', replaced) = eq_of_some (sym runs ∙ run) in
      let u =
        subst (λ cs. Unseated k x cs (cells d.result) d.freed d.replaced)
          (sym (visit-zip (λ i a. (i, a)) f.path n) ∙ ap cells f.joined)
          (delete_at-Unseated f.path k x f.balance f.left f.right w) in
      subst (λ r. Emptied k x t r.0 r.1) e
        (record { freed = d.freed; unseated = u; released = refl })

  -- `Tree_Insert` takes an index off the stack, for the cell of the new data.
  pub record Filled (k : ℕ) (x : A) (t t' : AvlTree A) : Type ℓ where
    pub top : k ≡ t.free_nodes (pos_part t.next_free_node)
    pub some_left : ltb_ℤ t.next_free_node (pos 0) ≡ false
    pub seated : Seated k x (cells t.root) (cells t'.root)
    pub taken : t' ≡ record t { root = t'.root; next_free_node = t.next_free_node +ℤ negsuc 0 }

  pub tree_insert-Filled :
      (comp : A → A → ℤ) (x : A) (t t' : AvlTree A) (k : ℕ)
      → tree_insert comp t x ≡ some (k, t')
      → Filled k x t t'
  unfolding tree_insert
  tree_insert-Filled comp x t t' k run = elim (Bool-cases (ltb_ℤ t.next_free_node (pos 0))) [
    | inl empty ↦ let w : tree_insert comp t x ≡ none = rw (empty, tree_insert) refl in cc
    | inr left ↦
        let i = t.free_nodes (pos_part t.next_free_node) in
        let made : AvlTree A = record t {
          root = attach (descend comp x t.root []) (node i x (pos 0) leaf leaf);
          next_free_node = t.next_free_node +ℤ negsuc 0;
        } in
        let runs : tree_insert comp t x ≡ some (i, made) = rw (left, tree_insert) refl in
        subst (λ r. Filled r.0 x t r.1) (eq_of_some (sym runs ∙ run))
          (record {
            top = refl;
            some_left = left;
            seated = attach-Seated comp i x t.root;
            taken = refl;
          })
  ]

  -- One more free node on the stack, and one less.

  count-Seated :
      (k m : ℕ) (x : A) (s t : Tree A)
      → Seated k x (cells s) (cells t)
      → count m (indices t) ≡ same m k + count m (indices s)
  count-Seated k m x s t (before, after, e, n) =
      let w : ℕ × A → ℕ = λ c. same m c.0 in
      omega (
        arith,
        tally-indices m s,
        tally-indices m t,
        ap (tally w) e,
        ap (tally w) n,
        tally-append w before after,
        tally-append w before ((k, x) ∷ after),
      )

  -- For a pool of which each node is once in the tree or once on the stack of free nodes, the same
  -- holds after a `Tree_Insert` that succeeds.
  pub tree_insert-Pooled :
      (comp : A → A → ℤ) (x : A) (t t' : AvlTree A) (k : ℕ)
      → Pooled t
      → tree_insert comp t x ≡ some (k, t')
      → Pooled t'
  tree_insert-Pooled comp x t t' k p run =
      let f = tree_insert-Filled comp x t t' k run in
      let down : (m : ℕ) → _ = λ m. taken-each t.free_nodes t.next_free_node m f.some_left in
      subst Pooled (sym f.taken) (record {
        each = λ m. omega (
          arith,
          p.each m,
          count-Seated k m x t.root t'.root f.seated,
          (down m).0,
          ap (same m) f.top,
        );
        bottom = (down 0).1;
      })

  -- For a pool of which each node is once in the tree or once on the stack of free nodes, and a
  -- balanced tree, the same holds after a `Tree_DeleteNode` of a node of the tree that succeeds,
  -- also where the data of another node has moved to the deleted one and that other node is given
  -- back.
  pub tree_delete_node-Pooled :
      (k : ℕ) (x : A) (t t' : AvlTree A) (replaced : Option (A × A))
      → Pooled t
      → item_at k t.root ≡ some x
      → IsAvl t.root
      → tree_delete_node t k ≡ some (t', replaced)
      → Pooled t'
  unfolding release_node
  tree_delete_node-Pooled k x t t' replaced p at v run =
      let f = tree_delete_node-Emptied k x t t' replaced at v run in
      let up : (m : ℕ) → _ = λ m. released-each t.free_nodes t.next_free_node f.freed m p.bottom in
      subst Pooled (sym f.released) (record {
        each = λ m. omega (
          arith,
          p.each m,
          count-Unseated k m x t.root t'.root f.freed replaced f.unseated,
          (up m).0,
        );
        bottom = (up 0).1;
      })

  -- Each node is on the stack of an empty tree.
  pub tree_empty-Pooled : (t : AvlTree A) → Pooled (tree_empty t)
  unfolding tree_empty
  tree_empty-Pooled t = record {
    each = λ k.
        let n = t.tot_nodes in
        let a = fill n 0 t.free_nodes in
        let own : (i : ℕ) → i < n → a i ≡ i =
          λ i h. ground (arith, fill_at n 0 t.free_nodes i, h) in
        omega (arith, ap (λ d. count k (stack a d)) (all_free n), count-stack a k n own);
    bottom = ground arith;
  }
