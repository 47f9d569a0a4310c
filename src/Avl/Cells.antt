-- ===== src/Avl/Cells.antt =====
-- src/AVL/AvlTree.c: the nodes of the tree as cells, an index with the data that it holds, and what
-- `Tree_Insert` and `Tree_DeleteNode` do with them: a node whose data is needed elsewhere is not
-- the one that goes, but the data moves to the node of the deleted one.
use cla_mpi.Prelude.{
  ℕ, ◌≡◌, ◌⊎◌, refl, sym, ◌∙◌, inl, inr, Option, none, some, List, [], ◌∷◌, ◌++◌, append_assoc,
  append-nil, arith, ℤ, pos, tally, tally-append,
}
use cla_mpi.Avl.{Tree, leaf, node, Trail, IsAvl, visit, visit_before, visit_after}
use cla_mpi.Avl.Rebalance.{visit-delete_balance}
use cla_mpi.Avl.Insert.{attach, descend, visit-attach, descend_rest}
use cla_mpi.Avl.Delete.{delete_at}
use cla_mpi.Avl.Delete.At.{visit-shrink, visit-delete_between}

module _ {ℓ} {A : Type ℓ} where
  abbrev pub cells : Tree A → List (ℕ × A)
  cells = visit (λ i x. (i, x))

  abbrev pub indices : Tree A → List ℕ
  indices = visit (λ i x. i)

  -- A sum over the nodes, seen in two ways.
  pub tally-visit {κ μ} :
      {B : Type κ} {C : Type μ} (v : B → ℕ) (w : C → ℕ) (g : ℕ → A → B) (h : ℕ → A → C)
      → ((i : ℕ) (x : A) → v (g i x) ≡ w (h i x))
      → (t : Tree A) → tally v (visit g t) ≡ tally w (visit h t)
  tally-visit v w g h e leaf = refl
  tally-visit v w g h e (node i x b l r) = omega (
    arith,
    tally-append v (visit g l) (g i x ∷ visit g r),
    tally-append w (visit h l) (h i x ∷ visit h r),
    tally-visit v w g h e l,
    tally-visit v w g h e r,
    e i x,
  )

  -- A cell is taken out: its index is free, or that of the cell beside it is, whose data is moved
  -- to the node of the first.
  abbrev pub Unseated :
      ℕ → A → (was now : List (ℕ × A)) → (freed : ℕ) → (replaced : Option (A × A)) → Type ℓ
  Unseated k x was now freed replaced =
      (before : List (ℕ × A)) × (after : List (ℕ × A)) × (((was ≡ before ++ ((k, x) ∷ after))
          × (now ≡ before ++ after)
          × (freed ≡ k)
          × (replaced ≡ none))
        ⊎ ((j : ℕ) × (y : A) × ((was ≡ before ++ ((k, x) ∷ ((j, y) ∷ after)))
              ⊎ (was ≡ before ++ ((j, y) ∷ ((k, x) ∷ after))))
            × (now ≡ before ++ ((k, y) ∷ after))
            × (freed ≡ j)
            × (replaced ≡ some (x, y))))

  -- The nodes beside a path, and a node at its end.
  abbrev around : Trail A → Tree A → List (ℕ × A)
  around p t = visit_before (λ i x. (i, x)) p ++ (cells t ++ visit_after (λ i x. (i, x)) p)

  pub delete_at-Unseated :
      (p : Trail A) (i : ℕ) (x : A) (b : ℤ) (l r : Tree A)
      → IsAvl (node i x b l r)
      → let d = delete_at p (node i x b l r) in
        Unseated i x (around p (node i x b l r)) (cells d.result) d.freed d.replaced
  unfolding delete_at
  delete_at-Unseated p i x b leaf leaf v = (
    visit_before (λ i x. (i, x)) p,
    visit_after (λ i x. (i, x)) p,
    inl (refl, visit-shrink (λ i x. (i, x)) p leaf, refl, refl),
  )
  delete_at-Unseated p i x b leaf (node j y c leaf leaf) v = (
    visit_before (λ i x. (i, x)) p,
    visit_after (λ i x. (i, x)) p,
    inr (j, y, inl refl, visit-delete_balance (λ i x. (i, x)) p _ _, refl, refl),
  )
  delete_at-Unseated p i x b leaf (node j y c (node k z d ll lr) r) v = absurd (omega (arith, v))
  delete_at-Unseated p i x b leaf (node j y c leaf (node k z d ll lr)) v = absurd (omega (arith, v))
  delete_at-Unseated p i x b (node j y c leaf leaf) leaf v = (
    visit_before (λ i x. (i, x)) p,
    visit_after (λ i x. (i, x)) p,
    inr (j, y, inr refl, visit-delete_balance (λ i x. (i, x)) p _ _, refl, refl),
  )
  delete_at-Unseated p i x b (node j y c (node k z d ll lr) r) leaf v = absurd (omega (arith, v))
  delete_at-Unseated p i x b (node j y c leaf (node k z d ll lr)) leaf v = absurd (omega (arith, v))
  delete_at-Unseated p i x b (node j y c ll lr) (node k z d rl rr) v = (
    visit_before (λ i x. (i, x)) p ++ cells (node j y c ll lr),
    cells (node k z d rl rr) ++ visit_after (λ i x. (i, x)) p,
    inl (
      simp append_assoc,
      visit-delete_between (λ i x. (i, x)) p b (node j y c ll lr) k z d rl rr ∙ simp append_assoc,
      refl,
      refl,
    ),
  )

  -- A new cell among the others.
  abbrev pub Seated : ℕ → A → (was now : List (ℕ × A)) → Type ℓ
  Seated k x was now =
      (before : List (ℕ × A)) × (after : List (ℕ × A)) × (was ≡ before ++ after)
      × (now ≡ before ++ ((k, x) ∷ after))

  pub attach-Seated :
      (comp : A → A → ℤ) (i : ℕ) (x : A) (t : Tree A)
      → Seated i x (cells t) (cells (attach (descend comp x t []) (node i x (pos 0) leaf leaf)))
  attach-Seated comp i x t =
      let q = descend comp x t [] in
      (
        visit_before (λ i x. (i, x)) q,
        visit_after (λ i x. (i, x)) q,
        sym (descend_rest comp x (λ i x. (i, x)) t [] ∙ append-nil (cells t)),
        visit-attach (λ i x. (i, x)) q i x,
      )
