-- ===== src/Avl/Delete/At.antt =====
-- `Tree_DeleteNode` at a node that has been reached: what becomes of the data and of the balances.
use cla_mpi.Prelude.{
  ℕ, suc, max, ◌≡◌, refl, sym, ap, ◌∙◌, [], ◌∷◌, ◌++◌, append_assoc, append-nil, arith, ℤ, pos,
  negsuc,
}
use cla_mpi.Avl.{
  Tree, leaf, node, at_left, at_right, Trail, height, inorder, before, after, visit, visit_before,
  visit_after, IsAvl, Fits,
}
use cla_mpi.Avl.Rebalance.{visit-delete_balance}
use cla_mpi.Avl.Rebalance.Shrink.{
  delete_balance-IsAvl, delete_step_left, delete_step_right, delete_step_single,
}
use cla_mpi.Avl.Delete.{shrink, successor, delete_at}

module _ {ℓ} {A : Type ℓ} where
  shrink-IsAvl : (p : Trail A) (t : Tree A) → IsAvl t → Fits p (suc (height t)) → IsAvl (shrink p t)
  unfolding shrink
  shrink-IsAvl [] t v f = v
  shrink-IsAvl (at_left i x b r ∷ p) t v f =
      let s = delete_step_left i x b t r v f.1 f.0 in delete_balance-IsAvl p _ (pos 1) _ s.0 s.1 f.2
  shrink-IsAvl (at_right i x b l ∷ p) t v f =
      let s = delete_step_right i x b l t f.1 v f.0 in
      delete_balance-IsAvl p _ (negsuc 0) _ s.0 s.1 f.2

  pub visit-shrink {κ} :
      {B : Type κ} (g : ℕ → A → B) (p : Trail A) (t : Tree A)
      → visit g (shrink p t) ≡ visit_before g p ++ (visit g t ++ visit_after g p)
  unfolding shrink
  visit-shrink g [] t = sym (append-nil _)
  visit-shrink g (at_left i x b r ∷ p) t = visit-delete_balance g p _ _ ∙ simp append_assoc
  visit-shrink g (at_right i x b l ∷ p) t = visit-delete_balance g p _ _ ∙ simp append_assoc

  successor-IsAvl :
      (k : ℕ) (z : A) (d : ℤ) (l r : Tree A) (q p : Trail A)
      → IsAvl (node k z d l r)
      → Fits (q ++ p) (height (node k z d l r))
      → let s = successor k z d l r q in IsAvl s.right × Fits (s.turns ++ p) (suc (height s.right))
  unfolding successor
  successor-IsAvl k z d leaf r q p v f =
      let e : suc (max 0 (height r)) ≡ suc (height r) = omega arith in (v.2, rw e at f)
  successor-IsAvl k z d (node j y c ll lr) r q p v f =
      successor-IsAvl j y c ll lr (at_left k z d r ∷ q) p v.1 (v.0, v.2, f)

  module _ {κ} {B : Type κ} (g : ℕ → A → B) where
    visit_before-append :
        (q p : Trail A) → visit_before g (q ++ p) ≡ visit_before g p ++ visit_before g q
    visit_before-append [] p = sym (append-nil _)
    visit_before-append (at_left i x b r ∷ q) p = visit_before-append q p
    visit_before-append (at_right i x b l ∷ q) p = simp (visit_before-append q p, append_assoc)

    visit_after-append :
        (q p : Trail A) → visit_after g (q ++ p) ≡ visit_after g q ++ visit_after g p
    visit_after-append [] p = refl
    visit_after-append (at_left i x b r ∷ q) p = simp (visit_after-append q p, append_assoc)
    visit_after-append (at_right i x b l ∷ q) p = visit_after-append q p

    successor_turns :
        (k : ℕ) (z : A) (d : ℤ) (l r : Tree A) (q : Trail A)
        → let s = successor k z d l r q in
          (visit_before g s.turns ≡ visit_before g q)
          × (g s.index s.item ∷ (visit g s.right ++ visit_after g s.turns)
              ≡ visit g (node k z d l r) ++ visit_after g q)
    unfolding successor
    successor_turns k z d leaf r q = (refl, refl)
    successor_turns k z d (node j y c ll lr) r q =
        let (b, a) = successor_turns j y c ll lr (at_left k z d r ∷ q) in (b, a ∙ simp append_assoc)

    -- A node between two subtrees goes, and its successor takes its place.
    pub visit-delete_between :
        (p : Trail A) (b : ℤ) (l : Tree A) (k : ℕ) (z : A) (d : ℤ) (rl rr : Tree A)
        → let s = successor k z d rl rr [] in
          visit g (shrink (s.turns ++ (at_right s.index s.item b l ∷ p)) s.right)
          ≡ visit_before g p ++ ((visit g l ++ visit g (node k z d rl rr)) ++ visit_after g p)
    visit-delete_between p b l k z d rl rr =
        let s = successor k z d rl rr [] in
        let place = at_right s.index s.item b l in
        let (none_before, same) = successor_turns k z d rl rr [] in
        visit-shrink g (s.turns ++ (place ∷ p)) s.right
        ∙ (simp (
          visit_before-append s.turns,
          visit_after-append s.turns,
          none_before,
          append-nil,
          append_assoc,
        ))
        ∙ ap (λ xs. visit_before g p ++ (visit g l ++ (xs ++ visit_after g p))) same
        ∙ simp (append-nil, append_assoc)

  -- The data of a deleted node goes, and the rest stays in order.
  pub inorder-delete_at :
      (p : Trail A) (i : ℕ) (x : A) (b : ℤ) (l r : Tree A)
      → inorder (delete_at p (node i x b l r)).result
        ≡ before p ++ ((inorder l ++ inorder r) ++ after p)
  unfolding delete_at
  inorder-delete_at p i x b leaf leaf = visit-shrink (λ j a. a) p leaf
  inorder-delete_at p i x b leaf (node j y c rl rr) = visit-delete_balance (λ j a. a) p _ _
  inorder-delete_at p i x b (node j y c ll lr) leaf =
      visit-delete_balance (λ j a. a) p _ _ ∙ simp append-nil
  inorder-delete_at p i x b (node j y c ll lr) (node k z d rl rr) =
      visit-delete_between (λ j a. a) p b (node j y c ll lr) k z d rl rr

  pub delete_at-IsAvl :
      (p : Trail A) (i : ℕ) (x : A) (b : ℤ) (l r : Tree A)
      → IsAvl (node i x b l r)
      → Fits p (height (node i x b l r))
      → IsAvl (delete_at p (node i x b l r)).result
  unfolding delete_at
  delete_at-IsAvl p i x b leaf leaf v f = shrink-IsAvl p leaf tt f
  delete_at-IsAvl p i x b leaf (node j y c rl rr) v f =
      let s = delete_step_single i y c rl rr v.2 (omega arith) in
      let two : height (node i x b leaf (node j y c rl rr)) ≡ 2 = omega arith in
      delete_balance-IsAvl p _ (pos 0) 2 s.0 s.1 (rw two at f)
  delete_at-IsAvl p i x b (node j y c ll lr) leaf v f =
      let s = delete_step_single i y c ll lr v.1 (omega arith) in
      let two : height (node i x b (node j y c ll lr) leaf) ≡ 2 = omega arith in
      delete_balance-IsAvl p _ (pos 0) 2 s.0 s.1 (rw two at f)
  delete_at-IsAvl p i x b (node j y c ll lr) (node k z d rl rr) v f =
      let s = successor k z d rl rr [] in
      let place = at_right s.index s.item b (node j y c ll lr) in
      let (w, g) = successor-IsAvl k z d rl rr [] (place ∷ p) v.2 (v.0, v.1, f) in
      shrink-IsAvl (s.turns ++ (place ∷ p)) s.right w g
