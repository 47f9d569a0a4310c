-- ===== src/Avl/Rebalance.antt =====
-- src/AVL/AvlTree.c: the two loops that mend the balances on the way up to the root. A round of a
-- loop is a step on the subtree at the current node; it says whether the loop goes on to the parent.
pub mod Grow
pub mod Shrink
use cla_mpi.Prelude.{
  ℕ, zero, suc, ◌+◌, ◌≤◌, max, ◌≡◌, refl, ◌⊎◌, inl, inr, Bool, true, false, not, [], ◌∷◌, ◌++◌,
  append_assoc, append-nil, sym, ap, ◌∙◌, arith, ℤ, pos, negsuc, pos_part, neg_part, ◌+ℤ◌, neg,
  ◌==ℤ◌, leb_ℤ, if◌then◌else◌, Bool-cases,
}
use cla_mpi.Avl.{
  Tree, leaf, node, Crumb, at_left, at_right, Trail, plug, zip, height, balance_of, visit,
  visit_before, visit_after, Balanced, IsAvl, Fits, visit-zip, zip-IsAvl,
}
use cla_mpi.Avl.Rotate.{
  rotate_left, rotate_right, rotate_left_right, rotate_right_left, visit-rotate_left,
  visit-rotate_right, visit-rotate_left_right, visit-rotate_right_left,
}

module _ {ℓ} {A : Type ℓ} where
  -- The body of the loop of `Tree_InsertBalance`.
  unfoldable pub insert_step : Tree A → ℤ → Tree A × Bool
  insert_step leaf d = (leaf, false)
  insert_step (node i x b l r) d =
      let b' = b +ℤ d in
      let t = node i x b' l r in
      if b' ==ℤ pos 0
      then (t, false)
      else if b' ==ℤ negsuc 1
      then (if balance_of l ==ℤ negsuc 0 then rotate_right t else rotate_left_right t, false)
      else if b' ==ℤ pos 2
      then (if balance_of r ==ℤ pos 1 then rotate_left t else rotate_right_left t, false)
      else (t, true)

  -- `balance = (parent->left == node) ? -1 : 1`
  abbrev pub grown_side : Crumb A → ℤ
  grown_side (at_left i x b r) = negsuc 0
  grown_side (at_right i x b l) = pos 1

  -- `Tree_InsertBalance`, on a node and its path; the result is the whole tree.
  unfoldable pub insert_balance : Trail A → Tree A → ℤ → Tree A
  insert_balance [] t d = (insert_step t d).0
  insert_balance (c ∷ p) t d =
      let (t', up) = insert_step t d in
      let rest = insert_balance p (plug c t') (grown_side c) in if up then rest else zip (c ∷ p) t'

  -- The body of the loop of `Tree_DeleteBalance`.
  unfoldable pub delete_step : Tree A → ℤ → Tree A × Bool
  delete_step leaf d = (leaf, false)
  delete_step (node i x b l r) d =
      let b' = b +ℤ d in
      let t = node i x b' l r in
      if b' ==ℤ negsuc 1
      then (if leb_ℤ (balance_of l) (pos 0)
          then (let t' = rotate_right t in (t', not (balance_of t' ==ℤ pos 1)))
          else (rotate_left_right t, true))
      else if b' ==ℤ pos 2
      then (if leb_ℤ (pos 0) (balance_of r)
          then (let t' = rotate_left t in (t', not (balance_of t' ==ℤ negsuc 0)))
          else (rotate_right_left t, true))
      else (t, b' ==ℤ pos 0)

  -- `balance = (parent->left == node) ? 1 : -1`
  abbrev pub shrunk_side : Crumb A → ℤ
  shrunk_side (at_left i x b r) = pos 1
  shrunk_side (at_right i x b l) = negsuc 0

  -- `Tree_DeleteBalance`, on a node and its path; the result is the whole tree.
  unfoldable pub delete_balance : Trail A → Tree A → ℤ → Tree A
  delete_balance [] t d = (delete_step t d).0
  delete_balance (c ∷ p) t d =
      let (t', up) = delete_step t d in
      let rest = delete_balance p (plug c t') (shrunk_side c) in if up then rest else zip (c ∷ p) t'

  module _ {κ} {B : Type κ} (g : ℕ → A → B) where
    visit-insert_step : (t : Tree A) (d : ℤ) → visit g (insert_step t d).0 ≡ visit g t
    unfolding insert_step
    visit-insert_step leaf d = refl
    visit-insert_step (node i x b l r) d =
        let t = node i x (b +ℤ d) l r in
        ground (
          arith,
          visit-rotate_left g t,
          visit-rotate_right g t,
          visit-rotate_left_right g t,
          visit-rotate_right_left g t,
        )

    visit-delete_step : (t : Tree A) (d : ℤ) → visit g (delete_step t d).0 ≡ visit g t
    unfolding delete_step
    visit-delete_step leaf d = refl
    visit-delete_step (node i x b l r) d =
        let t = node i x (b +ℤ d) l r in
        ground (
          arith,
          visit-rotate_left g t,
          visit-rotate_right g t,
          visit-rotate_left_right g t,
          visit-rotate_right_left g t,
        )

    visit-plug :
        (c : Crumb A) (p : Trail A) (t : Tree A)
        → visit_before g p ++ (visit g (plug c t) ++ visit_after g p)
          ≡ visit_before g (c ∷ p) ++ (visit g t ++ visit_after g (c ∷ p))
    visit-plug (at_left i x b r) p t = simp append_assoc
    visit-plug (at_right i x b l) p t = simp append_assoc

    -- The two loops keep the nodes in order.
    pub visit-insert_balance :
        (p : Trail A) (t : Tree A) (d : ℤ)
        → visit g (insert_balance p t d) ≡ visit_before g p ++ (visit g t ++ visit_after g p)
    unfolding insert_balance
    visit-insert_balance [] t d = visit-insert_step t d ∙ sym (append-nil _)
    visit-insert_balance (c ∷ p) t d =
        let t' = (insert_step t d).0 in
        let e =
          ap (λ xs. visit_before g (c ∷ p) ++ (xs ++ visit_after g (c ∷ p)))
            (visit-insert_step t d) in
        elim (Bool-cases (insert_step t d).1) [
          | inl up ↦
              rw up (visit-insert_balance p (plug c t') (grown_side c) ∙ visit-plug c p t' ∙ e)
          | inr stop ↦ rw stop (visit-zip g (c ∷ p) t' ∙ e)
        ]

    pub visit-delete_balance :
        (p : Trail A) (t : Tree A) (d : ℤ)
        → visit g (delete_balance p t d) ≡ visit_before g p ++ (visit g t ++ visit_after g p)
    unfolding delete_balance
    visit-delete_balance [] t d = visit-delete_step t d ∙ sym (append-nil _)
    visit-delete_balance (c ∷ p) t d =
        let t' = (delete_step t d).0 in
        let e =
          ap (λ xs. visit_before g (c ∷ p) ++ (xs ++ visit_after g (c ∷ p)))
            (visit-delete_step t d) in
        elim (Bool-cases (delete_step t d).1) [
          | inl up ↦
              rw up (visit-delete_balance p (plug c t') (shrunk_side c) ∙ visit-plug c p t' ∙ e)
          | inr stop ↦ rw stop (visit-zip g (c ∷ p) t' ∙ e)
        ]
