-- ===== src/Avl/Rebalance/Shrink.antt =====
-- The loop of `Tree_DeleteBalance`: a tree in which one subtree has lost one is balanced again.
use cla_mpi.Prelude.{
  ℕ, zero, suc, max, ◌≡◌, ◌⊎◌, inl, inr, Bool, true, false, not, [], ◌∷◌, arith, ℤ, pos, negsuc,
  ◌+ℤ◌, neg, ◌==ℤ◌, leb_ℤ, Bool-cases,
}
use cla_mpi.Avl.{
  Tree, leaf, node, at_left, at_right, Trail, height, balance_of, Balanced, IsAvl, Fits, zip-IsAvl,
}
use cla_mpi.Avl.Rotate.{rotate_left, rotate_right, rotate_left_right, rotate_right_left}
use cla_mpi.Avl.Rebalance.{delete_step, delete_balance}

module _ {ℓ} {A : Type ℓ} where
  -- What a round of deletion leaves, at a subtree whose height was `h`.
  abbrev pub Shrinks : ℕ → Tree A × Bool → Type 0
  Shrinks h (t, up) = ((up ≡ false) × (height t ≡ h)) ⊎ ((up ≡ true) × (suc (height t) ≡ h))

  -- The rotations of a deletion, at a node whose right subtree is two higher.
  single_left :
      (i j : ℕ) (x y : A) (c : ℤ) (l rl rr : Tree A)
      → IsAvl l
      → IsAvl (node j y c rl rr)
      → height (node j y c rl rr) ≡ suc (suc (height l))
      → leb_ℤ (pos 0) c ≡ true
      → let t = rotate_left (node i x (pos 2) l (node j y c rl rr)) in
        IsAvl t × Shrinks (suc (suc (suc (height l)))) (t, not (balance_of t ==ℤ negsuc 0))
  unfolding rotate_left ◌+ℤ◌ neg
  single_left i j x y (pos zero) l rl rr vl vr e lean = ground arith
  single_left i j x y (pos (suc zero)) l rl rr vl vr e lean = ground arith
  single_left i j x y (pos (suc (suc c))) l rl rr vl vr e lean = absurd (omega arith)
  single_left i j x y (negsuc c) l rl rr vl vr e lean = absurd (ground arith)

  double_left :
      (i j k : ℕ) (x y z : A) (c d : ℤ) (l rll rlr rr : Tree A)
      → IsAvl l
      → IsAvl (node j y c (node k z d rll rlr) rr)
      → height (node j y c (node k z d rll rlr) rr) ≡ suc (suc (height l))
      → leb_ℤ (pos 0) c ≡ false
      → let t = rotate_right_left (node i x (pos 2) l (node j y c (node k z d rll rlr) rr)) in
        IsAvl t × Shrinks (suc (suc (suc (height l)))) (t, true)
  unfolding rotate_right_left
  double_left i j k x y z (pos c) d l rll rlr rr vl vr e lean = absurd (ground arith)
  double_left i j k x y z (negsuc c) (pos zero) l rll rlr rr vl vr e lean = ground arith
  double_left i j k x y z (negsuc c) (pos (suc d)) l rll rlr rr vl vr e lean = ground arith
  double_left i j k x y z (negsuc c) (negsuc d) l rll rlr rr vl vr e lean = ground arith

  right_heavy :
      (i : ℕ) (x : A) (l r : Tree A)
      → IsAvl l
      → IsAvl r
      → height r ≡ suc (suc (height l))
      → let s = delete_step (node i x (pos 1) l r) (pos 1) in
        IsAvl s.0 × Shrinks (suc (suc (suc (height l)))) s
  unfolding delete_step ◌+ℤ◌
  right_heavy i x l leaf vl vr e = absurd (omega arith)
  right_heavy i x l (node j y c leaf rr) vl vr e = elim (Bool-cases (leb_ℤ (pos 0) c)) [
    | inl lean ↦ rw lean (single_left i j x y c l leaf rr vl vr e lean)
    | inr lean ↦ absurd (ground arith)
  ]
  right_heavy i x l (node j y c (node k z d rll rlr) rr) vl vr e =
      elim (Bool-cases (leb_ℤ (pos 0) c)) [
        | inl lean ↦ rw lean (single_left i j x y c l (node k z d rll rlr) rr vl vr e lean)
        | inr lean ↦ rw lean (double_left i j k x y z c d l rll rlr rr vl vr e lean)
      ]

  -- And at a node whose left subtree is two higher.
  single_right :
      (i j : ℕ) (x y : A) (c : ℤ) (ll lr r : Tree A)
      → IsAvl (node j y c ll lr)
      → IsAvl r
      → height (node j y c ll lr) ≡ suc (suc (height r))
      → leb_ℤ c (pos 0) ≡ true
      → let t = rotate_right (node i x (negsuc 1) (node j y c ll lr) r) in
        IsAvl t × Shrinks (suc (suc (suc (height r)))) (t, not (balance_of t ==ℤ pos 1))
  unfolding rotate_right ◌+ℤ◌ neg
  single_right i j x y (pos zero) ll lr r vl vr e lean = ground arith
  single_right i j x y (pos (suc c)) ll lr r vl vr e lean = absurd (ground arith)
  single_right i j x y (negsuc zero) ll lr r vl vr e lean = ground arith
  single_right i j x y (negsuc (suc c)) ll lr r vl vr e lean = absurd (omega arith)

  double_right :
      (i j k : ℕ) (x y z : A) (c d : ℤ) (ll lrl lrr r : Tree A)
      → IsAvl (node j y c ll (node k z d lrl lrr))
      → IsAvl r
      → height (node j y c ll (node k z d lrl lrr)) ≡ suc (suc (height r))
      → leb_ℤ c (pos 0) ≡ false
      → let t = rotate_left_right (node i x (negsuc 1) (node j y c ll (node k z d lrl lrr)) r) in
        IsAvl t × Shrinks (suc (suc (suc (height r)))) (t, true)
  unfolding rotate_left_right
  double_right i j k x y z (negsuc c) d ll lrl lrr r vl vr e lean = absurd (ground arith)
  double_right i j k x y z (pos c) (pos zero) ll lrl lrr r vl vr e lean = ground arith
  double_right i j k x y z (pos c) (pos (suc d)) ll lrl lrr r vl vr e lean = ground arith
  double_right i j k x y z (pos c) (negsuc d) ll lrl lrr r vl vr e lean = ground arith

  left_heavy :
      (i : ℕ) (x : A) (l r : Tree A)
      → IsAvl l
      → IsAvl r
      → height l ≡ suc (suc (height r))
      → let s = delete_step (node i x (negsuc 0) l r) (negsuc 0) in
        IsAvl s.0 × Shrinks (suc (suc (suc (height r)))) s
  unfolding delete_step ◌+ℤ◌
  left_heavy i x leaf r vl vr e = absurd (omega arith)
  left_heavy i x (node j y c ll leaf) r vl vr e = elim (Bool-cases (leb_ℤ c (pos 0))) [
    | inl lean ↦ rw lean (single_right i j x y c ll leaf r vl vr e lean)
    | inr lean ↦ absurd (ground arith)
  ]
  left_heavy i x (node j y c ll (node k z d lrl lrr)) r vl vr e =
      elim (Bool-cases (leb_ℤ c (pos 0))) [
        | inl lean ↦ rw lean (single_right i j x y c ll (node k z d lrl lrr) r vl vr e lean)
        | inr lean ↦ rw lean (double_right i j k x y z c d ll lrl lrr r vl vr e lean)
      ]

  pub delete_step_left :
      (i : ℕ) (x : A) (b : ℤ) (l r : Tree A)
      → IsAvl l
      → IsAvl r
      → Balanced b (suc (height l)) (height r)
      → let s = delete_step (node i x b l r) (pos 1) in
        IsAvl s.0 × Shrinks (suc (max (suc (height l)) (height r))) s
  delete_step_left i x (pos zero) l r vl vr e = unfold delete_step ◌+ℤ◌ in ground arith
  delete_step_left i x (pos (suc zero)) l r vl vr e =
      let s = right_heavy i x l r vl vr (omega arith) in
      let m : max (suc (height l)) (height r) ≡ suc (suc (height l)) = omega arith in rw m s
  delete_step_left i x (pos (suc (suc b))) l r vl vr e = absurd (omega arith)
  delete_step_left i x (negsuc zero) l r vl vr e = unfold delete_step ◌+ℤ◌ in ground arith
  delete_step_left i x (negsuc (suc b)) l r vl vr e = absurd (omega arith)

  pub delete_step_right :
      (i : ℕ) (x : A) (b : ℤ) (l r : Tree A)
      → IsAvl l
      → IsAvl r
      → Balanced b (height l) (suc (height r))
      → let s = delete_step (node i x b l r) (negsuc 0) in
        IsAvl s.0 × Shrinks (suc (max (height l) (suc (height r)))) s
  delete_step_right i x (pos zero) l r vl vr e = unfold delete_step ◌+ℤ◌ in ground arith
  delete_step_right i x (pos (suc zero)) l r vl vr e = unfold delete_step ◌+ℤ◌ in ground arith
  delete_step_right i x (pos (suc (suc b))) l r vl vr e = absurd (omega arith)
  delete_step_right i x (negsuc zero) l r vl vr e =
      let s = left_heavy i x l r vl vr (omega arith) in
      let m : max (height l) (suc (height r)) ≡ suc (suc (height r)) = omega arith in rw m s
  delete_step_right i x (negsuc (suc b)) l r vl vr e = absurd (omega arith)

  -- The only child of a node has taken its place.
  pub delete_step_single :
      (i : ℕ) (x : A) (b : ℤ) (l r : Tree A)
      → IsAvl (node i x b l r)
      → height (node i x b l r) ≡ 1
      → let s = delete_step (node i x b l r) (pos 0) in IsAvl s.0 × Shrinks 2 s
  unfolding delete_step ◌+ℤ◌
  delete_step_single i x (pos zero) l r v e = ground arith
  delete_step_single i x (pos (suc b)) l r v e = absurd (omega arith)
  delete_step_single i x (negsuc b) l r v e = absurd (omega arith)

  pub delete_balance-IsAvl :
      (p : Trail A) (t : Tree A) (d : ℤ) (h : ℕ)
      → IsAvl (delete_step t d).0
      → Shrinks h (delete_step t d)
      → Fits p h
      → IsAvl (delete_balance p t d)
  unfolding delete_balance
  delete_balance-IsAvl [] t d h v g f = v
  delete_balance-IsAvl (c ∷ p) t d h v (inl (stop, e)) f =
      rw stop (zip-IsAvl (c ∷ p) (delete_step t d).0 v (rw e f))
  delete_balance-IsAvl (at_left i x b r ∷ p) t d h v (inr (up, e)) f =
      let s = delete_step_left i x b (delete_step t d).0 r v f.1 (rw e f.0) in
      rw up (delete_balance-IsAvl p _ (pos 1) _ s.0 s.1 (rw e f.2))
  delete_balance-IsAvl (at_right i x b l ∷ p) t d h v (inr (up, e)) f =
      let s = delete_step_right i x b l (delete_step t d).0 f.1 v (rw e f.0) in
      rw up (delete_balance-IsAvl p _ (negsuc 0) _ s.0 s.1 (rw e f.2))
