-- ===== src/Avl/Rebalance/Grow.antt =====
-- The loop of `Tree_InsertBalance`: a tree in which one subtree has grown by one is balanced again.
use cla_mpi.Prelude.{
  ℕ, suc, ◌+◌, ◌≤◌, max, ◌≡◌, ◌⊎◌, inl, inr, Bool, true, false, [], ◌∷◌, arith, ℤ, pos, negsuc,
  pos_part, neg_part, ◌+ℤ◌, neg,
}
use cla_mpi.Avl.{
  Tree, leaf, node, at_left, at_right, Trail, height, balance_of, Balanced, IsAvl, Fits, zip-IsAvl,
}
use cla_mpi.Avl.Rotate.{rotate_left, rotate_right, rotate_left_right, rotate_right_left}
use cla_mpi.Avl.Rebalance.{insert_step, insert_balance}

module _ {ℓ} {A : Type ℓ} where
  -- What a round of insertion leaves, at a subtree whose height was `h`: the loop ends at that
  -- height, or goes on with the subtree one higher and leaning to a side.
  abbrev pub Grows : ℕ → Tree A × Bool → Type 0
  Grows h (t, up) =
      ((up ≡ false) × (height t ≡ h))
      ⊎ ((up ≡ true) × (height t ≡ suc h) × (pos_part (balance_of t) + neg_part (balance_of t) ≡ 1))

  -- A subtree that has grown from height `h`: it leans to a side, unless it is a new node.
  abbrev pub Grown : ℕ → Tree A → Type 0
  Grown h t =
      IsAvl t × (height t ≡ suc h) × (1 ≤ h → pos_part (balance_of t) + neg_part (balance_of t) ≡ 1)

  pub insert_step_left :
      (i : ℕ) (x : A) (b : ℤ) (l r : Tree A) (h : ℕ)
      → Grown h l
      → IsAvl r
      → Balanced b h (height r)
      → let s = insert_step (node i x b l r) (negsuc 0) in
        IsAvl s.0 × Grows (suc (max h (height r))) s
  unfolding insert_step rotate_right rotate_left_right ◌+ℤ◌ neg
  insert_step_left i x b leaf r h g vr e = absurd (omega arith)
  insert_step_left i x b (node j y c ll leaf) r h g vr e = ground arith
  insert_step_left i x b (node j y c ll (node k z d lrl lrr)) r h g vr e = ground arith

  pub insert_step_right :
      (i : ℕ) (x : A) (b : ℤ) (l r : Tree A) (h : ℕ)
      → IsAvl l
      → Grown h r
      → Balanced b (height l) h
      → let s = insert_step (node i x b l r) (pos 1) in IsAvl s.0 × Grows (suc (max (height l) h)) s
  unfolding insert_step rotate_left rotate_right_left ◌+ℤ◌ neg
  insert_step_right i x b l leaf h vl g e = absurd (omega arith)
  insert_step_right i x b l (node j y c leaf rr) h vl g e = ground arith
  insert_step_right i x b l (node j y c (node k z d rll rlr) rr) h vl g e = ground arith

  -- From a round that leaves what it should, the loop of insertion balances the whole tree.
  pub insert_balance-IsAvl :
      (p : Trail A) (t : Tree A) (d : ℤ) (h : ℕ)
      → IsAvl (insert_step t d).0
      → Grows h (insert_step t d)
      → Fits p h
      → IsAvl (insert_balance p t d)
  unfolding insert_balance
  insert_balance-IsAvl [] t d h v g f = v
  insert_balance-IsAvl (c ∷ p) t d h v (inl (stop, e)) f =
      rw stop (zip-IsAvl (c ∷ p) (insert_step t d).0 v (rw e f))
  insert_balance-IsAvl (at_left i x b r ∷ p) t d h v (inr (up, e, lean)) f =
      let s = insert_step_left i x b (insert_step t d).0 r h (v, e, λ _. lean) f.1 f.0 in
      rw up (insert_balance-IsAvl p _ (negsuc 0) _ s.0 s.1 f.2)
  insert_balance-IsAvl (at_right i x b l ∷ p) t d h v (inr (up, e, lean)) f =
      let s = insert_step_right i x b l (insert_step t d).0 h f.1 (v, e, λ _. lean) f.0 in
      rw up (insert_balance-IsAvl p _ (pos 1) _ s.0 s.1 f.2)
