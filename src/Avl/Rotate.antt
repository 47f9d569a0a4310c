-- ===== src/Avl/Rotate.antt =====
-- src/AVL/AvlTree.c: the four rotations. The parent of the rotated node, or the root, is given the
-- new top by whoever puts the result back in its place.
use cla_mpi.Prelude.{ℕ, ◌≡◌, refl, ℤ, pos, negsuc, ◌+ℤ◌, neg, ◌==ℤ◌, if◌then◌else◌, append_assoc}
use cla_mpi.Avl.{Tree, leaf, node, visit}

module _ {ℓ} {A : Type ℓ} where
  -- The code follows the child on the other side without a test: with none there the result is
  -- the node itself.
  unfoldable pub rotate_left : Tree A → Tree A
  rotate_left (node i x b l (node j y c rl rr)) =
      let c' = c +ℤ negsuc 0 in node j y c' (node i x (neg c') l rl) rr
  rotate_left t = t

  unfoldable pub rotate_right : Tree A → Tree A
  rotate_right (node i x b (node j y c ll lr) r) =
      let c' = c +ℤ pos 1 in node j y c' ll (node i x (neg c') lr r)
  rotate_right t = t

  unfoldable pub rotate_left_right : Tree A → Tree A
  rotate_left_right (node i x b (node j y c ll (node k z d lrl lrr)) r) =
      let node_balance : ℤ = if d ==ℤ pos 1 then pos 0 else if d ==ℤ pos 0 then pos 0 else pos 1 in
      let left_balance : ℤ =
        if d ==ℤ pos 1 then negsuc 0 else if d ==ℤ pos 0 then pos 0 else pos 0 in
      node k z (pos 0) (node j y left_balance ll lrl) (node i x node_balance lrr r)
  rotate_left_right t = t

  unfoldable pub rotate_right_left : Tree A → Tree A
  rotate_right_left (node i x b l (node j y c (node k z d rll rlr) rr)) =
      let node_balance : ℤ =
        if d ==ℤ negsuc 0 then pos 0 else if d ==ℤ pos 0 then pos 0 else negsuc 0 in
      let right_balance : ℤ =
        if d ==ℤ negsuc 0 then pos 1 else if d ==ℤ pos 0 then pos 0 else pos 0 in
      node k z (pos 0) (node i x node_balance l rll) (node j y right_balance rlr rr)
  rotate_right_left t = t

  -- A rotation keeps the nodes in order.
  module _ {κ} {B : Type κ} (g : ℕ → A → B) where
    pub visit-rotate_left : (t : Tree A) → visit g (rotate_left t) ≡ visit g t
    unfolding rotate_left
    visit-rotate_left (node i x b l (node j y c rl rr)) = simp append_assoc
    visit-rotate_left (node i x b l leaf) = refl
    visit-rotate_left leaf = refl

    pub visit-rotate_right : (t : Tree A) → visit g (rotate_right t) ≡ visit g t
    unfolding rotate_right
    visit-rotate_right (node i x b (node j y c ll lr) r) = simp append_assoc
    visit-rotate_right (node i x b leaf r) = refl
    visit-rotate_right leaf = refl

    pub visit-rotate_left_right : (t : Tree A) → visit g (rotate_left_right t) ≡ visit g t
    unfolding rotate_left_right
    visit-rotate_left_right (node i x b (node j y c ll (node k z d lrl lrr)) r) = simp append_assoc
    visit-rotate_left_right (node i x b (node j y c ll leaf) r) = refl
    visit-rotate_left_right (node i x b leaf r) = refl
    visit-rotate_left_right leaf = refl

    pub visit-rotate_right_left : (t : Tree A) → visit g (rotate_right_left t) ≡ visit g t
    unfolding rotate_right_left
    visit-rotate_right_left (node i x b l (node j y c (node k z d rll rlr) rr)) = simp append_assoc
    visit-rotate_right_left (node i x b l (node j y c leaf rr)) = refl
    visit-rotate_right_left (node i x b l leaf) = refl
    visit-rotate_right_left leaf = refl
