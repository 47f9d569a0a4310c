-- ===== src/Avl/Stack.antt =====
-- src/AVL/AvlTree.c: the stack of free nodes, `free_nodes` up to `next_free_node`.
use cla_mpi.Prelude.{
  ℕ, zero, suc, ◌+◌, ◌≤◌, ◌<◌, ◌≡◌, refl, ap, false, List, [], ◌∷◌, arith, ℤ, pos, negsuc, ◌+ℤ◌,
  pos_part, neg_part, sub_ℕ, ltb, if◌then◌else◌, update, same, count, ltb_ℤ, ◌==◌,
}
use cla_mpi.Avl.Pool.{fill}

-- The first entries of an array as a stack, its top first.
abbrev pub stack : (ℕ → ℕ) → ℕ → List ℕ
stack a zero = []
stack a (suc n) = a n ∷ stack a n

pub stack-update : (a : ℕ → ℕ) (i v n : ℕ) → n ≤ i → stack (update a i v) n ≡ stack a n
stack-update a i v zero h = refl
stack-update a i v (suc n) h =
    let other : (n == i) ≡ false = ground arith in
    rw (other, stack-update a i v n (omega (arith, h))) refl

pub fill_at :
    (n from : ℕ) (a : ℕ → ℕ) (i : ℕ)
    → fill n from a i ≡ (if ltb i from then a i else if ltb i (from + n) then i else a i)
unfolding fill
fill_at zero from a i = ground arith
fill_at (suc n) from a i = ground (arith, fill_at n (from + 1) (update a from from) i)

pub count-stack :
    (a : ℕ → ℕ) (k n : ℕ)
    → ((i : ℕ) → i < n → a i ≡ i)
    → count k (stack a n) ≡ (if ltb k n then 1 else 0)
count-stack a k zero h = ground arith
count-stack a k (suc n) h =
    ground (arith, count-stack a k n (λ i l. h i (omega (arith, l))), h n (omega arith))

-- The number of nodes on a stack with its top at an index.
abbrev pub depth : ℤ → ℕ
depth (pos n) = suc n
depth (negsuc n) = 0

up_one : (n : ℕ) → pos n +ℤ pos 1 ≡ pos (suc n)
unfolding ◌+ℤ◌
up_one n = ground arith

down_one : (n : ℕ) → pos (suc n) +ℤ negsuc 0 ≡ pos n
unfolding ◌+ℤ◌
down_one n = ground arith

from_bottom : negsuc 0 +ℤ pos 1 ≡ pos 0
unfolding ◌+ℤ◌
from_bottom = refl

to_bottom : pos 0 +ℤ negsuc 0 ≡ negsuc 0
unfolding ◌+ℤ◌
to_bottom = refl

pub all_free : (n : ℕ) → depth (sub_ℕ n 1) ≡ n
all_free zero = refl
all_free (suc n) = ground arith

-- A node that is put on the stack, and one that is taken off it.
pub released-each :
    (a : ℕ → ℕ) (next : ℤ) (freed m : ℕ)
    → neg_part next ≤ 1
    → let up = next +ℤ pos 1 in
      (count m (stack (update a (pos_part up) freed) (depth up))
        ≡ same m freed + count m (stack a (depth next)))
      × (neg_part up ≤ 1)
released-each a (pos n) freed m b =
    let on_top : update a (suc n) freed (suc n) ≡ freed = ground arith in
    let below = stack-update a (suc n) freed (suc n) (omega arith) in
    rw (up_one n) (omega (arith, ap (count m) below, ap (same m) on_top))
released-each a (negsuc zero) freed m b = rw from_bottom (refl, omega arith)
released-each a (negsuc (suc n)) freed m b = absurd (omega (arith, b))

pub taken-each :
    (a : ℕ → ℕ) (next : ℤ) (m : ℕ)
    → ltb_ℤ next (pos 0) ≡ false
    → let down = next +ℤ negsuc 0 in
      (count m (stack a (depth next)) ≡ same m (a (pos_part next)) + count m (stack a (depth down)))
      × (neg_part down ≤ 1)
taken-each a (pos zero) m l = rw to_bottom (refl, omega arith)
taken-each a (pos (suc n)) m l = rw (down_one n) (refl, omega arith)
taken-each a (negsuc n) m l = absurd (ground (arith, l))
