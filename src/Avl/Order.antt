-- ===== src/Avl/Order.antt =====
-- The comparison that a tree is given, and lists sorted by it.
use native.Mathlib.Nat.{le_trans}
use cla_mpi.Prelude.{
  ℕ, ◌≤◌, ◌<◌, ◌≡◌, refl, List, [], ◌∷◌, ◌++◌, arith, ℤ, pos, ltb_ℤ, leb_ℤ, ltb, leb, if◌then◌else◌,
  All, All-append, All-append_left, All-append_right, All-mono, Bool-cases, inl, inr, leb→le,
}

-- `comp` compares by a number: its result is negative, 0 or positive as the first key is below,
-- equal to or above the second.
pub record Compares {ℓ} {A : Type ℓ} (comp : A → A → ℤ) (key : A → ℕ) : Type ℓ where
  pub below : (a b : A) → ltb_ℤ (comp a b) (pos 0) ≡ ltb (key a) (key b)
  pub above : (a b : A) → ltb_ℤ (pos 0) (comp a b) ≡ ltb (key b) (key a)
  pub not_above : (a b : A) → leb_ℤ (comp a b) (pos 0) ≡ leb (key a) (key b)

module _ {ℓ} {A : Type ℓ} (key : A → ℕ) where
  abbrev pub AllBelow : ℕ → List A → Type 0
  AllBelow k = All (λ a. key a < k)

  abbrev pub AllFrom : ℕ → List A → Type 0
  AllFrom k = All (λ a. k ≤ key a)

  abbrev pub AllUpTo : ℕ → List A → Type 0
  AllUpTo k = All (λ a. key a ≤ k)

  -- The keys do not fall along the list.
  abbrev pub Sorted : List A → Type 0
  Sorted [] = Unit {0}
  Sorted (x ∷ xs) = AllFrom (key x) xs × Sorted xs

  -- Insertion before the first element that is not below the new one.
  unfoldable pub insert_sorted : A → List A → List A
  insert_sorted x [] = x ∷ []
  insert_sorted x (y ∷ ys) = if leb (key x) (key y) then x ∷ (y ∷ ys) else y ∷ insert_sorted x ys

  -- What stands to the left and to the right of an element of a sorted list.
  pub Sorted-left :
      (xs : List A) (y : A) (ys : List A) → Sorted (xs ++ (y ∷ ys)) → AllUpTo (key y) xs
  Sorted-left [] y ys s = tt
  Sorted-left (x ∷ xs) y ys s = ((All-append_right _ xs (y ∷ ys) s.0).0, Sorted-left xs y ys s.1)

  pub Sorted-append_left : (xs ys : List A) → Sorted (xs ++ ys) → Sorted xs
  Sorted-append_left [] ys s = tt
  Sorted-append_left (x ∷ xs) ys s = (All-append_left _ xs ys s.0, Sorted-append_left xs ys s.1)

  pub Sorted-append_right : (xs ys : List A) → Sorted (xs ++ ys) → Sorted ys
  Sorted-append_right [] ys s = s
  Sorted-append_right (x ∷ xs) ys s = Sorted-append_right xs ys s.1

  pub Sorted-remove :
      (xs : List A) (y : A) (ys : List A) → Sorted (xs ++ (y ∷ ys)) → Sorted (xs ++ ys)
  Sorted-remove [] y ys s = s.1
  Sorted-remove (x ∷ xs) y ys s = (
    All-append _ xs ys (All-append_left _ xs (y ∷ ys) s.0) (All-append_right _ xs (y ∷ ys) s.0).1,
    Sorted-remove xs y ys s.1,
  )

  pub insert_sorted-append :
      (x : A) (xs ys : List A)
      → AllBelow (key x) xs
      → AllFrom (key x) ys
      → insert_sorted x (xs ++ ys) ≡ xs ++ (x ∷ ys)
  unfolding insert_sorted
  insert_sorted-append x [] [] b f = refl
  insert_sorted-append x [] (y ∷ ys) b f = ground arith
  insert_sorted-append x (a ∷ xs) ys b f = ground (arith, insert_sorted-append x xs ys b.1 f)

  insert_sorted-AllFrom :
      (k : ℕ) (x : A) (xs : List A) → k ≤ key x → AllFrom k xs → AllFrom k (insert_sorted x xs)
  unfolding insert_sorted
  insert_sorted-AllFrom k x [] h f = (h, tt)
  insert_sorted-AllFrom k x (y ∷ ys) h f = ground (arith, insert_sorted-AllFrom k x ys h f.1)

  pub insert_sorted-Sorted : (x : A) (xs : List A) → Sorted xs → Sorted (insert_sorted x xs)
  unfolding insert_sorted
  insert_sorted-Sorted x [] s = (tt, tt)
  insert_sorted-Sorted x (y ∷ ys) s = elim (Bool-cases (leb (key x) (key y))) [
    | inl low ↦ rw low (
      (leb→le _ _ low, All-mono _ _ (λ a (h : key y ≤ key a). le_trans (leb→le _ _ low) h) ys s.0),
      s,
    )
    | inr high ↦
        rw high
          (insert_sorted-AllFrom (key y) x ys (ground arith) s.0, insert_sorted-Sorted x ys s.1)
  ]
