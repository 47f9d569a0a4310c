-- ===== src/Regions/Layout/Change.antt =====
-- Changes of the descriptors that keep, or relink, a part of the list of regions.
use cla_mpi.Prelude.{ℕ, ◌+◌, ◌≡◌, ◌≢◌, refl, List, [], ◌∷◌, arith, ℤ, pos, All, subst, ◌∙◌}
use cla_mpi.Cache.{Entry, no_entry}
use cla_mpi.Regions.Layout.{
  first, last, total, Distinct, Sits, Chain, Tiled, last-Absent, pos-injective,
}

-- The place of a descriptor is the same in both tables, and so is its size.
pub record Kept (t u : ℕ → Entry) (s r : ℕ → ℕ) (x : ℕ) : Type 0 where
  pub before : (u x).mprev ≡ (t x).mprev
  pub start : (u x).offset ≡ (t x).offset
  pub named : (u x).index ≡ (t x).index
  pub after : (u x).mnext ≡ (t x).mnext
  pub size : r x ≡ s x

module _ (t u : ℕ → Entry) (s r : ℕ → ℕ) where
  pub Sits-Kept : (x : ℕ) (p : ℤ) (o : ℕ) (n : ℤ) → Kept t u s r x → Sits t x p o n → Sits u x p o n
  Sits-Kept x p o n k h = record {
    before = k.before ∙ h.before;
    start = k.start ∙ h.start;
    named = k.named ∙ h.named;
    after = k.after ∙ h.after;
  }

  pub Chain-Kept :
      (p : ℤ) (o : ℕ) (xs : List ℕ) (n : ℤ)
      → All (Kept t u s r) xs
      → Chain t s p o xs n
      → Chain u r p o xs n
  Chain-Kept p o [] n k h = tt
  Chain-Kept p o (x ∷ xs) n k h = (
    Sits-Kept x p o (first xs n) k.0 h.0,
    subst (λ m. Chain u r (pos x) m xs n) (omega (arith, k.0.size))
        (Chain-Kept (pos x) (o + s x) xs n k.1 h.1),
  )

  pub total-Kept : (xs : List ℕ) → All (Kept t u s r) xs → total r xs ≡ total s xs
  total-Kept [] k = refl
  total-Kept (x ∷ xs) k = omega (arith, k.0.size, total-Kept xs k.1)

-- The link of `q` to the descriptor behind it is set to `m`, and no other place has changed.
pub record Redirected (t u : ℕ → Entry) (s r : ℕ → ℕ) (q m : ℤ) (x : ℕ) : Type 0 where
  pub before : (u x).mprev ≡ (t x).mprev
  pub start : (u x).offset ≡ (t x).offset
  pub named : (u x).index ≡ (t x).index
  pub here : q ≡ pos x → (u x).mnext ≡ m
  pub elsewhere : q ≢ pos x → (u x).mnext ≡ (t x).mnext
  pub size : r x ≡ s x

module _ (t u : ℕ → Entry) (s r : ℕ → ℕ) (m : ℤ) where
  pub Chain-Redirected :
      (p : ℤ) (o : ℕ) (xs : List ℕ) (n : ℤ)
      → Distinct xs
      → All (Redirected t u s r (last p xs) m) xs
      → Chain t s p o xs n
      → Chain u r p o xs m
  Chain-Redirected p o [] n d k h = tt
  Chain-Redirected p o (x ∷ []) n d k h = (
    record {
      before = k.0.before ∙ h.0.before;
      start = k.0.start ∙ h.0.start;
      named = k.0.named ∙ h.0.named;
      after = k.0.here refl;
    },
    tt,
  )
  Chain-Redirected p o (x ∷ y ∷ ys) n d k h = (
    record {
      before = k.0.before ∙ h.0.before;
      start = k.0.start ∙ h.0.start;
      named = k.0.named ∙ h.0.named;
      after =
          k.0.elsewhere (last-Absent x (pos y) ys (λ f. d.0.0 (pos-injective f)) d.0.1) ∙ h.0.after;
    },
    subst (λ z. Chain u r (pos x) z (y ∷ ys) m) (omega (arith, k.0.size))
        (Chain-Redirected (pos x) (o + s x) (y ∷ ys) n d.1 k.1 h.1),
  )

module _ (t u : ℕ → Entry) (s r : ℕ → ℕ) (xs : List ℕ) (bytes : ℕ) where
  -- Where no place changes, the list stays as it is.
  pub Tiled-Kept : All (Kept t u s r) xs → Tiled t s xs bytes → Tiled u r xs bytes
  Tiled-Kept k h = record {
    chain = Chain-Kept t u s r no_entry 0 xs no_entry k h.chain;
    distinct = h.distinct;
    filled = total-Kept t u s r xs k ∙ h.filled;
  }
