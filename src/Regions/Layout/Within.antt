-- ===== src/Regions/Layout/Within.antt =====
-- Where the regions of a list without gaps lie in the buffer, and apart from each other.
use cla_mpi.Prelude.{ℕ, ◌+◌, ◌≤◌, List, [], ◌∷◌, ◌++◌, arith, ℤ, pos, All, All-mono}
use cla_mpi.Cache.{Entry, no_entry}
use cla_mpi.Regions.Layout.{Chain, Tiled, total}
use cla_mpi.Regions.Layout.Cut.{Tiled-Cut}

module _ (t : ℕ → Entry) (s : ℕ → ℕ) where
  Chain-within :
      (p : ℤ) (o : ℕ) (xs : List ℕ) (n : ℤ)
      → Chain t s p o xs n
      → All (λ x. (o ≤ (t x).offset) × ((t x).offset + s x ≤ o + total s xs)) xs
  Chain-within p o [] n h = tt
  Chain-within p o (x ∷ xs) n h = (
    (omega (arith, h.0.start), omega (arith, h.0.start)),
    All-mono (λ i. (o + s x ≤ (t i).offset) × ((t i).offset + s i ≤ o + s x + total s xs))
        (λ i. (o ≤ (t i).offset) × ((t i).offset + s i ≤ o + total s (x ∷ xs)))
        (λ i b. (omega (arith, b), omega (arith, b))) xs (Chain-within (pos x) (o + s x) xs n h.1),
  )

  -- A region lies in the buffer, behind those before it in the list and before those behind it.
  pub record Apart (xs : List ℕ) (x : ℕ) (ys : List ℕ) (size : ℕ) : Type 0 where
    pub inside : (t x).offset + s x ≤ size
    pub lower : All (λ i. (t i).offset + s i ≤ (t x).offset) xs
    pub upper : All (λ i. (t x).offset + s x ≤ (t i).offset) ys

  pub Tiled-Apart :
      (xs : List ℕ) (x : ℕ) (ys : List ℕ) (size : ℕ)
      → Tiled t s (xs ++ x ∷ ys) size
      → Apart xs x ys size
  Tiled-Apart xs x ys size h =
      let cut = Tiled-Cut t s xs x ys size h in
      record {
        inside = omega (arith, cut.here.start, cut.filled);
        lower =
            All-mono (λ i. (0 ≤ (t i).offset) × ((t i).offset + s i ≤ 0 + total s xs))
              (λ i. (t i).offset + s i ≤ (t x).offset) (λ i b. omega (arith, b, cut.here.start)) xs
              (Chain-within no_entry 0 xs (pos x) cut.left);
        upper =
            All-mono
              (λ i.
                (total s xs + s x ≤ (t i).offset)
                × ((t i).offset + s i ≤ total s xs + s x + total s ys))
              (λ i. (t x).offset + s x ≤ (t i).offset) (λ i b. omega (arith, b, cut.here.start)) ys
              (Chain-within (pos x) (total s xs + s x) ys no_entry cut.right);
      }
