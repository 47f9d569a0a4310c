-- ===== src/Regions/Layout/Cut.antt =====
-- The list of regions, cut at one of them.
use cla_mpi.Prelude.{ℕ, ◌+◌, ◌≡◌, List, ◌∷◌, ◌++◌, arith, pos, All, subst}
use cla_mpi.Cache.{Entry, no_entry}
use cla_mpi.Regions.Layout.{
  first, last, total, Absent, Distinct, Sits, Chain, Tiled, Distinct-left, Distinct-right,
  Distinct-across, Distinct-append, total-append, Chain-append, Chain-append_left,
  Chain-append_right,
}

-- What holds of the regions before `x`, of `x` and of those behind it.
pub record Cut (t : ℕ → Entry) (s : ℕ → ℕ) (xs : List ℕ) (x : ℕ) (ys : List ℕ) (size : ℕ)
    : Type 0 where
  pub left : Chain t s no_entry 0 xs (pos x)
  pub here : Sits t x (last no_entry xs) (total s xs) (first ys no_entry)
  pub right : Chain t s (pos x) (total s xs + s x) ys no_entry
  pub lefts : Distinct xs
  pub rights : Distinct ys
  pub off_left : Absent x xs
  pub off_right : Absent x ys
  pub across : All (λ y. Absent y xs) ys
  pub filled : total s xs + s x + total s ys ≡ size

module _ (t : ℕ → Entry) (s : ℕ → ℕ) (xs : List ℕ) (x : ℕ) (ys : List ℕ) (size : ℕ) where
  pub Tiled-Cut : Tiled t s (xs ++ x ∷ ys) size → Cut t s xs x ys size
  Tiled-Cut h =
      let rest = Chain-append_right t s no_entry 0 xs (x ∷ ys) no_entry h.chain in
      let d = Distinct-right xs (x ∷ ys) h.distinct in
      let apart = Distinct-across xs (x ∷ ys) h.distinct in
      record {
        left = Chain-append_left t s no_entry 0 xs (x ∷ ys) no_entry h.chain;
        here = subst (λ o. Sits t x (last no_entry xs) o (first ys no_entry)) (omega arith) rest.0;
        right = subst (λ o. Chain t s (pos x) o ys no_entry) (omega arith) rest.1;
        lefts = Distinct-left xs (x ∷ ys) h.distinct;
        rights = d.1;
        off_left = apart.0;
        off_right = d.0;
        across = apart.1;
        filled = omega (arith, h.filled, total-append s xs (x ∷ ys));
      }

  pub Cut-Tiled : Cut t s xs x ys size → Tiled t s (xs ++ x ∷ ys) size
  Cut-Tiled c = record {
    chain = Chain-append t s no_entry 0 xs (x ∷ ys) no_entry c.left (
      subst (λ o. Sits t x (last no_entry xs) o (first ys no_entry)) (omega arith) c.here,
      subst (λ o. Chain t s (pos x) o ys no_entry) (omega arith) c.right,
    );
    distinct = Distinct-append xs (x ∷ ys) c.lefts (c.off_right, c.rights) (c.off_left, c.across);
    filled = omega (arith, c.filled, total-append s xs (x ∷ ys));
  }
