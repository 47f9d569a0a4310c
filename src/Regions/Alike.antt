-- ===== src/Regions/Alike.antt =====
-- Descriptors that agree in what the list of regions is made of.
use cla_mpi.Prelude.{sym, ℕ, ◌≡◌, refl, inl, inr, subst, update, ◌==◌, Bool-cases, eq_of_test}
use cla_mpi.Cache.{Entry}
use cla_mpi.Regions.Layout.{extent}
use cla_mpi.Regions.Layout.Change.{Kept}
use cla_mpi.Regions.Links.{update_on}
use cla_mpi.Regions.Split.{sizes}

pub record Alike (x y : Entry) : Type 0 where
  pub before : y.mprev ≡ x.mprev
  pub start : y.offset ≡ x.offset
  pub named : y.index ≡ x.index
  pub after : y.mnext ≡ x.mnext
  pub same_extent : extent y ≡ extent x

pub Alike-refl : (x : Entry) → Alike x x
Alike-refl x = record {
  before = refl;
  start = refl;
  named = refl;
  after = refl;
  same_extent = refl;
}

pub Alike-update :
    (t : ℕ → Entry) (e : ℕ) (x : Entry) (i : ℕ) → Alike (t e) x → Alike (t i) (update t e x i)
Alike-update t e x i a = elim (Bool-cases (i == e)) as (λ _. Alike (t i) (update t e x i)) [
  | inl here ↦
      subst (λ j. Alike (t j) (update t e x j)) (sym (eq_of_test i e here))
        (subst (Alike (t e)) (sym (update_on t e e x)) a)
  | inr there ↦ rw there (Alike-refl (t i))
]

module _ (t u : ℕ → Entry) (i : ℕ) where
  pub Alike-Kept : Alike (t i) (u i) → Kept t u (λ i. extent (t i)) (λ i. extent (u i)) i
  Alike-Kept a = record {
    before = a.before;
    start = a.start;
    named = a.named;
    after = a.after;
    size = a.same_extent;
  }

  pub Alike-sizes :
      (new size : ℕ) → Alike (t i) (u i) → Kept t u (sizes t new size) (sizes u new size) i
  Alike-sizes new size a = record {
    before = a.before;
    start = a.start;
    named = a.named;
    after = a.after;
    size = elim (Bool-cases (i == new)) as (λ _. sizes u new size i ≡ sizes t new size i) [
      | inl here ↦ rw here refl
      | inr there ↦ rw there a.same_extent
    ];
  }
