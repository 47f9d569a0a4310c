-- ===== src/Regions/Links.antt =====
-- The links between descriptors: what a write of one leaves of the table.
use cla_mpi.Prelude.{
  sym, ℕ, ◌≡◌, ◌≢◌, refl, Bool-cases, eq_of_test, ne_of_test, inl, inr, ◌⊎◌, arith, ℤ, pos, negsuc,
  subst, update, ap, ◌∙◌, ◌==◌,
}
use cla_mpi.Cache.{Entry, Cache, size_of, free}
use cla_mpi.Window.{set_entry}
use cla_mpi.Regions.{set_mnext, set_mprev}
use cla_mpi.Regions.Layout.{extent, pos-injective}

module _ {F : Type 0} (c : Cache F) where
  pub set_entry_here :
      (i : ℕ) (f : Entry → Entry) → (set_entry c i f).table_ptr i ≡ f (c.table_ptr i)
  unfolding set_entry
  set_entry_here i f = ground arith

  pub set_entry_elsewhere :
      (i j : ℕ) (f : Entry → Entry) → j ≢ i → (set_entry c i f).table_ptr j ≡ c.table_ptr j
  unfolding set_entry
  set_entry_elsewhere i j f h = ground (arith, h)

  pub set_mnext_here :
      (z : ℤ) (i j : ℕ)
      → z ≡ pos i
      → (set_mnext c z j).table_ptr i ≡ record (c.table_ptr i) { mnext = pos j }
  unfolding set_mnext
  set_mnext_here z i j e =
      subst (λ z. (set_mnext c z j).table_ptr i ≡ record (c.table_ptr i) { mnext = pos j }) (sym e)
        (set_entry_here i (λ e. record e { mnext = pos j }))

  pub set_mnext_elsewhere :
      (z : ℤ) (i j : ℕ) → z ≢ pos i → (set_mnext c z j).table_ptr i ≡ c.table_ptr i
  unfolding set_mnext
  set_mnext_elsewhere (pos k) i j e =
      set_entry_elsewhere k i (λ e. record e { mnext = pos j }) (λ f. e (ap pos (sym f)))
  set_mnext_elsewhere (negsuc k) i j e = refl

  pub set_mnext_frame :
      (z : ℤ) (j : ℕ) → set_mnext c z j ≡ record c { table_ptr = (set_mnext c z j).table_ptr }
  unfolding set_mnext set_entry
  set_mnext_frame (pos i) j = refl
  set_mnext_frame (negsuc i) j = refl

  pub set_mprev_frame :
      (z : ℤ) (j : ℕ) → set_mprev c z j ≡ record c { table_ptr = (set_mprev c z j).table_ptr }
  unfolding set_mprev set_entry
  set_mprev_frame (pos i) j = refl
  set_mprev_frame (negsuc i) j = refl

  pub set_mprev_here :
      (z : ℤ) (i j : ℕ)
      → z ≡ pos i
      → (set_mprev c z j).table_ptr i ≡ record (c.table_ptr i) { mprev = pos j }
  unfolding set_mprev
  set_mprev_here z i j e =
      subst (λ z. (set_mprev c z j).table_ptr i ≡ record (c.table_ptr i) { mprev = pos j }) (sym e)
        (set_entry_here i (λ e. record e { mprev = pos j }))

  pub set_mprev_elsewhere :
      (z : ℤ) (i j : ℕ) → z ≢ pos i → (set_mprev c z j).table_ptr i ≡ c.table_ptr i
  unfolding set_mprev
  set_mprev_elsewhere (pos k) i j e =
      set_entry_elsewhere k i (λ e. record e { mprev = pos j }) (λ f. e (ap pos (sym f)))
  set_mprev_elsewhere (negsuc k) i j e = refl

-- What a write of one field leaves of the others.
module _ {F : Type 0} {A : Type 0} (g : Entry → A) (c : Cache F) where
  pub set_entry_kept :
      (i : ℕ) (f : Entry → Entry)
      → ((x : Entry) → g (f x) ≡ g x)
      → (j : ℕ) → g ((set_entry c i f).table_ptr j) ≡ g (c.table_ptr j)
  set_entry_kept i f h j = elim (Bool-cases (j == i)) [
    | inl here ↦
        subst (λ k. g ((set_entry c i f).table_ptr k) ≡ g (c.table_ptr k))
          (sym (eq_of_test j i here)) (ap g (set_entry_here c i f) ∙ h (c.table_ptr i))
    | inr there ↦ ap g (set_entry_elsewhere c i j f (ne_of_test j i there))
  ]

  pub set_mnext_kept :
      (z : ℤ) (i : ℕ)
      → ((x : Entry) (n : ℤ) → g (record x { mnext = n }) ≡ g x)
      → (j : ℕ) → g ((set_mnext c z i).table_ptr j) ≡ g (c.table_ptr j)
  unfolding set_mnext
  set_mnext_kept (pos k) i h j =
      set_entry_kept k (λ e. record e { mnext = pos i }) (λ x. h x (pos i)) j
  set_mnext_kept (negsuc k) i h j = refl

  pub set_mprev_kept :
      (z : ℤ) (i : ℕ)
      → ((x : Entry) (p : ℤ) → g (record x { mprev = p }) ≡ g x)
      → (j : ℕ) → g ((set_mprev c z i).table_ptr j) ≡ g (c.table_ptr j)
  unfolding set_mprev
  set_mprev_kept (pos k) i h j =
      set_entry_kept k (λ e. record e { mprev = pos i }) (λ x. h x (pos i)) j
  set_mprev_kept (negsuc k) i h j = refl

pub link_cases : (z : ℤ) (i : ℕ) → (z ≡ pos i) ⊎ (z ≢ pos i)
link_cases (pos k) i = elim (Bool-cases (k == i)) [
  | inl same ↦ inl (ap pos (eq_of_test k i same))
  | inr other ↦ inr (λ e. ne_of_test k i other (pos-injective e))
]
link_cases (negsuc k) i = inr (λ e. cc)

pub extent_free : (e : Entry) → e.kind ≡ free → extent e ≡ size_of e
extent_free e f = rw f refl

module _ {A : Type 0} (f : ℕ → A) (i j : ℕ) (a : A) where
  pub update_off : j ≢ i → update f i a j ≡ f j
  update_off h = ground (arith, h)

  pub update_on : update f i a i ≡ a
  update_on = ground arith
