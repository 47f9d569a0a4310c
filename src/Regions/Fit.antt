-- ===== src/Regions/Fit.antt =====
-- The tree of free regions is one by size, and its search finds the best fit.
use cla_mpi.Prelude.{
  ℕ, ◌*◌, ◌^◌, ◌≤◌, ◌<◌, ◌≡◌, ◌⊎◌, inl, inr, Option, none, some, List, [], ◌∷◌, arith, sym, subst,
  update,
}
use cla_mpi.Avl.{inorder}
use cla_mpi.Avl.Order.{Compares, Sorted, AllFrom, AllBelow}
use mathlib.Core.List.{Mem, not-mem-nil, eq-or-mem_of_mem-cons}
use mathlib.Core.Logic.Or
use cla_mpi.Regions.{find_region}
use cla_mpi.Prelude.{All}
use cla_mpi.Avl.Search.{IsCeiling, tree_csearch_node-IsCeiling}
use cla_mpi.Cache.{Entry, Cache, size_of, set_size, size_of-set_size}
use cla_mpi.Window.{free_entry_comp}

-- The comparison is by size.
pub free_entry_comp-Compares :
    (table : ℕ → Entry) → Compares (free_entry_comp table) (λ i. size_of (table i))
unfolding free_entry_comp
free_entry_comp-Compares table = record {
  below = λ a b. ground arith;
  above = λ a b. ground arith;
  not_above = λ a b. ground arith;
}

-- Two keys that agree on a list sort it alike.
module _ (k k' : ℕ → ℕ) where
  AllFrom-same : (n : ℕ) (xs : List ℕ) → All (λ i. k' i ≡ k i) xs → AllFrom k n xs → AllFrom k' n xs
  AllFrom-same n [] e h = tt
  AllFrom-same n (x ∷ xs) e h = (omega (arith, e.0, h.0), AllFrom-same n xs e.1 h.1)

  pub Sorted-same : (xs : List ℕ) → All (λ i. k' i ≡ k i) xs → Sorted k xs → Sorted k' xs
  Sorted-same [] e s = tt
  Sorted-same (x ∷ xs) e s = (
    subst (λ n. AllFrom k' n xs) (sym e.0) (AllFrom-same (k x) xs e.1 s.0),
    Sorted-same xs e.1 s.1,
  )

  AllBelow-same :
      (n : ℕ) (xs : List ℕ) → All (λ i. k' i ≡ k i) xs → AllBelow k' n xs → AllBelow k n xs
  AllBelow-same n [] e h = tt
  AllBelow-same n (x ∷ xs) e h = (omega (arith, e.0, h.0), AllBelow-same n xs e.1 h.1)

  member_same : (d : ℕ) (xs : List ℕ) → All (λ i. k' i ≡ k i) xs → Mem d xs → k' d ≡ k d
  member_same d [] e m = absurd (not-mem-nil m)
  member_same d (x ∷ xs) e m =
      Or.elim (hlevel) (eq-or-mem_of_mem-cons m) (λ f. subst (λ z. k' z ≡ k z) (sym f) e.0)
        (member_same d xs e.1)

  best_same :
      (n d : ℕ) (xs : List ℕ)
      → All (λ i. k' i ≡ k i) xs
      → All (λ i. (k' i < n) ⊎ (d ≤ k' i)) xs
      → All (λ i. (k i < n) ⊎ (d ≤ k i)) xs
  best_same n d [] e h = tt
  best_same n d (x ∷ xs) e h = (subst (λ v. (v < n) ⊎ (d ≤ v)) e.0 h.0, best_same n d xs e.1 h.1)

module _ {F : Type 0} where
  -- The region is one of the tree, is large enough, and no other that is large enough is smaller.
  abbrev pub BestFit : Cache F → ℕ → Option ℕ → Type 0
  BestFit c size none = All (λ i. size_of (c.table_ptr i) < size) (inorder c.free_idx.root)
  BestFit c size (some d) =
      (size ≤ size_of (c.table_ptr d))
      × Mem d (inorder c.free_idx.root)
      × All
          (λ i.
            (size_of (c.table_ptr i) < size) ⊎ (size_of (c.table_ptr d) ≤ size_of (c.table_ptr i)))
          (inorder c.free_idx.root)

  module _ (c : Cache F) (size : ℕ) where
    unfoldable searched : ℕ → Entry
    searched =
        update c.table_ptr (c.ht_entries * 2) (set_size (c.table_ptr (c.ht_entries * 2)) size)

    unchanged :
        (xs : List ℕ)
        → All (λ i. i < c.ht_entries * 2) xs
        → All (λ i. size_of (searched i) ≡ size_of (c.table_ptr i)) xs
    unfolding searched
    unchanged [] h = tt
    unchanged (x ∷ xs) h = (ground (arith, h.0), unchanged xs h.1)

    looked_for : size < 2 ^ 64 → size_of (searched (c.ht_entries * 2)) ≡ size
    unfolding searched
    looked_for h = ground (arith, size_of-set_size (c.table_ptr (c.ht_entries * 2)) size h)

    best :
        (r : Option ℕ)
        → size_of (searched (c.ht_entries * 2)) ≡ size
        → All (λ i. size_of (searched i) ≡ size_of (c.table_ptr i)) (inorder c.free_idx.root)
        → IsCeiling (λ i. size_of (searched i)) (c.ht_entries * 2) (inorder c.free_idx.root) none r
        → BestFit c size r
    best none n e (f, b) =
        AllBelow-same (λ i. size_of (c.table_ptr i)) (λ i. size_of (searched i)) size _ e
          (subst (λ n. All (λ i. size_of (searched i) < n) (inorder c.free_idx.root)) n b)
    best (some d) n e (large, inr f, b, m) = cc
    best (some d) n e (large, inl f, b, m) =
        let same = member_same (λ i. size_of (c.table_ptr i)) (λ i. size_of (searched i)) d _ e f in
        (
          omega (arith, large, same, n),
          f,
          subst
              (λ v.
                All (λ i. (size_of (c.table_ptr i) < size) ⊎ (v ≤ size_of (c.table_ptr i)))
                  (inorder c.free_idx.root))
              same
              (best_same (λ i. size_of (c.table_ptr i)) (λ i. size_of (searched i)) size
                (size_of (searched d)) _ e
                (subst
                  (λ n.
                    All
                      (λ i.
                        (size_of (searched i) < n) ⊎ (size_of (searched d) ≤ size_of (searched i)))
                      (inorder c.free_idx.root))
                  n b)),
        )

    -- For a size under 2^64 and a tree of descriptors of the table that is sorted by size, the
    -- search of `CMPI_Get` for a free region finds one of the tree that is large enough, such that
    -- no other that is large enough is smaller, and finds none only if none is large enough.
    pub find_region-BestFit :
        size < 2 ^ 64
        → Sorted (λ i. size_of (c.table_ptr i)) (inorder c.free_idx.root)
        → All (λ i. i < c.ht_entries * 2) (inorder c.free_idx.root)
        → BestFit c size (find_region c size)
    unfolding find_region searched
    find_region-BestFit h s b = best (find_region c size) (looked_for h) (unchanged _ b) (
        tree_csearch_node-IsCeiling (λ i. size_of (searched i)) (c.ht_entries * 2)
          (free_entry_comp searched) (free_entry_comp-Compares searched) c.free_idx.root
          (Sorted-same (λ i. size_of (c.table_ptr i)) (λ i. size_of (searched i)) _ (unchanged _ b)
            s))
