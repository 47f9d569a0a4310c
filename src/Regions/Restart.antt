-- ===== src/Regions/Restart.antt =====
-- src/clampi_win.c: `reset_data_structures`, on the list of regions, the tree of the free ones and the
-- stack of descriptors.
use cla_mpi.Prelude.{
  ℕ, zero, suc, ◌+◌, ◌*◌, ◌-◌, ◌<◌, ◌^◌, ◌%◌, ◌≡◌, refl, sym, ap, ◌∙◌, subst, inl, inr, none, some,
  [], ◌∷◌, arith, count, ◌==◌, if◌then◌else◌, ltb, Bool-cases, Option-cases, eq_of_some, eq_of_test,
  true,
}
use cla_mpi.Avl.Pool.{AvlTree, tree_empty, tree_empty-IsCounted}
use cla_mpi.Avl.Handles.{tree_empty-Pooled}
use cla_mpi.Avl.Stack.{stack}
use cla_mpi.Avl.Insert.{tree_insert}
use cla_mpi.Avl.Order.{Sorted}
use cla_mpi.Cache.{Double, Cache}
use cla_mpi.Regions.{is_region, is_free}
use cla_mpi.Regions.Added.{inserted-Tied, sizes_of}
use cla_mpi.Regions.Hung.{Hung}
use cla_mpi.Regions.Shelved.{Shelved}
use cla_mpi.Regions.Sound.{Sound}
use cla_mpi.Regions.Start.{Fresh-Layout}
use cla_mpi.Regions.Stock.{Stocked}
use cla_mpi.Regions.Tied.{Tied}
use cla_mpi.Window.{reset_data_structures, emptied, reset_table, free_entry_comp}
use cla_mpi.Window.Fresh.{Fresh, reset_data_structures-Fresh}

-- The stack of all descriptors but the first.
count_behind :
    (a : ℕ → ℕ) (k n : ℕ)
    → ((i : ℕ) → i < n → a i ≡ i + 1)
    → count k (stack a n) ≡ (if ltb k 1 then 0 else if ltb k (n + 1) then 1 else 0)
count_behind a k zero h = ground arith
count_behind a k (suc n) h =
    ground (arith, count_behind a k n (λ i l. h i (omega (arith, l))), h n (omega arith))

module _ {F : Type 0} (d : Cache F) (f : Fresh d.ht_entries d.mem_size d) (h : 0 < d.ht_entries)
    (k : d.ht_entries < 2 ^ 31) where
  fresh-Stocked : Stocked d (0 ∷ [])
  fresh-Stocked =
      let top = f.stack_top in
      record {
        each = λ e.
            let depth : (d.next_free_entry + 1) % 2 ^ 32 ≡ d.ht_entries * 2 - 1 =
              omega (arith, top, k) in
            let stacked = ap (λ n. count e (stack d.free_entries n)) depth in
            ground
              (arith, stacked, count_behind d.free_entries e (d.ht_entries * 2 - 1) f.stack, h);
        filled = omega (arith, top, k, h);
        few = k;
        narrow = omega (arith, top, k);
        named = f.indices;
      }

  fresh-Shelved : Tied d.table_ptr d.free_idx → Shelved d (is_region none) (0 ∷ [])
  fresh-Shelved t = record {
    hung = record { balanced = f.balanced; counted = f.counted; links = t };
    sorted = subst (Sorted (sizes_of d)) (sym f.region) (tt, tt);
    members = λ e. ap (count e) f.region ∙ elim (Bool-cases (e == 0)) [
      | inl here ↦
          let at = eq_of_test e 0 here in
          let is : is_free (d.table_ptr e) ≡ true =
            ap (λ i. is_free (d.table_ptr i)) at ∙ rw f.is_free refl in
          ground (arith, is)
      | inr off ↦ ground (arith, off)
    ];
  }

  pub fresh-Sound : Tied d.table_ptr d.free_idx → Sound d none (0 ∷ [])
  fresh-Sound t = record {
    layout = Fresh-Layout d d.ht_entries h f;
    shelved = fresh-Shelved t;
    selected_there = λ s no. cc;
    stocked = fresh-Stocked;
  }

module _ (double : Double) where
  open double use {F}

  emptied-Tied :
      (c : Cache F) (i : ℕ) (t : AvlTree ℕ)
      → tree_insert (free_entry_comp (reset_table double c)) (tree_empty c.free_idx) 0 ≡ some (i, t)
      → Tied (emptied double c i t).table_ptr (emptied double c i t).free_idx
  unfolding emptied tree_empty
  emptied-Tied c i t run =
      let blank : Cache F = record c {
        free_idx = tree_empty c.free_idx;
        table_ptr = reset_table double c;
      } in
      let hung : Hung blank = record {
        balanced = tt;
        counted = tree_empty-IsCounted c.free_idx;
        links = record { pool = tree_empty-Pooled c.free_idx; tied = tt; once = λ e. omega arith };
      } in
      (inserted-Tied blank 0 i t hung refl run).0

  emptied_same :
      (c : Cache F) (i : ℕ) (t : AvlTree ℕ)
      → ((emptied double c i t).ht_entries ≡ c.ht_entries)
        × ((emptied double c i t).mem_size ≡ c.mem_size)
  unfolding emptied
  emptied_same c i t = (refl, refl)

  reset_frame :
      (c d : Cache F)
      → reset_data_structures double c ≡ some d
      → Tied d.table_ptr d.free_idx × (d.ht_entries ≡ c.ht_entries) × (d.mem_size ≡ c.mem_size)
  unfolding reset_data_structures
  reset_frame c d run =
      elim (Option-cases
        (tree_insert (free_entry_comp (reset_table double c)) (tree_empty c.free_idx) 0)) [
          | inl failed ↦
              let w : reset_data_structures double c ≡ none =
                rw (failed, reset_data_structures) refl in
              cc
          | inr ((i, t), made) ↦
              let w : reset_data_structures double c ≡ some (emptied double c i t) =
                rw (made, reset_data_structures) refl in
              subst
                (λ (x : Cache F).
                  Tied x.table_ptr x.free_idx
                  × (x.ht_entries ≡ c.ht_entries)
                  × (x.mem_size ≡ c.mem_size))
                (eq_of_some (sym w ∙ run))
                (emptied-Tied c i t made, (emptied_same c i t).0, (emptied_same c i t).1)
        ]

  -- For a hash table of at least one and fewer than 2^31 slots, a buffer under 2^64 bytes and a
  -- pool with a node: `reset_data_structures` succeeds and keeps the size of the buffer. The list
  -- of regions is the first descriptor alone, which fills the buffer; the free regions of the list
  -- are in the tree, once each, sorted by size and linked to their nodes, the tree is balanced,
  -- each node of the pool is once in the tree or on its stack, and each descriptor is once in the
  -- list or on its stack.
  pub reset_data_structures-Sound :
      (c : Cache F)
      → 0 < c.ht_entries
      → c.ht_entries < 2 ^ 31
      → c.mem_size < 2 ^ 64
      → 0 < c.free_idx.tot_nodes
      → (d : Cache F) × (reset_data_structures double c ≡ some d)
        × (d.mem_size ≡ c.mem_size)
        × Sound d none (0 ∷ [])
  reset_data_structures-Sound c h k m p =
      let (d, run, f) = reset_data_structures-Fresh double c h k m p in
      let (tied, n, bytes) = reset_frame c d run in
      (
        d,
        run,
        bytes,
        fresh-Sound d
            (subst (λ s. Fresh d.ht_entries s d) (sym bytes)
              (subst (λ s. Fresh s c.mem_size d) (sym n) f))
            (omega (arith, n, h)) (omega (arith, n, k)) tied,
      )
