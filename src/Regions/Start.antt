-- ===== src/Regions/Start.antt =====
-- The list of regions after `reset_data_structures`.
use cla_mpi.Prelude.{
  Option-cases, eq_of_some, none, ℕ, ◌^◌, ◌<◌, ◌≡◌, refl, sym, ap, subst, ◌∙◌, some, [], ◌∷◌, arith,
  inl, inr,
}
use cla_mpi.Cache.{Double, Cache}
use cla_mpi.Window.{reset_data_structures, emptied, reset_table, free_entry_comp}
use cla_mpi.Window.Fresh.{Fresh, reset_data_structures-Fresh}
use cla_mpi.Regions.Layout.{Layout}
use cla_mpi.Regions.Links.{extent_free}
use cla_mpi.Avl.Pool.{tree_empty}
use cla_mpi.Avl.Insert.{tree_insert}

module _ {F : Type 0} where
  pub Fresh-Layout : (c : Cache F) (n : ℕ) → 0 < n → Fresh n c.mem_size c → Layout c (0 ∷ [])
  Fresh-Layout c n h f =
      let whole = extent_free (c.table_ptr 0) f.is_free ∙ f.whole in
      record {
        chain = (
          record {
            before = f.alone.0;
            start = f.at_start;
            named = f.indices 0 (omega arith);
            after = f.alone.1;
          },
          tt,
        );
        distinct = (tt, tt);
        filled = omega (arith, whole);
      }

module _ (double : Double) where
  open double use {F}

  reset_mem_size :
      (c d : Cache F) → reset_data_structures double c ≡ some d → d.mem_size ≡ c.mem_size
  unfolding reset_data_structures emptied
  reset_mem_size c d e =
      elim (Option-cases
        (tree_insert (free_entry_comp (reset_table double c)) (tree_empty c.free_idx) 0)) [
          | inl failed ↦
              let w : reset_data_structures double c ≡ none =
                rw (failed, reset_data_structures) refl in
              cc
          | inr ((i, t), made) ↦
              let w : reset_data_structures double c ≡ some (emptied double c i t) =
                rw (made, reset_data_structures) refl in
              ap (λ (x : Cache F). x.mem_size) (eq_of_some (sym e ∙ w))
        ]

  -- For a hash table of at least one and fewer than 2^31 slots, a buffer under 2^64 bytes and a
  -- pool with a node, `reset_data_structures` succeeds and leaves a list of one region, the first
  -- descriptor, which fills the buffer; the size of the buffer stays.
  pub reset_data_structures-Layout :
      (c : Cache F)
      → 0 < c.ht_entries
      → c.ht_entries < 2 ^ 31
      → c.mem_size < 2 ^ 64
      → 0 < c.free_idx.tot_nodes
      → (d : Cache F) × (reset_data_structures double c ≡ some d)
        × (d.mem_size ≡ c.mem_size)
        × Layout d (0 ∷ [])
  reset_data_structures-Layout c h k m p =
      let (d, e, f) = reset_data_structures-Fresh double c h k m p in
      let same = reset_mem_size c d e in
      (d, e, same, Fresh-Layout d c.ht_entries h (subst (λ n. Fresh c.ht_entries n d) (sym same) f))
