-- ===== src/Adapt/Fresh.antt =====
-- `cl_adapt` keeps the cache as it is, or leaves an empty one of another size.
use cla_mpi.Prelude.{
  ℕ, ◌-◌, ◌*◌, ◌^◌, ◌/◌, ◌<◌, ◌≡◌, refl, ◌⊎◌, inl, inr, Bool, true, false, ◌&&◌, some, arith, ltb,
  leb, Bool-cases,
}
use cla_mpi.Cache.{Double, Cache, u32}
use cla_mpi.Avl.Pool.{tree_new}
use cla_mpi.Window.{align, invalidate}
use cla_mpi.Window.Fresh.{Fresh, reset_data_structures-Fresh}
use cla_mpi.Adapt.{
  Heap, increased, decreased, align_int, decide_flush, resize_table, resize_memory, adapt_to,
  cl_adapt,
}

align_same : (m : ℕ) → m < 2 ^ 29 → align_int (u32 (m * 2)) ≡ align (m * 2)
unfolding align_int align
align_same m h = ground arith

align_bound : (m : ℕ) → m < 2 ^ 29 → align (m * 2) < 2 ^ 64
unfolding align
align_bound m h = omega arith

module _ (double : Double) where
  open double use {F}

  -- One get in ten, or more, has evicted for a conflict in the table, and one in ten for space; or
  -- less than a tenth of the slots that the scans have visited was used, and the last one visited
  -- some.
  abbrev pub Conflicts : Cache F → Type 0
  Conflicts c = c.getcount < 10 * c.stat.ht_evictions

  abbrev pub Sparse : Cache F → Type 0
  Sparse c =
      (0 < c.stat.last_eviction_scan) × (10 * c.stat.tot_eviction_sample < c.stat.tot_eviction_scan)

  abbrev pub Full : Cache F → Type 0
  Full c = c.getcount < 10 * c.stat.sp_evictions

  -- An empty cache with a larger table, a smaller one or a larger buffer, by the first of the three
  -- that holds, or the cache as it was.
  abbrev pub Adapted : Cache F → Bool → Cache F → Type 0
  Adapted c flushed d =
      (Conflicts c × (flushed ≡ true) × Fresh (c.ht_entries * 3 / 2) c.mem_size d)
      ⊎ ((¬ Conflicts c) × Sparse c × (flushed ≡ true) × Fresh (c.ht_entries * 3 / 4) c.mem_size d)
      ⊎ ((¬ Conflicts c)
          × (¬ Sparse c)
          × Full c
          × (flushed ≡ true)
          × Fresh c.ht_entries (align (c.mem_size * 2)) d)
      ⊎ ((¬ Conflicts c) × (¬ Sparse c) × (¬ Full c) × (flushed ≡ false) × (d ≡ c))

  invalidate-table :
      (heap : Heap) (c : Cache F) (n : ℕ)
      → 0 < n
      → n < 2 ^ 31
      → c.mem_size < 2 ^ 64
      → (d : Cache F) × (invalidate double (resize_table heap c n) ≡ some d) × Fresh n c.mem_size d
  unfolding invalidate resize_table tree_new
  invalidate-table heap c n h k m =
      reset_data_structures-Fresh double (resize_table heap c n) h k m h

  invalidate-memory :
      (heap : Heap) (c : Cache F)
      → 0 < c.ht_entries
      → c.ht_entries < 2 ^ 31
      → c.mem_size < 2 ^ 29
      → 0 < c.free_idx.tot_nodes
      → heap.available (align (c.mem_size * 2)) ≡ true
      → (m : Cache F) × (d : Cache F) × (resize_memory heap c (u32 (c.mem_size * 2)) ≡ some m)
        × (invalidate double m ≡ some d)
        × Fresh c.ht_entries (align (c.mem_size * 2)) d
  unfolding invalidate resize_memory
  invalidate-memory heap c h k m p av =
      let size : align_int (u32 (c.mem_size * 2)) ≡ align (c.mem_size * 2) =
        align_same c.mem_size m in
      let grown : Cache F = record c { mem_size = align (c.mem_size * 2); mem = heap.bytes } in
      let (d, e, f) = reset_data_structures-Fresh double grown h k (align_bound c.mem_size m) p in
      let whole : (leb (2 ^ 31 - 63) (u32 (c.mem_size * 2)) && ltb (u32 (c.mem_size * 2)) (2 ^ 31))
          ≡ false =
        ground arith in
      (grown, d, rw (whole, size, av) refl, e, f)

  -- For a hash table of at least two slots whose increased size is under 2^31, a buffer under 2^29
  -- bytes, a pool with a node, and memory for a buffer of twice the size, `cl_adapt` returns. If
  -- ten times the evictions for conflicts are more than the gets, it has flushed and leaves an
  -- empty cache with a table of 3/2 of the size; otherwise, if the last scan visited a slot and
  -- ten times the used slots of all scans are less than the slots visited, one with a table of 3/4
  -- of the size; otherwise, if ten times the evictions for space are more than the gets, one with
  -- a buffer of twice the size, rounded up to a cache line; otherwise it has not flushed, and the
  -- cache is as it was.
  pub cl_adapt-Adapted :
      (heap : Heap) (c : Cache F)
      → 1 < c.ht_entries
      → increased c.ht_entries < 2 ^ 31
      → c.mem_size < 2 ^ 29
      → 0 < c.free_idx.tot_nodes
      → heap.available (align (c.mem_size * 2)) ≡ true
      → (flushed : Bool) × (d : Cache F) × (cl_adapt double heap c ≡ some (flushed, d))
        × Adapted c flushed d
  unfolding cl_adapt decide_flush adapt_to
  cl_adapt-Adapted heap c h k m p av =
      let s = c.stat in
      elim (Bool-cases (ltb c.getcount (10 * s.ht_evictions))) [
        | inl yes1 ↦
            let (d, f, fresh) =
              invalidate-table heap c (increased c.ht_entries) (omega arith) (omega arith)
                (omega arith) in
            (true, d, rw (yes1, adapt_to) (rw f refl), inl (ground arith, refl, fresh))
        | inr no1 ↦
            let calm : ¬ Conflicts c = λ y. absurd (ground arith) in
            elim (Bool-cases (
              ltb 0 s.last_eviction_scan && ltb (10 * s.tot_eviction_sample) s.tot_eviction_scan)) [
                | inl yes2 ↦
                    let (d, f, fresh) =
                      invalidate-table heap c (decreased c.ht_entries) (omega arith) (omega arith)
                        (omega arith) in
                    let sparse : Sparse c = (ground arith, ground arith) in
                    (
                      true,
                      d,
                      rw (no1, yes2, adapt_to) (rw f refl),
                      inr (inl (calm, sparse, refl, fresh)),
                    )
                | inr no2 ↦
                    let dense : ¬ Sparse c = λ (y, z). absurd (ground arith) in
                    elim (Bool-cases (ltb c.getcount (10 * s.sp_evictions))) [
                      | inl yes3 ↦
                          let (g, d, f, f', fresh) =
                            invalidate-memory heap c (omega arith) (omega arith) m p av in
                          (
                            true,
                            d,
                            rw (no1, no2, yes3, adapt_to) (rw (f, f') refl),
                            inr (inr (inl (calm, dense, ground arith, refl, fresh))),
                          )
                      | inr no3 ↦ (
                        false,
                        c,
                        rw (no1, no2, no3, adapt_to) refl,
                        inr (inr (inr (calm, dense, λ y. absurd (ground arith), refl, refl))),
                      )
                    ]
              ]
      ]
