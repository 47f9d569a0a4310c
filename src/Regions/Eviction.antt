-- ===== src/Regions/Eviction.antt =====
-- src/clampi_get.c: an eviction as a whole keeps the list of regions and the tree of the free ones.
use cla_mpi.Prelude.{
  ℕ, ◌<◌, ◌^◌, ◌≡◌, ◌≢◌, ◌⊎◌, refl, sym, ap, ◌∙◌, subst, inl, inr, Bool, true, Option, some, List,
  [], ◌∷◌, ◌++◌, arith, same, count, count-append, pos, All-append_right,
}
use cla_mpi.Cache.{Entry, Cache, free, busy}
use cla_mpi.Window.{set_entry}
use cla_mpi.Regions.{Merge, merge_prev, merge_next}
use cla_mpi.Regions.Absorbing.{merge_prev-Merging, merge_next-Merging}
use cla_mpi.Regions.Coalesce.{Coalesced}
use cla_mpi.Regions.Coalesced.{MergesBefore, merge_prev-Coalesced, merge_next-Coalesced}
use cla_mpi.Regions.Evict.{evict}
use cla_mpi.Regions.Evicted.{
  sized, sized-Tiled, extent_busy, freed-Layout, chosen-Layout, finished-Layout, finished_kind,
}
use cla_mpi.Regions.Steps.{release, finish, sized_bytes, evict_runs}
use cla_mpi.Regions.Finished.{freed-Shelved, freed-Stocked, freed-Room}
use cla_mpi.Regions.Index.{Indexed}
use cla_mpi.Regions.Join.{merging}
use cla_mpi.Regions.Layout.{Distinct, extent, Tiled, Absent}
use cla_mpi.Regions.Layout.Cut.{Tiled-Cut}
use cla_mpi.Regions.Links.{set_entry_here}
use cla_mpi.Regions.Merged.{Findable}
use cla_mpi.Regions.Merging.{Merging, Merging-Findable, LinkedOnce, before_it, behind_it}
use cla_mpi.Regions.Secure.{finished_frame, chosen-Sound, finished-Sound}
use cla_mpi.Regions.Stock.{Stocked-same}
use cla_mpi.Regions.Shelved.{Room, count-Distinct}
use cla_mpi.Regions.Sound.{Sound, start-Merging, sized-Merging}

-- The last region of a list that another one is not in.
last_apart :
    (victim prev : ℕ) (xs ws : List ℕ) → xs ≡ ws ++ prev ∷ [] → Absent victim xs → prev ≢ victim
last_apart victim prev xs ws split a =
    (All-append_right (λ x. x ≢ victim) ws (prev ∷ []) (subst (λ us. Absent victim us) split a)).0

once_there : (x : ℕ) (zs ws : List ℕ) → Distinct (zs ++ x ∷ ws) → count x (zs ++ x ∷ ws) ≡ 1
once_there x zs ws d =
    let self : same x x ≡ 1 = ground arith in
    omega (arith, count-Distinct x (zs ++ x ∷ ws) d, self, count-append x zs (x ∷ ws))

module _ {F : Type 0} where
  -- A free region next to the one that is merged is found.
  found_before :
      (c : Cache F) (victim : ℕ) (to_index : Bool) (selected : Option ℕ) (xs ys : List ℕ)
      (bytes : ℕ)
      → Tiled c.table_ptr (merging c.table_ptr victim) (xs ++ victim ∷ ys) bytes
      → Merging c victim to_index selected (xs ++ victim ∷ ys)
      → (prev : ℕ) → (c.table_ptr victim).mprev ≡ pos prev
      → (c.table_ptr prev).kind ≡ free
      → Findable c selected prev
  found_before c victim to_index selected xs ys bytes l m prev e f =
      let t = c.table_ptr in
      let all = xs ++ victim ∷ ys in
      let (ws, split) = before_it t (merging t victim) xs victim ys bytes l prev e in
      let cut = Tiled-Cut t (merging t victim) xs victim ys bytes l in
      let self : same prev prev ≡ 1 = ground arith in
      let there = ap (count prev) split ∙ count-append prev ws (prev ∷ []) in
      Merging-Findable c victim to_index selected all prev m f
        (λ at. last_apart victim prev xs ws split cut.off_left at)
        (omega (arith, self, there, count-append prev xs (victim ∷ ys)))

  found_behind :
      (c : Cache F) (region : ℕ) (to_index : Bool) (selected : Option ℕ) (xs ys : List ℕ)
      (bytes : ℕ)
      → Tiled c.table_ptr (merging c.table_ptr region) (xs ++ region ∷ ys) bytes
      → Merging c region to_index selected (xs ++ region ∷ ys)
      → (next : ℕ) → (c.table_ptr region).mnext ≡ pos next
      → (c.table_ptr next).kind ≡ free
      → Findable c selected next
  found_behind c region to_index selected xs ys bytes l m next e f =
      let t = c.table_ptr in
      let all = xs ++ region ∷ ys in
      let (zs, split) = behind_it t (merging t region) xs region ys bytes l next e in
      let cut = Tiled-Cut t (merging t region) xs region ys bytes l in
      let self : same next next ≡ 1 = ground arith in
      let there = ap (count next) split in
      Merging-Findable c region to_index selected all next m f
        (subst (λ us. Absent region us) split cut.off_right).0
        (omega (arith, self, there, count-append next xs (region ∷ ys)))

  freed-Indexed :
      (n : Merge F) (selected : Option ℕ) (xs : List ℕ)
      (m : Merging n.cache n.region n.to_index selected xs)
      → count n.region xs ≡ 1
      → Indexed (release n).cache
  freed-Indexed n selected xs m there =
      let s = freed-Shelved n selected xs m there in
      record {
        sorted = s.sorted;
        balanced = s.hung.balanced;
        counted = s.hung.counted;
        room = freed-Room n selected xs m there;
      }

  freed_bytes : (n : Merge F) → (release n).cache.mem_size ≡ n.cache.mem_size
  unfolding set_entry
  freed_bytes n = refl

  module _ (c : Cache F) (victim : ℕ) (selected : Option ℕ) (size : ℕ) (xs ys : List ℕ)
      (small : c.mem_size < 2 ^ 64) where
    -- What an eviction leaves, with the region that is selected now: where the entry was between `xs`
    -- and `ys`, there is one free region, with the regions `zs` before it and `ws` behind it.
    pub record Evicted (r : Cache F × Option ℕ) : Type 0 where
      pub region : ℕ
      pub zs : List ℕ
      pub ws : List ℕ
      pub sound : Sound r.0 r.1 (zs ++ region ∷ ws)
      pub is_free : (r.0.table_ptr region).kind ≡ free
      pub lower : ((region ≡ victim) × (zs ≡ xs)) ⊎ (xs ≡ zs ++ region ∷ [])
      pub upper : (ws ≡ ys) ⊎ ((next : ℕ) × (ys ≡ next ∷ ws))
      pub same_size : r.0.mem_size ≡ c.mem_size

    -- After both merges.
    merged-Evicted :
        (p n : Merge F) (zs ws : List ℕ)
        → merge_prev (sized c victim) victim selected ≡ some p
        → merge_next p.cache p.region p.to_index selected ≡ some n
        → Coalesced p.cache n (zs ++ n.region ∷ ws)
        → ((n.region ≡ victim) × (zs ≡ xs)) ⊎ (xs ≡ zs ++ n.region ∷ [])
        → (ws ≡ ys) ⊎ ((next : ℕ) × (ys ≡ next ∷ ws))
        → Merging n.cache n.region n.to_index selected (zs ++ n.region ∷ ws)
        → p.cache.mem_size ≡ c.mem_size
        → (r : Cache F × Option ℕ) × (evict c victim selected size ≡ some r) × Evicted r
    merged-Evicted p n zs ws e f done lower upper m bytes =
        let all = zs ++ n.region ∷ ws in
        let merged = freed-Layout n.cache n.region all (
          subst (λ k. Tiled n.cache.table_ptr (merging n.cache.table_ptr n.region) all k)
            (sym done.same_size) done.tiled) in
        let there = once_there n.region zs ws done.tiled.distinct in
        let (r, g, chosen, kinds, frame, indices) =
          chosen-Layout (release n) selected size all (freed-Indexed n selected all m there)
            merged in
        let (tree, mine) = chosen-Sound n selected size all r m there g in
        (
          (finish r.0 victim p.neighbour n.neighbour, r.1),
          evict_runs c victim selected size p n r e f g,
          record {
            region = n.region;
            zs = zs;
            ws = ws;
            sound =
                finished-Sound r.0 victim p.neighbour n.neighbour r.1 all
                  (finished-Layout r.0 victim p.neighbour n.neighbour all chosen) tree mine
                  (Stocked-same (release n).cache r.0 all (ap (λ (x : Cache F). x.ht_entries) frame)
                    (ap (λ (x : Cache F). x.next_free_entry) frame)
                    (ap (λ (x : Cache F). x.free_entries) frame) indices
                    (freed-Stocked n selected all m there));
            is_free =
                finished_kind r.0 victim p.neighbour n.neighbour n.region
                ∙ kinds n.region
                ∙ ap (λ (x : Entry). x.kind)
                    (set_entry_here n.cache n.region (λ e. record e { kind = free }));
            lower = lower;
            upper = upper;
            same_size =
                ap (λ (x : Cache F). x.mem_size) (finished_frame r.0 victim p.neighbour n.neighbour)
                ∙ ap (λ (x : Cache F). x.mem_size) frame
                ∙ freed_bytes n
                ∙ done.same_size
                ∙ bytes;
          },
        )

    -- After the merge with the region before.
    joined-Evicted :
        (p : Merge F) (zs : List ℕ)
        → (sized c victim).mem_size < 2 ^ 64
        → merge_prev (sized c victim) victim selected ≡ some p
        → Coalesced (sized c victim) p (zs ++ p.region ∷ ys)
        → MergesBefore (sized c victim) victim p xs zs
        → Merging p.cache p.region p.to_index selected (zs ++ p.region ∷ ys)
        → (r : Cache F × Option ℕ) × (evict c victim selected size ≡ some r) × Evicted r
    joined-Evicted p zs small_s e done before mp =
        let bytes = sized_bytes c victim in
        let tiled_p =
          subst
            (λ k.
              Tiled p.cache.table_ptr (merging p.cache.table_ptr p.region) (zs ++ p.region ∷ ys) k)
            (sym done.same_size) done.tiled in
        let (n, f, at, ws, ndone, behind) =
          merge_next-Coalesced p.cache selected
            (subst (λ k. k < 2 ^ 64) (sym done.same_size) small_s) p.region p.to_index zs ys tiled_p
            (found_behind p.cache p.region p.to_index selected zs ys p.cache.mem_size tiled_p mp) in
        let mn =
          merge_next-Merging p.cache selected p.region p.to_index zs ys ws n tiled_p mp f at
            behind in
        merged-Evicted p n zs ws e f ndone
          (elim before [
            | inl (k, is, _, _, _) ↦ inl (at ∙ k, is)
            | inr (split, _) ↦ inr (subst (λ v. xs ≡ zs ++ v ∷ []) (sym at) split)
          ])
          (elim behind [ inl (is, _, _, _) ↦ inl is | inr (next, is, _) ↦ inr (next, is) ])
          (subst (λ v. Merging n.cache n.region n.to_index selected (zs ++ v ∷ ws)) (sym at) mn)
          (done.same_size ∙ bytes)

    -- For a cache of fewer than 2^64 bytes in which the regions fill the buffer one behind the
    -- other, the free ones but for the selected one are in the tree, once each, sorted by size and
    -- linked to their nodes, the tree is balanced, each node of the pool is once in the tree or on
    -- its stack, and each descriptor is once in the list of regions or on its stack; and with a
    -- node of the pool left: the eviction of a busy region of the list succeeds, where the
    -- selected region, if there is one, is linked to the node that it had, and leaves a cache with
    -- what is said before `and with`, of the same size, with the region that is selected then. One
    -- region, which is free, is in the place of the evicted one: it is that one or the one before
    -- it, and at most one region behind it is gone.
    pub evict-Evicted :
        Sound c selected (xs ++ victim ∷ ys)
        → LinkedOnce c selected
        → Room c
        → (c.table_ptr victim).kind ≡ busy
        → (r : Cache F × Option ℕ) × (evict c victim selected size ≡ some r) × Evicted r
    evict-Evicted sound linked room b =
        let l = sound.layout in
        let all = xs ++ victim ∷ ys in
        let cut = Tiled-Cut c.table_ptr (λ i. extent (c.table_ptr i)) xs victim ys c.mem_size l in
        let fits : (c.table_ptr victim).get_info.size < 2 ^ 64 =
          omega (arith, extent_busy (c.table_ptr victim) b, cut.filled, small) in
        let s = sized c victim in
        let bytes = sized_bytes c victim in
        let tiled =
          subst (λ m. Tiled s.table_ptr (merging s.table_ptr victim) all m) (sym bytes)
            (sized-Tiled c victim all b fits l) in
        let m =
          sized-Merging c victim selected all b
            (start-Merging c victim selected all sound linked room b) in
        let small_s = subst (λ k. k < 2 ^ 64) (sym bytes) small in
        let (p, e, zs, done, before) =
          merge_prev-Coalesced s selected small_s victim xs ys tiled
            (found_before s victim true selected xs ys s.mem_size tiled m) in
        let mp = merge_prev-Merging s selected victim xs ys zs p tiled m e before in
        joined-Evicted p zs small_s e done before mp
