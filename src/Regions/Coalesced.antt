-- ===== src/Regions/Coalesced.antt =====
-- `CMPI_Get` after an eviction: each branch of the merge with the neighbours of the region.
use cla_mpi.Prelude.{
  sym, ℕ, ◌≡◌, ◌⊎◌, ◌^◌, ◌<◌, refl, inl, inr, List, [], ◌∷◌, ◌++◌, append_assoc, ℤ, pos, negsuc,
  subst, ◌∙◌, ap, Option, none, some, Bool, true, false, Bool-cases,
}
use cla_mpi.Cache.{Entry, Cache, Kind, free, busy, no_entry}
use cla_mpi.Regions.{Merge, join_prev, join_next, merge_prev, merge_next, is_free, link}
use cla_mpi.Regions.Coalesce.{
  Coalesced, join_prev-Coalesced, join_next-Coalesced, snoc_cases, last-snoc,
}
use cla_mpi.Regions.Join.{merging}
use cla_mpi.Regions.Layout.{Tiled, last, pos-injective}
use cla_mpi.Regions.Layout.Cut.{Tiled-Cut}
use cla_mpi.Regions.Merged.{Findable}

link_of : (z : ℤ) → ((i : ℕ) × (z ≡ pos i)) ⊎ ((n : ℕ) × (z ≡ negsuc n))
link_of (pos i) = inl (i, refl)
link_of (negsuc n) = inr (n, refl)

kind_cases : (k : Kind) → (k ≡ free) ⊎ (k ≡ busy)
kind_cases free = inl refl
kind_cases busy = inr refl

pub free_of_test : (e : Entry) → is_free e ≡ true → e.kind ≡ free
free_of_test e h = elim (kind_cases e.kind) [
  | inl f ↦ f
  | inr b ↦ let e : is_free e ≡ false = rw b refl in cc
]

module _ {F : Type 0} where
  -- The region before the evicted one is free and has taken it over, or it is as it was.
  abbrev pub MergesBefore : Cache F → ℕ → Merge F → List ℕ → List ℕ → Type 0
  MergesBefore c victim m xs zs =
      ((m.region ≡ victim)
        × (zs ≡ xs)
        × (m.cache ≡ c)
        × (m.neighbour ≡ link (c.table_ptr victim).mprev)
        × (m.to_index ≡ true))
      ⊎ ((xs ≡ zs ++ m.region ∷ []) × ((c.table_ptr m.region).kind ≡ free))

  -- The region behind is free and has been taken over, or it is as it was.
  abbrev pub MergesBehind : Cache F → ℕ → Bool → Merge F → List ℕ → List ℕ → Type 0
  MergesBehind c region to_index m ys zs =
      ((zs ≡ ys)
        × (m.cache ≡ c)
        × (m.neighbour ≡ link (c.table_ptr region).mnext)
        × (m.to_index ≡ to_index))
      ⊎ ((next : ℕ) × (ys ≡ next ∷ zs) × ((c.table_ptr next).kind ≡ free))

  module _ (c : Cache F) (selected : Option ℕ) (victim : ℕ) where
    merge_prev_first :
        (n : ℕ)
        → (c.table_ptr victim).mprev ≡ negsuc n
        → merge_prev c victim selected
          ≡ some (record { cache = c; region = victim; to_index = true; neighbour = none })
    unfolding merge_prev
    merge_prev_first n e = rw (e, merge_prev) refl

    pub merge_prev_joins :
        (prev : ℕ)
        → (c.table_ptr victim).mprev ≡ pos prev
        → is_free (c.table_ptr prev) ≡ true
        → merge_prev c victim selected ≡ join_prev c victim selected prev
    unfolding merge_prev
    merge_prev_joins prev e t = rw (e, merge_prev) (rw t refl)

    pub merge_prev_stays :
        (prev : ℕ)
        → (c.table_ptr victim).mprev ≡ pos prev
        → is_free (c.table_ptr prev) ≡ false
        → merge_prev c victim selected
          ≡ some (record { cache = c; region = victim; to_index = true; neighbour = some prev })
    unfolding merge_prev
    merge_prev_stays prev e t = rw (e, merge_prev) (rw t refl)

  module _ (c : Cache F) (selected : Option ℕ) (region : ℕ) (to_index : Bool) where
    merge_next_last :
        (n : ℕ)
        → (c.table_ptr region).mnext ≡ negsuc n
        → merge_next c region to_index selected
          ≡ some (record { cache = c; region = region; to_index = to_index; neighbour = none })
    unfolding merge_next
    merge_next_last n e = rw (e, merge_next) refl

    pub merge_next_joins :
        (next : ℕ)
        → (c.table_ptr region).mnext ≡ pos next
        → is_free (c.table_ptr next) ≡ true
        → merge_next c region to_index selected ≡ join_next c region to_index selected next
    unfolding merge_next
    merge_next_joins next e t = rw (e, merge_next) (rw t refl)

    pub merge_next_stays :
        (next : ℕ)
        → (c.table_ptr region).mnext ≡ pos next
        → is_free (c.table_ptr next) ≡ false
        → merge_next c region to_index selected
          ≡ some (record { cache = c; region = region; to_index = to_index; neighbour = some next })
    unfolding merge_next
    merge_next_stays next e t = rw (e, merge_next) (rw t refl)

  module _ (c : Cache F) (selected : Option ℕ) (small : c.mem_size < 2 ^ 64) where
    merge_prev_free :
        (victim : ℕ) (xs ys : List ℕ) (prev : ℕ)
        → Tiled c.table_ptr (merging c.table_ptr victim) (xs ++ victim ∷ ys) c.mem_size
        → (c.table_ptr victim).mprev ≡ pos prev
        → is_free (c.table_ptr prev) ≡ true
        → Findable c selected prev
        → (m : Merge F) × (merge_prev c victim selected ≡ some m)
          × (zs : List ℕ) × Coalesced c m (zs ++ m.region ∷ ys)
          × MergesBefore c victim m xs zs
    merge_prev_free victim xs ys prev l e t f = elim (snoc_cases xs) [
      | inl none_before ↦
          let cut = Tiled-Cut c.table_ptr (merging c.table_ptr victim) xs victim ys c.mem_size l in
          let at : no_entry ≡ pos prev =
            subst (λ ws. last no_entry ws ≡ pos prev) none_before (sym cut.here.before ∙ e) in
          cc
      | inr (ws, w, split) ↦
          let cut = Tiled-Cut c.table_ptr (merging c.table_ptr victim) xs victim ys c.mem_size l in
          let at : w ≡ prev = pos-injective (
            sym (last-snoc no_entry ws w)
            ∙ subst (λ zs. last no_entry zs ≡ pos prev) split (sym cut.here.before ∙ e)) in
          let split' : xs ≡ ws ++ prev ∷ [] = split ∙ ap (λ v. ws ++ v ∷ []) at in
          let whole =
            subst (λ zs. Tiled c.table_ptr (merging c.table_ptr victim) zs c.mem_size)
              (ap (λ zs. zs ++ victim ∷ ys) split' ∙ append_assoc ws (prev ∷ []) (victim ∷ ys)) l in
          let (m, run, r, done) = join_prev-Coalesced c selected small victim prev ws ys whole f in
          (
            m,
            merge_prev_joins c selected victim prev e t ∙ run,
            ws,
            subst (λ v. Coalesced c m (ws ++ v ∷ ys)) (sym r) done,
            inr (
              subst (λ v. xs ≡ ws ++ v ∷ []) (sym r) split',
              subst (λ v. (c.table_ptr v).kind ≡ free) (sym r) f.is_free,
            ),
          )
    ]

    -- For a buffer under 2^64 bytes that the regions of the list fill, where the size of the
    -- evicted one is in its `size`, and where a free region before it is the selected one or in
    -- the tree at its node, in a balanced and counted tree: the merge with the region before
    -- succeeds. That region is free, has taken over the evicted one and is the new region; or the
    -- evicted one is the new region, nothing has changed, and its neighbour is the region before.
    -- The regions fill the buffer in each case.
    pub merge_prev-Coalesced :
        (victim : ℕ) (xs ys : List ℕ)
        → Tiled c.table_ptr (merging c.table_ptr victim) (xs ++ victim ∷ ys) c.mem_size
        → ((prev : ℕ)
            → (c.table_ptr victim).mprev ≡ pos prev
            → (c.table_ptr prev).kind ≡ free
            → Findable c selected prev)
        → (m : Merge F) × (merge_prev c victim selected ≡ some m)
          × (zs : List ℕ) × Coalesced c m (zs ++ m.region ∷ ys)
          × MergesBefore c victim m xs zs
    merge_prev-Coalesced victim xs ys l f = elim (link_of (c.table_ptr victim).mprev) [
      | inr (n, e) ↦ (
        record { cache = c; region = victim; to_index = true; neighbour = none },
        merge_prev_first c selected victim n e,
        xs,
        record { tiled = l; same_size = refl },
        inl (refl, refl, refl, sym (ap link e), refl),
      )
      | inl (prev, e) ↦ elim (Bool-cases (is_free (c.table_ptr prev))) [
        | inl t ↦
            merge_prev_free victim xs ys prev l e t (f prev e (free_of_test (c.table_ptr prev) t))
        | inr t ↦ (
          record { cache = c; region = victim; to_index = true; neighbour = some prev },
          merge_prev_stays c selected victim prev e t,
          xs,
          record { tiled = l; same_size = refl },
          inl (refl, refl, refl, sym (ap link e), refl),
        )
      ]
    ]

    -- For a buffer under 2^64 bytes that the regions of the list fill, where the size of the new
    -- region is in its `size`, and where a free region behind it is the selected one or in the
    -- tree at its node, in a balanced and counted tree: the merge with the region behind succeeds.
    -- That region is free and the new one has taken it over; or nothing has changed, and the
    -- neighbour is the region behind. The regions fill the buffer in each case.
    pub merge_next-Coalesced :
        (region : ℕ) (to_index : Bool) (xs ys : List ℕ)
        → Tiled c.table_ptr (merging c.table_ptr region) (xs ++ region ∷ ys) c.mem_size
        → ((next : ℕ)
            → (c.table_ptr region).mnext ≡ pos next
            → (c.table_ptr next).kind ≡ free
            → Findable c selected next)
        → (m : Merge F) × (merge_next c region to_index selected ≡ some m)
          × (m.region ≡ region)
          × (zs : List ℕ) × Coalesced c m (xs ++ m.region ∷ zs)
          × MergesBehind c region to_index m ys zs
    merge_next-Coalesced region to_index xs [] l f =
        let cut = Tiled-Cut c.table_ptr (merging c.table_ptr region) xs region [] c.mem_size l in
        (
          record { cache = c; region = region; to_index = to_index; neighbour = none },
          merge_next_last c selected region to_index 0 cut.here.after,
          refl,
          [],
          record { tiled = l; same_size = refl },
          inl (refl, refl, sym (ap link cut.here.after), refl),
        )
    merge_next-Coalesced region to_index xs (next ∷ ys) l f =
        let cut =
          Tiled-Cut c.table_ptr (merging c.table_ptr region) xs region (next ∷ ys) c.mem_size l in
        let e = cut.here.after in
        elim (Bool-cases (is_free (c.table_ptr next))) [
          | inl t ↦
              let free = free_of_test (c.table_ptr next) t in
              let (m, run, r, done) =
                join_next-Coalesced c selected small region next to_index xs ys l (f next e free) in
              (
                m,
                merge_next_joins c selected region to_index next e t ∙ run,
                r,
                ys,
                subst (λ v. Coalesced c m (xs ++ v ∷ ys)) (sym r) done,
                inr (next, refl, free),
              )
          | inr t ↦ (
            record { cache = c; region = region; to_index = to_index; neighbour = some next },
            merge_next_stays c selected region to_index next e t,
            refl,
            next ∷ ys,
            record { tiled = l; same_size = refl },
            inl (refl, refl, sym (ap link e), refl),
          )
        ]
