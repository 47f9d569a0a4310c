-- ===== src/Regions/Coalesce.antt =====
-- `CMPI_Get` after an eviction: the region is joined to the free ones before it and behind it.
use cla_mpi.Prelude.{
  sym, ℕ, ◌<◌, ◌≡◌, ◌≢◌, ◌⊎◌, ◌^◌, refl, inl, inr, List, [], ◌∷◌, ◌++◌, ℤ, pos, ◌∙◌, ap, Option,
  some, not, ◌&&◌, Bool,
}
use cla_mpi.Cache.{Cache, size_of}
use cla_mpi.Regions.{Merge, join_prev, join_next, is_region, link}
use cla_mpi.Regions.Join.{merging, relink, grow}
use cla_mpi.Regions.Layout.{extent, Tiled, last}
use cla_mpi.Regions.Layout.Cut.{Tiled-Cut}
use cla_mpi.Regions.Links.{update_off, update_on, extent_free}
use cla_mpi.Regions.Merged.{
  Findable, unindexed, unindexed-Retied, grow-Findable, grow_mem_size, relink_mem_size, joined,
}

-- A list is empty or has a last element.
pub snoc_cases : (xs : List ℕ) → (xs ≡ []) ⊎ ((ws : List ℕ) × (w : ℕ) × (xs ≡ ws ++ w ∷ []))
snoc_cases [] = inl refl
snoc_cases (x ∷ xs) = elim (snoc_cases xs) [
  | inl e ↦ inr ([], x, ap (λ ys. x ∷ ys) e)
  | inr (ws, w, e) ↦ inr (x ∷ ws, w, ap (λ ys. x ∷ ys) e)
]

pub last-snoc : (p : ℤ) (ws : List ℕ) (w : ℕ) → last p (ws ++ w ∷ []) ≡ pos w
last-snoc p [] w = refl
last-snoc p (x ∷ ws) w = last-snoc (pos x) ws w

module _ {F : Type 0} where
  -- The result of a merge: the regions are `xs`, of which the new one is `region`.
  pub record Coalesced (c : Cache F) (m : Merge F) (xs : List ℕ) : Type 0 where
    pub tiled : Tiled m.cache.table_ptr (merging m.cache.table_ptr m.region) xs c.mem_size
    pub same_size : m.cache.mem_size ≡ c.mem_size

  pub join_prev_steps :
      (c d : Cache F) (victim prev k : ℕ) (selected : Option ℕ)
      → (c.table_ptr prev).tnode ≡ some k
      → unindexed (grow c prev victim) prev selected ≡ some d
      → join_prev c victim selected prev
        ≡ some (record {
          cache = relink d prev victim;
          region = prev;
          to_index = not (is_region selected prev);
          neighbour = link ((relink d prev victim).table_ptr prev).mprev;
        })
  unfolding join_prev grow relink
  join_prev_steps c d victim prev k selected t e = rw (t, e) refl

  pub join_next_steps :
      (c d : Cache F) (region next k : ℕ) (to_index : Bool) (selected : Option ℕ)
      → (c.table_ptr next).tnode ≡ some k
      → unindexed (grow c region next) next selected ≡ some d
      → join_next c region to_index selected next
        ≡ some (record {
          cache = relink d region next;
          region = region;
          to_index = to_index && not (is_region selected next);
          neighbour = link ((relink d region next).table_ptr next).mnext;
        })
  unfolding join_next grow relink
  join_next_steps c d region next k to_index selected t e = rw (t, e) refl

  module _ (c : Cache F) (selected : Option ℕ) (small : c.mem_size < 2 ^ 64) where
    pub join_prev-Coalesced :
        (victim prev : ℕ) (ws ys : List ℕ)
        → Tiled c.table_ptr (merging c.table_ptr victim) (ws ++ prev ∷ victim ∷ ys) c.mem_size
        → Findable c selected prev
        → (m : Merge F) × (join_prev c victim selected prev ≡ some m)
          × (m.region ≡ prev)
          × Coalesced c m (ws ++ prev ∷ ys)
    join_prev-Coalesced victim prev ws ys l f =
        let (d, found, tied, same) =
          unindexed-Retied (grow c prev victim) prev selected
            (grow-Findable c prev victim prev selected f) in
        let t = c.table_ptr in
        let cut = Tiled-Cut t (merging t victim) ws prev (victim ∷ ys) c.mem_size l in
        let apart : prev ≢ victim = λ e. cut.off_right.0 (sym e) in
        let sl =
          update_off (λ i. extent (t i)) victim prev (size_of (t victim)) apart
          ∙ extent_free (t prev) f.is_free in
        let sr = update_on (λ i. extent (t i)) victim victim (size_of (t victim)) in
        (
          record {
            cache = relink d prev victim;
            region = prev;
            to_index = not (is_region selected prev);
            neighbour = link ((relink d prev victim).table_ptr prev).mprev;
          },
          join_prev_steps c d victim prev f.node selected f.tied found,
          refl,
          record {
            tiled = joined c victim prev victim ws ys l small sl sr (inr refl) d tied;
            same_size = relink_mem_size d prev victim ∙ same ∙ grow_mem_size c prev victim;
          },
        )

    pub join_next-Coalesced :
        (region next : ℕ) (to_index : Bool) (xs ys : List ℕ)
        → Tiled c.table_ptr (merging c.table_ptr region) (xs ++ region ∷ next ∷ ys) c.mem_size
        → Findable c selected next
        → (m : Merge F) × (join_next c region to_index selected next ≡ some m)
          × (m.region ≡ region)
          × Coalesced c m (xs ++ region ∷ ys)
    join_next-Coalesced region next to_index xs ys l f =
        let (d, found, tied, same) =
          unindexed-Retied (grow c region next) next selected
            (grow-Findable c region next next selected f) in
        let t = c.table_ptr in
        let cut = Tiled-Cut t (merging t region) xs region (next ∷ ys) c.mem_size l in
        let apart : next ≢ region = cut.off_right.0 in
        let sl = update_on (λ i. extent (t i)) region region (size_of (t region)) in
        let sr =
          update_off (λ i. extent (t i)) region next (size_of (t region)) apart
          ∙ extent_free (t next) f.is_free in
        (
          record {
            cache = relink d region next;
            region = region;
            to_index = to_index && not (is_region selected next);
            neighbour = link ((relink d region next).table_ptr next).mnext;
          },
          join_next_steps c d region next f.node to_index selected f.tied found,
          refl,
          record {
            tiled = joined c region region next xs ys l small sl sr (inl refl) d tied;
            same_size = relink_mem_size d region next ∙ same ∙ grow_mem_size c region next;
          },
        )
