-- ===== src/Regions/Absorbing.antt =====
-- src/clampi_get.c: the joins of an evicted region with the one before it and the one behind it, on
-- the tree of free regions.
use cla_mpi.Prelude.{
  ℕ, ◌≤◌, ◌≡◌, ◌≢◌, refl, sym, ap, ◌∙◌, subst, inl, inr, Bool, true, Option, some, List, [], ◌∷◌,
  ◌++◌, append_assoc, arith, same, count, count-append, pos, eq_of_some,
}
use cla_mpi.Cache.{Cache, free}
use cla_mpi.Regions.{Merge, is_free, merge_prev, merge_next}
use cla_mpi.Regions.Coalesce.{join_prev_steps, join_next_steps}
use cla_mpi.Regions.Coalesced.{MergesBefore, MergesBehind, merge_prev_joins, merge_next_joins}
use cla_mpi.Regions.Join.{merging}
use cla_mpi.Regions.Joining.{join-Merging}
use cla_mpi.Regions.Layout.{Tiled}
use cla_mpi.Regions.Layout.Cut.{Tiled-Cut}
use cla_mpi.Regions.Merging.{Merging, Merging-Findable, link_before, link_behind}
use cla_mpi.Regions.Shelved.{count-Distinct}

module _ {F : Type 0} (c : Cache F) (selected : Option ℕ) where
  -- The state after a step of an eviction.
  abbrev pub Goes : Merge F → List ℕ → Type 0
  Goes m xs = Merging m.cache m.region m.to_index selected xs

  same_Merging :
      (d : Cache F) (r q : ℕ) (i j : Bool) (xs ys : List ℕ)
      → d ≡ c
      → r ≡ q
      → i ≡ j
      → xs ≡ ys
      → Merging c q j selected ys
      → Merging d r i selected xs
  same_Merging d r q i j xs ys e f g h m =
      subst (λ x. Merging x r i selected xs) (sym e)
        (subst (λ x. Merging c x i selected xs) (sym f)
          (subst (λ x. Merging c q x selected xs) (sym g)
            (subst (λ x. Merging c q j selected x) (sym h) m)))

  -- The victim and the region before it are one.
  joined_before :
      (victim : ℕ) (ws ys : List ℕ) (p : Merge F)
      → Tiled c.table_ptr (merging c.table_ptr victim) (ws ++ p.region ∷ victim ∷ ys) c.mem_size
      → Merging c victim true selected (ws ++ p.region ∷ victim ∷ ys)
      → (c.table_ptr p.region).kind ≡ free
      → merge_prev c victim selected ≡ some p
      → Goes p (ws ++ p.region ∷ ys)
  joined_before victim ws ys p l m f run =
      let prev = p.region in
      let t = c.table_ptr in
      let all = ws ++ prev ∷ victim ∷ ys in
      let is : is_free (t prev) ≡ true = rw f refl in
      let once : (e : ℕ) → count e all ≤ 1 = λ e. count-Distinct e all l.distinct in
      let cut = Tiled-Cut t (merging t victim) ws prev (victim ∷ ys) c.mem_size l in
      let apart : prev ≢ victim = λ e. cut.off_right.0 (sym e) in
      let there : 1 ≤ count prev all =
        let self : same prev prev ≡ 1 = ground arith in
        omega (arith, self, count-append prev ws (prev ∷ victim ∷ ys)) in
      let back : (t victim).mprev ≡ pos prev =
        link_before t (merging t victim) (ws ++ prev ∷ []) victim ys c.mem_size
          (subst (λ zs. Tiled t (merging t victim) zs c.mem_size)
            (sym (append_assoc ws (prev ∷ []) (victim ∷ ys))) l)
          ws prev refl in
      let found = Merging-Findable c victim true selected all prev m f apart there in
      let (d, un, after) =
        join-Merging c prev victim prev victim true selected ws ys m is (inl (refl, refl)) once
          apart
          (Tiled-Cut t (merging t victim) (ws ++ prev ∷ []) victim ys c.mem_size (
            subst (λ zs. Tiled t (merging t victim) zs c.mem_size)
              (sym (append_assoc ws (prev ∷ []) (victim ∷ ys))) l)).here.named in
      let made =
        merge_prev_joins c selected victim prev back is
        ∙ join_prev_steps c d victim prev found.node selected found.tied un in
      subst (λ (q : Merge F). Goes q (ws ++ prev ∷ ys)) (eq_of_some (sym made ∙ run)) after

  joined_behind :
      (region next : ℕ) (to_index : Bool) (xs ys : List ℕ) (p : Merge F)
      → Tiled c.table_ptr (merging c.table_ptr region) (xs ++ region ∷ next ∷ ys) c.mem_size
      → Merging c region to_index selected (xs ++ region ∷ next ∷ ys)
      → (c.table_ptr next).kind ≡ free
      → merge_next c region to_index selected ≡ some p
      → Goes p (xs ++ region ∷ ys)
  joined_behind region next to_index xs ys p l m f run =
      let t = c.table_ptr in
      let all = xs ++ region ∷ next ∷ ys in
      let is : is_free (t next) ≡ true = rw f refl in
      let once : (e : ℕ) → count e all ≤ 1 = λ e. count-Distinct e all l.distinct in
      let cut = Tiled-Cut t (merging t region) xs region (next ∷ ys) c.mem_size l in
      let there : 1 ≤ count next all =
        let self : same next next ≡ 1 = ground arith in
        omega (arith, self, count-append next xs (region ∷ next ∷ ys)) in
      let forth = link_behind t (merging t region) xs region next ys c.mem_size l in
      let found = Merging-Findable c region to_index selected all next m f cut.off_right.0 there in
      let (d, un, after) =
        join-Merging c region next next region to_index selected xs ys m is (inr (refl, refl)) once
          (λ e. cut.off_right.0 (sym e)) cut.right.0.named in
      let made =
        merge_next_joins c selected region to_index next forth is
        ∙ join_next_steps c d region next found.node to_index selected found.tied un in
      subst (λ (q : Merge F). Goes q (xs ++ region ∷ ys)) (eq_of_some (sym made ∙ run)) after

  pub merge_prev-Merging :
      (victim : ℕ) (xs ys zs : List ℕ) (p : Merge F)
      → Tiled c.table_ptr (merging c.table_ptr victim) (xs ++ victim ∷ ys) c.mem_size
      → Merging c victim true selected (xs ++ victim ∷ ys)
      → merge_prev c victim selected ≡ some p
      → MergesBefore c victim p xs zs
      → Goes p (zs ++ p.region ∷ ys)
  merge_prev-Merging victim xs ys zs p l m run before = elim before [
    | inl (r, z, e, _, i) ↦
        same_Merging p.cache p.region victim p.to_index true (zs ++ p.region ∷ ys)
          (xs ++ victim ∷ ys) e r i (ap (λ v. zs ++ v ∷ ys) r ∙ ap (λ ws. ws ++ victim ∷ ys) z) m
    | inr (split, f) ↦
        let whole : xs ++ victim ∷ ys ≡ zs ++ p.region ∷ victim ∷ ys =
          ap (λ ws. ws ++ victim ∷ ys) split ∙ append_assoc zs (p.region ∷ []) (victim ∷ ys) in
        joined_before victim zs ys p
          (subst (λ ws. Tiled c.table_ptr (merging c.table_ptr victim) ws c.mem_size) whole l)
          (subst (Merging c victim true selected) whole m) f run
  ]

  pub merge_next-Merging :
      (region : ℕ) (to_index : Bool) (xs ys zs : List ℕ) (p : Merge F)
      → Tiled c.table_ptr (merging c.table_ptr region) (xs ++ region ∷ ys) c.mem_size
      → Merging c region to_index selected (xs ++ region ∷ ys)
      → merge_next c region to_index selected ≡ some p
      → p.region ≡ region
      → MergesBehind c region to_index p ys zs
      → Goes p (xs ++ region ∷ zs)
  merge_next-Merging region to_index xs ys zs p l m run r behind = elim behind [
    | inl (z, e, _, i) ↦
        same_Merging p.cache p.region region p.to_index to_index (xs ++ region ∷ zs)
          (xs ++ region ∷ ys) e r i (ap (λ ws. xs ++ region ∷ ws) z) m
    | inr (next, split, f) ↦
        joined_behind region next to_index xs zs p
          (subst
            (λ ws. Tiled c.table_ptr (merging c.table_ptr region) (xs ++ region ∷ ws) c.mem_size)
            split l)
          (subst (λ ws. Merging c region to_index selected (xs ++ region ∷ ws)) split m) f run
  ]
