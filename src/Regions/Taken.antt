-- ===== src/Regions/Taken.antt =====
-- The place of a new entry in `CMPI_Get`: a free region that fits, or the left part of a larger one.
use cla_mpi.Prelude.{
  sym, ℕ, ◌+◌, ◌-◌, ◌≤◌, ◌<◌, ◌≡◌, ◌≢◌, ◌^◌, refl, ◌>>=◌, inl, inr, List, ◌∷◌, ◌++◌, subst, ◌∙◌, ap,
  Option, some, ◌==◌, if◌then◌else◌, Bool-cases, eq_of_test, All-mono, All-zip, All-everywhere,
  All-append_right, All-append_left,
}
use cla_mpi.Avl
use cla_mpi.Avl.{inorder, IsAvl}
use cla_mpi.Avl.Pool.{AvlTree, IsCounted}
use cla_mpi.Avl.Order.{Sorted}
use cla_mpi.Cache.{Entry, Cache, size_of, free, no_entry, u32}
use cla_mpi.Window.{new_centry}
use cla_mpi.Regions.{insert_region}
use cla_mpi.Regions.Allocate.{split_links, split_region, take_region}
use cla_mpi.Regions.Fit.{Sorted-same}
use cla_mpi.Regions.Index.{Indexed, insert_region-Linked}
use cla_mpi.Regions.Layout.{extent, Absent, Tiled, Layout, last-Absent, no_entry_region}
use cla_mpi.Regions.Layout.Change.{Kept, Tiled-Kept}
use cla_mpi.Regions.Alike.{Alike, Alike-update, Alike-sizes}
use cla_mpi.Regions.Layout.Cut.{Tiled-Cut}
use cla_mpi.Regions.Layout.Edit.{Tiled-Divided}
use cla_mpi.Regions.Links.{extent_free}
use cla_mpi.Regions.Split.{step_h, sizes, step_h-Divided, step_h-size, step_h-frame}

relinked : (e : Entry) (n : Option ℕ) → Alike e (record e { tnode = n })
relinked e n = record {
  before = refl;
  start = refl;
  named = refl;
  after = refl;
  same_extent = refl;
}

module _ {F : Type 0} where
  -- A place for `size` bytes has been taken: the descriptors `xs` fill the buffer, when `size` is
  -- the size of the new one.
  pub record Taken (c d : Cache F) (new size : ℕ) (xs : List ℕ) : Type 0 where
    pub tiled : Tiled d.table_ptr (sizes d.table_ptr new size) xs c.mem_size
    pub tree : AvlTree ℕ
    pub top : ℕ
    pub whole : d ≡ record c { table_ptr = d.table_ptr; free_idx = tree; next_free_entry = top }

  -- The descriptor of the new entry, and what is behind it: the region fits, or is split.
  abbrev pub chosen : Cache F → ℕ → ℕ → ℕ
  chosen c region size =
      if size_of (c.table_ptr region) == size then region else c.free_entries c.next_free_entry

  abbrev pub rest_behind : Cache F → ℕ → ℕ → List ℕ → List ℕ
  rest_behind c region size ys = if size_of (c.table_ptr region) == size then ys else region ∷ ys

  module _ (c : Cache F) (region size : ℕ) (xs ys : List ℕ) (l : Layout c (xs ++ region ∷ ys))
      (f : (c.table_ptr region).kind ≡ free) (fits : size ≤ size_of (c.table_ptr region))
      (b : size_of (c.table_ptr region) < 2 ^ 64) where
    abbrev new : ℕ
    new = c.free_entries c.next_free_entry

    abbrev started : Cache F
    started = record c { next_free_entry = u32 (c.next_free_entry + 2 ^ 32 - 1) }

    split-Tiled :
        (c.table_ptr new).index ≡ new
        → Absent new (xs ++ region ∷ ys)
        → Tiled
            (step_h started new region size).table_ptr
            (sizes (step_h started new region size).table_ptr new size)
            (xs ++ new ∷ region ∷ ys)
            c.mem_size
    split-Tiled n a =
        let t = c.table_ptr in
        let h = step_h started new region size in
        let cut = Tiled-Cut t (λ i. extent (t i)) xs region ys c.mem_size l in
        let before = All-append_left (λ i. i ≢ new) xs (region ∷ ys) a in
        let apart = (All-append_right (λ i. i ≢ new) xs (region ∷ ys) a).0 in
        Tiled-Divided t h.table_ptr (λ i. extent (t i)) (sizes h.table_ptr new size) new region size
          c.mem_size xs ys
          (step_h-Divided started new region size (λ e. apart (sym e))
            (λ e.
              last-Absent new no_entry xs (no_entry_region new) before (sym cut.here.before ∙ e))
            (λ e.
              last-Absent region no_entry xs (no_entry_region region) cut.off_left
                (sym cut.here.before ∙ e))
            cut.here.named n f fits b)
          a l

    split-Indexed :
        Indexed c
        → Absent region (inorder c.free_idx.root)
        → Absent new (inorder c.free_idx.root)
        → new ≢ region
        → Indexed (step_h started new region size)
    split-Indexed i o q apart =
        let t = c.table_ptr in
        let h = step_h started new region size in
        let tree = inorder c.free_idx.root in
        let same = ap (λ (x : Cache F). x.free_idx) (step_h-frame started new region size) in
        let sorted =
          Sorted-same (λ j. size_of (t j)) (λ j. size_of (h.table_ptr j)) tree
            (All-mono (λ j. (j ≢ new) × (j ≢ region)) (λ j. size_of (h.table_ptr j) ≡ size_of (t j))
              (λ j k. step_h-size started new region size j k.0 k.1) tree
              (All-zip (λ j. j ≢ new) (λ j. j ≢ region) tree q o))
            i.sorted in
        record {
          sorted =
              subst (λ (x : AvlTree ℕ). Sorted (λ j. size_of (h.table_ptr j)) (inorder x.root))
                (sym same) sorted;
          balanced = subst (λ (x : AvlTree ℕ). IsAvl x.root) (sym same) i.balanced;
          counted = subst IsCounted (sym same) i.counted;
          room = subst (λ (x : AvlTree ℕ). Avl.size x.root < x.tot_nodes) (sym same) i.room;
        }

    -- The region fits exactly.
    exact-Kept :
        size_of (c.table_ptr region) ≡ size
        → (i : ℕ)
        → Kept c.table_ptr c.table_ptr
            (λ i. extent (c.table_ptr i))
            (sizes c.table_ptr region size)
            i
    exact-Kept e i = record {
      before = refl;
      start = refl;
      named = refl;
      after = refl;
      size =
          elim (Bool-cases (i == region))
            as (λ _. sizes c.table_ptr region size i ≡ extent (c.table_ptr i)) [
              | inl here ↦ rw here (
                  sym (
                    ap (λ j. extent (c.table_ptr j)) (eq_of_test i region here)
                    ∙ extent_free (c.table_ptr region) f
                    ∙ e))
              | inr there ↦ rw there refl
            ];
    }

    exact-Taken : size_of (c.table_ptr region) ≡ size → Taken c c region size (xs ++ region ∷ ys)
    exact-Taken e = record {
      tiled =
          Tiled-Kept c.table_ptr c.table_ptr (λ i. extent (c.table_ptr i))
            (sizes c.table_ptr region size) (xs ++ region ∷ ys) c.mem_size
            (All-everywhere _ (exact-Kept e) (xs ++ region ∷ ys)) l;
      tree = c.free_idx;
      top = c.next_free_entry;
      whole = refl;
    }

    -- The region is larger: it is split.
    pub split_region_steps :
        split_region c region size
        ≡ (do i ← insert_region (step_h started new region size) region; some (i, new))
    unfolding split_region split_links new_centry step_h
    split_region_steps = refl

    split-Taken :
        Indexed c
        → Absent region (inorder c.free_idx.root)
        → (c.table_ptr new).index ≡ new
        → Absent new (xs ++ region ∷ ys)
        → Absent new (inorder c.free_idx.root)
        → (d : Cache F) × (split_region c region size ≡ some (d, new))
          × Taken c d new size (xs ++ new ∷ region ∷ ys)
    split-Taken i o n a q =
        let apart = (All-append_right (λ j. j ≢ new) xs (region ∷ ys) a).0 in
        let h = step_h started new region size in
        let t = h.table_ptr in
        let (d, e, linked) =
          insert_region-Linked h region (split-Indexed i o q (λ e. apart (sym e))) in
        let alike : (j : ℕ) → Alike (t j) (d.table_ptr j) = λ j.
          subst (λ u. Alike (t j) (u j)) (sym linked.table)
            (Alike-update t region (record (t region) { tnode = some linked.node }) j
              (relinked (t region) (some linked.node))) in
        (
          d,
          rw (split_region_steps, e) refl,
          record {
            tiled =
                Tiled-Kept t d.table_ptr (sizes t new size) (sizes d.table_ptr new size)
                  (xs ++ new ∷ region ∷ ys) c.mem_size
                  (All-everywhere _ (λ j. Alike-sizes t d.table_ptr j new size (alike j))
                    (xs ++ new ∷ region ∷ ys))
                  (split-Tiled n a);
            tree = linked.tree;
            top = u32 (c.next_free_entry + 2 ^ 32 - 1);
            whole =
                linked.whole
                ∙ ap (λ (x : Cache F). record x { free_idx = linked.tree; table_ptr = d.table_ptr })
                    (step_h-frame started new region size);
          },
        )

    pub take_region-Taken :
        Indexed c
        → Absent region (inorder c.free_idx.root)
        → (c.table_ptr new).index ≡ new
        → Absent new (xs ++ region ∷ ys)
        → Absent new (inorder c.free_idx.root)
        → (d : Cache F) × (take_region c region size ≡ some (d, chosen c region size))
          × Taken c d
              (chosen c region size)
              size
              (xs ++ chosen c region size ∷ rest_behind c region size ys)
    unfolding take_region
    take_region-Taken i o n a q = elim (Bool-cases (size_of (c.table_ptr region) == size)) [
      | inl same ↦ (
        c,
        rw same refl,
        rw same (exact-Taken (eq_of_test (size_of (c.table_ptr region)) size same)),
      )
      | inr other ↦ let (d, e, t) = split-Taken i o n a q in (d, rw (other, e) refl, rw other t)
    ]
