-- ===== src/Regions/Divided.antt =====
-- src/clampi_get.c: a region that is split, on the tree of free regions and the stack of descriptors.
use cla_mpi.Prelude.{
  ℕ, ◌+◌, ◌-◌, ◌<◌, ◌^◌, ◌≡◌, ◌≢◌, refl, sym, ap, ◌∙◌, subst, inl, inr, Bool, true, ◌&&◌, not, some,
  List, ◌∷◌, ◌++◌, arith, same, count, count-append, ◌==◌, if◌then◌else◌, Bool-cases, All-mono,
  All-zip, eq_of_test,
}
use cla_mpi.Avl.{inorder, size}
use cla_mpi.Avl.Order.{Sorted}
use cla_mpi.Cache.{Cache, size_of, u32}
use cla_mpi.Regions.{is_region, is_free, insert_region}
use cla_mpi.Regions.Added.{Added, insert_region-Added, sizes_of}
use cla_mpi.Regions.Allotted.{step_h_kept}
use cla_mpi.Regions.Evicted.{Linked-kept}
use cla_mpi.Regions.Fit.{Sorted-same}
use cla_mpi.Regions.Layout.{extent}
use cla_mpi.Regions.Layout.Cut.{Tiled-Cut}
use cla_mpi.Regions.Links.{extent_free}
use cla_mpi.Regions.Coalesced.{free_of_test}
use cla_mpi.Regions.Shelved.{Shelved, Room, Hung-same, count-Distinct, Absent-count}
use cla_mpi.Regions.Sound.{Sound}
use cla_mpi.Regions.Split.{step_h, step_h-size, step_h-frame}
use cla_mpi.Regions.Stock.{Stocked, Spare, top_entry, top_entry-Absent, Stocked-popped}

-- One element more in the list, which is out of the tree, and another one in the tree.
gained :
    (e new region n t l m : ℕ) (fe : Bool)
    → t ≡ (if fe && not (region == e) then l else 0)
    → n ≡ t + same e region
    → m ≡ l + same e new
    → (e ≡ region → (fe ≡ true) × (l ≡ 1))
    → (e ≡ new → l ≡ 0)
    → new ≢ region
    → n ≡ (if fe && not (new == e) then m else 0)
gained e new region n t l m fe members more longer at fresh apart =
    elim (Bool-cases (e == region)) [
      | inl here ↦
          let (x, y) = at (eq_of_test e region here) in
          ground (arith, members, more, longer, here, x, y, apart)
      | inr there ↦ elim (Bool-cases (e == new)) [
        | inl it ↦
            let z = fresh (eq_of_test e new it) in
            ground (arith, members, more, longer, there, it, z)
        | inr off ↦ ground (arith, members, more, longer, there, off)
      ]
    ]

module _ {F : Type 0} (c : Cache F) (region bytes : ℕ) (xs ys : List ℕ)
    (s : Sound c (some region) (xs ++ (region ∷ ys))) (room : Room c)
    (spare : Spare c (xs ++ (region ∷ ys))) where
  abbrev all : List ℕ
  all = xs ++ (region ∷ ys)

  abbrev new : ℕ
  new = top_entry c

  abbrev started : Cache F
  started = record c { next_free_entry = u32 (c.next_free_entry + 2 ^ 32 - 1) }

  abbrev halved : Cache F
  halved = step_h started new region bytes

  pub mine : (region == region) ≡ true
  mine = ground arith

  pub is : is_free (c.table_ptr region) ≡ true
  is = (s.selected_there region mine).0

  one : count region all ≡ 1
  one =
      let there = (s.selected_there region mine).1 in
      omega (arith, there, count-Distinct region all s.layout.distinct)

  fresh : count new all ≡ 0
  fresh = (top_entry-Absent c all s.stocked spare).0

  apart : new ≢ region
  apart e = let at = ap (λ i. count i all) e in absurd (omega (arith, fresh, one, at))

  pub not_there : count new (inorder c.free_idx.root) ≡ 0
  not_there = ground (arith, s.shelved.members new, fresh)

  pub not_selected : count region (inorder c.free_idx.root) ≡ 0
  not_selected = ground (arith, s.shelved.members region, mine)

  halved_tree : halved.free_idx ≡ c.free_idx
  halved_tree = ap (λ (x : Cache F). x.free_idx) (step_h-frame started new region bytes)

  halved-Sorted : Sorted (sizes_of halved) (inorder c.free_idx.root)
  halved-Sorted =
      let tree = inorder c.free_idx.root in
      Sorted-same (sizes_of c) (sizes_of halved) tree
        (All-mono (λ j. (j ≢ new) × (j ≢ region)) (λ j. sizes_of halved j ≡ sizes_of c j)
          (λ j k. step_h-size started new region bytes j k.0 k.1) tree
          (All-zip (λ j. j ≢ new) (λ j. j ≢ region) tree (Absent-count new tree not_there)
            (Absent-count region tree not_selected)))
        s.shelved.sorted

  -- The rest of a region that is split is put in the tree.
  pub split-Added : (d : Cache F) × (insert_region halved region ≡ some d) × Added halved d region
  split-Added =
      insert_region-Added halved region
        (Hung-same c halved
          (step_h_kept (λ e. e.tnode) started new region bytes (λ x n. refl) (λ x p. refl)
            (λ x o. refl) (λ x k. refl))
          halved_tree s.shelved.hung)
        (subst (λ t. Sorted (sizes_of halved) (inorder t.root)) (sym halved_tree) halved-Sorted)
        (subst (λ t. size t.root < t.tot_nodes) (sym halved_tree) room)
        (ap (λ t. count region (inorder t.root)) halved_tree ∙ not_selected)

  pub split-Shelved :
      (d : Cache F)
      → Added halved d region
      → Shelved d (is_region (some new)) (xs ++ (new ∷ (region ∷ ys)))
  split-Shelved d a =
      let kinds : (i : ℕ) → is_free (d.table_ptr i) ≡ is_free (c.table_ptr i) = λ i.
        Linked-kept is_free halved d region (λ x n. refl) a.linked i
        ∙ step_h_kept is_free started new region bytes (λ x n. refl) (λ x p. refl) (λ x o. refl)
            (λ x k. refl) i in
      record {
        hung = a.hung;
        sorted = a.sorted;
        members = λ e.
            let long = count-append e xs (new ∷ (region ∷ ys)) in
            let short = count-append e xs (region ∷ ys) in
            gained e new region (count e (inorder d.free_idx.root))
              (count e (inorder c.free_idx.root)) (count e all)
              (count e (xs ++ (new ∷ (region ∷ ys)))) (is_free (d.table_ptr e))
              (s.shelved.members e
                ∙ ap (λ (b : Bool). if b && not (region == e) then count e all else 0)
                    (sym (kinds e)))
              (a.more e ∙ ap (λ t. count e (inorder t.root) + same e region) halved_tree)
              (omega (arith, long, short))
              (λ at. (
                kinds e ∙ ap (λ i. is_free (c.table_ptr i)) at ∙ is,
                ap (λ i. count i all) at ∙ one,
              ))
              (λ at. ap (λ i. count i all) at ∙ fresh) apart;
      }

  pub split-Stocked :
      (d : Cache F) → Added halved d region → Stocked d (xs ++ (new ∷ (region ∷ ys)))
  split-Stocked d a =
      let whole = a.linked.whole in
      let frame = step_h-frame started new region bytes in
      Stocked-popped c d xs ys region
        (ap (λ (x : Cache F). x.ht_entries) whole ∙ ap (λ (x : Cache F). x.ht_entries) frame)
        (ap (λ (x : Cache F). x.next_free_entry) whole
          ∙ ap (λ (x : Cache F). x.next_free_entry) frame)
        (ap (λ (x : Cache F). x.free_entries) whole ∙ ap (λ (x : Cache F). x.free_entries) frame)
        (λ i.
          Linked-kept (λ e. e.index) halved d region (λ x n. refl) a.linked i
          ∙ step_h_kept (λ e. e.index) started new region bytes (λ x n. refl) (λ x p. refl)
              (λ x o. refl) (λ x k. refl) i)
        spare s.stocked

  pub split_penptr : (d : Cache F) → Added halved d region → d.penptr ≡ c.penptr
  split_penptr d a =
      ap (λ (x : Cache F). x.penptr) a.linked.whole
      ∙ ap (λ (x : Cache F). x.penptr) (step_h-frame started new region bytes)

  -- The bytes of a region are those of the buffer at most.
  pub region_bytes : c.mem_size < 2 ^ 64 → size_of (c.table_ptr region) < 2 ^ 64
  region_bytes small =
      let t = c.table_ptr in
      let cut = Tiled-Cut t (λ i. extent (t i)) xs region ys c.mem_size s.layout in
      omega (arith, cut.filled, extent_free (t region) (free_of_test (t region) is), small)
