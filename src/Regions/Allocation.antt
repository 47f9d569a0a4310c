-- ===== src/Regions/Allocation.antt =====
-- src/clampi_get.c: the allocation of a new entry as a whole keeps the list of regions and the tree of
-- the free ones.
use cla_mpi.Prelude.{
  ℕ, ◌≤◌, ◌<◌, ◌^◌, ◌≡◌, refl, sym, ap, ◌∙◌, subst, inl, inr, none, some, List, ◌∷◌, ◌++◌, arith,
  ◌==◌, Bool-cases, eq_of_some,
}
use cla_mpi.Avl.{inorder}
use cla_mpi.Cache.{Cache, Get, free, size_of}
use cla_mpi.Regions.{is_region}
use cla_mpi.Regions.Allocate.{allocate, take_region, split_region}
use cla_mpi.Regions.Allotted.{after-Stocked, after-Shelved}
use cla_mpi.Regions.Index.{Indexed}
use cla_mpi.Regions.Coalesced.{free_of_test}
use cla_mpi.Regions.Opened.{placed, placed_frame, inserted_same, finished, finished_steps}
use cla_mpi.Regions.Placed.{Allocated, allocate-Allocated}
use cla_mpi.Regions.Shelved.{Shelved, Room, Absent-count}
use cla_mpi.Regions.Sound.{Sound}
use cla_mpi.Regions.Stock.{Stocked, Spare, top_entry, top_entry-Absent}
use cla_mpi.Regions.Taken.{chosen, rest_behind, split_region_steps}
use cla_mpi.Regions.Divided.{
  is, not_there, not_selected, split-Added, split-Shelved, split-Stocked, split_penptr,
  region_bytes,
}

module _ {F : Type 0} (c : Cache F) (region : ℕ) (key : Get) (start origin : ℕ) (xs ys : List ℕ)
    (s : Sound c (some region) (xs ++ (region ∷ ys))) (room : Room c)
    (spare : Spare c (xs ++ (region ∷ ys))) (h : c.penptr < 64) (small : c.mem_size < 2 ^ 64)
    (fits : key.size ≤ size_of (c.table_ptr region)) where
  is_free_kind : (c.table_ptr region).kind ≡ free
  is_free_kind = free_of_test (c.table_ptr region) (is c region key.size xs ys s room spare)

  bytes_bound : size_of (c.table_ptr region) < 2 ^ 64
  bytes_bound = region_bytes c region key.size xs ys s room spare small

  -- The tree and the stack at the end.
  abbrev Ends : ℕ → List ℕ → Cache F → Type 0
  Ends new rest e = Shelved e (is_region none) (xs ++ (new ∷ rest)) × Stocked e (xs ++ (new ∷ rest))

  penptr_room : (d : Cache F) (new : ℕ) → d.penptr ≡ c.penptr → (placed d new key start).penptr < 64
  penptr_room d new e =
      let same_ptr =
        ap (λ (x : Cache F). x.penptr) (placed_frame d new key start)
        ∙ (inserted_same d new key start).1
        ∙ e in
      omega (arith, same_ptr, h)

  ended :
      (d : Cache F) (new : ℕ) (rest : List ℕ)
      → Shelved d (is_region (some new)) (xs ++ (new ∷ rest))
      → Stocked d (xs ++ (new ∷ rest))
      → Ends new rest (finished d new key start origin)
  ended d new rest shelved stock = (
    after-Shelved d new key start origin (xs ++ (new ∷ rest)) shelved,
    after-Stocked d new key start origin (xs ++ (new ∷ rest)) stock,
  )

  allocated-Ends :
      (e : Cache F)
      → allocate c region key start origin ≡ some e
      → Ends (chosen c region key.size) (rest_behind c region key.size ys) e
  unfolding take_region
  allocated-Ends e run = elim (Bool-cases (size_of (c.table_ptr region) == key.size)) [
    | inl exact ↦
        let made =
          finished_steps c c region region key start origin (rw exact refl)
            (penptr_room c region refl) in
        rw exact (
          subst (Ends region ys) (eq_of_some (sym made ∙ run))
            (ended c region ys s.shelved s.stocked))
    | inr larger ↦
        let (d, added, a) = split-Added c region key.size xs ys s room spare in
        let new = top_entry c in
        let split : split_region c region key.size ≡ some (d, new) =
          rw
            (
              split_region_steps c region key.size xs ys s.layout is_free_kind fits bytes_bound,
              added,
            )
            refl in
        let made =
          finished_steps c d region new key start origin (rw larger split)
            (penptr_room d new (split_penptr c region key.size xs ys s room spare d a)) in
        rw larger (
          subst (Ends new (region ∷ ys)) (eq_of_some (sym made ∙ run)) (
            ended d new (region ∷ ys) (split-Shelved c region key.size xs ys s room spare d a)
              (split-Stocked c region key.size xs ys s room spare d a)))
  ]

  -- For a cache of fewer than 2^64 bytes in which the regions fill the buffer one behind the
  -- other, the free ones but for the selected one are in the tree, once each, sorted by size and
  -- linked to their nodes, the tree is balanced, each node of the pool is once in the tree or on
  -- its stack, and each descriptor is once in the list of regions or on its stack; with a selected
  -- region that is large enough, a node of the pool and a descriptor left on their stacks, and
  -- room for a pending copy: the allocation of `CMPI_Get` succeeds and leaves a cache with what is
  -- said before `with a selected`, where no region is selected and, as far as it was split, the
  -- rest of the region is behind the new entry. The entry is busy and has the key, and the last
  -- copy that is pending is from the buffer of the get to its place, with the size of the get
  -- converted to `int`.
  pub allocate-Secured :
      (e : Cache F) × (allocate c region key start origin ≡ some e)
      × Allocated c e key origin xs (chosen c region key.size) (rest_behind c region key.size ys)
      × Sound e none (xs ++ (chosen c region key.size ∷ rest_behind c region key.size ys))
  allocate-Secured =
      let all = xs ++ (region ∷ ys) in
      let tree = inorder c.free_idx.root in
      let new = top_entry c in
      let (absent, table) = top_entry-Absent c all s.stocked spare in
      let index : Indexed c = record {
        sorted = s.shelved.sorted;
        balanced = s.shelved.hung.balanced;
        counted = s.shelved.hung.counted;
        room = room;
      } in
      let (e, run, done) =
        allocate-Allocated c region key start origin xs ys s.layout is_free_kind fits bytes_bound
          index (Absent-count region tree (not_selected c region key.size xs ys s room spare))
          (s.stocked.named new table) (Absent-count new all absent)
          (Absent-count new tree (not_there c region key.size xs ys s room spare)) h in
      let (shelved, stocked) = allocated-Ends e run in
      (
        e,
        run,
        done,
        record {
          layout = done.layout;
          shelved = shelved;
          selected_there = λ i no. cc;
          stocked = stocked;
        },
      )
