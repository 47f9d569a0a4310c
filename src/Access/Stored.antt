-- ===== src/Access/Stored.antt =====
-- src/clampi_get.c: a get that is not in the table, with a free region that is large enough.
use cla_mpi.Prelude.{
  ℕ, ◌*◌, ◌≤◌, ◌<◌, ◌^◌, ◌%◌, ◌/◌, ◌≡◌, ◌⊎◌, refl, sym, ap, subst, inl, inr, true, false, Option,
  none, some, List, [], ◌∷◌, ◌++◌, arith, count, ◌==◌, Bool-cases, pos, negsuc, ℤ, eq_of_test, ltb,
  length, All,
}
use cla_mpi.Access.{
  cached, Chance, proceed, cache_get, choose_victim, place, select_region, entries_per_line,
}
use cla_mpi.Cache.{Double, Get, Cache, Stats, size_of}
use cla_mpi.HashTable.{ht_insert_check, check_from, tables}
use cla_mpi.Avl.{inorder}
use cla_mpi.Regions.{is_free, is_region}
use cla_mpi.Regions.Allocate.{allocate}
use cla_mpi.Regions.Allocation.{allocate-Secured}
use cla_mpi.Regions.Placed.{Allocated}
use cla_mpi.Regions.Selection.{Picked, select_region-Picked}
use cla_mpi.Regions.Shelved.{Room, Shelved-same}
use cla_mpi.Regions.Sound.{Sound}
use cla_mpi.Regions.Stock.{Spare, Stocked-same}
use cla_mpi.Regions.Taken.{chosen, rest_behind}

-- An element that is counted stands somewhere in the list.
split_at :
    (e : ℕ) (xs : List ℕ) → 1 ≤ count e xs → (us : List ℕ) × (vs : List ℕ) × (xs ≡ us ++ (e ∷ vs))
split_at e [] h = absurd (omega (arith, h))
split_at e (x ∷ xs) h = elim (Bool-cases (x == e)) [
  | inl here ↦ ([], xs, ap (λ y. y ∷ xs) (eq_of_test x e here))
  | inr there ↦
      let (us, vs, w) = split_at e xs (ground (arith, h, there)) in
      (x ∷ us, vs, ap (λ ys. x ∷ ys) w)
]

All-at : (P : ℕ → Type 0) (e : ℕ) (xs : List ℕ) → All P xs → 1 ≤ count e xs → P e
All-at P e [] ps h = absurd (omega (arith, h))
All-at P e (x ∷ xs) ps h = elim (Bool-cases (x == e)) [
  | inl here ↦ subst P (eq_of_test x e here) ps.0
  | inr there ↦ All-at P e xs ps.1 (ground (arith, h, there))
]

verdicts : (z : ℤ) → ((v : ℕ) × (z ≡ pos v)) ⊎ ((n : ℕ) × (z ≡ negsuc n))
verdicts (pos v) = inl (v, refl)
verdicts (negsuc n) = inr (n, refl)

module _ {F : Type 0} where
  -- The statistics are no part of the regions.
  stat-Sound :
      (d : Cache F) (stat : Stats) (selected : Option ℕ) (xs : List ℕ)
      → Sound d selected xs
      → Sound (record d { stat = stat }) selected xs
  stat-Sound d stat selected xs s = record {
    layout = s.layout;
    shelved =
        Shelved-same d (record d { stat = stat }) (is_region selected) xs (λ i. refl) (λ i. refl)
          (λ i _. refl) refl s.shelved;
    selected_there = s.selected_there;
    stocked = Stocked-same d (record d { stat = stat }) xs refl refl refl (λ i. refl) s.stocked;
  }

module _ (double : Double) where
  open double use {F}

  no_conflict :
      (chance : Chance) (idx : ℕ) (key : Get) (start : ℕ) (d : Cache F) (r n : ℕ)
      → (ht_insert_check double d key start).1 ≡ negsuc n
      → choose_victim double chance idx key start d (some r)
        ≡ some (proceed (ht_insert_check double d key start).0 none cached)
  unfolding choose_victim
  no_conflict chance idx key start d r n free = rw (free, choose_victim) refl

  placed_steps :
      (key : Get) (start origin : ℕ) (k e : Cache F) (r : ℕ)
      → ltb (size_of (k.table_ptr r)) key.size ≡ false
      → allocate k r key start origin ≡ some e
      → place double key start origin (some r) (proceed k none cached) ≡ some (cached, e)
  unfolding place
  placed_steps key start origin k e r fits run = rw (fits, place) (rw run refl)

  -- After the choice of the region, where the hash table has room.
  stored_steps :
      (chance : Chance) (key : Get) (origin : ℕ) (c d e : Cache F) (r n : ℕ)
      → let start = chance.rand_table % tables in
        let k = (ht_insert_check double d key start).0 in
        select_region c key.size ≡ some (d, some r)
        → is_free (d.table_ptr r) ≡ true
        → (ht_insert_check double d key start).1 ≡ negsuc n
        → ltb (size_of (k.table_ptr r)) key.size ≡ false
        → allocate k r key start origin ≡ some e
        → cache_get double chance key origin c ≡ some (cached, e)
  unfolding cache_get
  stored_steps chance key origin c d e r n pick is free fits run =
      let start = chance.rand_table % tables in
      let idx = chance.rand_slot % d.ht_entries / entries_per_line * entries_per_line in
      rw (pick, is, cache_get)
        (rw (no_conflict chance idx key start d r n free)
          (placed_steps key start origin (ht_insert_check double d key start).0 e r fits run))

  module _ (chance : Chance) (key : Get) (origin : ℕ) (c : Cache F) (xs : List ℕ)
      (s : Sound c none xs) (room : Room c) (spare : Spare c xs) (h : c.penptr < 64)
      (small : c.mem_size < 2 ^ 64) (b : key.size < 2 ^ 64) where
    abbrev start : ℕ
    start = chance.rand_table % tables

    -- The new entry is where the region was, and the cache is as sound as before.
    pub record Stored (d e : Cache F) (r : ℕ) : Type 0 where
      pub us : List ℕ
      pub vs : List ℕ
      pub split : xs ≡ us ++ (r ∷ vs)
      pub allocated :
          Allocated d e key origin us (chosen d r key.size) (rest_behind d r key.size vs)
      pub sound : Sound e none (us ++ (chosen d r key.size ∷ rest_behind d r key.size vs))

    stored :
        (d : Cache F) (r n : ℕ)
        → select_region c key.size ≡ some (d, some r)
        → Picked c key.size xs s b d (some r)
        → (ht_insert_check double d key start).1 ≡ negsuc n
        → (e : Cache F) × (cache_get double chance key origin c ≡ some (cached, e))
          × Stored (ht_insert_check double d key start).0 e r
    unfolding ht_insert_check check_from
    stored d r n pick p free =
        let k = (ht_insert_check double d key start).0 in
        let self : (r == r) ≡ true = ground arith in
        let (us, vs, w) = split_at r xs (p.sound.selected_there r self).1 in
        let sound = subst (Sound k (some r)) w (stat-Sound d k.stat (some r) xs p.sound) in
        let large : key.size ≤ size_of (k.table_ptr r) =
          omega (arith, p.best.0, ap size_of (p.entries r)) in
        let (e, run, done, after) =
          allocate-Secured k r key start origin us vs sound (p.room room)
            (subst (λ ys. Spare k ys) w
              (subst (λ n. length xs < n * 2) (sym (ap (λ (x : Cache F). x.ht_entries) p.whole))
                spare))
            (subst (λ n. n < 64) (sym (ap (λ (x : Cache F). x.penptr) p.whole)) h)
            (subst (λ n. n < 2 ^ 64) (sym (ap (λ (x : Cache F). x.mem_size) p.whole)) small)
            large in
        (
          e,
          stored_steps chance key origin c d e r n pick (p.sound.selected_there r self).0 free
              (ground (arith, large)) run,
          record { us = us; vs = vs; split = w; allocated = done; sound = after },
        )

    -- What the search and the check say, and what the get does where the table has room.
    abbrev pub Outcome : Cache F → ℕ → Type 0
    Outcome d r =
        ((v : ℕ) × ((ht_insert_check double d key start).1 ≡ pos v))
        ⊎ ((e : Cache F) × (cache_get double chance key origin c ≡ some (cached, e))
            × Stored (ht_insert_check double d key start).0 e r)

    chosen_region :
        (f : ℕ)
        → is_free (c.table_ptr f) ≡ true
        → 1 ≤ count f xs
        → key.size ≤ size_of (c.table_ptr f)
        → (d : Cache F) (selected : Option ℕ) → select_region c key.size ≡ some (d, selected)
        → Picked c key.size xs s b d selected
        → (r : ℕ) × (select_region c key.size ≡ some (d, some r))
          × Picked c key.size xs s b d (some r)
    chosen_region f free there large d (some r) run p = (r, run, p)
    chosen_region f free there large d none run p =
        let in_tree : 1 ≤ count f (inorder c.free_idx.root) =
          ground (arith, s.shelved.members f, free, there) in
        let small_one =
          All-at (λ i. size_of (c.table_ptr i) < key.size) f (inorder c.free_idx.root) p.best
            in_tree in
        absurd (omega (arith, small_one, large))

    -- For a cache of fewer than 2^64 bytes in which the regions fill the buffer one behind the
    -- other, the free ones are in the tree, once each, sorted by size and linked to their nodes,
    -- the tree is balanced, each node of the pool is once in the tree or on its stack, and each
    -- descriptor is once in the list of regions or on its stack; with a node of the pool and a
    -- descriptor left on their stacks, room for a pending copy, and for a get of fewer than 2^64
    -- bytes for which a free region of the list is large enough: the code selects a region, and
    -- either the check of the hash table names an entry to evict, or the rest of `CMPI_Get` after
    -- a miss succeeds with CL_CACHED. Then the new entry is in the place of the region, with the
    -- rest of a region that was split behind it, busy and with the key; the last copy that is
    -- pending is from the buffer of the get to its place, with the size of the get converted to
    -- `int`; and the list of regions, the tree, its pool and the stack of descriptors are again as
    -- described up to the word `with`.
    pub cache_get-Stored :
        (f : ℕ)
        → is_free (c.table_ptr f) ≡ true
        → 1 ≤ count f xs
        → key.size ≤ size_of (c.table_ptr f)
        → (d : Cache F) × (r : ℕ) × (select_region c key.size ≡ some (d, some r)) × Outcome d r
    cache_get-Stored f free there large =
        let (d0, selected, run, p) = select_region-Picked c key.size xs s b in
        let (r, pick, q) = chosen_region f free there large d0 selected run p in
        (
          d0,
          r,
          pick,
          elim (verdicts (ht_insert_check double d0 key start).1) [
            | inl conflict ↦ inl conflict
            | inr (n, free) ↦ inr (stored d0 r n pick q free)
          ],
        )
