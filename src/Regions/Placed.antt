-- ===== src/Regions/Placed.antt =====
-- The allocation of a new entry by `CMPI_Get`: the regions, and what is put off.
use cla_mpi.Prelude.{
  sym, ℕ, ◌+◌, ◌≤◌, ◌<◌, ◌≡◌, ◌^◌, refl, List, ◌∷◌, ◌++◌, arith, pos, subst, ◌∙◌, update, ap, some,
  All-everywhere,
}
use cla_mpi.Avl.{inorder}
use cla_mpi.Cache.{Get, Entry, Cache, size_of, free, busy, Pending, int_of, int_of-pos}
use cla_mpi.Regions.Alike.{Alike-update, Alike-Kept}
use cla_mpi.Regions.Allocate.{allocate}
use cla_mpi.Regions.Index.{Indexed}
use cla_mpi.Regions.Layout.{extent, Absent, Tiled, Layout}
use cla_mpi.Regions.Layout.Change.{Tiled-Kept}
use cla_mpi.Regions.Links.{update_on}
use cla_mpi.Regions.Split.{sizes}
use cla_mpi.Regions.Layout.Within.{Apart, Tiled-Apart}
use cla_mpi.Regions.Taken.{Taken, take_region-Taken}
use cla_mpi.Regions.Opened.{
  inserted_new, inserted_same, inserted_Kept, placed_frame, finished_steps, marked, inserted,
  placed, finished,
}
use cla_mpi.Regions.Taken.{chosen, rest_behind}

extent_busy : (e : Entry) → e.kind ≡ busy → extent e ≡ e.get_info.size
extent_busy e b = rw b refl

module _ {F : Type 0} where
  -- A new entry has a place in the buffer: the regions `xs` fill it, and the copy of the data of the
  -- entry to its offset is pending, its size converted to `int`.
  pub record Allocated (c e : Cache F) (key : Get) (origin : ℕ) (xs : List ℕ) (new : ℕ)
      (ys : List ℕ) : Type 0 where
    pub layout : Layout e (xs ++ new ∷ ys)
    pub is_busy : (e.table_ptr new).kind ≡ busy
    pub keyed : (e.table_ptr new).get_info ≡ key
    pub pending : (e.table_ptr new).pending ≡ pos c.penptr
    pub copy : e.pending c.penptr ≡ record {
      target_addr = (e.table_ptr new).offset;
      origin_addr = origin;
      entry = (e.table_ptr new).index;
      size = int_of key.size;
    }
    pub counted : e.penptr ≡ c.penptr + 1

  module _ (c d : Cache F) (new : ℕ) (key : Get) (start origin : ℕ) (xs : List ℕ)
      (t : Taken c d new key.size xs) where
    abbrev copy_of : Entry → Pending
    copy_of e = record {
      target_addr = e.offset;
      origin_addr = origin;
      entry = e.index;
      size = int_of key.size;
    }

    -- The cache before the copy is put off.
    abbrev before : Cache F
    before = placed d new key start

    abbrev after : Cache F
    after = finished d new key start origin

    before_table : before.table_ptr ≡ (inserted d new key start).table_ptr
    before_table = ap (λ (x : Cache F). x.table_ptr) (placed_frame d new key start)

    before_penptr : before.penptr ≡ c.penptr
    before_penptr =
        ap (λ (x : Cache F). x.penptr) (placed_frame d new key start)
        ∙ (inserted_same d new key start).1
        ∙ ap (λ (x : Cache F). x.penptr) t.whole

    before_mem_size : before.mem_size ≡ c.mem_size
    before_mem_size =
        ap (λ (x : Cache F). x.mem_size) (placed_frame d new key start)
        ∙ (inserted_same d new key start).0
        ∙ ap (λ (x : Cache F). x.mem_size) t.whole

    before_new : before.table_ptr new ≡ record (d.table_ptr new) {
      kind = busy;
      get_info = key;
      htindex = ((inserted d new key start).table_ptr new).htindex;
    }
    before_new = ap (λ (u : ℕ → Entry). u new) before_table ∙ inserted_new d new key start

    before_Layout : Layout before xs
    before_Layout =
        let u = (inserted d new key start).table_ptr in
        let tiled =
          Tiled-Kept d.table_ptr u (sizes d.table_ptr new key.size) (λ i. extent (u i)) xs
            c.mem_size (All-everywhere _ (inserted_Kept d new key start) xs) t.tiled in
        subst (λ n. Tiled before.table_ptr (λ i. extent (before.table_ptr i)) xs n)
          (sym before_mem_size)
          (subst (λ (u : ℕ → Entry). Tiled u (λ i. extent (u i)) xs c.mem_size) (sym before_table)
            tiled)

    after_new : after.table_ptr new ≡ marked before new
    unfolding finished
    after_new = update_on before.table_ptr new new (marked before new)

    after_Layout : Layout after xs
    unfolding finished
    after_Layout =
        Tiled-Kept before.table_ptr after.table_ptr (λ i. extent (before.table_ptr i))
          (λ i. extent (after.table_ptr i)) xs before.mem_size
          (All-everywhere _
            (λ i. Alike-Kept before.table_ptr after.table_ptr i (
              Alike-update before.table_ptr new (marked before new) i (record {
                before = refl;
                start = refl;
                named = refl;
                after = refl;
                same_extent = refl;
              })))
            xs)
          before_Layout

    after_copy : after.pending c.penptr ≡ copy_of (after.table_ptr new)
    unfolding finished
    after_copy =
        ap (update before.pending before.penptr (copy_of (before.table_ptr new)))
          (sym before_penptr)
        ∙ update_on before.pending before.penptr before.penptr (copy_of (before.table_ptr new))
        ∙ ap copy_of (sym after_new)

    finished-Allocated :
        (us vs : List ℕ) → xs ≡ us ++ new ∷ vs → Allocated c after key origin us new vs
    unfolding finished
    finished-Allocated us vs e = record {
      layout = subst (Layout after) e after_Layout;
      is_busy =
          ap (λ (e : Entry). e.kind)
            (after_new ∙ ap (λ (e : Entry). record e { pending = pos before.penptr }) before_new);
      keyed =
          ap (λ (e : Entry). e.get_info)
            (after_new ∙ ap (λ (e : Entry). record e { pending = pos before.penptr }) before_new);
      pending = ap (λ (e : Entry). e.pending) after_new ∙ ap pos before_penptr;
      copy = after_copy;
      counted = ap (λ n. n + 1) before_penptr;
    }

  module _ (c : Cache F) (region : ℕ) (key : Get) (start origin : ℕ) (xs ys : List ℕ)
      (l : Layout c (xs ++ region ∷ ys)) (f : (c.table_ptr region).kind ≡ free)
      (fits : key.size ≤ size_of (c.table_ptr region)) (b : size_of (c.table_ptr region) < 2 ^ 64)
      (i : Indexed c) (o : Absent region (inorder c.free_idx.root))
      (n : (c.table_ptr (c.free_entries c.next_free_entry)).index
        ≡ c.free_entries c.next_free_entry)
      (a : Absent (c.free_entries c.next_free_entry) (xs ++ region ∷ ys))
      (q : Absent (c.free_entries c.next_free_entry) (inorder c.free_idx.root))
      (h : c.penptr < 64) where
    abbrev new : ℕ
    new = chosen c region key.size

    abbrev behind : List ℕ
    behind = rest_behind c region key.size ys

    -- For a cache whose regions fill its buffer one behind the other, with a tree of descriptors
    -- that is sorted by size, balanced and counted and has a node left; a free region of the list
    -- that is not in the tree and is large enough, of a size under 2^64; a descriptor on top of
    -- the stack that has its own index and is neither in the list nor in the tree; and room for a
    -- pending copy: the allocation of `CMPI_Get` succeeds. The regions fill the buffer again, with
    -- the new entry in the place of the region, which is behind it if it was split; the entry is
    -- busy, has the key, and its copy from the buffer of the get is the last one that is pending.
    pub allocate-Allocated :
        (e : Cache F) × (allocate c region key start origin ≡ some e)
        × Allocated c e key origin xs (chosen c region key.size) (rest_behind c region key.size ys)
    allocate-Allocated =
        let (d, e, t) = take_region-Taken c region key.size xs ys l f fits b i o n a q in
        (
          finished d new key start origin,
          finished_steps c d region new key start origin e
              (omega (arith, before_penptr c d new key start origin (xs ++ new ∷ behind) t, h)),
          finished-Allocated c d new key start origin (xs ++ new ∷ behind) t xs behind refl,
        )

    -- For a cache whose regions fill its buffer one behind the other, with a tree of descriptors
    -- that is sorted by size, balanced and counted and has a node left; a free region of the list
    -- that is not in the tree and is large enough, of a size under 2^64; a descriptor on top of
    -- the stack that has its own index and is neither in the list nor in the tree; room for a
    -- pending copy; and a get of fewer than 2^31 bytes: the allocation of `CMPI_Get` succeeds, the
    -- new entry lies inside the buffer and overlaps no other region, and its pending copy has the
    -- size of the get and writes inside the buffer, from the offset of the entry on.
    pub allocate-Apart :
        key.size < 2 ^ 31
        → (e : Cache F) × (allocate c region key start origin ≡ some e)
          × Apart e.table_ptr
              (λ j. extent (e.table_ptr j))
              xs
              (chosen c region key.size)
              (rest_behind c region key.size ys)
              e.mem_size
          × ((e.pending c.penptr).size ≡ pos key.size)
          × ((e.pending c.penptr).target_addr ≡ (e.table_ptr (chosen c region key.size)).offset)
          × ((e.pending c.penptr).target_addr + key.size ≤ e.mem_size)
    allocate-Apart small =
        let (e, run, done) = allocate-Allocated in
        let apart =
          Tiled-Apart e.table_ptr (λ j. extent (e.table_ptr j)) xs new behind e.mem_size
            done.layout in
        let target = ap (λ (p : Pending). p.target_addr) done.copy in
        let whole =
          extent_busy (e.table_ptr new) done.is_busy ∙ ap (λ (g : Get). g.size) done.keyed in
        (
          e,
          run,
          apart,
          ap (λ (p : Pending). p.size) done.copy ∙ int_of-pos key.size small,
          target,
          omega (arith, target, whole, apart.inside),
        )
