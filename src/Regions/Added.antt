-- ===== src/Regions/Added.antt =====
-- src/clampi_get.c: a region is put in the tree of free regions, and linked to its node.
use cla_mpi.Prelude.{
  ℕ, ◌+◌, ◌<◌, ◌≡◌, ◌≢◌, refl, sym, ap, ◌∙◌, subst, inl, inr, some, true, false, List, ◌∷◌, arith,
  same, count, tally, tally-append, ◌==◌, Bool-cases, All, All-append, All-append_left,
  All-append_right, update, All-everywhere, pos_part, eq_of_test,
}
use cla_mpi.Avl.{inorder, size}
use cla_mpi.Avl.Pool.{AvlTree}
use cla_mpi.Avl.Insert.{tree_insert, tree_insert-Inserted}
use cla_mpi.Avl.Order.{Sorted, insert_sorted-Sorted}
use cla_mpi.Avl.Cells.{cells, Seated}
use cla_mpi.Avl.Handles.{tree_insert-Filled, tree_insert-Pooled}
use cla_mpi.Cache.{Entry, Cache, size_of}
use cla_mpi.Window.{free_entry_comp, set_entry}
use cla_mpi.Regions.{insert_region}
use cla_mpi.Regions.Fit.{free_entry_comp-Compares, Sorted-same}
use cla_mpi.Regions.Index.{Linked}
use cla_mpi.Regions.Tied.{Ties, Tied, at_item, tally-items, All-apart}
use cla_mpi.Regions.Hung.{Hung}

Ties-Seated :
    (t : ℕ → Entry) (k x : ℕ) (was now : List (ℕ × ℕ))
    → Seated k x was now
    → tally (at_item x) was ≡ 0
    → All (Ties t) was
    → All (Ties (update t x (record (t x) { tnode = some k }))) now
Ties-Seated t k x was now (before, after, w, n) none_there ps =
    let u = update t x (record (t x) { tnode = some k }) in
    let self : (x == x) ≡ true = ground arith in
    let kept : (c : ℕ × ℕ) → c.1 ≢ x → Ties t c → Ties u c =
      λ c h e. let other : (c.1 == x) ≡ false = ground (arith, h) in rw other e in
    let qs = subst (All (Ties t)) w ps in
    let parts = ap (tally (at_item x)) w ∙ tally-append (at_item x) before after in
    subst (All (Ties u)) (sym n) (
      All-append (Ties u) before ((k, x) ∷ after)
        (All-apart (Ties t) (Ties u) x before kept (omega (arith, parts, none_there))
          (All-append_left (Ties t) before after qs))
        (
          rw self refl,
          All-apart (Ties t) (Ties u) x after kept (omega (arith, parts, none_there))
              (All-append_right (Ties t) before after qs),
        ))

linked_update :
    (t : ℕ → Entry) (x k i j : ℕ)
    → (t i).tnode ≡ some j
    → (l : ℕ) × ((update t x (record (t x) { tnode = some k }) i).tnode ≡ some l)
linked_update t x k i j e = elim (Bool-cases (i == x)) [
  | inl here ↦ (k, rw here refl)
  | inr there ↦ (j, rw there e)
]

module _ {F : Type 0} where
  -- The descriptors by their sizes.
  abbrev pub sizes_of : Cache F → ℕ → ℕ
  sizes_of c i = size_of (c.table_ptr i)

  -- A region is in the tree, and the others are still there.
  pub record Added (c d : Cache F) (e : ℕ) : Type 0 where
    pub linked : Linked c d e
    pub hung : Hung d
    pub sorted : Sorted (sizes_of d) (inorder d.free_idx.root)
    pub more :
        (m : ℕ) → count m (inorder d.free_idx.root) ≡ count m (inorder c.free_idx.root) + same m e
    pub linked_still :
        (i j : ℕ) → (c.table_ptr i).tnode ≡ some j → (l : ℕ) × ((d.table_ptr i).tnode ≡ some l)

  size_kept :
      (c : Cache F) (x k i : ℕ)
      → size_of (update c.table_ptr x (record (c.table_ptr x) { tnode = some k }) i)
        ≡ size_of (c.table_ptr i)
  size_kept c x k i = elim (Bool-cases (i == x)) [
    | inl here ↦
        let at = eq_of_test i x here in rw here (ap (λ z. size_of (c.table_ptr z)) (sym at))
    | inr there ↦ rw there refl
  ]

  -- What is inserted, seen from the tree.
  pub inserted-Tied :
      (c : Cache F) (e k : ℕ) (t : AvlTree ℕ)
      → Hung c
      → count e (inorder c.free_idx.root) ≡ 0
      → tree_insert (free_entry_comp c.table_ptr) c.free_idx e ≡ some (k, t)
      → Tied (update c.table_ptr e (record (c.table_ptr e) { tnode = some k })) t
        × ((m : ℕ) → count m (inorder t.root) ≡ count m (inorder c.free_idx.root) + same m e)
  inserted-Tied c e k t h out run =
      let comp = free_entry_comp c.table_ptr in
      let f = tree_insert-Filled comp e c.free_idx t k run in
      let (before, after, w, n) = f.seated in
      let more : (m : ℕ) → count m (inorder t.root) ≡ count m (inorder c.free_idx.root) + same m e =
        λ m. omega (
          arith,
          tally-items m c.free_idx.root,
          tally-items m t.root,
          ap (tally (at_item m)) w,
          ap (tally (at_item m)) n,
          tally-append (at_item m) before after,
          tally-append (at_item m) before ((k, e) ∷ after),
        ) in
      (
        record {
          pool = tree_insert-Pooled comp e c.free_idx t k h.links.pool run;
          tied =
              Ties-Seated c.table_ptr k e (cells c.free_idx.root) (cells t.root) f.seated
                (sym (tally-items e c.free_idx.root) ∙ out) h.links.tied;
          once = λ m. ground (arith, more m, h.links.once m, out);
        },
        more,
      )

  -- For a balanced tree, sorted by size, whose pool has each node once in the tree or on the
  -- stack, and whose descriptors are there once each and linked to their nodes; and with a node
  -- left: the insertion of a descriptor that is not in the tree succeeds and leaves a tree as
  -- described up to `and with`, which has the descriptor and the others; the rest of the cache is
  -- as it was but for its link.
  pub insert_region-Added :
      (c : Cache F) (e : ℕ)
      → Hung c
      → Sorted (sizes_of c) (inorder c.free_idx.root)
      → size c.free_idx.root < c.free_idx.tot_nodes
      → count e (inorder c.free_idx.root) ≡ 0
      → (d : Cache F) × (insert_region c e ≡ some d) × Added c d e
  unfolding insert_region set_entry
  insert_region-Added c e h s room out =
      let (t, run, ins) =
        tree_insert-Inserted (free_entry_comp c.table_ptr) (sizes_of c) e c.free_idx
          (free_entry_comp-Compares c.table_ptr) s h.balanced h.counted room in
      let k = c.free_idx.free_nodes (pos_part c.free_idx.next_free_node) in
      let u = update c.table_ptr e (record (c.table_ptr e) { tnode = some k }) in
      let d : Cache F = record c { free_idx = t; table_ptr = u } in
      let (tied, more) = inserted-Tied c e k t h out run in
      (
        d,
        rw run refl,
        record {
          linked = record { node = k; table = refl; tree = t; whole = refl; is_inserted = ins };
          hung = record { balanced = ins.balanced; counted = ins.counted; links = tied };
          sorted =
              Sorted-same (sizes_of c) (sizes_of d) (inorder t.root)
                (All-everywhere _ (size_kept c e k) (inorder t.root))
                (subst (Sorted (sizes_of c)) (sym ins.data_inserted)
                  (insert_sorted-Sorted (sizes_of c) e (inorder c.free_idx.root) s));
          more = more;
          linked_still = linked_update c.table_ptr e k;
        },
      )
