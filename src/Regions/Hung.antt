-- ===== src/Regions/Hung.antt =====
-- src/clampi_get.c: a region is taken out of the tree of free regions, or put in, with the links from
-- the descriptors to the nodes.
use cla_mpi.Prelude.{
  suc, ◌<◌, length, length-append, ℕ, ◌+◌, ◌≤◌, ◌≡◌, refl, sym, ap, ◌∙◌, subst, inl, inr, some,
  Option, List, ◌∷◌, ◌++◌, arith, same, count, tally-append, ◌==◌, Bool-cases, Option-cases,
  eq_of_some,
}
use cla_mpi.Avl.{Tree, IsAvl, inorder, size, size-length}
use cla_mpi.Avl.Pool.{release_node, AvlTree, IsCounted}
use cla_mpi.Avl.Delete.{tree_delete_node}
use cla_mpi.Avl.Delete.Whole.{tree_delete_node-Deleted}
use cla_mpi.Avl.Cells.{cells, Unseated}
use cla_mpi.Avl.Handles.{tree_delete_node-Emptied, tree_delete_node-Pooled}
use cla_mpi.Cache.{Entry, Cache}
use cla_mpi.Window.{free_entry_replace}
use cla_mpi.Regions.{delete_region}
use cla_mpi.Regions.Index.{Unlinked, delete_region-Unlinked}
use cla_mpi.Regions.Tied.{Tied, found_at, tally-items, relinked, Ties-Unseated}

count-removed :
    (s t : Tree ℕ) (e m : ℕ) (xs ys : List ℕ)
    → inorder s ≡ xs ++ (e ∷ ys)
    → inorder t ≡ xs ++ ys
    → count m (inorder t) + same m e ≡ count m (inorder s)
count-removed s t e m xs ys w n = omega (
  arith,
  ap (count m) w,
  ap (count m) n,
  tally-append (same m) xs (e ∷ ys),
  tally-append (same m) xs ys,
)

deleted_size :
    (s t : Tree ℕ) (e : ℕ) (xs ys : List ℕ)
    → inorder s ≡ xs ++ (e ∷ ys)
    → inorder t ≡ xs ++ ys
    → suc (size t) ≡ size s
deleted_size s t e xs ys w n = omega (
  arith,
  size-length s ∙ ap length w,
  size-length t ∙ ap length n,
  length-append xs (e ∷ ys),
  length-append xs ys,
)

-- A descriptor with a link has one after the callback.
still_linked :
    (t : ℕ → Entry) (k x : ℕ) (was now : List (ℕ × ℕ)) (freed : ℕ) (replaced : Option (ℕ × ℕ))
    → Unseated k x was now freed replaced
    → (t x).tnode ≡ some k
    → (i j : ℕ) → (t i).tnode ≡ some j
    → (l : ℕ) × ((relinked t replaced i).tnode ≡ some l)
unfolding free_entry_replace
still_linked t k x was now freed replaced (before, after, u) h i j e = elim u [
  | inl (w, n, f, r) ↦ (j, ap (λ o. (relinked t o i).tnode) r ∙ e)
  | inr (m, y, w, n, f, r) ↦ elim (Bool-cases (i == y)) [
    | inl here ↦ (k, ap (λ o. (relinked t o i).tnode) r ∙ rw here h)
    | inr there ↦ (j, ap (λ o. (relinked t o i).tnode) r ∙ rw there e)
  ]
]

module _ {F : Type 0} where
  -- The tree of free regions, with the links to its nodes, but for its order.
  pub record Hung (c : Cache F) : Type 0 where
    pub balanced : IsAvl c.free_idx.root
    pub counted : IsCounted c.free_idx
    pub links : Tied c.table_ptr c.free_idx

  delete_region_run :
      (c : Cache F) (e k : ℕ) (t : AvlTree ℕ) (moved : Option (ℕ × ℕ))
      → (c.table_ptr e).tnode ≡ some k
      → tree_delete_node c.free_idx k ≡ some (t, moved)
      → delete_region c e ≡ some (record c { free_idx = t; table_ptr = relinked c.table_ptr moved })
  unfolding delete_region
  delete_region_run c e k t moved link run = elim (Option-cases moved) [
    | inl o ↦ rw (link, run, o) refl
    | inr (_, o) ↦ rw (link, run, o) refl
  ]

  -- A region is out of the tree, and no other.
  pub record Unhung (c d : Cache F) (e : ℕ) : Type 0 where
    pub unlinked : Unlinked c d e
    pub hung : Hung d
    pub fewer :
        (m : ℕ) → count m (inorder d.free_idx.root) + same m e ≡ count m (inorder c.free_idx.root)
    pub room :
        size c.free_idx.root < c.free_idx.tot_nodes → size d.free_idx.root < d.free_idx.tot_nodes
    pub linked_still :
        (i j : ℕ) → (c.table_ptr i).tnode ≡ some j → (l : ℕ) × ((d.table_ptr i).tnode ≡ some l)

  -- For a balanced tree whose pool has each node once in the tree or on the stack, and whose
  -- descriptors are there once each and linked to their nodes: the deletion of a descriptor of the
  -- tree succeeds and leaves such a tree, which has the others and not this one; of the rest of
  -- the cache only links from descriptors to nodes have changed, and a descriptor with a link
  -- still has one.
  pub delete_region-Unhung :
      (c : Cache F) (e : ℕ)
      → Hung c
      → 1 ≤ count e (inorder c.free_idx.root)
      → (d : Cache F) × (delete_region c e ≡ some d) × Unhung c d e
  unfolding release_node
  delete_region-Unhung c e h stands =
      let (k, link, at) = found_at c.table_ptr c.free_idx e h.links stands in
      let (t, moved, run, deleted) =
        tree_delete_node-Deleted k e c.free_idx at h.balanced h.counted in
      let made : Cache F = record c { free_idx = t; table_ptr = relinked c.table_ptr moved } in
      let runs = delete_region_run c e k t moved link run in
      let (d, runs', u) = delete_region-Unlinked c e k link at h.balanced h.counted in
      let f = tree_delete_node-Emptied k e c.free_idx t moved at h.balanced run in
      let fewer : (m : ℕ) → _ = λ m.
        count-removed c.free_idx.root t.root e m deleted.prefix deleted.suffix deleted.was
          deleted.now in
      (
        made,
        runs,
        record {
          unlinked = subst (λ x. Unlinked c x e) (eq_of_some (sym runs' ∙ runs)) u;
          hung = record {
            balanced = deleted.balanced;
            counted = deleted.counted;
            links = record {
              pool = tree_delete_node-Pooled k e c.free_idx t moved h.links.pool at h.balanced run;
              tied =
                  Ties-Unseated c.table_ptr k e (cells c.free_idx.root) (cells t.root) f.freed moved
                    f.unseated (λ m. omega (arith, tally-items m c.free_idx.root, h.links.once m))
                    h.links.tied;
              once = λ m. omega (arith, fewer m, h.links.once m);
            };
          };
          fewer = fewer;
          room = λ h. omega (
            arith,
            h,
            deleted_size c.free_idx.root t.root e deleted.prefix deleted.suffix deleted.was
                deleted.now,
            ap (λ (x : AvlTree ℕ). x.tot_nodes) f.released,
          );
          linked_still =
              still_linked c.table_ptr k e (cells c.free_idx.root) (cells t.root) f.freed moved
                f.unseated link;
        },
      )
