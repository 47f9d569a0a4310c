-- ===== src/Regions/Index.antt =====
-- The tree of free regions, with the links from the descriptors to its nodes.
use cla_mpi.Prelude.{
  ℕ, ◌<◌, ◌≡◌, refl, inl, inr, some, arith, update, ◌==◌, pos_part, Option-cases, Bool-cases,
  eq_of_test,
}
use cla_mpi.Avl.{inorder, IsAvl, size}
use cla_mpi.Avl.Pool.{AvlTree, IsCounted}
use cla_mpi.Avl.Insert.{tree_insert-Inserted, Inserted}
use cla_mpi.Avl.Delete.{item_at}
use cla_mpi.Avl.Delete.Whole.{Deleted, tree_delete_node-Deleted}
use cla_mpi.Avl.Order.{Sorted}
use cla_mpi.Cache.{Entry, Cache, size_of}
use cla_mpi.Window.{free_entry_replace, free_entry_comp, set_entry}
use cla_mpi.Regions.{insert_region, delete_region, link}
use cla_mpi.Regions.Fit.{free_entry_comp-Compares}

replaced-table :
    (table : ℕ → Entry) (target source i : ℕ)
    → let after = free_entry_replace table target source in
      after i ≡ record (table i) { tnode = (after i).tnode }
unfolding free_entry_replace
replaced-table table target source i = elim (Bool-cases (i == source)) [
  | inl here ↦ let same = eq_of_test i source here in ground (arith, same)
  | inr there ↦ rw there refl
]

module _ {F : Type 0} where
  -- The tree of free regions is in order and has a node left.
  pub record Indexed (c : Cache F) : Type 0 where
    pub sorted : Sorted (λ i. size_of (c.table_ptr i)) (inorder c.free_idx.root)
    pub balanced : IsAvl c.free_idx.root
    pub counted : IsCounted c.free_idx
    pub room : size c.free_idx.root < c.free_idx.tot_nodes

  -- A region is put in the tree: nothing else has changed than the tree and its link to its node.
  pub record Linked (c d : Cache F) (e : ℕ) : Type 0 where
    pub node : ℕ
    pub table : d.table_ptr ≡ update c.table_ptr e (record (c.table_ptr e) { tnode = some node })
    pub tree : AvlTree ℕ
    pub whole : d ≡ record c { free_idx = tree; table_ptr = d.table_ptr }
    pub is_inserted : Inserted (λ i. size_of (c.table_ptr i)) e c.free_idx tree

  -- For a tree of descriptors that is sorted by size, balanced and counted, and has a node left,
  -- the insertion of a descriptor into the tree of free regions succeeds: it is at the first place
  -- that its size allows, the tree is balanced and counted, the descriptor is linked to a node,
  -- and the rest of the cache is as it was.
  pub insert_region-Linked :
      (c : Cache F) (e : ℕ)
      → Indexed c
      → (d : Cache F) × (insert_region c e ≡ some d) × Linked c d e
  unfolding insert_region set_entry
  insert_region-Linked c e i =
      let (t, f, ins) =
        tree_insert-Inserted (free_entry_comp c.table_ptr) (λ i. size_of (c.table_ptr i)) e
          c.free_idx (free_entry_comp-Compares c.table_ptr) i.sorted i.balanced i.counted i.room in
      let k = c.free_idx.free_nodes (pos_part c.free_idx.next_free_node) in
      (
        record c {
          free_idx = t;
          table_ptr = update c.table_ptr e (record (c.table_ptr e) { tnode = some k });
        },
        rw f refl,
        record { node = k; table = refl; tree = t; whole = refl; is_inserted = ins },
      )

  -- A region is taken out of the tree: of the descriptors only links to nodes have changed.
  pub record Unlinked (c d : Cache F) (e : ℕ) : Type 0 where
    pub deleted : Deleted e c.free_idx d.free_idx
    pub whole : d ≡ record c { free_idx = d.free_idx; table_ptr = d.table_ptr }
    pub table : (i : ℕ) → d.table_ptr i ≡ record (c.table_ptr i) { tnode = (d.table_ptr i).tnode }

  -- For a balanced tree whose nodes and free nodes make up the pool, and a descriptor that is
  -- linked to a node which holds it, the deletion of the descriptor from the tree of free regions
  -- succeeds: it is gone from its place and the others stay in order, the tree is balanced and
  -- counted, and of the rest of the cache only links from descriptors to nodes have changed.
  pub delete_region-Unlinked :
      (c : Cache F) (e k : ℕ)
      → (c.table_ptr e).tnode ≡ some k
      → item_at k c.free_idx.root ≡ some e
      → IsAvl c.free_idx.root
      → IsCounted c.free_idx
      → (d : Cache F) × (delete_region c e ≡ some d) × Unlinked c d e
  unfolding delete_region
  delete_region-Unlinked c e k link at v n =
      let (t, moved, f, deleted) = tree_delete_node-Deleted k e c.free_idx at v n in
      elim (Option-cases moved) [
        | inl still ↦ (
          record c { free_idx = t },
          rw (link, f, still) refl,
          record { deleted = deleted; whole = refl; table = λ i. refl },
        )
        | inr ((target, source), m) ↦ (
          record c { free_idx = t; table_ptr = free_entry_replace c.table_ptr target source },
          rw (link, f, m) refl,
          record {
            deleted = deleted;
            whole = refl;
            table = replaced-table c.table_ptr target source;
          },
        )
      ]
