-- ===== src/Regions.antt =====
-- src/clampi_get.c: the parts of `CMPI_Get` that work on the list of memory regions: the free
-- regions in the tree, the eviction of an entry with the merge of its region with its neighbours,
-- and the allocation of a new entry. `none` is a failed assertion or an `exit`.
pub mod Evict
pub mod Allocate
pub mod Fit
pub mod Index
pub mod Layout
pub mod Links
pub mod Alike
pub mod Opened
pub mod Placed
pub mod Start
pub mod Join
pub mod Merged
pub mod Coalesce
pub mod Coalesced
pub mod Evicted
pub mod Eviction
pub mod Steps
pub mod Split
pub mod Taken
pub mod Tied
pub mod Restart
pub mod Selection
pub mod Allocation
pub mod Divided
pub mod Allotted
pub mod Stock
pub mod Secure
pub mod Finished
pub mod Sound
pub mod Absorbing
pub mod Joining
pub mod Merging
pub mod Rejoined
pub mod Drawn
pub mod Shelved
pub mod Added
pub mod Hung
use cla_mpi.Prelude.{
  ◌>>=◌, ℕ, zero, suc, ◌+◌, ◌-◌, ◌*◌, ◌/◌, ◌%◌, ◌^◌, ◌≤◌, ◌<◌, ◌≡◌, refl, Bool, true, false, ◌&&◌,
  ◌||◌, not, Option, none, some, List, [], ◌∷◌, arith, ℤ, pos, negsuc, sub_ℕ, ◌+ℤ◌, neg, ltb, leb,
  ◌==◌, ◌==ℤ◌, if◌then◌else◌, update, pos_part,
}
use cla_mpi.Avl.Pool.{AvlTree}
use cla_mpi.Avl.Insert.{tree_insert}
use cla_mpi.Avl.Delete.{tree_delete_node}
use cla_mpi.Avl.Search.{tree_csearch_node}
use cla_mpi.Cache.{
  Get, Slot, Kind, free, busy, Entry, size_of, set_size, Pending, Stats, Cache, u16, u32, no_entry,
}
use cla_mpi.HashTable.{ht_insert, ht_remove}
use cla_mpi.Window.{free_entry_comp, free_entry_replace, free_centry, new_centry, set_entry}

abbrev pub is_free : Entry → Bool
is_free e = elim e.kind [ free ↦ true | busy ↦ false ]

-- `mprev!=NOENTRY ? TABLEENTRY(cache, mprev) : NULL`
abbrev pub link : ℤ → Option ℕ
link (pos i) = some i
link (negsuc i) = none

-- A pointer that is compared with another one.
abbrev pub is_region : Option ℕ → ℕ → Bool
is_region none i = false
is_region (some j) i = j == i

-- The variables of an eviction: `new_free_region`, whether it is still to be put in the tree, and
-- the neighbour that is left, `prev` or `next`.
pub record Merge (F : Type 0) : Type 0 where
  pub cache : Cache F
  pub region : ℕ
  pub to_index : Bool
  pub neighbour : Option ℕ

module _ {F : Type 0} where
  -- `Tree_DeleteNode(cache->free_idx, e->tnode)`, with the callback on the descriptors; the code
  -- asserts that the pointer to the node is not null.
  unfoldable pub delete_region : Cache F → ℕ → Option (Cache F)
  delete_region c e = do
    k ← (c.table_ptr e).tnode
    (t, moved) ← tree_delete_node c.free_idx k
    some (record c {
      free_idx = t;
      table_ptr = elim moved [
        | none ↦ c.table_ptr
        | some (target, source) ↦ free_entry_replace c.table_ptr target source
      ];
    })

  -- `e->tnode = Tree_Insert(cache->free_idx, e)`
  unfoldable pub insert_region : Cache F → ℕ → Option (Cache F)
  insert_region c e = do
    (k, t) ← tree_insert (free_entry_comp c.table_ptr) c.free_idx e
    some (set_entry (record c { free_idx = t }) e (λ d. record d { tnode = some k }))

  -- `tosearch` is a descriptor outside the table, here the first one behind it.
  unfoldable pub find_region : Cache F → ℕ → Option ℕ
  find_region c size =
      let tosearch = c.ht_entries * 2 in
      let table = update c.table_ptr tosearch (set_size (c.table_ptr tosearch) size) in
      tree_csearch_node (free_entry_comp table) tosearch c.free_idx.root

  -- `if (i!=NOENTRY) TABLEENTRY(cache, i)->mprev = j`
  unfoldable pub set_mprev : Cache F → ℤ → ℕ → Cache F
  set_mprev c (pos i) j = set_entry c i (λ e. record e { mprev = pos j })
  set_mprev c (negsuc i) j = c

  unfoldable pub set_mnext : Cache F → ℤ → ℕ → Cache F
  set_mnext c (pos i) j = set_entry c i (λ e. record e { mnext = pos j })
  set_mnext c (negsuc i) j = c

  -- The victim is joined to a free region before it.
  unfoldable pub join_prev : Cache F → ℕ → Option ℕ → ℕ → Option (Merge F)
  join_prev c victim selected prev =
      let v = c.table_ptr victim in
      let grown = set_entry c prev (λ p. set_size p (size_of p + size_of v)) in
      let mine = is_region selected prev in
      do
        asserted ← (c.table_ptr prev).tnode
        d ← if mine then some grown else delete_region grown prev
        let linked = set_entry d prev (λ p. record p { mnext = (d.table_ptr victim).mnext })
        let next_linked =
            set_mprev linked (linked.table_ptr victim).mnext (linked.table_ptr prev).index
        let freed = free_centry next_linked victim
        some (record {
          cache = freed;
          region = prev;
          to_index = not mine;
          neighbour = link (freed.table_ptr prev).mprev;
        })

  unfoldable pub merge_prev : Cache F → ℕ → Option ℕ → Option (Merge F)
  merge_prev c victim selected = elim (link (c.table_ptr victim).mprev) [
    | none ↦ some (record { cache = c; region = victim; to_index = true; neighbour = none })
    | some prev ↦
        if is_free (c.table_ptr prev)
        then join_prev c victim selected prev
        else some (record { cache = c; region = victim; to_index = true; neighbour = some prev })
  ]

  -- A free region behind it is joined to the new region.
  unfoldable pub join_next : Cache F → ℕ → Bool → Option ℕ → ℕ → Option (Merge F)
  join_next c region to_index selected next =
      let grown = set_entry c region (λ r. set_size r (size_of r + size_of (c.table_ptr next))) in
      let mine = is_region selected next in
      do
        asserted ← (c.table_ptr next).tnode
        d ← if mine then some grown else delete_region grown next
        let linked = set_entry d region (λ r. record r { mnext = (d.table_ptr next).mnext })
        let next_linked =
            set_mprev linked (linked.table_ptr next).mnext (linked.table_ptr region).index
        let freed = free_centry next_linked next
        some (record {
          cache = freed;
          region = region;
          to_index = to_index && not mine;
          neighbour = link (freed.table_ptr next).mnext;
        })

  unfoldable pub merge_next : Cache F → ℕ → Bool → Option ℕ → Option (Merge F)
  merge_next c region to_index selected = elim (link (c.table_ptr region).mnext) [
    | none ↦ some (record { cache = c; region = region; to_index = to_index; neighbour = none })
    | some next ↦
        if is_free (c.table_ptr next)
        then join_next c region to_index selected next
        else some
            (record { cache = c; region = region; to_index = to_index; neighbour = some next })
  ]

  -- `HT(cache, e).penalty = f(penalty)`
  unfoldable pub set_penalty : Cache F → ℕ → (ℕ → ℕ) → Cache F
  set_penalty c e f =
      let place = (c.table_ptr e).htindex in
      let s = c.table place in
      record c { table = update c.table place (record s { penalty = f s.penalty }) }
