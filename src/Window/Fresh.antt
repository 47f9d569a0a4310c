-- ===== src/Window/Fresh.antt =====
-- `reset_data_structures`: the empty cache.
use cla_mpi.Prelude.{
  ℕ, zero, suc, ◌+◌, ◌-◌, ◌*◌, ◌^◌, ◌≤◌, ◌<◌, ◌≡◌, refl, inl, inr, some, [], ◌∷◌, arith, ◌∙◌, ap,
  update, pos_part, lt_or_le,
}
use cla_mpi.Avl.{inorder, IsAvl}
use cla_mpi.Avl.Pool.{AvlTree, tree_empty, IsCounted, tree_empty-IsCounted}
use cla_mpi.Avl.Insert.{tree_insert-Inserted, Inserted}
use cla_mpi.Avl.Order.{insert_sorted}
use cla_mpi.Cache.{Double, Slot, Entry, free, Cache, size_of, size_of-set_size, no_entry}
use cla_mpi.Window.{
  free_entry_comp, clear_slots, reset_entries, reset_stack, whole_region, emptied, reset_table,
  reset_data_structures,
}
use cla_mpi.Regions.Fit.{free_entry_comp-Compares}

clear_slots_before :
    (n i : ℕ) (table : ℕ → Slot) (s : ℕ) → s < i → clear_slots n i table s ≡ table s
unfolding clear_slots
clear_slots_before zero i table s h = refl
clear_slots_before (suc n) i table s h =
    clear_slots_before n (i + 1) _ s (omega arith) ∙ ground arith

clear_slots_in :
    (n i : ℕ) (table : ℕ → Slot) (s : ℕ) → i ≤ s → s < i + n → (clear_slots n i table s).lasthit ≡ 0
unfolding clear_slots
clear_slots_in zero i table s h k = absurd (omega arith)
clear_slots_in (suc n) i table s h k = elim (lt_or_le i s) [
  | inl later ↦ clear_slots_in n (i + 1) _ s (omega arith) (omega arith)
  | inr here ↦
      ap (λ (v : Slot). v.lasthit) (clear_slots_before n (i + 1) _ s (omega arith)) ∙ ground arith
]

reset_entries_before :
    (n i : ℕ) (table : ℕ → Entry) (s : ℕ) → s < i → reset_entries n i table s ≡ table s
unfolding reset_entries
reset_entries_before zero i table s h = refl
reset_entries_before (suc n) i table s h =
    reset_entries_before n (i + 1) _ s (omega arith) ∙ ground arith

reset_entries_in :
    (n i : ℕ) (table : ℕ → Entry) (s : ℕ)
    → i ≤ s
    → s < i + n
    → let e = reset_entries n i table s in
      (e.index ≡ s) × (e.mprev ≡ no_entry) × (e.mnext ≡ no_entry)
unfolding reset_entries
reset_entries_in zero i table s h k = absurd (omega arith)
reset_entries_in (suc n) i table s h k = elim (lt_or_le i s) [
  | inl later ↦ reset_entries_in n (i + 1) _ s (omega arith) (omega arith)
  | inr here ↦
      let same =
        reset_entries_before n (i + 1)
          (update table i (record (table i) { index = i; mprev = no_entry; mnext = no_entry })) s
          (omega arith) in
      rw same (ground arith, ground arith, ground arith)
]

reset_stack_before :
    (n i : ℕ) (stack : ℕ → ℕ) (s : ℕ) → s + 1 < i → reset_stack n i stack s ≡ stack s
unfolding reset_stack
reset_stack_before zero i stack s h = refl
reset_stack_before (suc n) i stack s h =
    reset_stack_before n (i + 1) _ s (omega arith) ∙ ground arith

reset_stack_in :
    (n i : ℕ) (stack : ℕ → ℕ) (s : ℕ)
    → 0 < i
    → i ≤ s + 1
    → s + 1 < i + n
    → reset_stack n i stack s ≡ s + 1
unfolding reset_stack
reset_stack_in zero i stack s p h k = absurd (omega arith)
reset_stack_in (suc n) i stack s p h k = elim (lt_or_le i (s + 1)) [
  | inl later ↦ reset_stack_in n (i + 1) _ s (omega arith) (omega arith) (omega arith)
  | inr here ↦ reset_stack_before n (i + 1) _ s (omega arith) ∙ ground arith
]

module _ {F : Type 0} where
  -- The empty cache: no slot is used, one free region is the whole buffer and is the data of the
  -- tree, the other descriptors are on the stack, and nothing is pending.
  pub record Fresh (n size : ℕ) (c : Cache F) : Type 0 where
    pub no_slot : (s : ℕ) → s < n → (c.table s).lasthit ≡ 0
    pub none_counted : c.table_size ≡ 0
    pub region : inorder c.free_idx.root ≡ 0 ∷ []
    pub balanced : IsAvl c.free_idx.root
    pub counted : IsCounted c.free_idx
    pub whole : size_of (c.table_ptr 0) ≡ size
    pub is_free : (c.table_ptr 0).kind ≡ free
    pub at_start : (c.table_ptr 0).offset ≡ 0
    pub alone : ((c.table_ptr 0).mprev ≡ no_entry) × ((c.table_ptr 0).mnext ≡ no_entry)
    pub indices : (i : ℕ) → i < n * 2 → (c.table_ptr i).index ≡ i
    pub stack : (i : ℕ) → i < n * 2 - 1 → c.free_entries i ≡ i + 1
    pub stack_top : c.next_free_entry + 2 ≡ n * 2
    pub none_pending : c.penptr ≡ 0
    pub no_gets : c.getcount ≡ 0

module _ (double : Double) where
  open double use {F}

  emptied-Fresh :
      (c : Cache F) (i : ℕ) (t : AvlTree ℕ)
      → 0 < c.ht_entries
      → c.ht_entries < 2 ^ 31
      → c.mem_size < 2 ^ 64
      → Inserted (λ j. size_of (reset_table double c j)) 0 (tree_empty c.free_idx) t
      → Fresh c.ht_entries c.mem_size (emptied double c i t)
  unfolding emptied reset_table whole_region tree_empty insert_sorted
  emptied-Fresh c i t h k m ins = record {
    no_slot = λ s l. clear_slots_in c.ht_entries 0 c.table s (omega arith) (omega arith);
    none_counted = refl;
    region = ins.data_inserted;
    balanced = ins.balanced;
    counted = ins.counted;
    whole = size_of-set_size (reset_entries (c.ht_entries * 2 - 1) 1 c.table_ptr 0) c.mem_size m;
    is_free = refl;
    at_start = refl;
    alone = (refl, refl);
    indices = λ j l. ground (arith, reset_entries_in (c.ht_entries * 2 - 1) 1 c.table_ptr j);
    stack = λ j l.
        reset_stack_in (c.ht_entries * 2 - 1) 1 c.free_entries j (omega arith) (omega arith)
          (omega arith);
    stack_top = omega arith;
    none_pending = refl;
    no_gets = refl;
  }

  -- For a hash table of at least one and fewer than 2^31 slots, a buffer under 2^64 bytes and a
  -- pool with a node, `reset_data_structures` succeeds: no slot is used, the tree has one region,
  -- which is the whole buffer and free, the descriptors have their indices, all others are on the
  -- stack, and nothing is pending.
  pub reset_data_structures-Fresh :
      (c : Cache F)
      → 0 < c.ht_entries
      → c.ht_entries < 2 ^ 31
      → c.mem_size < 2 ^ 64
      → 0 < c.free_idx.tot_nodes
      → (d : Cache F) × (reset_data_structures double c ≡ some d) × Fresh c.ht_entries c.mem_size d
  unfolding reset_data_structures tree_empty
  reset_data_structures-Fresh c h k m p =
      let table = reset_table double c in
      let (t, e, ins) =
        tree_insert-Inserted (free_entry_comp table) (λ j. size_of (table j)) 0
          (tree_empty c.free_idx) (free_entry_comp-Compares table) tt tt
          (tree_empty-IsCounted c.free_idx) p in
      let i =
        (tree_empty c.free_idx).free_nodes (pos_part (tree_empty c.free_idx).next_free_node) in
      (emptied double c i t, rw (e, reset_data_structures) refl, emptied-Fresh c i t h k m ins)
