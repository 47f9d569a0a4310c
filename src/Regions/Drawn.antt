-- ===== src/Regions/Drawn.antt =====
-- src/clampi_get.c: a free neighbour of an evicted region leaves the tree, unless it is the selected
-- region, which has left it; and what the links written after that leave as it was.
use cla_mpi.Prelude.{
  update, ℕ, ◌+◌, ◌≤◌, ◌<◌, ◌≡◌, ◌≢◌, refl, sym, ap, ◌∙◌, subst, inl, inr, Bool, true, Option, some,
  List, arith, same, count, if◌then◌else◌, Bool-cases, ℤ,
}
use cla_mpi.Avl.{inorder, size}
use cla_mpi.Avl.Order.{Sorted, Sorted-remove}
use cla_mpi.Avl.Pool.{AvlTree}
use cla_mpi.Cache.{u32, Entry, Cache, size_of, set_size}
use cla_mpi.Window.{set_entry, free_centry}
use cla_mpi.Regions.{set_mprev, is_region, is_free, delete_region}
use cla_mpi.Regions.Hung.{Hung, Unhung, delete_region-Unhung}
use cla_mpi.Regions.Added.{sizes_of}
use cla_mpi.Regions.Join.{Retied, relink, grow}
use cla_mpi.Regions.Links.{set_entry_kept, set_mprev_kept, set_entry_elsewhere, set_mprev_frame}
use cla_mpi.Regions.Merged.{unindexed}
use cla_mpi.Regions.Shelved.{Shelved, both, StillLinked, Room, Hung-same}

module _ {F : Type 0} where
  -- The neighbour is out of the tree.
  pub record Drawn (c g d : Cache F) (other : ℕ) (selected : Option ℕ) : Type 0 where
    pub hung : Hung d
    pub sorted : Sorted (sizes_of c) (inorder d.free_idx.root)
    pub fewer :
        (m : ℕ)
        → count m (inorder d.free_idx.root) + (if is_region selected other then 0 else same m other)
          ≡ count m (inorder c.free_idx.root)
    pub retied : (i : ℕ) → Retied (g.table_ptr i) (d.table_ptr i)
    pub still : StillLinked c d
    pub room : Room c → Room d
    pub frame : d ≡ record c { free_idx = d.free_idx; table_ptr = d.table_ptr }

  grow_tnode :
      (c : Cache F) (left right i : ℕ)
      → ((grow c left right).table_ptr i).tnode ≡ (c.table_ptr i).tnode
  unfolding grow
  grow_tnode c left right =
      set_entry_kept (λ e. e.tnode) c left
        (λ p. set_size p (size_of p + size_of (c.table_ptr right))) (λ x. refl)

  grow_frame :
      (c : Cache F) (left right : ℕ) (t : AvlTree ℕ) (u : ℕ → Entry)
      → record (grow c left right) { free_idx = t; table_ptr = u }
        ≡ record c { free_idx = t; table_ptr = u }
  unfolding grow set_entry
  grow_frame c left right t u = refl

  grow_tree : (c : Cache F) (left right : ℕ) → (grow c left right).free_idx ≡ c.free_idx
  unfolding grow set_entry
  grow_tree c left right = refl

  pub Sorted-Unhung :
      (c g d : Cache F) (e : ℕ) (key : ℕ → ℕ)
      → g.free_idx ≡ c.free_idx
      → Unhung g d e
      → Sorted key (inorder c.free_idx.root)
      → Sorted key (inorder d.free_idx.root)
  Sorted-Unhung c g d e key same_tree u s =
      let x = u.unlinked.deleted in
      subst (Sorted key) (sym x.now) (
        Sorted-remove key x.prefix e x.suffix
          (subst (Sorted key) (ap (λ t. inorder t.root) (sym same_tree) ∙ x.was) s))

  pub unindexed-Drawn :
      (c : Cache F) (left right other region : ℕ) (selected : Option ℕ) (zs : List ℕ)
      → Shelved c (both selected region) zs
      → is_free (c.table_ptr other) ≡ true
      → other ≢ region
      → 1 ≤ count other zs
      → let g = grow c left right in
        (d : Cache F) × (unindexed g other selected ≡ some d) × Drawn c g d other selected
  unindexed-Drawn c left right other region selected zs h f apart there =
      let g = grow c left right in
      let links = grow_tnode c left right in
      let same_tree = grow_tree c left right in
      let hung = Hung-same c g links same_tree h.hung in
      elim (Bool-cases (is_region selected other)) [
        | inl mine ↦ (
          g,
          rw mine refl,
          record {
            hung = hung;
            sorted = subst (λ t. Sorted (sizes_of c) (inorder t.root)) (sym same_tree) h.sorted;
            fewer = λ m. rw mine (omega (arith, ap (λ t. count m (inorder t.root)) same_tree));
            retied = λ i. refl;
            still = λ i j e. (j, links i ∙ e);
            room = λ h. subst (λ t. size t.root < t.tot_nodes) (sym same_tree) h;
            frame = grow_frame c left right g.free_idx g.table_ptr;
          },
        )
        | inr hers ↦
            let in_tree : 1 ≤ count other (inorder c.free_idx.root) =
              ground (arith, h.members other, f, hers, apart, there) in
            let (d, run, u) =
              delete_region-Unhung g other hung
                (subst (λ t. 1 ≤ count other (inorder t.root)) (sym same_tree) in_tree) in
            (
              d,
              ap (λ (b : Bool). if b then some g else delete_region g other) hers ∙ run,
              record {
                hung = u.hung;
                sorted = Sorted-Unhung c g d other (sizes_of c) same_tree u h.sorted;
                fewer = λ m.
                    subst
                      (λ (b : Bool).
                        count m (inorder d.free_idx.root) + (if b then 0 else same m other)
                        ≡ count m (inorder c.free_idx.root))
                      (sym hers) (u.fewer m ∙ ap (λ t. count m (inorder t.root)) same_tree);
                retied = u.unlinked.table;
                still = λ i j e. u.linked_still i j (links i ∙ e);
                room = λ h. u.room (subst (λ t. size t.root < t.tot_nodes) (sym same_tree) h);
                frame = u.unlinked.whole ∙ grow_frame c left right d.free_idx d.table_ptr;
              },
            )
      ]

  -- What the new links do not touch.
  pub relink_kept :
      {A : Type 0} (g : Entry → A) (d : Cache F) (left right : ℕ)
      → ((x : Entry) (n : ℤ) → g (record x { mnext = n }) ≡ g x)
      → ((x : Entry) (p : ℤ) → g (record x { mprev = p }) ≡ g x)
      → (j : ℕ) → g ((relink d left right).table_ptr j) ≡ g (d.table_ptr j)
  unfolding relink free_centry
  relink_kept g d left right n p j =
      let after = (d.table_ptr right).mnext in
      let linked = set_entry d left (λ e. record e { mnext = after }) in
      set_mprev_kept g linked (linked.table_ptr right).mnext (linked.table_ptr left).index p j
      ∙ set_entry_kept g d left (λ e. record e { mnext = after }) (λ x. n x after) j

  -- `FREE_CENTRY` puts the descriptor on the right on the stack.
  pub relink_stack :
      (d : Cache F) (left right : ℕ)
      → ((relink d left right).ht_entries ≡ d.ht_entries)
        × ((relink d left right).next_free_entry ≡ u32 (d.next_free_entry + 1))
        × ((relink d left right).free_entries
            ≡ update d.free_entries (u32 (d.next_free_entry + 1)) (d.table_ptr right).index)
  unfolding relink free_centry set_entry
  relink_stack d left right =
      let after = (d.table_ptr right).mnext in
      let linked = set_entry d left (λ e. record e { mnext = after }) in
      let p = (linked.table_ptr left).index in
      let next = set_mprev linked (linked.table_ptr right).mnext p in
      let frame = set_mprev_frame linked (linked.table_ptr right).mnext p in
      let index =
        set_mprev_kept (λ e. e.index) linked (linked.table_ptr right).mnext p (λ x q. refl) right
        ∙ set_entry_kept (λ e. e.index) d left (λ e. record e { mnext = after }) (λ x. refl)
            right in
      let same : (next.ht_entries ≡ d.ht_entries)
          × (next.next_free_entry ≡ d.next_free_entry)
          × (next.free_entries ≡ d.free_entries) =
        (
          ap (λ (x : Cache F). x.ht_entries) frame,
          ap (λ (x : Cache F). x.next_free_entry) frame,
          ap (λ (x : Cache F). x.free_entries) frame,
        ) in
      (
        same.0,
        ap (λ n. u32 (n + 1)) same.1,
        ap (λ a. update a (u32 (next.next_free_entry + 1)) (next.table_ptr right).index) same.2
            ∙ ap (λ n. update d.free_entries (u32 (n + 1)) (next.table_ptr right).index) same.1
            ∙ ap (update d.free_entries (u32 (d.next_free_entry + 1))) index,
      )

  pub relink_tree : (d : Cache F) (left right : ℕ) → (relink d left right).free_idx ≡ d.free_idx
  unfolding relink free_centry set_entry
  relink_tree d left right =
      let linked = set_entry d left (λ p. record p { mnext = (d.table_ptr right).mnext }) in
      ap (λ (x : Cache F). x.free_idx)
        (set_mprev_frame linked (linked.table_ptr right).mnext (linked.table_ptr left).index)

  -- What growing changes: the size of one region.
  pub grow_kind :
      (c : Cache F) (left right i : ℕ)
      → ((grow c left right).table_ptr i).kind ≡ (c.table_ptr i).kind
  unfolding grow
  grow_kind c left right =
      set_entry_kept (λ e. e.kind) c left
        (λ p. set_size p (size_of p + size_of (c.table_ptr right))) (λ x. refl)

  pub grow_index :
      (c : Cache F) (left right i : ℕ)
      → ((grow c left right).table_ptr i).index ≡ (c.table_ptr i).index
  unfolding grow
  grow_index c left right =
      set_entry_kept (λ e. e.index) c left
        (λ p. set_size p (size_of p + size_of (c.table_ptr right))) (λ x. refl)

  pub grow_size :
      (c : Cache F) (left right i : ℕ)
      → i ≢ left
      → size_of ((grow c left right).table_ptr i) ≡ size_of (c.table_ptr i)
  unfolding grow
  grow_size c left right i h =
      ap size_of
        (set_entry_elsewhere c left i (λ p. set_size p (size_of p + size_of (c.table_ptr right))) h)
