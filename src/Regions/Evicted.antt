-- ===== src/Regions/Evicted.antt =====
-- The eviction of an entry by `CMPI_Get`, from its size to the end, on the list of regions.
use cla_mpi.Prelude.{
  sym, ℕ, ◌+◌, ◌^◌, ◌<◌, ◌≡◌, ◌≢◌, refl, Bool, inl, inr, true, false, ◌||◌, ◌&&◌, not, List, negsuc,
  subst, ◌∙◌, ap, Option, none, some, leb, ◌==◌, Bool-cases, eq_of_test, ne_of_test, All-everywhere,
}
use cla_mpi.Cache.{Entry, Cache, size_of, set_size, size_of-set_size, free, busy, u32}
use cla_mpi.HashTable.{ht_remove}
use cla_mpi.Window.{set_entry}
use cla_mpi.Regions.{Merge, set_penalty}
use cla_mpi.Regions.Alike.{Alike, Alike-update, Alike-Kept}
use cla_mpi.Regions.Evict.{update_penalties, choose_region}
use cla_mpi.Regions.Index.{Indexed, Linked, insert_region-Linked}
use cla_mpi.Regions.Join.{merging}
use cla_mpi.Regions.Layout.{extent, Tiled, Layout}
use cla_mpi.Regions.Layout.Change.{Kept, Tiled-Kept}
use cla_mpi.Regions.Links.{set_entry_here, set_entry_elsewhere, update_off, update_on}

-- A change of one descriptor that shows in none of its links.
module _ {F : Type 0} (c : Cache F) (e : ℕ) (f : Entry → Entry) (s r : ℕ → ℕ) (xs : List ℕ)
    (bytes : ℕ) where
  set_entry-Tiled :
      ((f (c.table_ptr e)).mprev ≡ (c.table_ptr e).mprev)
      → ((f (c.table_ptr e)).offset ≡ (c.table_ptr e).offset)
      → ((f (c.table_ptr e)).index ≡ (c.table_ptr e).index)
      → ((f (c.table_ptr e)).mnext ≡ (c.table_ptr e).mnext)
      → ((i : ℕ) → r i ≡ s i)
      → Tiled c.table_ptr s xs bytes
      → Tiled (set_entry c e f).table_ptr r xs bytes
  set_entry-Tiled p o n m z t =
      Tiled-Kept c.table_ptr (set_entry c e f).table_ptr s r xs bytes (All-everywhere _ kept xs) t
    where
      kept : (i : ℕ) → Kept c.table_ptr (set_entry c e f).table_ptr s r i
      kept i = elim (Bool-cases (i == e)) [
        | inl here ↦
            subst (Kept c.table_ptr (set_entry c e f).table_ptr s r) (sym (eq_of_test i e here))
              (record {
                before = ap (λ (x : Entry). x.mprev) (set_entry_here c e f) ∙ p;
                start = ap (λ (x : Entry). x.offset) (set_entry_here c e f) ∙ o;
                named = ap (λ (x : Entry). x.index) (set_entry_here c e f) ∙ n;
                after = ap (λ (x : Entry). x.mnext) (set_entry_here c e f) ∙ m;
                size = z e;
              })
        | inr there ↦
            let same = set_entry_elsewhere c e i f (ne_of_test i e there) in
            record {
              before = ap (λ (x : Entry). x.mprev) same;
              start = ap (λ (x : Entry). x.offset) same;
              named = ap (λ (x : Entry). x.index) same;
              after = ap (λ (x : Entry). x.mnext) same;
              size = z i;
            }
      ]

-- Two functions that agree at one descriptor, and elsewhere.
pub by_cases :
    {A : Type 0} (s r : ℕ → A) (e : ℕ)
    → s e ≡ r e
    → ((i : ℕ) → i ≢ e → s i ≡ r i)
    → (i : ℕ) → s i ≡ r i
by_cases s r e h k i = elim (Bool-cases (i == e)) [
  | inl here ↦ subst (λ j. s j ≡ r j) (sym (eq_of_test i e here)) h
  | inr there ↦ k i (ne_of_test i e there)
]

pub extent_busy : (e : Entry) → e.kind ≡ busy → extent e ≡ e.get_info.size
extent_busy e b = rw b refl

module _ {F : Type 0} where
  -- `victim->size = victim->get_info.size`
  unfoldable pub sized : Cache F → ℕ → Cache F
  sized c victim =
      let counted = record c {
        stat = record c.stat {
          evicted_size = u32 (c.stat.evicted_size + (c.table_ptr victim).get_info.size);
        };
      } in
      set_entry counted victim (λ e. set_size e e.get_info.size)

  pub sized-Tiled :
      (c : Cache F) (victim : ℕ) (xs : List ℕ)
      → (c.table_ptr victim).kind ≡ busy
      → (c.table_ptr victim).get_info.size < 2 ^ 64
      → Layout c xs
      → Tiled (sized c victim).table_ptr (merging (sized c victim).table_ptr victim) xs c.mem_size
  unfolding sized
  sized-Tiled c victim xs b small l =
      let t = c.table_ptr in
      let u = (sized c victim).table_ptr in
      let f : Entry → Entry = λ e. set_size e e.get_info.size in
      let counted = record c {
        stat = record c.stat {
          evicted_size = u32 (c.stat.evicted_size + (t victim).get_info.size);
        };
      } in
      set_entry-Tiled counted victim f (λ i. extent (t i)) (merging u victim) xs c.mem_size refl
        refl refl refl
        (by_cases (merging u victim) (λ i. extent (t i)) victim
          (update_on (λ i. extent (u i)) victim victim (size_of (u victim))
            ∙ ap size_of (set_entry_here counted victim f)
            ∙ size_of-set_size (t victim) (t victim).get_info.size small
            ∙ sym (extent_busy (t victim) b))
          (λ i h.
            update_off (λ i. extent (u i)) victim i (size_of (u victim)) h
            ∙ ap extent (set_entry_elsewhere counted victim i f h)))
        l

  -- `type = FREE`, of a region that has been merged.
  pub freed-Layout :
      (c : Cache F) (region : ℕ) (xs : List ℕ)
      → Tiled c.table_ptr (merging c.table_ptr region) xs c.mem_size
      → Layout (set_entry c region (λ e. record e { kind = free })) xs
  unfolding set_entry
  freed-Layout c region xs l =
      let t = c.table_ptr in
      let f : Entry → Entry = λ e. record e { kind = free } in
      let u = (set_entry c region f).table_ptr in
      set_entry-Tiled c region f (merging t region) (λ i. extent (u i)) xs c.mem_size refl refl refl
        refl
        (by_cases (λ i. extent (u i)) (merging t region) region
          (ap extent (set_entry_here c region f)
            ∙ sym (update_on (λ i. extent (t i)) region region (size_of (t region))))
          (λ i h.
            ap extent (set_entry_elsewhere c region i f h)
            ∙ sym (update_off (λ i. extent (t i)) region i (size_of (t region)) h)))
        l

  Linked-Layout : (c d : Cache F) (e : ℕ) (xs : List ℕ) → Linked c d e → Layout c xs → Layout d xs
  Linked-Layout c d e xs linked l =
      let t = c.table_ptr in
      let alike : (i : ℕ) → Alike (t i) (d.table_ptr i) = λ i.
        subst (λ u. Alike (t i) (u i)) (sym linked.table)
          (Alike-update t e (record (t e) { tnode = some linked.node }) i
            (record {
              before = refl;
              start = refl;
              named = refl;
              after = refl;
              same_extent = refl;
            })) in
      subst (λ n. Tiled d.table_ptr (λ i. extent (d.table_ptr i)) xs n)
        (sym (ap (λ (x : Cache F). x.mem_size) linked.whole))
        (Tiled-Kept t d.table_ptr (λ i. extent (t i)) (λ i. extent (d.table_ptr i)) xs c.mem_size
          (All-everywhere _ (λ i. Alike-Kept t d.table_ptr i (alike i)) xs) l)

  -- Of the descriptors only a link to a node has changed when a region has been put in the tree.
  pub Linked-kept :
      {A : Type 0} (g : Entry → A) (c d : Cache F) (e : ℕ)
      → ((x : Entry) (n : Option ℕ) → g (record x { tnode = n }) ≡ g x)
      → Linked c d e
      → (i : ℕ) → g (d.table_ptr i) ≡ g (c.table_ptr i)
  Linked-kept g c d e same linked =
      let put = record (c.table_ptr e) { tnode = some linked.node } in
      by_cases (λ i. g (d.table_ptr i)) (λ i. g (c.table_ptr i)) e
        (ap (λ (u : ℕ → Entry). g (u e)) linked.table
          ∙ ap g (update_on c.table_ptr e e put)
          ∙ same (c.table_ptr e) (some linked.node))
        (λ i h.
          ap (λ (u : ℕ → Entry). g (u i)) linked.table ∙ ap g (update_off c.table_ptr e i put h))

  pub Linked-kind :
      (c d : Cache F) (e : ℕ) → Linked c d e → (i : ℕ) → (d.table_ptr i).kind ≡ (c.table_ptr i).kind
  Linked-kind c d e = Linked-kept (λ x. x.kind) c d e (λ x n. refl)

  linked_whole :
      (c d : Cache F) (e : ℕ)
      → Linked c d e
      → d ≡ record c { free_idx = d.free_idx; table_ptr = d.table_ptr }
  linked_whole c d e linked =
      linked.whole
      ∙ ap (λ t. record c { free_idx = t; table_ptr = d.table_ptr })
          (sym (ap (λ (x : Cache F). x.free_idx) linked.whole))

  -- A region may be put in the tree.
  pub chosen-Layout :
      (m : Merge F) (selected : Option ℕ) (size : ℕ) (xs : List ℕ)
      → Indexed m.cache
      → Layout m.cache xs
      → (r : Cache F × Option ℕ) × (choose_region m selected size ≡ some r)
        × Layout r.0 xs
        × ((j : ℕ) → (r.0.table_ptr j).kind ≡ (m.cache.table_ptr j).kind)
        × (r.0 ≡ record m.cache { free_idx = r.0.free_idx; table_ptr = r.0.table_ptr })
        × ((j : ℕ) → (r.0.table_ptr j).index ≡ (m.cache.table_ptr j).index)
  unfolding choose_region
  chosen-Layout m selected size xs i l =
      let none_selected : Bool = elim selected [ none ↦ true | some j ↦ false ] in
      elim (Bool-cases
        (none_selected && leb size (size_of (m.cache.table_ptr m.region)) || not m.to_index)) [
          | inl here ↦ ((m.cache, some m.region), rw here refl, l, λ j. refl, refl, λ j. refl)
          | inr there ↦
              let (d, run, linked) = insert_region-Linked m.cache m.region i in
              (
                (d, selected),
                rw there (rw run refl),
                Linked-Layout m.cache d m.region xs linked l,
                Linked-kind m.cache d m.region linked,
                linked_whole m.cache d m.region linked,
                Linked-kept (λ x. x.index) m.cache d m.region (λ x n. refl) linked,
              )
        ]

  -- The penalties and the slot of the entry are no part of the descriptors.
  pub penalties_frame :
      (c : Cache F) (victim : ℕ) (prev next : Option ℕ)
      → update_penalties c victim prev next
        ≡ record c { table = (update_penalties c victim prev next).table }
  unfolding update_penalties set_penalty
  penalties_frame c victim none none = refl
  penalties_frame c victim none (some n) = refl
  penalties_frame c victim (some p) none = refl
  penalties_frame c victim (some p) (some n) = refl

  pub finished-Layout :
      (d : Cache F) (victim : ℕ) (prev next : Option ℕ) (xs : List ℕ)
      → Layout d xs
      → let removed = ht_remove (update_penalties d victim prev next) victim in
        Layout (set_entry removed victim (λ e. record e { pending = negsuc 0 })) xs
  unfolding ht_remove set_entry
  finished-Layout d victim prev next xs l =
      let frame = penalties_frame d victim prev next in
      let c = ht_remove (update_penalties d victim prev next) victim in
      let table : c.table_ptr ≡ d.table_ptr = ap (λ (x : Cache F). x.table_ptr) frame in
      let bytes : c.mem_size ≡ d.mem_size = ap (λ (x : Cache F). x.mem_size) frame in
      let f : Entry → Entry = λ e. record e { pending = negsuc 0 } in
      let u = (set_entry c victim f).table_ptr in
      set_entry-Tiled c victim f (λ i. extent (c.table_ptr i)) (λ i. extent (u i)) xs c.mem_size
        refl refl refl refl
        (by_cases (λ i. extent (u i)) (λ i. extent (c.table_ptr i)) victim
          (ap extent (set_entry_here c victim f))
          (λ i h. ap extent (set_entry_elsewhere c victim i f h)))
        (subst (λ n. Tiled c.table_ptr (λ i. extent (c.table_ptr i)) xs n) (sym bytes)
          (subst (λ t. Tiled t (λ i. extent (t i)) xs d.mem_size) (sym table) l))

  pub finished_kind :
      (d : Cache F) (victim : ℕ) (prev next : Option ℕ) (i : ℕ)
      → let removed = ht_remove (update_penalties d victim prev next) victim in
        ((set_entry removed victim (λ e. record e { pending = negsuc 0 })).table_ptr i).kind
        ≡ (d.table_ptr i).kind
  unfolding ht_remove
  finished_kind d victim prev next =
      let c = ht_remove (update_penalties d victim prev next) victim in
      let f : Entry → Entry = λ e. record e { pending = negsuc 0 } in
      let same = ap (λ (x : Cache F). x.table_ptr) (penalties_frame d victim prev next) in
      by_cases (λ i. ((set_entry c victim f).table_ptr i).kind) (λ i. (d.table_ptr i).kind) victim
        (ap (λ (x : Entry). x.kind) (set_entry_here c victim f)
          ∙ ap (λ (u : ℕ → Entry). (u victim).kind) same)
        (λ i h.
          ap (λ (x : Entry). x.kind) (set_entry_elsewhere c victim i f h)
          ∙ ap (λ (u : ℕ → Entry). (u i).kind) same)
