-- ===== src/Regions/Merged.antt =====
-- The merge of an evicted region with its free neighbours: the code, on the list of regions.
use cla_mpi.Prelude.{
  sym, ℕ, ◌<◌, ◌≡◌, ◌≢◌, ◌⊎◌, ◌^◌, refl, inl, inr, List, ◌∷◌, ◌++◌, arith, ◌∙◌, ap, Option, some,
  true, Bool-cases, ◌==◌, eq_of_test, if◌then◌else◌,
}
use cla_mpi.Avl.{IsAvl}
use cla_mpi.Avl.Pool.{IsCounted}
use cla_mpi.Avl.Delete.{item_at}
use cla_mpi.Cache.{Entry, Cache, size_of, free, no_entry}
use cla_mpi.Window.{set_entry, free_centry}
use cla_mpi.Regions.{is_region, delete_region}
use cla_mpi.Regions.Index.{delete_region-Unlinked}
use cla_mpi.Regions.Join.{Retied, merging, relink, grow, relink-Absorbed}
use cla_mpi.Regions.Layout.{extent, Tiled, first-Absent, no_entry_region}
use cla_mpi.Regions.Layout.Cut.{Tiled-Cut}
use cla_mpi.Regions.Layout.Edit.{Tiled-Absorbed}
use cla_mpi.Regions.Links.{update_off, set_mprev_frame}

module _ {F : Type 0} where
  -- A free region that is the selected one, or in the tree at the node that it is linked to.
  pub record Findable (c : Cache F) (selected : Option ℕ) (e : ℕ) : Type 0 where
    pub node : ℕ
    pub tied : (c.table_ptr e).tnode ≡ some node
    pub is_free : (c.table_ptr e).kind ≡ free
    pub held : (is_region selected e ≡ true) ⊎ (item_at node c.free_idx.root ≡ some e)
    pub balanced : IsAvl c.free_idx.root
    pub counted : IsCounted c.free_idx

  -- The region leaves the tree, unless it is the selected one, which has left it.
  abbrev pub unindexed : Cache F → ℕ → Option ℕ → Option (Cache F)
  unindexed g e selected = if is_region selected e then some g else delete_region g e

  pub unindexed-Retied :
      (g : Cache F) (e : ℕ) (selected : Option ℕ)
      → Findable g selected e
      → (d : Cache F) × (unindexed g e selected ≡ some d)
        × ((i : ℕ) → Retied (g.table_ptr i) (d.table_ptr i))
        × (d.mem_size ≡ g.mem_size)
  unindexed-Retied g e selected f = elim (Bool-cases (is_region selected e)) [
    | inl mine ↦ (g, rw mine refl, λ i. refl, refl)
    | inr other ↦ elim f.held [
      | inl mine ↦ cc
      | inr at ↦
          let (d, found, u) = delete_region-Unlinked g e f.node f.tied at f.balanced f.counted in
          (d, rw other found, u.table, ap (λ (x : Cache F). x.mem_size) u.whole)
    ]
  ]

  grown_entry :
      (c : Cache F) (left right i : ℕ)
      → (grow c left right).table_ptr i
        ≡ record (c.table_ptr i) { get_info = ((grow c left right).table_ptr i).get_info }
  unfolding grow set_entry
  grown_entry c left right i = elim (Bool-cases (i == left)) [
    | inl here ↦ let same = eq_of_test i left here in ground (arith, same)
    | inr there ↦ rw there refl
  ]

  pub grow-Findable :
      (c : Cache F) (left right e : ℕ) (selected : Option ℕ)
      → Findable c selected e
      → Findable (grow c left right) selected e
  unfolding grow set_entry
  grow-Findable c left right e selected f = record {
    node = f.node;
    tied = ap (λ (x : Entry). x.tnode) (grown_entry c left right e) ∙ f.tied;
    is_free = ap (λ (x : Entry). x.kind) (grown_entry c left right e) ∙ f.is_free;
    held = f.held;
    balanced = f.balanced;
    counted = f.counted;
  }

  pub relink_mem_size : (d : Cache F) (left right : ℕ) → (relink d left right).mem_size ≡ d.mem_size
  unfolding relink free_centry set_entry
  relink_mem_size d left right =
      let linked = set_entry d left (λ p. record p { mnext = (d.table_ptr right).mnext }) in
      ap (λ (x : Cache F). x.mem_size)
        (set_mprev_frame linked (linked.table_ptr right).mnext (linked.table_ptr left).index)

  pub grow_mem_size : (c : Cache F) (left right : ℕ) → (grow c left right).mem_size ≡ c.mem_size
  unfolding grow set_entry
  grow_mem_size c left right = refl

  -- One region takes over the bytes of the one behind it.
  module _ (c : Cache F) (merged left right : ℕ) (xs ys : List ℕ)
      (l : Tiled c.table_ptr (merging c.table_ptr merged) (xs ++ left ∷ right ∷ ys) c.mem_size)
      (small : c.mem_size < 2 ^ 64)
      (sl : merging c.table_ptr merged left ≡ size_of (c.table_ptr left))
      (sr : merging c.table_ptr merged right ≡ size_of (c.table_ptr right))
      (one : (merged ≡ left) ⊎ (merged ≡ right)) where
    pub joined :
        (d : Cache F)
        → ((i : ℕ) → Retied ((grow c left right).table_ptr i) (d.table_ptr i))
        → let u = (relink d left right).table_ptr in
          Tiled u (merging u left) (xs ++ left ∷ ys) c.mem_size
    joined d tied =
        let s = merging c.table_ptr merged in
        let u = (relink d left right).table_ptr in
        let cut = Tiled-Cut c.table_ptr s xs left (right ∷ ys) c.mem_size l in
        let off : (i : ℕ) → i ≢ left → i ≢ right → i ≢ merged =
          λ i h k e. elim one [ inl f ↦ h (e ∙ f) | inr f ↦ k (e ∙ f) ] in
        let apart : left ≢ right = λ e. cut.off_right.0 (sym e) in
        Tiled-Absorbed c.table_ptr u s (merging u left) left right c.mem_size xs ys
          (relink-Absorbed c d left right apart tied s sl sr
            (λ i h k.
              update_off (λ j. extent (c.table_ptr j)) merged i (size_of (c.table_ptr merged))
                (off i h k))
            (omega (arith, cut.filled, sl, sr, small)) cut.here.named
            (λ e.
              first-Absent left ys no_entry (no_entry_region left) cut.off_right.1
                (sym cut.right.0.after ∙ e)))
          l
