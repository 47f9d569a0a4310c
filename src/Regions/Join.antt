-- ===== src/Regions/Join.antt =====
-- The merge of an evicted region with a free neighbour, on the list of regions.
use cla_mpi.Prelude.{
  sym, ℕ, ◌+◌, ◌<◌, ◌≡◌, ◌≢◌, ◌^◌, refl, inl, inr, arith, ℤ, pos, subst, ◌∙◌, ap, Option,
  Bool-cases, ◌==◌, eq_of_test, ne_of_test,
}
use cla_mpi.Cache.{Entry, Cache, size_of, set_size, size_of-set_size}
use cla_mpi.Window.{set_entry, free_centry}
use cla_mpi.Regions.{set_mprev}
use cla_mpi.Regions.Layout.{extent}
use cla_mpi.Regions.Layout.Edit.{Absorbed}
use cla_mpi.Regions.Links.{
  set_entry_here, set_entry_elsewhere, set_mprev_here, set_mprev_elsewhere, link_cases, update_off,
  update_on,
}
use cla_mpi.Regions.Split.{sizes}

-- The descriptor is the other one with another link to its node.
abbrev pub Retied : Entry → Entry → Type 0
Retied x y = y ≡ record x { tnode = y.tnode }

-- The sizes while `a` is merged: what is in its `size` is its size, whatever its type.
abbrev pub merging : (ℕ → Entry) → ℕ → ℕ → ℕ
merging t a = sizes t a (size_of (t a))

module _ {F : Type 0} where
  -- The steps after the change of the tree.
  unfoldable pub relink : Cache F → ℕ → ℕ → Cache F
  relink d left right =
      let linked = set_entry d left (λ p. record p { mnext = (d.table_ptr right).mnext }) in
      let next_linked =
        set_mprev linked (linked.table_ptr right).mnext (linked.table_ptr left).index in
      free_centry next_linked right

  -- The larger size is written in the descriptor of `left`.
  unfoldable pub grow : Cache F → ℕ → ℕ → Cache F
  grow c left right = set_entry c left (λ p. set_size p (size_of p + size_of (c.table_ptr right)))

  module _ (c d : Cache F) (left right : ℕ) (apart : left ≢ right)
      (tied : (i : ℕ) → Retied ((grow c left right).table_ptr i) (d.table_ptr i)) where
    grown_left :
        d.table_ptr left
        ≡ record (set_size
            (c.table_ptr left)
            (size_of (c.table_ptr left) + size_of (c.table_ptr right))) {
              tnode = (d.table_ptr left).tnode;
            }
    unfolding grow
    grown_left =
        tied left
        ∙ ap (λ (e : Entry). record e { tnode = (d.table_ptr left).tnode })
            (set_entry_here c left (λ p. set_size p (size_of p + size_of (c.table_ptr right))))

    grown_other : (i : ℕ) → i ≢ left → Retied (c.table_ptr i) (d.table_ptr i)
    unfolding grow
    grown_other i h =
        tied i
        ∙ ap (λ (e : Entry). record e { tnode = (d.table_ptr i).tnode })
            (set_entry_elsewhere c left i _ h)

    abbrev linked : Cache F
    linked = set_entry d left (λ p. record p { mnext = (d.table_ptr right).mnext })

    linked_left :
        linked.table_ptr left ≡ record (d.table_ptr left) { mnext = (d.table_ptr right).mnext }
    linked_left = set_entry_here d left (λ p. record p { mnext = (d.table_ptr right).mnext })

    linked_other : (i : ℕ) → i ≢ left → linked.table_ptr i ≡ d.table_ptr i
    linked_other i h = set_entry_elsewhere d left i _ h

    next_right : (linked.table_ptr right).mnext ≡ (c.table_ptr right).mnext
    next_right =
        ap (λ (e : Entry). e.mnext) (linked_other right (λ e. apart (sym e)))
        ∙ ap (λ (e : Entry). e.mnext) (grown_other right (λ e. apart (sym e)))

    index_left : (linked.table_ptr left).index ≡ (c.table_ptr left).index
    index_left = ap (λ (e : Entry). e.index) linked_left ∙ ap (λ (e : Entry). e.index) grown_left

    -- The descriptor behind the right one, and any other but the left one.
    relink_behind :
        (i : ℕ)
        → i ≢ left
        → (c.table_ptr right).mnext ≡ pos i
        → (relink d left right).table_ptr i ≡ record (c.table_ptr i) {
          tnode = (d.table_ptr i).tnode;
          mprev = pos (c.table_ptr left).index;
        }
    unfolding relink free_centry
    relink_behind i h e =
        set_mprev_here linked (linked.table_ptr right).mnext i (linked.table_ptr left).index
          (next_right ∙ e)
        ∙ ap (λ (x : Entry). record x { mprev = pos (linked.table_ptr left).index })
            (linked_other i h ∙ grown_other i h)
        ∙ ap (λ n. record (c.table_ptr i) { tnode = (d.table_ptr i).tnode; mprev = pos n })
            index_left

    relink_elsewhere :
        (i : ℕ)
        → (c.table_ptr right).mnext ≢ pos i
        → (relink d left right).table_ptr i ≡ linked.table_ptr i
    unfolding relink free_centry
    relink_elsewhere i e =
        set_mprev_elsewhere linked (linked.table_ptr right).mnext i (linked.table_ptr left).index
          (λ f. e (sym next_right ∙ f))

    relink_other :
        (i : ℕ)
        → i ≢ left
        → (c.table_ptr right).mnext ≢ pos i
        → (relink d left right).table_ptr i
          ≡ record (c.table_ptr i) { tnode = (d.table_ptr i).tnode }
    relink_other i h e = relink_elsewhere i e ∙ linked_other i h ∙ grown_other i h

    -- Of any other descriptor than the left one, only the link to the one before it has changed.
    relink_kept :
        {A : Type 0} (g : Entry → A)
        → ((x : Entry) (n : Option ℕ) (p : ℤ) → g (record x { tnode = n; mprev = p }) ≡ g x)
        → (i : ℕ) → i ≢ left
        → g ((relink d left right).table_ptr i) ≡ g (c.table_ptr i)
    relink_kept g v i h = elim (link_cases (c.table_ptr right).mnext i) [
      | inl e ↦
          ap g (relink_behind i h e)
          ∙ v (c.table_ptr i) (d.table_ptr i).tnode (pos (c.table_ptr left).index)
      | inr e ↦
          ap g (relink_other i h e) ∙ v (c.table_ptr i) (d.table_ptr i).tnode (c.table_ptr i).mprev
    ]

    relink_left :
        (c.table_ptr right).mnext ≢ pos left
        → (relink d left right).table_ptr left
          ≡ record (set_size
              (c.table_ptr left)
              (size_of (c.table_ptr left) + size_of (c.table_ptr right))) {
                tnode = (d.table_ptr left).tnode;
                mnext = (c.table_ptr right).mnext;
              }
    relink_left e =
        relink_elsewhere left e
        ∙ linked_left
        ∙ ap (λ (x : Entry). record x { mnext = (d.table_ptr right).mnext }) grown_left
        ∙ ap
            (λ (y : Entry).
              record (set_size (c.table_ptr left)
                (size_of (c.table_ptr left) + size_of (c.table_ptr right))) {
                  tnode = (d.table_ptr left).tnode;
                  mnext = y.mnext;
                })
            (grown_other right (λ f. apart (sym f)))

    pub relink-Absorbed :
        (s : ℕ → ℕ)
        → s left ≡ size_of (c.table_ptr left)
        → s right ≡ size_of (c.table_ptr right)
        → ((i : ℕ) → i ≢ left → i ≢ right → s i ≡ extent (c.table_ptr i))
        → size_of (c.table_ptr left) + size_of (c.table_ptr right) < 2 ^ 64
        → (c.table_ptr left).index ≡ left
        → (c.table_ptr right).mnext ≢ pos left
        → let u = (relink d left right).table_ptr in
          Absorbed c.table_ptr u s (merging u left) left right
    relink-Absorbed s sl sr so b named e =
        let u = (relink d left right).table_ptr in
        let l = relink_left e in
        record {
          stays = record {
            before = ap (λ (x : Entry). x.mprev) l;
            start = ap (λ (x : Entry). x.offset) l;
            named = ap (λ (x : Entry). x.index) l ∙ named;
            after = ap (λ (x : Entry). x.mnext) l;
          };
          grown = omega (
            arith,
            sl,
            sr,
            update_on (λ i. extent (u i)) left left (size_of (u left)),
            ap size_of l,
            size_of-set_size (c.table_ptr left)
                (size_of (c.table_ptr left) + size_of (c.table_ptr right)) b,
          );
          behind = λ i h f. ap (λ (x : Entry). x.mprev) (relink_behind i h f) ∙ ap pos named;
          before = λ i h f. ap (λ (x : Entry). x.mprev) (relink_other i h f);
          start = relink_kept (λ x. x.offset) (λ x n p. refl);
          named = λ i. elim (Bool-cases (i == left)) [
            | inl here ↦
                subst (λ j. (u j).index ≡ (c.table_ptr j).index) (sym (eq_of_test i left here))
                  (ap (λ (x : Entry). x.index) l)
            | inr there ↦ relink_kept (λ x. x.index) (λ x n p. refl) i (ne_of_test i left there)
          ];
          after = relink_kept (λ x. x.mnext) (λ x n p. refl);
          size = λ i h k.
              update_off (λ i. extent (u i)) left i (size_of (u left)) h
              ∙ relink_kept extent (λ x n p. refl) i h
              ∙ sym (so i h k);
        }
