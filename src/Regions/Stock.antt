-- ===== src/Regions/Stock.antt =====
-- src/clampi_internal.h: the stack of descriptors that are not in use, `NEW_CENTRY` and `FREE_CENTRY`.
-- Each descriptor of the table is in the list of regions or on the stack, and there once only.
use cla_mpi.Prelude.{
  refl, ℕ, suc, ◌+◌, ◌-◌, ◌*◌, ◌<◌, ◌^◌, ◌≡◌, ap, ◌∙◌, List, [], ◌∷◌, ◌++◌, arith, same, count,
  count-append, length, length-append, ltb, if◌then◌else◌, update,
}
use cla_mpi.Avl.Stack.{stack, stack-update}
use cla_mpi.Cache.{Cache, u32}
use cla_mpi.Window.{new_centry}

-- The number of descriptors on the stack whose top is at an index, which is 2^32 - 1 when it is empty.
abbrev pub stocked : ℕ → ℕ
stocked next = u32 (next + 1)

module _ {F : Type 0} where
  pub record Stocked (c : Cache F) (xs : List ℕ) : Type 0 where
    pub each :
        (e : ℕ)
        → count e xs + count e (stack c.free_entries (stocked c.next_free_entry))
          ≡ (if ltb e (c.ht_entries * 2) then 1 else 0)
    pub filled : length xs + stocked c.next_free_entry ≡ c.ht_entries * 2
    pub few : c.ht_entries < 2 ^ 31
    pub narrow : c.next_free_entry < 2 ^ 32
    pub named : (e : ℕ) → e < c.ht_entries * 2 → (c.table_ptr e).index ≡ e

  -- A region that leaves the list is put on the stack.
  pub Stocked-pushed :
      (c d : Cache F) (xs ys : List ℕ) (left right : ℕ)
      → d.ht_entries ≡ c.ht_entries
      → d.next_free_entry ≡ u32 (c.next_free_entry + 1)
      → d.free_entries ≡ update c.free_entries (u32 (c.next_free_entry + 1)) right
      → ((i : ℕ) → (d.table_ptr i).index ≡ (c.table_ptr i).index)
      → Stocked c (xs ++ (left ∷ (right ∷ ys)))
      → Stocked d (xs ++ (left ∷ ys))
  Stocked-pushed c d xs ys left right same_n next entries indices s =
      let top = u32 (c.next_free_entry + 1) in
      let long = length-append xs (left ∷ (right ∷ ys)) in
      let short = length-append xs (left ∷ ys) in
      let up : u32 (top + 1) ≡ suc top = omega (arith, s.filled, s.few, long) in
      let on_top : update c.free_entries top right top ≡ right = ground arith in
      let below = stack-update c.free_entries top right top (omega arith) in
      record {
        each = λ e.
            let stacked =
              ap (λ n. count e (stack d.free_entries (u32 (n + 1)))) next
              ∙ ap (λ a. count e (stack a (u32 (top + 1)))) entries
              ∙ ap (λ n. count e (stack (update c.free_entries top right) n)) up in
            omega (
              arith,
              stacked,
              ap (same e) on_top,
              ap (count e) below,
              s.each e,
              ap {B = ℕ} (λ n. if ltb e (n * 2) then 1 else 0) same_n,
              count-append e xs (left ∷ (right ∷ ys)),
              count-append e xs (left ∷ ys),
            );
        filled = omega (arith, same_n, ap (λ n. u32 (n + 1)) next, up, long, short, s.filled);
        few = omega (arith, same_n, s.few);
        narrow = omega (arith, next);
        named = λ e h. indices e ∙ s.named e (omega (arith, same_n, h));
      }

  pub Stocked-same :
      (c d : Cache F) (xs : List ℕ)
      → d.ht_entries ≡ c.ht_entries
      → d.next_free_entry ≡ c.next_free_entry
      → d.free_entries ≡ c.free_entries
      → ((i : ℕ) → (d.table_ptr i).index ≡ (c.table_ptr i).index)
      → Stocked c xs
      → Stocked d xs
  Stocked-same c d xs n next entries indices s =
      let stacks =
        ap (λ k. stack d.free_entries (stocked k)) next
        ∙ ap (λ a. stack a (stocked c.next_free_entry)) entries in
      record {
        each = λ e. omega (
          arith,
          ap (count e) stacks,
          s.each e,
          ap {B = ℕ} (λ k. if ltb e (k * 2) then 1 else 0) n,
        );
        filled = omega (arith, n, ap (λ k. stocked k) next, s.filled);
        few = omega (arith, n, s.few);
        narrow = omega (arith, next, s.narrow);
        named = λ e h. indices e ∙ s.named e (omega (arith, n, h));
      }

  -- There is a descriptor left.
  abbrev pub Spare : Cache F → List ℕ → Type 0
  Spare c xs = length xs < c.ht_entries * 2

  -- The descriptor that `NEW_CENTRY` takes off the stack.
  abbrev pub top_entry : Cache F → ℕ
  top_entry c = c.free_entries c.next_free_entry

  top_next :
      (c : Cache F) (xs : List ℕ)
      → Stocked c xs
      → Spare c xs
      → stocked c.next_free_entry ≡ suc c.next_free_entry
  top_next c xs s h = omega (arith, s.filled, s.narrow, h)

  top_count :
      (c : Cache F) (xs : List ℕ) (e : ℕ)
      → Stocked c xs
      → Spare c xs
      → count e (stack c.free_entries (stocked c.next_free_entry))
        ≡ same e (top_entry c) + count e (stack c.free_entries c.next_free_entry)
  top_count c xs e s h = ap (λ n. count e (stack c.free_entries n)) (top_next c xs s h)

  -- It is a descriptor of the table that is in no region.
  pub top_entry-Absent :
      (c : Cache F) (xs : List ℕ)
      → Stocked c xs
      → Spare c xs
      → (count (top_entry c) xs ≡ 0) × (top_entry c < c.ht_entries * 2)
  top_entry-Absent c xs s h =
      let new = top_entry c in
      let self : same new new ≡ 1 = ground arith in
      let top = top_count c xs new s h in
      (ground (arith, s.each new, top, self), ground (arith, s.each new, top, self))

  -- A descriptor that is taken off the stack is in the list.
  pub Stocked-popped :
      (c d : Cache F) (xs ys : List ℕ) (region : ℕ)
      → d.ht_entries ≡ c.ht_entries
      → d.next_free_entry ≡ u32 (c.next_free_entry + 2 ^ 32 - 1)
      → d.free_entries ≡ c.free_entries
      → ((i : ℕ) → (d.table_ptr i).index ≡ (c.table_ptr i).index)
      → Spare c (xs ++ (region ∷ ys))
      → Stocked c (xs ++ (region ∷ ys))
      → Stocked d (xs ++ (top_entry c ∷ (region ∷ ys)))
  Stocked-popped c d xs ys region same_n next entries indices spare s =
      let new = top_entry c in
      let long = length-append xs (new ∷ (region ∷ ys)) in
      let short = length-append xs (region ∷ ys) in
      let was = top_next c (xs ++ (region ∷ ys)) s spare in
      let down : stocked d.next_free_entry ≡ c.next_free_entry = omega (arith, next, s.narrow) in
      record {
        each = λ e.
            let stacked =
              ap (λ n. count e (stack d.free_entries n)) down
              ∙ ap (λ a. count e (stack a c.next_free_entry)) entries in
            omega (
              arith,
              stacked,
              top_count c (xs ++ (region ∷ ys)) e s spare,
              s.each e,
              ap {B = ℕ} (λ n. if ltb e (n * 2) then 1 else 0) same_n,
              count-append e xs (new ∷ (region ∷ ys)),
              count-append e xs (region ∷ ys),
            );
        filled = omega (arith, same_n, down, was, long, short, s.filled);
        few = omega (arith, same_n, s.few);
        narrow = omega (arith, next);
        named = λ e h. indices e ∙ s.named e (omega (arith, same_n, h));
      }

  -- Where each descriptor is once in a list of regions that is not empty or once on the stack, and
  -- one is on the stack: the descriptor that `NEW_CENTRY` takes is in no region of the list, and
  -- the same holds after it for the list with this descriptor in front.
  pub new_centry-Stocked :
      (c : Cache F) (region : ℕ) (ys : List ℕ)
      → Spare c (region ∷ ys)
      → Stocked c (region ∷ ys)
      → (count (new_centry c).0 (region ∷ ys) ≡ 0)
        × Stocked (new_centry c).1 ((new_centry c).0 ∷ (region ∷ ys))
  unfolding new_centry
  new_centry-Stocked c region ys spare s = (
    (top_entry-Absent c (region ∷ ys) s spare).0,
    Stocked-popped c (new_centry c).1 [] ys region refl refl refl (λ i. refl) spare s,
  )
