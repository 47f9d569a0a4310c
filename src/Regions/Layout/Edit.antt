-- ===== src/Regions/Layout/Edit.antt =====
-- The two edits of the list of regions: one is split in two, and two neighbours become one.
use cla_mpi.Prelude.{
  sym, ℕ, ◌+◌, ◌≡◌, ◌≢◌, refl, List, [], ◌∷◌, ◌++◌, arith, ℤ, pos, All, subst, ◌∙◌, All-mono,
  All-zip, All-everywhere, All-append_left, All-append_right,
}
use cla_mpi.Cache.{Entry, no_entry}
use cla_mpi.Regions.Layout.{
  first, last, total, Absent, Distinct, Sits, Chain, Tiled, last-Absent, pos-injective,
  no_entry_region,
}
use cla_mpi.Regions.Layout.Cut.{Cut, Tiled-Cut, Cut-Tiled}
use cla_mpi.Regions.Layout.Change.{Kept, Redirected, Chain-Kept, Chain-Redirected, total-Kept}

-- Of all descriptors but two, a fact that the others have is one of each of a list without them.
module _ (P : ℕ → Type 0) (a b : ℕ) (h : (i : ℕ) → i ≢ a → i ≢ b → P i) where
  others : (xs : List ℕ) → Absent a xs → Absent b xs → All P xs
  others xs f g =
      All-mono (λ i. (i ≢ a) × (i ≢ b)) P (λ i k. h i k.0 k.1) xs
        (All-zip (λ i. i ≢ a) (λ i. i ≢ b) xs f g)

-- The descriptor `new` takes `size` bytes from the left of `region`.
pub record Divided (t u : ℕ → Entry) (s r : ℕ → ℕ) (new region size : ℕ) : Type 0 where
  pub placed : Sits u new (t region).mprev (t region).offset (pos region)
  pub taken : r new ≡ size
  pub moved : Sits u region (pos new) ((t region).offset + size) (t region).mnext
  pub left_over : r region + size ≡ s region
  pub others_kept : (i : ℕ) → i ≢ new → i ≢ region → Redirected t u s r (t region).mprev (pos new) i

-- `left` takes over the bytes of `right`, which is behind it.
pub record Absorbed (t u : ℕ → Entry) (s r : ℕ → ℕ) (left right : ℕ) : Type 0 where
  pub stays : Sits u left (t left).mprev (t left).offset (t right).mnext
  pub grown : r left ≡ s left + s right
  pub behind : (i : ℕ) → i ≢ left → (t right).mnext ≡ pos i → (u i).mprev ≡ pos left
  pub before : (i : ℕ) → i ≢ left → (t right).mnext ≢ pos i → (u i).mprev ≡ (t i).mprev
  pub start : (i : ℕ) → i ≢ left → (u i).offset ≡ (t i).offset
  pub named : (i : ℕ) → (u i).index ≡ (t i).index
  pub after : (i : ℕ) → i ≢ left → (u i).mnext ≡ (t i).mnext
  pub size : (i : ℕ) → i ≢ left → i ≢ right → r i ≡ s i

first_across :
    (xs ys : List ℕ) → All (λ y. Absent y xs) ys → All (λ i. first ys no_entry ≢ pos i) xs
first_across xs [] h = All-everywhere (λ i. no_entry ≢ pos i) no_entry_region xs
first_across xs (y ∷ ys) h =
    All-mono (λ i. i ≢ y) (λ i. pos y ≢ pos i) (λ i k e. k (sym (pos-injective e))) xs h.0

module _ (t u : ℕ → Entry) (s r : ℕ → ℕ) where
  Redirected-Kept : (q m : ℤ) (x : ℕ) → q ≢ pos x → Redirected t u s r q m x → Kept t u s r x
  Redirected-Kept q m x e k = record {
    before = k.before;
    start = k.start;
    named = k.named;
    after = k.elsewhere e;
    size = k.size;
  }

  total_same : (xs : List ℕ) → All (λ i. r i ≡ s i) xs → total r xs ≡ total s xs
  total_same [] k = refl
  total_same (x ∷ xs) k = omega (arith, k.0, total_same xs k.1)

  Redirected-size :
      (q m : ℤ) (xs : List ℕ) → All (Redirected t u s r q m) xs → total r xs ≡ total s xs
  Redirected-size q m [] k = refl
  Redirected-size q m (x ∷ xs) k = omega (arith, k.0.size, Redirected-size q m xs k.1)

  module _ (new region size bytes : ℕ) (xs ys : List ℕ) where
    Cut-Divided :
        Divided t u s r new region size
        → Absent new xs
        → region ≢ new
        → Absent new ys
        → Cut t s xs region ys bytes
        → Cut u r xs new (region ∷ ys) bytes
    Cut-Divided v a e b c =
        let q = last no_entry xs in
        let kept : (i : ℕ) → i ≢ new → i ≢ region → Redirected t u s r q (pos new) i =
          subst (λ p. (i : ℕ) → i ≢ new → i ≢ region → Redirected t u s r p (pos new) i)
            c.here.before v.others_kept in
        let lefts = others (Redirected t u s r q (pos new)) new region kept xs a c.off_left in
        let rights =
          All-mono (λ i. Absent i xs × Redirected t u s r q (pos new) i) (Kept t u s r)
            (λ i k.
              Redirected-Kept q (pos new) i (last-Absent i no_entry xs (no_entry_region i) k.0) k.1)
            ys
            (All-zip (λ i. Absent i xs) (Redirected t u s r q (pos new)) ys c.across
              (others (Redirected t u s r q (pos new)) new region kept ys b c.off_right)) in
        let same_left = Redirected-size q (pos new) xs lefts in
        let same_right = total-Kept t u s r ys rights in
        record {
          left = Chain-Redirected t u s r (pos new) no_entry 0 xs (pos region) c.lefts lefts c.left;
          here = record {
            before = v.placed.before ∙ c.here.before;
            start = omega (arith, v.placed.start, c.here.start, same_left);
            named = v.placed.named;
            after = v.placed.after;
          };
          right = (
            record {
              before = v.moved.before;
              start = omega (arith, v.moved.start, c.here.start, same_left, v.taken);
              named = v.moved.named;
              after = v.moved.after ∙ c.here.after;
            },
            subst (λ o. Chain u r (pos region) o ys no_entry)
                (omega (arith, same_left, v.taken, v.left_over))
                (Chain-Kept t u s r (pos region) (total s xs + s region) ys no_entry rights
                  c.right),
          );
          lefts = c.lefts;
          rights = (c.off_right, c.rights);
          off_left = a;
          off_right = (e, b);
          across = (c.off_left, c.across);
          filled = omega (arith, same_left, same_right, v.taken, v.left_over, c.filled);
        }

    pub Tiled-Divided :
        Divided t u s r new region size
        → Absent new (xs ++ region ∷ ys)
        → Tiled t s (xs ++ region ∷ ys) bytes
        → Tiled u r (xs ++ new ∷ region ∷ ys) bytes
    Tiled-Divided v a h =
        let b = All-append_right (λ y. y ≢ new) xs (region ∷ ys) a in
        Cut-Tiled u r xs new (region ∷ ys) bytes (
          Cut-Divided v (All-append_left (λ y. y ≢ new) xs (region ∷ ys) a) b.0 b.1
            (Tiled-Cut t s xs region ys bytes h))

  module _ (left right bytes : ℕ) (xs ys : List ℕ) where
    Absorbed-Kept :
        Absorbed t u s r left right
        → (i : ℕ) → i ≢ left
        → i ≢ right
        → (t right).mnext ≢ pos i
        → Kept t u s r i
    Absorbed-Kept b i e f g = record {
      before = b.before i e g;
      start = b.start i e;
      named = b.named i;
      after = b.after i e;
      size = b.size i e f;
    }

    -- The first one behind `right` is linked to `left`, the others are as they were.
    Chain-Absorbed :
        Absorbed t u s r left right
        → (o : ℕ) (zs : List ℕ) → (t right).mnext ≡ first zs no_entry
        → Absent left zs
        → Absent right zs
        → Distinct zs
        → Chain t s (pos right) o zs no_entry
        → Chain u r (pos left) o zs no_entry
    Chain-Absorbed b o [] e f g d h = tt
    Chain-Absorbed b o (z ∷ zs) e f g d h =
        let same = b.size z f.0 g.0 in
        let kept : (i : ℕ) → i ≢ z → (i ≢ left) × (i ≢ right) → Kept t u s r i =
          λ i k n. Absorbed-Kept b i n.0 n.1 (λ w. k (sym (pos-injective (sym e ∙ w)))) in
        (
          record {
            before = b.behind z f.0 e;
            start = b.start z f.0 ∙ h.0.start;
            named = b.named z ∙ h.0.named;
            after = b.after z f.0 ∙ h.0.after;
          },
          subst (λ m. Chain u r (pos z) m zs no_entry) (omega (arith, same))
              (Chain-Kept t u s r (pos z) (o + s z) zs no_entry
                (All-mono (λ i. (i ≢ z) × ((i ≢ left) × (i ≢ right))) (Kept t u s r)
                  (λ i k. kept i k.0 k.1) zs
                  (All-zip (λ i. i ≢ z) (λ i. (i ≢ left) × (i ≢ right)) zs d.0
                    (All-zip (λ i. i ≢ left) (λ i. i ≢ right) zs f.1 g.1)))
                h.1),
        )

    Cut-Absorbed :
        Absorbed t u s r left right → Cut t s xs left (right ∷ ys) bytes → Cut u r xs left ys bytes
    Cut-Absorbed b c =
        let next = c.right.0.after in
        let lefts =
          All-mono (λ i. (first ys no_entry ≢ pos i) × ((i ≢ left) × (i ≢ right))) (Kept t u s r)
            (λ i k. Absorbed-Kept b i k.1.0 k.1.1 (λ w. k.0 (sym next ∙ w))) xs
            (All-zip (λ i. first ys no_entry ≢ pos i) (λ i. (i ≢ left) × (i ≢ right)) xs
              (first_across xs ys c.across.1)
              (All-zip (λ i. i ≢ left) (λ i. i ≢ right) xs c.off_left c.across.0)) in
        let rights = others (λ i. r i ≡ s i) left right b.size ys c.off_right.1 c.rights.0 in
        let same_left = total-Kept t u s r xs lefts in
        let same_right = total_same ys rights in
        record {
          left = Chain-Kept t u s r no_entry 0 xs (pos left) lefts c.left;
          here = record {
            before = b.stays.before ∙ c.here.before;
            start = omega (arith, b.stays.start, c.here.start, same_left);
            named = b.stays.named;
            after = b.stays.after ∙ next;
          };
          right =
              subst (λ o. Chain u r (pos left) o ys no_entry) (omega (arith, same_left, b.grown))
                (Chain-Absorbed b (total s xs + s left + s right) ys next c.off_right.1 c.rights.0
                  c.rights.1 c.right.1);
          lefts = c.lefts;
          rights = c.rights.1;
          off_left = c.off_left;
          off_right = c.off_right.1;
          across = c.across.1;
          filled = omega (arith, same_left, same_right, b.grown, c.filled);
        }

    pub Tiled-Absorbed :
        Absorbed t u s r left right
        → Tiled t s (xs ++ left ∷ right ∷ ys) bytes
        → Tiled u r (xs ++ left ∷ ys) bytes
    Tiled-Absorbed b h =
        Cut-Tiled u r xs left ys bytes (Cut-Absorbed b (Tiled-Cut t s xs left (right ∷ ys) bytes h))
