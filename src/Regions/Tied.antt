-- ===== src/Regions/Tied.antt =====
-- The tree of free regions and the descriptors: the node of a region is the one that its descriptor
-- is linked to, so that a region in the tree is found there.
use cla_mpi.Prelude.{
  ℕ, ◌+◌, ◌≤◌, ◌≡◌, ◌≢◌, ◌⊎◌, refl, sym, ap, ◌∙◌, subst, inl, inr, true, false, Option, none, some,
  List, [], ◌∷◌, ◌++◌, arith, same, count, tally, tally-append, ◌==◌, Bool-cases, All, All-append,
  All-append_left, All-append_right, eq_of_test,
}
use cla_mpi.Avl.{Tree, leaf, node, inorder}
use cla_mpi.Avl.Pool.{AvlTree}
use cla_mpi.Avl.Delete.{item_at}
use cla_mpi.Avl.Cells.{cells, indices, tally-visit, Unseated}
use cla_mpi.Avl.Handles.{Pooled}
use cla_mpi.Cache.{Entry}
use cla_mpi.Window.{free_entry_replace}

item_at-none : (k : ℕ) (t : Tree ℕ) → count k (indices t) ≡ 0 → item_at k t ≡ none
unfolding item_at
item_at-none k leaf h = refl
item_at-none k (node i x b l r) h =
    let split = tally-append (same k) (indices l) (i ∷ indices r) in
    let here : (i == k) ≡ false = ground (arith, split, h) in
    let on_left = item_at-none k l (omega (arith, split, h)) in
    let on_right = item_at-none k r (omega (arith, split, h)) in rw (here, on_left, on_right) refl

le_cases : (n : ℕ) → (1 ≤ n) ⊎ (n ≡ 0)
le_cases n = omega arith

-- A value that is in a tree of which each index stands once is at a node of the tree.
pub seat :
    (P : ℕ × ℕ → Type 0) (e : ℕ) (t : Tree ℕ)
    → All P (cells t)
    → ((m : ℕ) → count m (indices t) ≤ 1)
    → 1 ≤ count e (inorder t)
    → (k : ℕ) × P (k, e) × (item_at k t ≡ some e) × (1 ≤ count k (indices t))
unfolding item_at
seat P e leaf ps once h = absurd (omega (arith, h))
seat P e (node i x b l r) ps once h =
    let items = tally-append (same e) (inorder l) (x ∷ inorder r) in
    let split : (m : ℕ) → _ = λ m. tally-append (same m) (indices l) (i ∷ indices r) in
    elim (Bool-cases (x == e)) [
      | inl here ↦
          let at = eq_of_test x e here in
          let self : (i == i) ≡ true = ground arith in
          (
            i,
            subst (λ y. P (i, y)) at (All-append_right P (cells l) ((i, x) ∷ cells r) ps).0,
            rw self (ap some at),
            ground (arith, split i, self),
          )
      | inr elsewhere ↦ elim (le_cases (count e (inorder l))) [
        | inl in_left ↦
            let (k, p, at, n) =
              seat P e l (All-append_left P (cells l) ((i, x) ∷ cells r) ps)
                (λ m. omega (arith, split m, once m)) in_left in
            let other : (i == k) ≡ false = ground (arith, split k, once k, n) in
            (k, p, rw (other, at) refl, omega (arith, split k, n))
        | inr no_left ↦
            let (k, p, at, n) =
              seat P e r (All-append_right P (cells l) ((i, x) ∷ cells r) ps).1
                (λ m. omega (arith, split m, once m))
                (ground (arith, items, h, no_left, elsewhere)) in
            let other : (i == k) ≡ false = ground (arith, split k, once k, n) in
            let absent = item_at-none k l (omega (arith, split k, once k, n)) in
            (k, p, rw (other, absent, at) refl, omega (arith, split k, n))
      ]
    ]

-- The descriptor of a cell is linked to its index.
abbrev pub Ties : (ℕ → Entry) → ℕ × ℕ → Type 0
Ties t c = (t c.1).tnode ≡ some c.0

-- The nodes of the pool are once in the tree or on the stack, the descriptors in the tree are linked
-- to their nodes, and each is there once.
pub record Tied (t : ℕ → Entry) (tree : AvlTree ℕ) : Type 0 where
  pub pool : Pooled tree
  pub tied : All (Ties t) (cells tree.root)
  pub once : (e : ℕ) → count e (inorder tree.root) ≤ 1

pub found_at :
    (t : ℕ → Entry) (tree : AvlTree ℕ) (e : ℕ)
    → Tied t tree
    → 1 ≤ count e (inorder tree.root)
    → (k : ℕ) × ((t e).tnode ≡ some k) × (item_at k tree.root ≡ some e)
found_at t tree e w h =
    let (k, p, at, _) = seat (Ties t) e tree.root w.tied (λ m. ground (arith, w.pool.each m)) h in
    (k, p, at)

-- The weight of a descriptor among cells.
abbrev pub at_item : ℕ → ℕ × ℕ → ℕ
at_item e c = same e c.1

pub tally-items : (e : ℕ) (t : Tree ℕ) → count e (inorder t) ≡ tally (at_item e) (cells t)
tally-items e t = tally-visit (same e) (at_item e) (λ i x. x) (λ i x. (i, x)) (λ i x. refl) t

-- Cells of other descriptors than one that is not among them.
pub All-apart :
    (P Q : ℕ × ℕ → Type 0) (y : ℕ) (xs : List (ℕ × ℕ))
    → ((c : ℕ × ℕ) → c.1 ≢ y → P c → Q c)
    → tally (at_item y) xs ≡ 0
    → All P xs
    → All Q xs
All-apart P Q y [] f h ps = tt
All-apart P Q y (c ∷ xs) f h ps = (
  f c (λ e. let self : same y c.1 ≡ 1 = ground (arith, e) in absurd (omega (arith, self, h))) ps.0,
  All-apart P Q y xs f (omega (arith, h)) ps.1,
)

-- The links after the callback of `Tree_Replace`.
abbrev pub relinked : (ℕ → Entry) → Option (ℕ × ℕ) → ℕ → Entry
relinked t none = t
relinked t (some (target, source)) = free_entry_replace t target source

replaced_here :
    (t : ℕ → Entry) (x y k : ℕ) → (t x).tnode ≡ some k → (free_entry_replace t x y y).tnode ≡ some k
unfolding free_entry_replace
replaced_here t x y k e = let self : (y == y) ≡ true = ground arith in rw self e

replaced_other :
    (t : ℕ → Entry) (x y z : ℕ) → z ≢ y → (free_entry_replace t x y z).tnode ≡ (t z).tnode
unfolding free_entry_replace
replaced_other t x y z h = let other : (z == y) ≡ false = ground (arith, h) in rw other refl

Ties-moved :
    (t : ℕ → Entry) (k x j y : ℕ) (before after : List (ℕ × ℕ))
    → tally (at_item y) before + (same y x + (1 + tally (at_item y) after)) ≤ 1
    → All (Ties t) before
    → Ties t (k, x)
    → All (Ties t) after
    → All (Ties (free_entry_replace t x y)) (before ++ ((k, y) ∷ after))
Ties-moved t k x j y before after one b h a =
    let u = free_entry_replace t x y in
    let kept : (c : ℕ × ℕ) → c.1 ≢ y → Ties t c → Ties u c =
      λ c n e. replaced_other t x y c.1 n ∙ e in
    All-append (Ties u) before ((k, y) ∷ after)
      (All-apart (Ties t) (Ties u) y before kept (omega (arith, one)) b)
      (replaced_here t x y k h, All-apart (Ties t) (Ties u) y after kept (omega (arith, one)) a)

pub Ties-Unseated :
    (t : ℕ → Entry) (k x : ℕ) (was now : List (ℕ × ℕ)) (freed : ℕ) (replaced : Option (ℕ × ℕ))
    → Unseated k x was now freed replaced
    → ((e : ℕ) → tally (at_item e) was ≤ 1)
    → All (Ties t) was
    → All (Ties (relinked t replaced)) now
Ties-Unseated t k x was now freed replaced (before, after, u) one ps = elim u [
  | inl (w, n, f, r) ↦
      let qs = subst (All (Ties t)) w ps in
      subst (λ o. All (Ties (relinked t o)) now) (sym r)
        (subst (All (Ties t)) (sym n) (
          All-append (Ties t) before after (All-append_left (Ties t) before ((k, x) ∷ after) qs)
            (All-append_right (Ties t) before ((k, x) ∷ after) qs).1))
  | inr (j, y, w, n, f, r) ↦
      let self : same y y ≡ 1 = ground arith in
      subst (λ o. All (Ties (relinked t o)) now) (sym r)
        (subst (All (Ties (free_entry_replace t x y))) (sym n) (elim w [
          | inl left ↦
              let qs = subst (All (Ties t)) left ps in
              let right = All-append_right (Ties t) before ((k, x) ∷ ((j, y) ∷ after)) qs in
              Ties-moved t k x j y before after
                (omega (
                  arith,
                  self,
                  one y,
                  ap (tally (at_item y)) left,
                  tally-append (at_item y) before ((k, x) ∷ ((j, y) ∷ after)),
                ))
                (All-append_left (Ties t) before ((k, x) ∷ ((j, y) ∷ after)) qs) right.0 right.1.1
          | inr right ↦
              let qs = subst (All (Ties t)) right ps in
              let rest = All-append_right (Ties t) before ((j, y) ∷ ((k, x) ∷ after)) qs in
              Ties-moved t k x j y before after
                (omega (
                  arith,
                  self,
                  one y,
                  ap (tally (at_item y)) right,
                  tally-append (at_item y) before ((j, y) ∷ ((k, x) ∷ after)),
                ))
                (All-append_left (Ties t) before ((j, y) ∷ ((k, x) ∷ after)) qs) rest.1.0 rest.1.1
        ]))
]
