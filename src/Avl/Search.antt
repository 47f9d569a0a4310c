-- ===== src/Avl/Search.antt =====
-- src/AVL/AvlTree.c: `Tree_SearchNode` and `Tree_CSearchNode`.
use Prim.Native.Nat.{suc-le-suc}
use mathlib.Core.List.{Mem, mem-append_left, mem-append_right, mem-cons_self, mem-cons_of_mem}
use native.Mathlib.Nat.{le_trans, le_of_lt, le_of_eq}
use cla_mpi.Prelude.{
  ℕ, ◌≤◌, ◌<◌, ◌≡◌, refl, sym, ◌∙◌, ◌⊎◌, inl, inr, Option, none, some, List, ◌∷◌, ◌++◌, arith, ℤ,
  pos, ltb_ℤ, if◌then◌else◌, Bool-cases, All, All-append, All-append_right, All-mono, eq_of_some,
  lt_or_le, subst, ap, ltb→lt,
}
use cla_mpi.Avl.{Tree, leaf, node, inorder}
use cla_mpi.Avl.Order.{
  Compares, AllBelow, AllUpTo, AllFrom, Sorted, Sorted-left, Sorted-append_left,
  Sorted-append_right,
}

module _ {ℓ} {A : Type ℓ} (comp : A → A → ℤ) (x : A) where
  -- `Tree_SearchNode`: the node found, a null pointer otherwise.
  unfoldable pub search_node : Tree A → Tree A
  search_node leaf = leaf
  search_node (node i y b l r) =
      let in_left = search_node l in
      let in_right = search_node r in
      if ltb_ℤ (comp x y) (pos 0)
      then in_left
      else if ltb_ℤ (pos 0) (comp x y)
      then in_right
      else node i y b l r

  -- `min`, after a node above the one looked for.
  unfoldable pub better : Option A → A → A
  better none y = y
  better (some m) y = if ltb_ℤ (comp m y) (pos 0) then m else y

  -- The loop of `Tree_CSearchNode`.
  unfoldable pub csearch : Tree A → Option A → Option A
  csearch leaf min = min
  csearch (node i y b l r) min =
      let in_left = csearch l (some (better min y)) in
      let in_right = csearch r min in
      if ltb_ℤ (comp x y) (pos 0)
      then in_left
      else if ltb_ℤ (pos 0) (comp x y)
      then in_right
      else some y

  -- `Tree_CSearchNode`
  unfoldable pub tree_csearch_node : Tree A → Option A
  unfolding csearch
  tree_csearch_node t = csearch t none

module _ {ℓ} {A : Type ℓ} (key : A → ℕ) (x : A) where
  -- The least key of a list that is not below that of `x`, or of `min`, which stands for what was
  -- seen before.
  abbrev pub IsCeiling : List A → Option A → Option A → Type ℓ
  IsCeiling xs min none = (min ≡ none) × AllBelow key (key x) xs
  IsCeiling xs min (some d) =
      (key x ≤ key d)
      × (Mem d xs ⊎ (min ≡ some d))
      × All (λ y. (key y < key x) ⊎ (key d ≤ key y)) xs
      × ((m : A) → min ≡ some m → key d ≤ key m)

  -- What was seen before is above `x`, and not below what is still to be seen.
  abbrev Bounds : Option A → List A → Type ℓ
  Bounds min xs = (m : A) → min ≡ some m → (key x < key m) × AllUpTo key (key m) xs

  module _ (comp : A → A → ℤ) (c : Compares comp key) where
    go_right :
        (xs ys : List A) (y : A) (min r : Option A)
        → key y < key x
        → AllUpTo key (key y) xs
        → IsCeiling ys min r
        → IsCeiling (xs ++ (y ∷ ys)) min r
    go_right xs ys y min none h u (e, b) = (
      e,
      All-append _ xs _ (All-mono _ _ (λ a (k : key a ≤ key y). le_trans (suc-le-suc k) h) xs u)
          (h, b),
    )
    go_right xs ys y min (some d) h u (k, at, v, w) = (
      k,
      found at,
      All-append _ xs _
          (All-mono _ _ (λ a (k : key a ≤ key y). inl (le_trans (suc-le-suc k) h)) xs u) (inl h, v),
      w,
    )
      where
        found : Mem d ys ⊎ (min ≡ some d) → Mem d (xs ++ (y ∷ ys)) ⊎ (min ≡ some d)
        found (inl m) = inl (mem-append_right xs (mem-cons_of_mem y m))
        found (inr e) = inr e

    -- The code compares with what it has, but the node that it is at is never above it.
    better-node :
        (xs ys : List A) (y : A) (min : Option A)
        → Bounds min (xs ++ (y ∷ ys))
        → better comp x min y ≡ y
    unfolding better
    better-node xs ys y none u = refl
    better-node xs ys y (some m) u =
        let h = (All-append_right _ xs _ (u m refl).1).0 in ground (arith, c.below m y)

    go_left :
        (xs ys : List A) (y : A) (min r : Option A)
        → key x < key y
        → Bounds min (xs ++ (y ∷ ys))
        → AllFrom key (key y) ys
        → IsCeiling xs (some y) r
        → IsCeiling (xs ++ (y ∷ ys)) min r
    go_left xs ys y min none h u f g = cc (g.0)
    go_left xs ys y min (some d) h u f (k, at, v, w) = (
      k,
      inl (found at),
      All-append _ xs _ v (
        inr (w y refl),
        All-mono _ _ (λ a (e : key y ≤ key a). inr (le_trans (w y refl) e)) ys f,
      ),
      λ m e. le_trans (w y refl) (All-append_right _ xs _ (u m e).1).0,
    )
      where
        found : Mem d xs ⊎ (some y ≡ some d) → Mem d (xs ++ (y ∷ ys))
        found (inl m) = mem-append_left (y ∷ ys) m
        found (inr e) =
            subst (λ z. Mem z (xs ++ (y ∷ ys))) (eq_of_some e) (mem-append_right xs mem-cons_self)

    csearch-IsCeiling :
        (t : Tree A) (min : Option A)
        → Sorted key (inorder t)
        → Bounds min (inorder t)
        → IsCeiling (inorder t) min (csearch comp x t min)
    unfolding csearch
    csearch-IsCeiling leaf none s u = (refl, tt)
    csearch-IsCeiling leaf (some m) s u =
        (le_of_lt (u m refl).0, inr refl, tt, λ n e. le_of_eq (ap key (eq_of_some e)))
    csearch-IsCeiling (node i y b l r) min s u =
        let right = Sorted-append_right key (inorder l) _ s in
        let left = Sorted-left key (inorder l) y (inorder r) s in
        elim (Bool-cases (ltb_ℤ (comp x y) (pos 0))) [
          | inl low ↦
              let h : key x < key y = ltb→lt _ _ (sym (c.below x y) ∙ low) in
              rw (low, csearch)
                (go_left (inorder l) (inorder r) y min _ h u right.0 (
                  rw (better-node (inorder l) (inorder r) y min u) (
                    csearch-IsCeiling l (some y) (Sorted-append_left key (inorder l) _ s) (λ m e.
                      subst (λ z. (key x < key z) × AllUpTo key (key z) (inorder l)) (eq_of_some e)
                        (h, left)))))
          | inr not_low ↦ elim (Bool-cases (ltb_ℤ (pos 0) (comp x y))) [
            | inl high ↦
                let h : key y < key x = ltb→lt _ _ (sym (c.above x y) ∙ high) in
                rw (not_low, high, csearch)
                  (go_right (inorder l) (inorder r) y min _ h left (
                    csearch-IsCeiling r min right.1
                      (λ m e. ((u m e).0, (All-append_right _ (inorder l) _ (u m e).1).1))))
            | inr not_high ↦
                let h : key x ≡ key y = ground (arith, c.below x y, c.above x y) in
                rw (not_low, not_high, csearch)
                  (
                    le_of_eq h,
                    inl (mem-append_right (inorder l) mem-cons_self),
                    All-append _ (inorder l) _
                        (All-mono _ _ (λ a _. rw h (lt_or_le (key a) (key y))) (inorder l) left)
                        (
                          inr (le_of_eq refl),
                          All-mono _ _ (λ a (e : key y ≤ key a). inr e) (inorder r) right.0,
                        ),
                    λ m e. (All-append_right _ (inorder l) _ (u m e).1).0,
                  )
          ]
        ]

    -- With a comparison by a number and a sorted tree, `Tree_CSearchNode` finds a data of the tree
    -- that is not below the one looked for and not above any other such, and finds nothing only if
    -- there is none.
    pub tree_csearch_node-IsCeiling :
        (t : Tree A)
        → Sorted key (inorder t)
        → IsCeiling (inorder t) none (tree_csearch_node comp x t)
    unfolding tree_csearch_node
    tree_csearch_node-IsCeiling t s = csearch-IsCeiling t none s (λ m e. cc)
