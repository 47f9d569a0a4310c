-- ===== src/Regions/Rejoined.antt =====
-- src/clampi_get.c: the tree of free regions after an evicted region has been joined to a neighbour.
use cla_mpi.Prelude.{
  ℕ, ◌+◌, ◌≤◌, ◌≡◌, ◌≢◌, ◌⊎◌, refl, sym, ap, ◌∙◌, subst, inl, inr, Bool, true, false, ◌&&◌, ◌||◌,
  not, Option, List, ◌∷◌, ◌++◌, arith, same, count, count-append, ◌==◌, if◌then◌else◌, Bool-cases,
  All-mono, eq_of_test,
}
use cla_mpi.Avl.{inorder}
use cla_mpi.Avl.Order.{Sorted}
use cla_mpi.Cache.{Entry, Cache, Kind, free, busy, size_of}
use cla_mpi.Regions.{is_region, is_free}
use cla_mpi.Regions.Drawn.{Drawn, relink_kept, relink_tree, grow_kind, grow_size}
use cla_mpi.Regions.Fit.{Sorted-same}
use cla_mpi.Regions.Added.{sizes_of}
use cla_mpi.Regions.Join.{relink, grow}
use cla_mpi.Regions.Shelved.{Shelved, both, StillLinked, Hung-same, Absent-count}

-- One element less in the list, and in the tree: the numbers of an element `e` in the tree after and
-- before, in the parts of the list, and the tests.
left_over :
    (e left right other region n t a b : ℕ) (fe se so : Bool)
    → n + (if so then 0 else same e other) ≡ t
    → t ≡ (if fe && not (se || e == region) then a + (same e left + (same e right + b)) else 0)
    → a + (same e left + (same e right + b)) ≤ 1
    → ((left ≡ other) × (right ≡ region)) ⊎ ((left ≡ region) × (right ≡ other))
    → left ≢ right
    → (e ≡ other → (fe ≡ true) × (se ≡ so))
    → n ≡ (if fe && not (se || e == left) then a + (same e left + b) else 0)
left_over e left right other region n t a b fe se so fewer members once sides apart at =
    elim (Bool-cases (e == other)) [
      | inl here ↦
          let (x, y) = at (eq_of_test e other here) in
          elim sides [
            | inl (p, q) ↦ ground (arith, fewer, members, once, p, q, apart, here, x, y)
            | inr (p, q) ↦ ground (arith, fewer, members, once, p, q, apart, here, x, y)
          ]
      | inr there ↦ elim sides [
        | inl (p, q) ↦ ground (arith, fewer, members, once, p, q, apart, there)
        | inr (p, q) ↦ ground (arith, fewer, members, once, p, q, apart, there)
      ]
    ]

module _ {F : Type 0} (c d : Cache F) (left right other region : ℕ) (selected : Option ℕ)
    (xs ys : List ℕ) (h : Shelved c (both selected region) (xs ++ (left ∷ (right ∷ ys))))
    (f : is_free (c.table_ptr other) ≡ true)
    (sides : ((left ≡ other) × (right ≡ region)) ⊎ ((left ≡ region) × (right ≡ other)))
    (once : (e : ℕ) → count e (xs ++ (left ∷ (right ∷ ys))) ≤ 1) (apart : left ≢ right)
    (w : Drawn c (grow c left right) d other selected) where
  abbrev after : Cache F
  after = relink d left right

  pub after_kind : (i : ℕ) → (after.table_ptr i).kind ≡ (c.table_ptr i).kind
  after_kind i =
      relink_kept (λ e. e.kind) d left right (λ x n. refl) (λ x p. refl) i
      ∙ ap (λ (e : Entry). e.kind) (w.retied i)
      ∙ grow_kind c left right i

  after_tnode : (i : ℕ) → (after.table_ptr i).tnode ≡ (d.table_ptr i).tnode
  after_tnode = relink_kept (λ e. e.tnode) d left right (λ x n. refl) (λ x p. refl)

  after_size : (i : ℕ) → i ≢ left → sizes_of after i ≡ sizes_of c i
  after_size i n =
      relink_kept size_of d left right (λ x n. refl) (λ x p. refl) i
      ∙ ap size_of (w.retied i)
      ∙ grow_size c left right i n

  after_members :
      (e : ℕ)
      → count e (inorder d.free_idx.root) ≡ (
          if is_free (c.table_ptr e) && not (both selected left e)
          then count e (xs ++ (left ∷ ys))
          else 0)
  after_members e =
      let others = count e ys in
      let was : ℕ → ℕ =
        λ n. if is_free (c.table_ptr e) && not (both selected region e) then n else 0 in
      let is : ℕ → ℕ =
        λ n. if is_free (c.table_ptr e) && not (both selected left e) then n else 0 in
      let long = count-append e xs (left ∷ (right ∷ ys)) in
      left_over e left right other region (count e (inorder d.free_idx.root))
        (count e (inorder c.free_idx.root)) (count e xs) others (is_free (c.table_ptr e))
        (is_region selected e) (is_region selected other) (w.fewer e) (h.members e ∙ ap was long)
        (omega (arith, once e, long)) sides apart
        (λ at. (ap (λ i. is_free (c.table_ptr i)) at ∙ f, ap (is_region selected) at))
      ∙ ap is (sym (count-append e xs (left ∷ ys)))

  no_left : count left (inorder d.free_idx.root) ≡ 0
  no_left =
      let self : (left == left) ≡ true = ground arith in ground (arith, after_members left, self)

  -- The free regions of the shorter list, without the joined one, are in the tree.
  pub rejoined-Shelved : Shelved after (both selected left) (xs ++ (left ∷ ys))
  rejoined-Shelved = record {
    hung = Hung-same d after after_tnode (relink_tree d left right) w.hung;
    sorted =
        subst (λ t. Sorted (sizes_of after) (inorder t.root)) (sym (relink_tree d left right))
          (Sorted-same (sizes_of c) (sizes_of after) (inorder d.free_idx.root)
            (All-mono (λ i. i ≢ left) (λ i. sizes_of after i ≡ sizes_of c i) after_size
              (inorder d.free_idx.root) (Absent-count left (inorder d.free_idx.root) no_left))
            w.sorted);
    members = λ e.
        ap (λ t. count e (inorder t.root)) (relink_tree d left right)
        ∙ after_members e
        ∙ ap
            (λ (k : Kind).
              if elim k [ free ↦ true | busy ↦ false ] && not (both selected left e)
              then count e (xs ++ (left ∷ ys))
              else 0)
            (sym (after_kind e));
  }

  pub rejoined_still : StillLinked c after
  rejoined_still i j e = let (l, x) = w.still i j e in (l, after_tnode i ∙ x)
