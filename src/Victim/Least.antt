-- ===== src/Victim/Least.antt =====
-- The score of the victim that the scan chooses, among those of the slots that it looks at.
use cla_mpi.Prelude.{
  ℕ, zero, suc, ◌+◌, ◌%◌, ◌<◌, ◌≡◌, refl, ◌⊎◌, inl, inr, true, false, ◌||◌, some, arith, sym, ◌∙◌,
  ap, subst, ◌==◌, pos, Bool-cases, negsuc, lt_or_le, eq_of_some,
}
use native.Mathlib.Nat.{mod-add-mod, mod-eq_of_lt}
use cla_mpi.Cache.{Double, Cache}
use cla_mpi.HashTable.{is_used}
use cla_mpi.Statistics.Extremes.{
  IsOrdered, or_true, or_false, last_or_before, le_refl, least_below, score_at,
}
use cla_mpi.Victim.{max_scan, Search, goes_on, search_round, search_loop, select_victim}
use cla_mpi.Victim.Found.{select_victim-Chosen}

module _ (double : Double) (order : IsOrdered double) where
  open double use {F, of_ℕ, le}

  -- The slot that the scan from `from` looks at in a round.
  abbrev pub visited : Cache F → ℕ → ℕ → ℕ
  visited c from j = (from + j) % c.ht_entries

  -- What is known after the rounds so far: no slot was used, or the victim is the entry of one with
  -- the least score of them.
  abbrev pub IsLeast : Cache F → ℕ → Search F → Type 0
  IsLeast c from s =
      ((s.c ≡ 0) × ((j : ℕ) → j < s.i → is_used (c.table (visited c from j)) ≡ false))
      ⊎ ((0 < s.c)
          × ((d : ℕ) × (d < s.i)
              × (is_used (c.table (visited c from d)) ≡ true)
              × (s.ivictim ≡ pos (c.table (visited c from d)).index)
              × (s.minscore ≡ score_at double order c (visited c from d)))
          × ((j : ℕ)
              → j < s.i
              → is_used (c.table (visited c from j)) ≡ true
              → le s.minscore (score_at double order c (visited c from j)) ≡ true))

  abbrev AtPlace : Cache F → ℕ → Search F → Type 0
  AtPlace c from s = s.idx ≡ visited c from s.i

  search_round-AtPlace :
      (c : Cache F) (from : ℕ) (s : Search F)
      → AtPlace c from s
      → AtPlace c from (search_round double c s)
  unfolding search_round
  search_round-AtPlace c from s e =
      ap (λ v. (v + 1) % c.ht_entries) e
      ∙ mod-add-mod (from + s.i) c.ht_entries 1
      ∙ ap (λ v. v % c.ht_entries) (omega arith)

  unused-IsLeast :
      (c : Cache F) (from : ℕ) (s : Search F)
      → AtPlace c from s
      → is_used (c.table s.idx) ≡ false
      → IsLeast c from s
      → IsLeast c from (search_round double c s)
  unfolding search_round
  unused-IsLeast c from s e unused (inl (z, before)) =
      let u = subst (λ v. is_used (c.table v) ≡ false) e unused in
      rw unused
        (inl (z, λ j k. elim (last_or_before s.i j k) [ inl f ↦ rw f u | inr l ↦ before j l ]))
  unused-IsLeast c from s e unused (inr (p, (d, hd, d', v, m), bounds)) =
      let u = subst (λ v. is_used (c.table v) ≡ false) e unused in
      rw unused (
        inr (
          p,
          (d, omega arith, d', v, m),
          λ j k w. elim (last_or_before s.i j k) [
            | inl f ↦ (let g = (rw f at w) in cc)
            | inr l ↦ bounds j l w
          ],
        ))

  -- The first used slot.
  first-IsLeast :
      (c : Cache F) (from : ℕ) (s : Search F)
      → AtPlace c from s
      → is_used (c.table s.idx) ≡ true
      → s.c ≡ 0
      → ((j : ℕ) → j < s.i → is_used (c.table (visited c from j)) ≡ false)
      → IsLeast c from (search_round double c s)
  unfolding search_round
  first-IsLeast c from s e used z before =
      let a = score_at double order c s.idx in
      let least : (le a s.minscore || s.c == 0) ≡ true =
        or_true (le a s.minscore) (s.c == 0) (ground arith) in
      rw (used, least)
        (inr (
          omega arith,
          (
            s.i,
            omega arith,
            subst (λ v. is_used (c.table v) ≡ true) e used,
            ap (λ v. pos (c.table v).index) e,
            ap (score_at double order c) e,
          ),
          λ j k w. elim (last_or_before s.i j k) [
            | inl f ↦
                let same : a ≡ score_at double order c (visited c from j) =
                  ap (score_at double order c) (e ∙ ap (visited c from) (sym f)) in
                subst (λ b. le a b ≡ true) same (le_refl double order a)
            | inr l ↦ (let v = before j l in cc)
          ],
        ))

  -- A used slot after others.
  next-IsLeast :
      (c : Cache F) (from : ℕ) (s : Search F)
      → AtPlace c from s
      → is_used (c.table s.idx) ≡ true
      → 0 < s.c
      → IsLeast c from s
      → IsLeast c from (search_round double c s)
  unfolding search_round
  next-IsLeast c from s e used p (inl (z, _)) = absurd (omega arith)
  next-IsLeast c from s e used p (inr (_, (d, hd, d', v, m), bounds)) =
      let a = score_at double order c s.idx in
      let least : (le a s.minscore || s.c == 0) ≡ le a s.minscore =
        or_false (le a s.minscore) (s.c == 0) (ground arith) in
      rw (used, least)
        (inr (
          omega arith,
          elim (Bool-cases (le a s.minscore)) [
            | inl lower ↦ rw lower (
              s.i,
              omega arith,
              subst (λ v. is_used (c.table v) ≡ true) e used,
              ap (λ v. pos (c.table v).index) e,
              ap (score_at double order c) e,
            )
            | inr upper ↦ rw upper (d, omega arith, d', v, m)
          ],
          λ j k w. elim (last_or_before s.i j k) [
            | inl f ↦
                least_below double order s.minscore a (score_at double order c (visited c from j))
                  (inl (ap (score_at double order c) (ap (visited c from) f ∙ sym e)))
            | inr l ↦
                least_below double order s.minscore a (score_at double order c (visited c from j))
                  (inr (bounds j l w))
          ],
        ))

  search_round-IsLeast :
      (c : Cache F) (from : ℕ) (s : Search F)
      → AtPlace c from s
      → IsLeast c from s
      → IsLeast c from (search_round double c s)
  search_round-IsLeast c from s e h = elim (Bool-cases (is_used (c.table s.idx))) [
    | inr unused ↦ unused-IsLeast c from s e unused h
    | inl used ↦ elim (lt_or_le 0 s.c) [
      | inl p ↦ next-IsLeast c from s e used p h
      | inr z ↦ elim h [
        | inl (_, before) ↦ first-IsLeast c from s e used (omega arith) before
        | inr (p, _, _) ↦ absurd (omega arith)
      ]
    ]
  ]

  search_loop-IsLeast :
      (fuel : ℕ) (c : Cache F) (from : ℕ) (s r : Search F)
      → AtPlace c from s
      → IsLeast c from s
      → search_loop double fuel c s ≡ some r
      → IsLeast c from r
  unfolding search_loop
  search_loop-IsLeast zero c from s r e h run = cc
  search_loop-IsLeast (suc fuel) c from s r e h run = elim (Bool-cases (goes_on double c s)) [
    | inr stop ↦
        let stopped : search_loop double (suc fuel) c s ≡ some s = rw stop refl in
        subst (IsLeast c from) (eq_of_some (sym stopped ∙ run)) h
    | inl on ↦
        let next = search_round double c s in
        let goes : search_loop double (suc fuel) c s ≡ search_loop double fuel c next =
          rw on refl in
        search_loop-IsLeast fuel c from next r (search_round-AtPlace c from s e)
          (search_round-IsLeast c from s e h) (sym goes ∙ run)
  ]

  -- With an order of the scores that is total, for a slot of the table to start from, and a used
  -- slot where entries are counted: the scan for a victim ends, and either no slot that it has
  -- looked at was used, or the victim is the entry of one that was, and the score kept is its
  -- score and the least one of the used slots that it has looked at.
  pub select_victim-IsLeast :
      (c : Cache F) (idx u : ℕ)
      → idx < c.ht_entries
      → (0 < c.table_size → (u < c.ht_entries) × (is_used (c.table u) ≡ true))
      → (s : Search F) × (select_victim double c idx ≡ some s) × IsLeast c idx s
  unfolding select_victim
  select_victim-IsLeast c idx u h used =
      let (s, run, chosen) = select_victim-Chosen double c idx u h used in
      (
        s,
        run,
        search_loop-IsLeast (c.ht_entries + max_scan + 1) c idx
            (record { i = 0; c = 0; idx = idx; minscore = of_ℕ 0; ivictim = negsuc 0 }) s
            (sym (ap (λ v. v % c.ht_entries) (omega arith) ∙ mod-eq_of_lt h))
            (inl (refl, λ j k. absurd (omega arith))) run,
      )
