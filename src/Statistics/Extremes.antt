-- ===== src/Statistics/Extremes.antt =====
-- `cl_get_abs_victim`: the least and the greatest score, where the scores are ordered.
use cla_mpi.Prelude.{
  ℕ, zero, suc, ◌+◌, ◌<◌, ◌≡◌, refl, ◌⊎◌, inl, inr, Bool, true, false, ◌||◌, not, arith, ℤ, pos, ap,
  subst, ◌==◌, if◌then◌else◌, Bool-cases, lt_or_le,
}
use cla_mpi.Cache.{Double, Cache, score}
use cla_mpi.HashTable.{is_used}
use cla_mpi.Statistics.{Extreme, extreme_round, extreme_loop, get_abs_victim}

-- The order of floating-point numbers, of which none is a NaN.
pub record IsOrdered (double : Double) : Type 0 where
  pub le_trans :
      (a b c : double.F) → double.le a b ≡ true → double.le b c ≡ true → double.le a c ≡ true
  pub le_total : (a b : double.F) → (double.le a b ≡ true) ⊎ (double.le b a ≡ true)
  pub lt_le : (a b : double.F) → double.lt a b ≡ not (double.le b a)

pub or_true : (a b : Bool) → b ≡ true → (a || b) ≡ true
or_true true b h = refl
or_true false b h = h

pub or_false : (a b : Bool) → b ≡ false → (a || b) ≡ a
or_false true b h = refl
or_false false b h = h

pub last_or_before : (n j : ℕ) → j < n + 1 → (j ≡ n) ⊎ (j < n)
last_or_before n j h = omega arith

module _ (double : Double) (order : IsOrdered double) where
  open double use {F, le}

  abbrev pub score_at : Cache F → ℕ → F
  score_at c i = score double c (c.table i).lasthit (c.table i).penalty

  -- What is known after the slots under `n`: nothing has been seen, or the extremes are scores of
  -- slots, and no other score lies outside them.
  abbrev pub IsExtreme : Cache F → ℕ → Extreme F → Type 0
  IsExtreme c n s =
      ((s.c ≡ 0) × ((j : ℕ) → j < n → is_used (c.table j) ≡ false))
      ⊎ ((0 < s.c)
          × ((u : ℕ) × (u < n)
              × (is_used (c.table u) ≡ true)
              × (s.ivictim ≡ pos (c.table u).index)
              × (s.minscore ≡ score_at c u))
          × ((u : ℕ) × (u < n) × (is_used (c.table u) ≡ true) × (s.maxscore ≡ score_at c u))
          × ((j : ℕ)
              → j < n
              → is_used (c.table j) ≡ true
              → (le s.minscore (score_at c j) ≡ true) × (le (score_at c j) s.maxscore ≡ true)))

  pub le_refl : (a : F) → le a a ≡ true
  le_refl a = elim (order.le_total a a) [ inl h ↦ h | inr h ↦ h ]

  le_of_not_le : (a b : F) → le a b ≡ false → le b a ≡ true
  le_of_not_le a b h = elim (order.le_total a b) [ inl h' ↦ cc | inr h' ↦ h' ]

  -- A bound of the scores before is a bound still, and of the new one, if it is replaced where the
  -- new one is beyond it.
  pub least_below : (m a b : F) → (b ≡ a) ⊎ (le m b ≡ true) → le (if le a m then a else m) b ≡ true
  least_below m a b h = elim (Bool-cases (le a m)) [
    | inl lower ↦
        rw lower (elim h [ inl e ↦ rw e (le_refl a) | inr k ↦ order.le_trans a m b lower k ])
    | inr upper ↦ rw upper (elim h [ inl e ↦ rw e (le_of_not_le a m upper) | inr k ↦ k ])
  ]

  greatest_above :
      (m a b : F) → (b ≡ a) ⊎ (le b m ≡ true) → le b (if double.lt m a then a else m) ≡ true
  greatest_above m a b h = elim (Bool-cases (le a m)) [
    | inl lower ↦ rw (order.lt_le m a, lower) (elim h [ inl e ↦ rw e lower | inr k ↦ k ])
    | inr upper ↦
        rw (order.lt_le m a, upper)
          (elim h [
            | inl e ↦ rw e (le_refl a)
            | inr k ↦ order.le_trans b m a k (le_of_not_le a m upper)
          ])
  ]

  unused-IsExtreme :
      (c : Cache F) (ref : F) (n : ℕ) (s : Extreme F)
      → is_used (c.table n) ≡ false
      → IsExtreme c n s
      → IsExtreme c (n + 1) (extreme_round double c ref n s)
  unfolding extreme_round
  unused-IsExtreme c ref n s unused (inl (z, before)) =
      rw unused
        (inl (z, λ j k. elim (last_or_before n j k) [ inl e ↦ rw e unused | inr l ↦ before j l ]))
  unused-IsExtreme c ref n s unused (inr (p, (u, hu, u', v, m), (x, hx, x', y), bounds)) =
      rw unused (
        inr (
          p,
          (u, omega arith, u', v, m),
          (x, omega arith, x', y),
          λ j k w. elim (last_or_before n j k) [
            | inl e ↦ (let f = (rw e at w) in cc)
            | inr l ↦ bounds j l w
          ],
        ))

  -- The first used slot, which the code takes whatever its score is.
  first-IsExtreme :
      (c : Cache F) (ref : F) (n : ℕ) (s : Extreme F)
      → is_used (c.table n) ≡ true
      → s.c ≡ 0
      → ((j : ℕ) → j < n → is_used (c.table j) ≡ false)
      → IsExtreme c (n + 1) (extreme_round double c ref n s)
  unfolding extreme_round
  first-IsExtreme c ref n s used z before =
      let a = score_at c n in
      let least : (le a s.minscore || s.c == 0) ≡ true =
        or_true (le a s.minscore) (s.c == 0) (ground arith) in
      let greatest : (double.lt s.maxscore a || s.c == 0) ≡ true =
        or_true (double.lt s.maxscore a) (s.c == 0) (ground arith) in
      rw (used, least, greatest)
        (inr (
          omega arith,
          (n, omega arith, used, refl, refl),
          (n, omega arith, used, refl),
          λ j k w. elim (last_or_before n j k) [
            | inl e ↦ rw e (le_refl a, le_refl a)
            | inr l ↦ (let v = before j l in cc)
          ],
        ))

  -- A used slot after others.
  next-IsExtreme :
      (c : Cache F) (ref : F) (n : ℕ) (s : Extreme F)
      → is_used (c.table n) ≡ true
      → 0 < s.c
      → IsExtreme c n s
      → IsExtreme c (n + 1) (extreme_round double c ref n s)
  unfolding extreme_round
  next-IsExtreme c ref n s used p (inl (z, _)) = absurd (omega arith)
  next-IsExtreme c ref n s used p (inr (_, (u, hu, u', v, m), (x, hx, x', y), bounds)) =
      let a = score_at c n in
      let least : (le a s.minscore || s.c == 0) ≡ le a s.minscore =
        or_false (le a s.minscore) (s.c == 0) (ground arith) in
      let greatest : (double.lt s.maxscore a || s.c == 0) ≡ double.lt s.maxscore a =
        or_false (double.lt s.maxscore a) (s.c == 0) (ground arith) in
      rw (used, least, greatest)
        (inr (
          omega arith,
          elim (Bool-cases (le a s.minscore)) [
            | inl lower ↦ rw lower (n, omega arith, used, refl, refl)
            | inr upper ↦ rw upper (u, omega arith, u', v, m)
          ],
          elim (Bool-cases (double.lt s.maxscore a)) [
            | inl above ↦ rw above (n, omega arith, used, refl)
            | inr below ↦ rw below (x, omega arith, x', y)
          ],
          λ j k w. elim (last_or_before n j k) [
            | inl e ↦ (
              least_below s.minscore a (score_at c j) (inl (ap (score_at c) e)),
              greatest_above s.maxscore a (score_at c j) (inl (ap (score_at c) e)),
            )
            | inr l ↦
                let b = bounds j l w in
                (
                  least_below s.minscore a (score_at c j) (inr b.0),
                  greatest_above s.maxscore a (score_at c j) (inr b.1),
                )
          ],
        ))

  -- One more slot.
  round-IsExtreme :
      (c : Cache F) (ref : F) (n : ℕ) (s : Extreme F)
      → IsExtreme c n s
      → IsExtreme c (n + 1) (extreme_round double c ref n s)
  round-IsExtreme c ref n s h = elim (Bool-cases (is_used (c.table n))) [
    | inr unused ↦ unused-IsExtreme c ref n s unused h
    | inl used ↦ elim (lt_or_le 0 s.c) [
      | inl p ↦ next-IsExtreme c ref n s used p h
      | inr z ↦ elim h [
        | inl (_, before) ↦ first-IsExtreme c ref n s used (omega arith) before
        | inr (p, _, _, _) ↦ absurd (omega arith)
      ]
    ]
  ]

  extreme_loop-IsExtreme :
      (n from : ℕ) (c : Cache F) (ref : F) (s : Extreme F)
      → IsExtreme c from s
      → IsExtreme c (from + n) (extreme_loop double n from c ref s)
  unfolding extreme_loop
  extreme_loop-IsExtreme zero from c ref s h = subst (λ n. IsExtreme c n s) (omega arith) h
  extreme_loop-IsExtreme (suc n) from c ref s h =
      subst
        (λ m.
          IsExtreme c m
            (extreme_loop double n (from + 1) c ref (extreme_round double c ref from s)))
        (omega arith)
        (extreme_loop-IsExtreme n (from + 1) c ref (extreme_round double c ref from s)
          (round-IsExtreme c ref from s h))

  -- With an order of the scores that is total, `cl_get_abs_victim` has seen no slot and then none
  -- is used, or it names the entry of a used slot with the least score, and reports this score and
  -- the greatest of a used slot; all scores of used slots lie between.
  pub get_abs_victim-IsExtreme :
      (c : Cache F) (ref maxscore : F) (ivictim : ℤ)
      → IsExtreme c c.ht_entries (get_abs_victim double c ref maxscore ivictim).0
  unfolding get_abs_victim
  get_abs_victim-IsExtreme c ref maxscore ivictim =
      let start : Extreme F = record {
        minscore = double.of_ℕ 0;
        maxscore = maxscore;
        ivictim = ivictim;
        lt = 0;
        sum = double.of_ℕ 0;
        c = 0;
      } in
      subst (λ n. IsExtreme c n (extreme_loop double c.ht_entries 0 c ref start)) (omega arith)
        (extreme_loop-IsExtreme c.ht_entries 0 c ref start
          (inl (refl, λ j h. absurd (omega arith))))
