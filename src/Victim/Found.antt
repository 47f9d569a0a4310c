-- ===== src/Victim/Found.antt =====
-- The scan for a victim ends, and what it finds is in the hash table.
use cla_mpi.Prelude.{
  ℕ, zero, suc, ◌+◌, ◌-◌, ◌%◌, ◌≤◌, ◌<◌, ◌≡◌, refl, ◌⊎◌, inl, inr, true, false, ◌||◌, some, arith,
  sym, ◌∙◌, ap, subst, ◌==◌, pos, negsuc, lt_or_le, Bool-cases,
}
use native.Mathlib.Nat.{mod-add-mod, mod-eq_of_lt, add-mod_right}
use cla_mpi.Cache.{Double, Cache, score}
use cla_mpi.HashTable.{is_used}
use cla_mpi.Victim.{max_scan, Search, goes_on, search_round, search_loop, select_victim}

module _ (double : Double) where
  open double use {F, of_ℕ, le}

  -- What the scan has found, if it has seen a used slot.
  abbrev Seen : Cache F → Search F → Type 0
  Seen cache s =
      (s.idx < cache.ht_entries)
      × (((s.c ≡ 0) × (s.ivictim ≡ negsuc 0))
          ⊎ ((0 < s.c)
              × ((u : ℕ) × (u < cache.ht_entries)
                  × (is_used (cache.table u) ≡ true)
                  × (s.ivictim ≡ pos (cache.table u).index))))

  -- The scan has seen a used slot, or one is ahead that the fuel reaches.
  abbrev Ahead : Cache F → ℕ → Search F → Type 0
  Ahead cache fuel s =
      (0 < s.c)
      ⊎ ((d : ℕ) × (d + 1 < fuel) × (is_used (cache.table ((s.idx + d) % cache.ht_entries)) ≡ true))

  search_round-Seen :
      (cache : Cache F) (s : Search F) → Seen cache s → Seen cache (search_round double cache s)
  unfolding search_round
  search_round-Seen cache s (h, found) =
      let slot = cache.table s.idx in
      let better = le (score double cache slot.lasthit slot.penalty) s.minscore || s.c == 0 in
      (
        omega arith,
        elim (Bool-cases (is_used slot)) [
          | inr unused ↦ rw unused found
          | inl used ↦ elim (Bool-cases better) [
            | inl least ↦ rw (used, least) (inr (omega arith, (s.idx, h, used, refl)))
            | inr worse ↦
                rw (used, worse)
                  (elim found [
                    | inl (z, _) ↦ absurd (ground arith)
                    | inr (p, found') ↦ inr (omega arith, found')
                  ])
          ]
        ],
      )

  search_round-Ahead :
      (cache : Cache F) (fuel : ℕ) (s : Search F)
      → s.idx < cache.ht_entries
      → Ahead cache (suc fuel) s
      → Ahead cache fuel (search_round double cache s)
  unfolding search_round
  search_round-Ahead cache fuel s h (inl p) = inl (ground arith)
  search_round-Ahead cache fuel s h (inr (zero, k, u)) =
      let here : (s.idx + 0) % cache.ht_entries ≡ s.idx =
        ap (λ v. v % cache.ht_entries) (omega arith) ∙ mod-eq_of_lt h in
      let v = subst (λ v. is_used (cache.table v) ≡ true) here u in inl (ground (arith, v))
  search_round-Ahead cache fuel s h (inr (suc d, k, u)) = inr (
    d,
    omega arith,
    subst (λ v. is_used (cache.table v) ≡ true)
        (sym (
          mod-add-mod (s.idx + 1) cache.ht_entries d
          ∙ ap (λ v. v % cache.ht_entries) (omega arith)))
        u,
  )

  -- What the fuel has to be good for.
  abbrev Enough : ℕ → Cache F → Search F → Type 0
  Enough fuel cache s =
      (max_scan < s.i + fuel) × (0 < fuel) × ((cache.table_size ≡ 0) ⊎ Ahead cache fuel s)

  search_round-Enough :
      (fuel : ℕ) (cache : Cache F) (s : Search F)
      → s.idx < cache.ht_entries
      → goes_on double cache s ≡ true
      → Enough (suc fuel) cache s
      → Enough fuel cache (search_round double cache s)
  search_round-Enough fuel cache s h on (m, p, inl z) = absurd (ground arith)
  search_round-Enough fuel cache s h on (m, p, inr a) = (
    unfold search_round in omega arith,
    elim a [ inl seen ↦ ground arith | inr (d, k, u) ↦ omega arith ],
    inr (search_round-Ahead cache fuel s h a),
  )

  -- With enough fuel the loop stops, and not before its test says so.
  search_loop-ends :
      (fuel : ℕ) (cache : Cache F) (s : Search F)
      → Enough fuel cache s
      → Seen cache s
      → (r : Search F) × (search_loop double fuel cache s ≡ some r)
        × Seen cache r
        × (goes_on double cache r ≡ false)
  unfolding search_loop
  search_loop-ends zero cache s (m, p, a) seen = absurd (omega arith)
  search_loop-ends (suc fuel) cache s enough seen =
      let round : Search F = search_round double cache s in
      elim (Bool-cases (goes_on double cache s)) [
        | inr stop ↦ (s, rw stop refl, seen, stop)
        | inl on ↦
            let (r, e, seen', stop) =
              search_loop-ends fuel cache round (search_round-Enough fuel cache s seen.0 on enough)
                (search_round-Seen cache s seen) in
            (r, rw on e, seen', stop)
      ]

  -- What the scan of a table answers.
  pub record Chosen (cache : Cache F) (s : Search F) : Type 0 where
    pub victim :
        0 < cache.table_size
        → (u : ℕ) × (u < cache.ht_entries)
          × (is_used (cache.table u) ≡ true)
          × (s.ivictim ≡ pos (cache.table u).index)
    pub sample : (0 < cache.table_size) → (0 < s.c) × ((max_scan ≤ s.i) ⊎ (cache.table_size ≤ s.c))

  Seen-Chosen :
      (cache : Cache F) (s : Search F)
      → Seen cache s
      → goes_on double cache s ≡ false
      → Chosen cache s
  Seen-Chosen cache s (h, inl (z, e)) stop = record {
    victim = λ p. absurd (ground arith);
    sample = λ p. absurd (ground arith);
  }
  Seen-Chosen cache s (h, inr (p, found)) stop = record {
    victim = λ _. found;
    sample = λ _. (p, ground arith);
  }

  -- The rounds from one slot to another.
  distance : (n idx u : ℕ) → idx < n → u < n → (d : ℕ) × (d < n) × ((idx + d) % n ≡ u)
  distance n idx u h k = elim (lt_or_le u idx) [
    | inr after ↦ (u - idx, omega arith, ap (λ v. v % n) (omega arith) ∙ mod-eq_of_lt k)
    | inl before ↦ (
      u + n - idx,
      omega arith,
      ap (λ v. v % n) (omega arith) ∙ add-mod_right u n ∙ mod-eq_of_lt k,
    )
  ]

  begin_Enough :
      (cache : Cache F) (s : Search F) (u : ℕ)
      → s.i ≡ 0
      → s.idx < cache.ht_entries
      → (0 < cache.table_size → (u < cache.ht_entries) × (is_used (cache.table u) ≡ true))
      → Enough (cache.ht_entries + max_scan + 1) cache s
  begin_Enough cache s u z h w = elim (lt_or_le 0 cache.table_size) [
    | inr nothing ↦ (omega arith, omega arith, inl (omega arith))
    | inl more ↦
        let (d, k, e) = distance cache.ht_entries s.idx u h (w more).0 in
        (
          omega arith,
          omega arith,
          inr (
              inr (d, omega arith, subst (λ v. is_used (cache.table v) ≡ true) (sym e) (w more).1)),
        )
  ]

  -- From a slot of the table, and if a table that is counted as not empty has a used slot, the
  -- scan for a victim ends; where the table is not counted as empty it names the entry of a used
  -- slot, and it stops only after ten rounds or when it has seen as many used slots as are
  -- counted.
  pub select_victim-Chosen :
      (cache : Cache F) (idx u : ℕ)
      → idx < cache.ht_entries
      → (0 < cache.table_size → (u < cache.ht_entries) × (is_used (cache.table u) ≡ true))
      → (s : Search F) × (select_victim double cache idx ≡ some s) × Chosen cache s
  unfolding select_victim
  select_victim-Chosen cache idx u h w =
      let start : Search F = record {
        i = 0;
        c = 0;
        idx = idx;
        minscore = of_ℕ 0;
        ivictim = negsuc 0;
      } in
      let (r, e, seen, stop) =
        search_loop-ends (cache.ht_entries + max_scan + 1) cache start
          (begin_Enough cache start u refl h w) (h, inl (refl, refl)) in
      (r, e, Seen-Chosen cache r seen stop)
