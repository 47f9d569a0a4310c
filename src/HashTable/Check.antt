-- ===== src/HashTable/Check.antt =====
-- `ht_insert_check`: it answers -1 only if there is room, and otherwise names an entry of the table
-- whose removal makes room, whatever the scores are.
use cla_mpi.Prelude.{
  ℕ, zero, suc, ◌+◌, ◌-◌, ◌%◌, ◌≤◌, ◌<◌, ◌≡◌, refl, ◌⊎◌, inl, inr, true, false, arith, ◌==◌, ap,
  sym, ◌∙◌, Bool-cases, if◌then◌else◌, ℤ, pos, negsuc, ◌||◌,
}
use mathlib.Core.Path.{subst₂}
use cla_mpi.Cache.{Double, Get, Slot, Stats, Cache, score}
use cla_mpi.HashTable.{
  slot_of, is_used, tables, max_insert, next_table, Scan, scan_round, scan_loop, scan_start,
  check_from, ht_insert_check, ht_remove,
}
use cla_mpi.HashTable.Slots.{slot_of_table, Holds, InPlace, next_slot, Reach}
use cla_mpi.HashTable.Insert.{HasRoom}
use cla_mpi.HashTable.Cleared.{OnWalk, walk-Cleared, ht_remove-Cleared}

module _ (double : Double) where
  open double use {F, of_ℕ, lt}

  -- What the loop of the check has found when it stops.
  abbrev Found : Cache F → ℕ → ℕ → ℤ → Scan F → Type 0
  Found c rounds slot old r =
      ((is_used r.victim ≡ false) × ((k : ℕ) × (k ≤ rounds) × Reach c k slot))
      ⊎ ((is_used r.victim ≡ true)
          × ((r.toevict ≡ old)
              ⊎ ((j : ℕ) × (e : ℕ) × (j < rounds)
                  × OnWalk c j slot e
                  × (is_used (c.table e) ≡ true)
                  × (r.toevict ≡ pos (c.table e).index))))

  scan_round_victim :
      (c : Cache F) (s : Scan F) (slot : ℕ)
      → s.victim ≡ c.table slot
      → s.table ≡ slot % tables
      → (scan_round double c s).victim ≡ c.table (next_slot c slot)
  unfolding scan_round
  scan_round_victim c s slot ev et = rw (ev, et)

  scan_round_table :
      (c : Cache F) (s : Scan F) (slot : ℕ)
      → s.table ≡ slot % tables
      → (scan_round double c s).table ≡ next_slot c slot % tables
  unfolding scan_round
  scan_round_table c s slot et = rw et (sym (slot_of_table c.ht_entries _ _ (omega arith)))

  scan_round_toevict :
      (c : Cache F) (s : Scan F)
      → ((scan_round double c s).toevict ≡ s.toevict)
        ⊎ ((scan_round double c s).toevict ≡ pos s.victim.index)
  unfolding scan_round
  scan_round_toevict c s =
      elim (Bool-cases
        (s.count == 0 || lt (score double c s.victim.lasthit s.victim.penalty) s.minscore)) [
          | inl better ↦ inr (rw better)
          | inr worse ↦ inl (rw worse)
        ]

  Found-later :
      (c : Cache F) (n slot : ℕ) (s : Scan F)
      → is_used (c.table slot) ≡ true
      → s.victim ≡ c.table slot
      → (r : Scan F) → Found c n (next_slot c slot) (scan_round double c s).toevict r
      → Found c (suc n) slot s.toevict r
  Found-later c n slot s u ev r (inl (e, (k, h, w))) = inl (e, (suc k, omega arith, (u, w)))
  Found-later c n slot s u ev r (inr (v, inr (j, e, h, w, x, y))) =
      inr (v, inr (suc j, e, omega arith, (u, w), x, y))
  Found-later c n slot s u ev r (inr (v, inl e)) = elim (scan_round_toevict c s) [
    | inl old ↦ inr (v, inl (e ∙ old))
    | inr new ↦
        inr
          (v, inr (0, slot, omega arith, (refl, u), u, e ∙ new ∙ ap (λ (w : Slot). pos w.index) ev))
  ]

  scan_loop-Found :
      (c : Cache F) (rounds : ℕ) (s : Scan F) (slot : ℕ)
      → s.victim ≡ c.table slot
      → s.table ≡ slot % tables
      → Found c rounds slot s.toevict (scan_loop double rounds c s)
  unfolding scan_loop
  scan_loop-Found c zero s slot ev et = elim (Bool-cases (is_used s.victim)) [
    | inl u ↦ inr (u, inl refl)
    | inr e ↦ inl (e, (0, omega arith, rw (← ev) e))
  ]
  scan_loop-Found c (suc n) s slot ev et = elim (Bool-cases (is_used s.victim)) [
    | inr e ↦ rw e (inl (e, (0, omega arith, rw (← ev) e)))
    | inl u ↦
        let v : is_used (c.table slot) ≡ true = rw (← ev) u in
        rw u (
          Found-later c n slot s v ev (scan_loop double n c (scan_round double c s)) (
            scan_loop-Found c n (scan_round double c s) (next_slot c slot)
              (scan_round_victim c s slot ev et) (scan_round_table c s slot et)))
  ]

  -- What the check answers for a key: there is room, or there is once an entry has gone.
  abbrev pub Verdict : Get → ℕ → Cache F → ℤ → Type 0
  Verdict key t c d =
      ((d ≡ negsuc 0) × HasRoom c key t)
      ⊎ ((i : ℕ) × (d ≡ pos i) × Holds c i × HasRoom (ht_remove c i) key t)

  -- The statistics have no part in it.
  Reach-stat :
      (c : Cache F) (st : Stats) (k s : ℕ) → Reach c k s → Reach (record c { stat = st }) k s
  Reach-stat c st zero s r = r
  Reach-stat c st (suc k) s r = (r.0, Reach-stat c st k _ r.1)

  HasRoom-stat :
      (c : Cache F) (st : Stats) (key : Get) (t : ℕ)
      → HasRoom c key t
      → HasRoom (record c { stat = st }) key t
  HasRoom-stat c st key t (inl e) = inl e
  HasRoom-stat c st key t (inr (k, h, r)) = inr (k, h, Reach-stat c st k _ r)

  Verdict-stat :
      (c : Cache F) (st : Stats) (key : Get) (t : ℕ) (d : ℤ)
      → Verdict key t c d
      → Verdict key t (record c { stat = st }) d
  Verdict-stat c st key t d (inl (e, r)) = inl (e, HasRoom-stat c st key t r)
  Verdict-stat c st key t d (inr (i, e, h, r)) = inr (
    i,
    e,
    record { slot = h.slot; used = h.used; index = h.index },
    unfold ht_remove in HasRoom-stat (ht_remove c i) st key t r,
  )

  Found-Verdict :
      (c : Cache F) (key : Get) (t : ℕ) (r : Scan F)
      → InPlace c
      → let first = slot_of c.ht_entries key t in
        is_used (c.table first) ≡ true
        → Found c max_insert (slot_of c.ht_entries key (next_table t)) (pos (c.table first).index) r
        → Verdict key t c (if is_used r.victim then r.toevict else negsuc 0)
  unfolding ht_remove
  Found-Verdict c key t r o u (inl (e, (k, h, w))) = rw e (inl (refl, inr (k, h, w)))
  Found-Verdict c key t r o u (inr (v, inl e)) =
      let first = slot_of c.ht_entries key t in
      rw v (
        inr (
          (c.table first).index,
          e,
          record { slot = first; used = u; index = refl },
          inl (rw (ht_remove-Cleared c first o u).htsize (ht_remove-Cleared c first o u).gone),
        ))
  Found-Verdict c key t r o u (inr (v, inr (j, e, h, w, x, y))) =
      let d = ht_remove-Cleared c e o x in
      let (k, n, q) = walk-Cleared c (ht_remove c (c.table e).index) j _ e d w in
      rw v (
        inr (
          (c.table e).index,
          y,
          record { slot = e; used = x; index = refl },
          inr (k, omega arith, rw d.htsize q),
        ))

  start_free :
      (c : Cache F) (key : Get) (t : ℕ)
      → is_used (c.table (slot_of c.ht_entries key t)) ≡ false
      → ((scan_start double c key t).victim ≡ c.table (slot_of c.ht_entries key t))
        × ((scan_start double c key t).count ≡ 0)
  unfolding scan_start
  start_free c key t e = (rw e, rw e)

  start_conflict :
      (c : Cache F) (key : Get) (t : ℕ)
      → is_used (c.table (slot_of c.ht_entries key t)) ≡ true
      → let s = scan_start double c key t in
        (s.victim ≡ c.table (slot_of c.ht_entries key (next_table t)))
        × (s.count ≡ 1)
        × (s.table ≡ next_table t)
        × (s.toevict ≡ pos (c.table (slot_of c.ht_entries key t)).index)
  unfolding scan_start
  start_conflict c key t e = (rw e, rw e, rw e, rw e)

  check_free :
      (c : Cache F) (s : Scan F)
      → s.count ≡ 0
      → is_used s.victim ≡ false
      → (check_from double c s).1 ≡ negsuc 0
  unfolding check_from scan_loop
  check_free c s z e = rw (z, e) (rw e)

  check_room :
      (c : Cache F) (s : Scan F) (key : Get) (t : ℕ)
      → HasRoom c key t
      → HasRoom (check_from double c s).0 key t
  unfolding check_from
  check_room c s key t h = HasRoom-stat c (check_from double c s).0.stat key t h

  check_conflict :
      (c : Cache F) (key : Get) (t : ℕ) (s : Scan F)
      → InPlace c
      → is_used (c.table (slot_of c.ht_entries key t)) ≡ true
      → s.victim ≡ c.table (slot_of c.ht_entries key (next_table t))
      → s.count ≡ 1
      → s.table ≡ next_table t
      → s.toevict ≡ pos (c.table (slot_of c.ht_entries key t)).index
      → Verdict key t (check_from double c s).0 (check_from double c s).1
  unfolding check_from
  check_conflict c key t s o u ev ec et ee =
      let rounds : max_insert + 1 - s.count ≡ 10 = omega arith in
      let first = slot_of c.ht_entries key (next_table t) in
      let table : s.table ≡ first % tables =
        et ∙ sym (slot_of_table c.ht_entries key (next_table t) (omega arith)) in
      let f = scan_loop-Found c (max_insert + 1 - s.count) s first ev table in
      Verdict-stat c (check_from double c s).0.stat key t _ (
        Found-Verdict c key t (scan_loop double (max_insert + 1 - s.count) c s) o u (
          subst₂ (λ n d. Found c n first d (scan_loop double (max_insert + 1 - s.count) c s)) rounds
            ee f))

  -- For a table in which each used slot is a place of its entry and the entry knows it,
  -- `ht_insert_check` is right whatever the scores are: where it answers -1 there is room for the
  -- key, and otherwise it names an entry of the table whose removal by `ht_remove` makes room.
  pub ht_insert_check-Verdict :
      (c : Cache F) (key : Get) (t : ℕ)
      → InPlace c
      → let r = ht_insert_check double c key t in Verdict key t r.0 r.1
  unfolding ht_insert_check
  ht_insert_check-Verdict c key t o =
      elim (Bool-cases (is_used (c.table (slot_of c.ht_entries key t)))) [
        | inr first ↦
            let (ev, ec) = start_free c key t first in
            inl (check_free c _ ec (rw ev first), check_room c _ key t (inl first))
        | inl conflict ↦
            let (ev, ec, et, ee) = start_conflict c key t conflict in
            check_conflict c key t _ o conflict ev ec et ee
      ]
