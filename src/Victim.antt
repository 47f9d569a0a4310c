-- ===== src/Victim.antt =====
-- src/clampi_get.c and src/utils.c: the choice of a victim where there is no space.
pub mod Found
pub mod Least
use cla_mpi.Prelude.{
  ℕ, zero, suc, ◌+◌, ◌%◌, Bool, ◌&&◌, ◌||◌, Option, none, some, ltb, ◌==◌, if◌then◌else◌, ℤ, pos,
  negsuc,
}
use cla_mpi.Cache.{Double, Cache, score}
use cla_mpi.HashTable.{is_used}

-- `CL_MAX_SCAN`
abbrev pub max_scan : ℕ
max_scan = 10

-- The variables of the loop.
pub record Search (F : Type 0) : Type 0 where
  pub i : ℕ
  pub c : ℕ
  pub idx : ℕ
  pub minscore : F
  pub ivictim : ℤ

module _ (double : Double) where
  open double use {F, of_ℕ, le}

  -- The test of the loop.
  abbrev pub goes_on : Cache F → Search F → Bool
  goes_on cache s = (ltb s.i max_scan || s.c == 0) && ltb s.c cache.table_size

  -- A round, with the step to the next slot.
  unfoldable pub search_round : Cache F → Search F → Search F
  search_round cache s =
      let slot = cache.table s.idx in
      let cscore = score double cache slot.lasthit slot.penalty in
      let better = le cscore s.minscore || s.c == 0 in
      let seen = is_used slot in
      record {
        i = s.i + 1;
        c = if seen then s.c + 1 else s.c;
        idx = (s.idx + 1) % cache.ht_entries;
        minscore = if seen && better then cscore else s.minscore;
        ivictim = if seen && better then pos slot.index else s.ivictim;
      }

  -- The loop on fuel; `none` is fuel that has run out.
  unfoldable pub search_loop : ℕ → Cache F → Search F → Option (Search F)
  search_loop zero cache s = none
  search_loop (suc fuel) cache s =
      let rest = search_loop fuel cache (search_round cache s) in
      if goes_on cache s then rest else some s

  -- The loop from a slot. Its rounds are at most those over the whole table and ten more.
  unfoldable pub select_victim : Cache F → ℕ → Option (Search F)
  select_victim cache idx =
      search_loop (cache.ht_entries + max_scan + 1) cache
        (record { i = 0; c = 0; idx = idx; minscore = of_ℕ 0; ivictim = negsuc 0 })
