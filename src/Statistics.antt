-- ===== src/Statistics.antt =====
-- src/utils.c: what the library reports of a cache, `cl_get_stats` and `cl_get_abs_victim`, and its
-- random numbers, `fast_srand` and `fast_rand` (CL_FASTRAND).
pub mod Entries
pub mod Extremes
use cla_mpi.Prelude.{
  ℕ, zero, suc, ◌+◌, ◌-◌, ◌*◌, ◌/◌, ◌%◌, ◌^◌, Bool, ◌&&◌, ◌||◌, ltb, ◌==◌, if◌then◌else◌, ℤ, pos,
  negsuc, sub_ℕ, pos_part, neg_part,
}
use cla_mpi.Avl.Pool.{count_nodes}
use cla_mpi.Cache.{Double, Stats, Cache, u32, u64, score}
use cla_mpi.HashTable.{is_used}

-- `cl_stats_full`
pub record StatsFull (F : Type 0) : Type 0 where
  pub base : Stats
  pub entries : ℤ
  pub free_regions : ℤ
  pub total : ℕ
  pub htsize : ℤ
  pub mem_size : ℤ
  pub load_factor : F
  pub mms : F
  pub directs : ℕ

-- The conversion of a 32-bit pattern to `int`.
abbrev pub to_int : ℕ → ℤ
to_int n = if ltb n (2 ^ 31) then pos n else sub_ℕ n (2 ^ 32)

-- `(CL_HT_ENTRIES(cache)*2 - cache->next_free_entry) - stats->free_regions`, on unsigned numbers.
unfoldable pub count_entries : ℕ → ℕ → ℤ → ℤ
count_entries htsize next_free free_regions =
    let used = u32 (htsize * 2 + 2 ^ 32 - next_free) in
    to_int (u32 (used + neg_part free_regions + 2 ^ 32 - u32 (pos_part free_regions)))

-- The seed after a number has been drawn, and the number.
unfoldable pub fast_rand : ℕ → ℕ × ℕ
fast_rand seed = let seed' = u64 (214013 * seed + 2531011) in (seed', seed' / 2 ^ 16 % 2 ^ 15)

-- The results of `cl_get_abs_victim`, and the number of slots that it has seen.
pub record Extreme (F : Type 0) : Type 0 where
  pub minscore : F
  pub maxscore : F
  pub ivictim : ℤ
  pub lt : ℕ
  pub sum : F
  pub c : ℕ

module _ (double : Double) where
  open double use {F, of_ℕ, add, div, opp, lt, le}

  -- The conversion of an `int` to `double`.
  abbrev of_ℤ : ℤ → F
  of_ℤ (pos n) = of_ℕ n
  of_ℤ (negsuc n) = opp (of_ℕ (n + 1))

  -- `cl_get_stats`, from what the caller's record holds.
  unfoldable pub get_stats : Cache F → StatsFull F → StatsFull F
  get_stats cache stats =
      let free_regions = count_nodes cache.free_idx in
      let entries = count_entries cache.ht_entries cache.next_free_entry free_regions in
      record stats {
        base = cache.stat;
        free_regions = free_regions;
        entries = entries;
        load_factor = div (of_ℤ entries) (of_ℕ cache.ht_entries);
        total = cache.getcount;
        mms = cache.mms;
      }

  -- A round of the loop of `cl_get_abs_victim`.
  unfoldable pub extreme_round : Cache F → F → ℕ → Extreme F → Extreme F
  extreme_round cache ref i s =
      let slot = cache.table i in
      let cscore = score double cache slot.lasthit slot.penalty in
      let least = le cscore s.minscore || s.c == 0 in
      if is_used slot
      then record {
        minscore = if least then cscore else s.minscore;
        ivictim = if least then pos slot.index else s.ivictim;
        maxscore = if lt s.maxscore cscore || s.c == 0 then cscore else s.maxscore;
        lt = if lt cscore ref then s.lt + 1 else s.lt;
        sum = add s.sum cscore;
        c = s.c + 1;
      }
      else s

  -- The slots `from`, …, `from + n - 1`.
  unfoldable pub extreme_loop : ℕ → ℕ → Cache F → F → Extreme F → Extreme F
  extreme_loop zero from cache ref s = s
  extreme_loop (suc n) from cache ref s =
      extreme_loop n (from + 1) cache ref (extreme_round cache ref from s)

  -- `cl_get_abs_victim`, with what the caller's variables hold; the average comes second.
  unfoldable pub get_abs_victim : Cache F → F → F → ℤ → Extreme F × F
  get_abs_victim cache ref maxscore ivictim =
      let start : Extreme F = record {
        minscore = of_ℕ 0;
        maxscore = maxscore;
        ivictim = ivictim;
        lt = 0;
        sum = of_ℕ 0;
        c = 0;
      } in
      let s = extreme_loop cache.ht_entries 0 cache ref start in (s, div s.sum (of_ℕ s.c))
