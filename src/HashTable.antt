-- ===== src/HashTable.antt =====
-- src/ht.h: the cuckoo hash table with four tables, as the configuration of the header selects it
-- (CUCKOO_HASHING), with statistics (CL_STATS) and without debugging output. The four tables share
-- one array: entry `k` of table `t` is at `4 k + t`.
pub mod Slots
pub mod Walk
pub mod Place
pub mod Insert
pub mod Cleared
pub mod Check
pub mod Descriptors
pub mod Lookup
pub mod Exchange
pub mod Map
use cla_mpi.Prelude.{
  ℕ, zero, suc, ◌+◌, ◌-◌, ◌*◌, ◌/◌, ◌%◌, ◌^◌, ◌<◌, ◌≡◌, refl, Bool, true, false, ◌&&◌, ◌||◌, Option,
  none, some, arith, ℤ, pos, negsuc, ltb, leb, ◌==◌, if◌then◌else◌, update,
}
use cla_mpi.Cache.{Double, Get, Slot, Entry, Cache, u32, u64, sign_extend, score}

-- `CL_CUCKOO_TABLES` and `CL_CUCKOO_MAX_INSERT`
abbrev pub tables : ℕ
tables = 4

abbrev pub max_insert : ℕ
max_insert = 10

-- `a[table]` in `CMPI_HASH`
unfoldable pub multiplier : ℕ → ℕ
multiplier t = if t == 0 then 33 else if t == 1 then 5 else if t == 2 then 51 else 19

-- `CMPI_HASH`
unfoldable pub hash : ℕ → Get → ℕ → ℕ
unfolding multiplier
hash t o htsize =
    let a = multiplier t in
    let h0 : ℕ = 5381 in
    let h1 = u64 (h0 * a + sign_extend o.rank) in
    let h2 = u64 (h1 * a + sign_extend o.addr) in
    let h3 = u64 (h2 * a + o.size) in h3 % (htsize / tables)

-- `hkey*CL_CUCKOO_TABLES + table`
unfoldable pub slot_of : ℕ → Get → ℕ → ℕ
slot_of htsize o t = hash t o htsize * tables + t

-- `(table + 1) % CL_CUCKOO_TABLES`
abbrev pub next_table : ℕ → ℕ
next_table t = (t + 1) % tables

abbrev pub is_used : Slot → Bool
is_used s = ltb 0 s.lasthit

abbrev pub same_get : Get → Get → Bool
same_get a b = a.rank == b.rank && a.addr == b.addr && a.size == b.size

-- The variables of the loop of `ht_insert_check`.
pub record Scan (F : Type 0) : Type 0 where
  pub victim : Slot
  pub toevict : ℤ
  pub minscore : F
  pub table : ℕ
  pub count : ℕ

module _ (double : Double) where
  open double use {F, of_ℕ, lt}

  -- One round of that loop.
  unfoldable pub scan_round : Cache F → Scan F → Scan F
  scan_round c s =
      let rvictim = c.table_ptr s.victim.index in
      let cscore = score double c s.victim.lasthit s.victim.penalty in
      let better = s.count == 0 || lt cscore s.minscore in
      let t = next_table s.table in
      record {
        victim = c.table (slot_of c.ht_entries rvictim.get_info t);
        toevict = if better then pos s.victim.index else s.toevict;
        minscore = if better then cscore else s.minscore;
        table = t;
        count = s.count + 1;
      }

  -- `while (victim.lasthit>0 && count<=CL_CUCKOO_MAX_INSERT)`, from `count = max_insert + 1 - rounds`:
  -- at `rounds = 0` the second test fails.
  unfoldable pub scan_loop : ℕ → Cache F → Scan F → Scan F
  unfolding scan_round
  scan_loop zero c s = s
  scan_loop (suc rounds) c s =
      let rest = scan_loop rounds c (scan_round c s) in if is_used s.victim then rest else s

  -- The variables before the loop: the first table, and on a conflict there the next one.
  unfoldable pub scan_start : Cache F → Get → ℕ → Scan F
  scan_start c key t =
      let first = c.table (slot_of c.ht_entries key t) in
      let t' = next_table t in
      if is_used first
      then record {
        victim = c.table (slot_of c.ht_entries key t');
        toevict = pos first.index;
        minscore = score double c first.lasthit first.penalty;
        table = t';
        count = 1;
      }
      else record { victim = first; toevict = negsuc 0; minscore = of_ℕ 0; table = t; count = 0 }

  -- The loop, and the answer: the number of rounds goes to the statistics.
  unfoldable pub check_from : Cache F → Scan F → Cache F × ℤ
  check_from c start =
      let s = scan_loop (max_insert + 1 - start.count) c start in
      (
        record c { stat = record c.stat { last_ht_scan = u32 (s.count + 2 ^ 32 - 1) } },
        if is_used s.victim then s.toevict else negsuc 0,
      )

  -- `ht_insert_check`: the descriptor to evict, or -1 if there is room.
  unfoldable pub ht_insert_check : Cache F → Get → ℕ → Cache F × ℤ
  ht_insert_check c key t = check_from c (scan_start c key t)

module _ {F : Type 0} where
  -- One round of the loop of `ht_insert`: the victim goes to its place in table `t`.
  unfoldable pub displace : Cache F → Slot → ℕ → Cache F
  displace c victim t =
      let rvictim = c.table_ptr victim.index in
      let place = slot_of c.ht_entries rvictim.get_info t in
      record c {
        table = update c.table place victim;
        table_ptr = update c.table_ptr victim.index (record rvictim { htindex = place });
      }

  -- The loop of `ht_insert`, with the same bound; the slot that it returns is the last `victim`.
  unfoldable pub insert_loop : ℕ → Cache F → Slot → ℕ → Cache F × Slot
  unfolding displace
  insert_loop zero c victim t = (c, victim)
  insert_loop (suc rounds) c victim t =
      let t' = next_table t in
      let newvictim = c.table (slot_of c.ht_entries (c.table_ptr victim.index).get_info t') in
      let rest = insert_loop rounds (displace c victim t') newvictim t' in
      if is_used victim then rest else (c, victim)

  -- The first swap of `ht_insert`: the new entry goes to its place in table `t`.
  unfoldable pub place_entry : Cache F → Get → ℕ → ℕ → Cache F
  place_entry c newget t entry =
      let e = c.table_ptr entry in
      let place = slot_of c.ht_entries newget t in
      record c {
        table_size = u32 (c.table_size + 1);
        table =
            update c.table place (record (c.table place) { index = e.index; lasthit = c.getcount });
        table_ptr = update c.table_ptr entry (record e { get_info = newget; htindex = place });
      }

  -- `ht_insert`, with the slot that its loop leaves over.
  unfoldable pub insert_rest : Cache F → Get → ℕ → ℕ → Cache F × Slot
  insert_rest c newget t entry =
      let conflict = is_used (c.table (slot_of c.ht_entries newget t)) in
      let count : ℕ = if conflict then 1 else 0 in
      let t' = if conflict then next_table t else t in
      let victim = c.table (slot_of c.ht_entries newget t') in
      insert_loop (max_insert + 1 - count) (place_entry c newget t' entry) victim t'

  -- `ht_insert`
  unfoldable pub ht_insert : Cache F → Get → ℕ → ℕ → Cache F
  ht_insert c newget t entry = (insert_rest c newget t entry).0

  -- `for (int i = from; i < CL_CUCKOO_TABLES; i++)`, with `n = CL_CUCKOO_TABLES - from`.
  unfoldable pub lookup_from : ℕ → ℕ → Cache F → Get → Cache F × Option ℕ
  lookup_from zero i c key = (c, none)
  lookup_from (suc n) i c key =
      let place = slot_of c.ht_entries key i in
      let s = c.table place in
      let rest = lookup_from n (i + 1) c key in
      if is_used s && same_get (c.table_ptr s.index).get_info key
      then (
        record c { table = update c.table place (record s { lasthit = c.getcount }) },
        some s.index,
      )
      else rest

  -- `ht_lookup`
  unfoldable pub ht_lookup : Cache F → Get → Cache F × Option ℕ
  ht_lookup c key = lookup_from tables 0 c key

  -- `ht_remove`
  unfoldable pub ht_remove : Cache F → ℕ → Cache F
  ht_remove c entry =
      let place = (c.table_ptr entry).htindex in
      record c {
        table = update c.table place (record (c.table place) { lasthit = 0 });
        table_size = u32 (c.table_size + 2 ^ 32 - 1);
      }
