-- ===== src/Regions/Evict.antt =====
-- src/clampi_get.c: the eviction of an entry. Its region, with the free ones around it, becomes one
-- free region. `none` is a failed assertion or an `exit`.
use cla_mpi.Prelude.{
  ◌>>=◌, ℕ, ◌+◌, ◌-◌, ◌^◌, Bool, true, false, ◌&&◌, ◌||◌, not, Option, none, some, negsuc, leb,
  if◌then◌else◌,
}
use cla_mpi.Cache.{free, size_of, set_size, Cache, u16, u32}
use cla_mpi.HashTable.{ht_remove}
use cla_mpi.Window.{set_entry}
use cla_mpi.Regions.{Merge, set_penalty, merge_prev, merge_next, insert_region}

module _ {F : Type 0} where
  -- The penalties of the neighbours of an evicted entry, on 16 bits; the differences of 64-bit
  -- offsets are taken with the modulus added, which the 16 bits do not show.
  unfoldable pub update_penalties : Cache F → ℕ → Option ℕ → Option ℕ → Cache F
  update_penalties c victim (some prev) (some next) =
      let v = c.table_ptr victim in
      let p = c.table_ptr prev in
      let n = c.table_ptr next in
      let ppen = n.offset + 2 ^ 64 - v.offset in
      let npen = v.offset + size_of v + 2 ^ 64 - (p.offset + p.get_info.size) in
      set_penalty (set_penalty c prev (λ x. u16 (x + ppen))) next (λ x. u16 (x + npen))
  update_penalties c victim (some prev) none =
      let v = c.table_ptr victim in
      let p = c.table_ptr prev in
      let lost = u16 (v.offset + 2 ^ 64 - p.offset + p.get_info.size) in
      set_penalty c prev (λ x. u16 (x + 2 ^ 16 - lost))
  update_penalties c victim none (some next) =
      set_penalty c next (λ x. u16 (x + size_of (c.table_ptr victim)))
  update_penalties c victim none none = c

  -- The new free region is the place of the new entry if it is large enough and there was none, or
  -- if it has grown out of the selected one; otherwise it goes to the tree.
  unfoldable pub choose_region : Merge F → Option ℕ → ℕ → Option (Cache F × Option ℕ)
  choose_region m selected size =
      let none_selected : Bool = elim selected [ none ↦ true | some i ↦ false ] in
      if none_selected && leb size (size_of (m.cache.table_ptr m.region)) || not m.to_index
      then some (m.cache, some m.region)
      else do c ← insert_region m.cache m.region; some (c, selected)

  -- The eviction of an entry, from `victim->size = victim->get_info.size` to `victim->pending = -1`;
  -- the cache, and the region that is selected now.
  unfoldable pub evict : Cache F → ℕ → Option ℕ → ℕ → Option (Cache F × Option ℕ)
  evict c victim selected size =
      let v = c.table_ptr victim in
      let counted = record c {
        stat = record c.stat { evicted_size = u32 (c.stat.evicted_size + v.get_info.size) };
      } in
      let sized = set_entry counted victim (λ e. set_size e e.get_info.size) in
      do
        p ← merge_prev sized victim selected
        n ← merge_next p.cache p.region p.to_index selected
        let freed = record n { cache = set_entry n.cache n.region (λ e. record e { kind = free }) }
        (d, selected') ← choose_region freed selected size
        let removed = ht_remove (update_penalties d victim p.neighbour n.neighbour) victim
        some (set_entry removed victim (λ e. record e { pending = negsuc 0 }), selected')
