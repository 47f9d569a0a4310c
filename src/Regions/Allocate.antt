-- ===== src/Regions/Allocate.antt =====
-- src/clampi_get.c: the allocation of a new entry in a free region that is large enough.
use cla_mpi.Prelude.{
  ◌>>=◌, ℕ, ◌+◌, ◌-◌, ◌^◌, Option, none, some, pos, ltb, leb, ◌==◌, if◌then◌else◌, update,
}
use cla_mpi.Cache.{Get, busy, size_of, set_size, Pending, Cache, u16, u32, int_of}
use cla_mpi.HashTable.{ht_insert}
use cla_mpi.Window.{new_centry, set_entry}
use cla_mpi.Regions.{is_free, link, set_penalty, set_mnext, insert_region}

module _ {F : Type 0} where
  -- A region that is larger than the new entry is split: a new descriptor takes its left part.
  unfoldable pub split_links : Cache F → ℕ → ℕ → Cache F × ℕ
  split_links c region size =
      let (new, d) = new_centry c in
      let r = d.table_ptr region in
      let a = set_entry d new (λ e. record e { mnext = pos r.index }) in
      let b = set_mnext a r.mprev (a.table_ptr new).index in
      let e = set_entry b new (λ e. record e { mprev = (b.table_ptr region).mprev }) in
      let f = set_entry e region (λ q. record q { mprev = pos (e.table_ptr new).index }) in
      let g = set_entry f new (λ e. record e { offset = (f.table_ptr region).offset }) in
      let h =
        set_entry g region
          (λ q. set_size (record q { offset = q.offset + size }) (size_of q - size)) in
      (h, new)

  unfoldable pub split_region : Cache F → ℕ → ℕ → Option (Cache F × ℕ)
  split_region c region size = do
    let (h, new) = split_links c region size
    i ← insert_region h region
    some (i, new)

  -- The descriptor of the new entry: the region itself if it fits exactly.
  unfoldable pub take_region : Cache F → ℕ → ℕ → Option (Cache F × ℕ)
  take_region c region size =
      if size_of (c.table_ptr region) == size then some (c, region) else split_region c region size

  -- The next entry behind a new one: a free region is passed over.
  unfoldable pub next_entry : Cache F → ℕ → Option ℕ
  next_entry c new = do
    next ← link (c.table_ptr new).mnext
    if is_free (c.table_ptr next) then link (c.table_ptr next).mnext else some next

  -- The penalties around a new entry.
  unfoldable pub place_penalties : Cache F → ℕ → Option ℕ → Option ℕ → Cache F
  place_penalties c new prev next =
      let cleared = set_penalty c new (λ _. 0) in
      let e = cleared.table_ptr new in
      let left : Cache F = elim next [
        | none ↦ cleared
        | some n ↦
            set_penalty (set_penalty cleared n (λ x. u16 (x + 2 ^ 16 - u16 e.get_info.size))) new
              (λ _. u16 ((cleared.table_ptr n).offset + 2 ^ 64 - (e.offset + e.get_info.size)))
      ] in
      let rightend : ℕ = elim next [ none ↦ 0 | some n ↦ u32 (cleared.table_ptr n).offset ] in
      elim prev [
        | none ↦ left
        | some p ↦
            if ltb 0 rightend
            then set_penalty left p (λ x. u16 (x + 2 ^ 16 - u16 (rightend + 2 ^ 64 - e.offset)))
            else left
      ]

  -- The copy into the buffer is put off to the next flush: `CL_PENDING_STACK` is 64.
  unfoldable pub add_pending : Cache F → ℕ → ℕ → ℕ → Option (Cache F)
  add_pending c new origin size =
      if leb 64 c.penptr
      then none
      else (let e = c.table_ptr new in
          let t : Pending = record {
            target_addr = e.offset;
            origin_addr = origin;
            entry = e.index;
            size = int_of size;
          } in
          let marked = set_entry c new (λ e. record e { pending = pos c.penptr }) in
          some (record marked { pending = update c.pending c.penptr t; penptr = c.penptr + 1 }))

  -- From `We found some space` to the end of `CMPI_Get`.
  unfoldable pub allocate : Cache F → ℕ → Get → ℕ → ℕ → Option (Cache F)
  allocate c region key start_table origin = do
    (d, new) ← take_region c region key.size
    let taken = set_entry d new (λ e. record e { kind = busy })
    let prev = link (taken.table_ptr new).mprev
    let next = next_entry taken new
    let placed = place_penalties (ht_insert taken key start_table new) new prev next
    p ← add_pending placed new origin key.size
    some (record p { stat = record p.stat { cached = u32 (p.stat.cached + 1) } })
