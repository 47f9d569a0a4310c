-- ===== src/Regions/Opened.antt =====
-- The steps of the allocation of a new entry by `CMPI_Get`, on the descriptors.
use cla_mpi.Prelude.{
  sym, ℕ, ◌+◌, ◌<◌, ◌≡◌, ◌≢◌, refl, inl, inr, arith, pos, subst, ◌∙◌, ◌>>=◌, update, ap, Option,
  false, none, some, ◌==◌, leb, ltb, Bool-cases, eq_of_test, ne_of_test,
}
use cla_mpi.Cache.{Get, Entry, Cache, busy, u32, int_of}
use cla_mpi.HashTable.{ht_insert}
use cla_mpi.HashTable.Descriptors.{
  ht_insert-Rehashed_here, ht_insert-Rehashed_there, ht_insert-frame,
}
use cla_mpi.Window.{set_entry}
use cla_mpi.Regions.{set_penalty, link}
use cla_mpi.Regions.Allocate.{place_penalties, add_pending, allocate, take_region, next_entry}
use cla_mpi.Regions.Layout.{extent}
use cla_mpi.Regions.Layout.Change.{Kept}
use cla_mpi.Regions.Links.{update_off, update_on, set_entry_here, set_entry_elsewhere}
use cla_mpi.Regions.Split.{sizes}

module _ {F : Type 0} where
  place_penalties_frame :
      (c : Cache F) (new : ℕ) (prev next : Option ℕ)
      → place_penalties c new prev next
        ≡ record c { table = (place_penalties c new prev next).table }
  unfolding place_penalties set_penalty
  place_penalties_frame c new none none = refl
  place_penalties_frame c new none (some n) = refl
  place_penalties_frame c new (some p) none = refl
  place_penalties_frame c new (some p) (some n) =
      elim (Bool-cases (ltb 0 (u32 (c.table_ptr n).offset))) [
        | inl right ↦ rw right refl
        | inr at_start ↦ rw at_start refl
      ]

  -- The new descriptor, as the copy of its data is put off.
  abbrev pub marked : Cache F → ℕ → Entry
  marked c new = record (c.table_ptr new) { pending = pos c.penptr }

  abbrev pub put_off : Cache F → ℕ → ℕ → ℕ → Cache F
  put_off c new origin size = record c {
    table_ptr = update c.table_ptr new (marked c new);
    pending = update c.pending c.penptr (record {
      target_addr = (c.table_ptr new).offset;
      origin_addr = origin;
      entry = (c.table_ptr new).index;
      size = int_of size;
    });
    penptr = c.penptr + 1;
  }

  add_pending_room :
      (c : Cache F) (new origin size : ℕ)
      → c.penptr < 64
      → add_pending c new origin size ≡ some (put_off c new origin size)
  unfolding add_pending set_entry
  add_pending_room c new origin size h = let e : leb 64 c.penptr ≡ false = ground arith in rw e refl

  module _ (d : Cache F) (new : ℕ) (key : Get) (start : ℕ) where
    abbrev opened : Cache F
    opened = set_entry d new (λ e. record e { kind = busy })

    unfoldable pub inserted : Cache F
    inserted = ht_insert opened key start new

    pub inserted_new : inserted.table_ptr new ≡ record (d.table_ptr new) {
      kind = busy;
      get_info = key;
      htindex = (inserted.table_ptr new).htindex;
    }
    unfolding inserted
    inserted_new =
        ht_insert-Rehashed_here opened key start new
        ∙ ap
            (λ (e : Entry). record e { get_info = key; htindex = (inserted.table_ptr new).htindex })
            (set_entry_here d new (λ e. record e { kind = busy }))

    pub inserted_other :
        (i : ℕ)
        → i ≢ new
        → inserted.table_ptr i ≡ record (d.table_ptr i) { htindex = (inserted.table_ptr i).htindex }
    unfolding inserted
    inserted_other i h =
        ht_insert-Rehashed_there opened key start new i h
        ∙ ap (λ (e : Entry). record e { htindex = (inserted.table_ptr i).htindex })
            (set_entry_elsewhere d new i _ h)

    pub inserted_Kept :
        (i : ℕ)
        → Kept d.table_ptr inserted.table_ptr
            (sizes d.table_ptr new key.size)
            (λ j. extent (inserted.table_ptr j))
            i
    inserted_Kept i = elim (Bool-cases (i == new)) [
      | inl here ↦
          subst
            (Kept d.table_ptr inserted.table_ptr (sizes d.table_ptr new key.size)
              (λ j. extent (inserted.table_ptr j)))
            (sym (eq_of_test i new here))
            (record {
              before = ap (λ (e : Entry). e.mprev) inserted_new;
              start = ap (λ (e : Entry). e.offset) inserted_new;
              named = ap (λ (e : Entry). e.index) inserted_new;
              after = ap (λ (e : Entry). e.mnext) inserted_new;
              size =
                  ap extent inserted_new
                  ∙ sym (update_on (λ j. extent (d.table_ptr j)) new new key.size);
            })
      | inr there ↦
          let e = inserted_other i (ne_of_test i new there) in
          record {
            before = ap (λ (e : Entry). e.mprev) e;
            start = ap (λ (e : Entry). e.offset) e;
            named = ap (λ (e : Entry). e.index) e;
            after = ap (λ (e : Entry). e.mnext) e;
            size =
                ap extent e
                ∙ sym (
                    update_off (λ j. extent (d.table_ptr j)) new i key.size
                      (ne_of_test i new there));
          }
    ]

    pub inserted_same : (inserted.mem_size ≡ d.mem_size) × (inserted.penptr ≡ d.penptr)
    unfolding inserted set_entry
    inserted_same = (
      ap (λ (c : Cache F). c.mem_size) (ht_insert-frame opened key start new),
      ap (λ (c : Cache F). c.penptr) (ht_insert-frame opened key start new),
    )

    unfoldable pub placed : Cache F
    placed =
        place_penalties inserted new (link (opened.table_ptr new).mprev) (next_entry opened new)

    pub placed_frame : placed ≡ record inserted { table = placed.table }
    unfolding placed
    placed_frame =
        place_penalties_frame inserted new (link (opened.table_ptr new).mprev)
          (next_entry opened new)

    unfoldable pub finished : ℕ → Cache F
    finished origin =
        let p = put_off placed new origin key.size in
        record p { stat = record p.stat { cached = u32 (p.stat.cached + 1) } }

  module _ (c d : Cache F) (region new : ℕ) (key : Get) (start origin : ℕ) where
    pub finished_steps :
        take_region c region key.size ≡ some (d, new)
        → (placed d new key start).penptr < 64
        → allocate c region key start origin ≡ some (finished d new key start origin)
    unfolding allocate inserted placed finished
    finished_steps e h = rw e (
        ap
          (λ (o : Option (Cache F)). o >>= (λ p.
            some (record p { stat = record p.stat { cached = u32 (p.stat.cached + 1) } })))
          (add_pending_room (placed d new key start) new origin key.size h))
