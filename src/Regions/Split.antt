-- ===== src/Regions/Split.antt =====
-- The split of a free region of `CMPI_Get`, on the list of regions.
use cla_mpi.Prelude.{
  sym, ℕ, ◌+◌, ◌-◌, ◌≤◌, ◌<◌, ◌≡◌, ◌≢◌, ◌^◌, inl, inr, arith, pos, ◌∙◌, update, ap,
}
use cla_mpi.Cache.{Entry, Cache, size_of, set_size, free, size_of-set_size}
use cla_mpi.Window.{set_entry}
use cla_mpi.Regions.{set_mnext}
use cla_mpi.Regions.Layout.{extent}
use cla_mpi.Regions.Layout.Edit.{Divided}
use cla_mpi.Regions.Layout.Change.{Redirected}
use cla_mpi.Regions.Links.{
  set_entry_here, set_entry_elsewhere, set_mnext_here, set_mnext_elsewhere, set_mnext_frame,
  link_cases, update_off, update_on, extent_free,
}

-- The descriptors of the split, one after the other; `prev` is what is before the region.
module _ {F : Type 0} (d : Cache F) (new region size : ℕ) where
  abbrev step_a : Cache F
  step_a = set_entry d new (λ e. record e { mnext = pos (d.table_ptr region).index })

  abbrev step_b : Cache F
  step_b = set_mnext step_a (d.table_ptr region).mprev (step_a.table_ptr new).index

  abbrev step_e : Cache F
  step_e = set_entry step_b new (λ e. record e { mprev = (step_b.table_ptr region).mprev })

  abbrev step_f : Cache F
  step_f = set_entry step_e region (λ q. record q { mprev = pos (step_e.table_ptr new).index })

  abbrev step_g : Cache F
  step_g = set_entry step_f new (λ e. record e { offset = (step_f.table_ptr region).offset })

  unfoldable pub step_h : Cache F
  step_h =
      set_entry step_g region
        (λ q. set_size (record q { offset = q.offset + size }) (size_of q - size))

  module _ (apart : new ≢ region) (off_new : (d.table_ptr region).mprev ≢ pos new)
      (off_region : (d.table_ptr region).mprev ≢ pos region) where
    region_b : step_b.table_ptr region ≡ d.table_ptr region
    region_b =
        set_mnext_elsewhere step_a (d.table_ptr region).mprev region _ off_region
        ∙ set_entry_elsewhere d new region _ (λ e. apart (sym e))

    new_b :
        step_b.table_ptr new ≡ record (d.table_ptr new) { mnext = pos (d.table_ptr region).index }
    new_b =
        set_mnext_elsewhere step_a (d.table_ptr region).mprev new _ off_new
        ∙ set_entry_here d new (λ e. record e { mnext = pos (d.table_ptr region).index })

    new_e : step_e.table_ptr new ≡ record (d.table_ptr new) {
      mnext = pos (d.table_ptr region).index;
      mprev = (d.table_ptr region).mprev;
    }
    new_e =
        set_entry_here step_b new (λ e. record e { mprev = (step_b.table_ptr region).mprev })
        ∙ ap (λ (e : Entry). record e { mprev = (step_b.table_ptr region).mprev }) new_b
        ∙ ap
            (λ (r : Entry). record (d.table_ptr new) {
              mnext = pos (d.table_ptr region).index;
              mprev = r.mprev;
            })
            region_b

    region_f :
        step_f.table_ptr region
        ≡ record (d.table_ptr region) { mprev = pos (d.table_ptr new).index }
    region_f =
        set_entry_here step_e region (λ q. record q { mprev = pos (step_e.table_ptr new).index })
        ∙ ap (λ (e : Entry). record e { mprev = pos (step_e.table_ptr new).index })
            (set_entry_elsewhere step_b new region _ (λ e. apart (sym e)) ∙ region_b)
        ∙ ap (λ (n : Entry). record (d.table_ptr region) { mprev = pos n.index }) new_e

    pub new_h : step_h.table_ptr new ≡ record (d.table_ptr new) {
      mnext = pos (d.table_ptr region).index;
      mprev = (d.table_ptr region).mprev;
      offset = (d.table_ptr region).offset;
    }
    unfolding step_h
    new_h =
        set_entry_elsewhere step_g region new _ apart
        ∙ set_entry_here step_f new (λ e. record e { offset = (step_f.table_ptr region).offset })
        ∙ ap (λ (e : Entry). record e { offset = (step_f.table_ptr region).offset })
            (set_entry_elsewhere step_e region new _ apart ∙ new_e)
        ∙ ap
            (λ (r : Entry). record (d.table_ptr new) {
              mnext = pos (d.table_ptr region).index;
              mprev = (d.table_ptr region).mprev;
              offset = r.offset;
            })
            region_f

    pub region_h :
        step_h.table_ptr region
        ≡ set_size
            (record (d.table_ptr region) {
              mprev = pos (d.table_ptr new).index;
              offset = (d.table_ptr region).offset + size;
            })
            (size_of (d.table_ptr region) - size)
    unfolding step_h
    region_h =
        set_entry_here step_g region
          (λ q. set_size (record q { offset = q.offset + size }) (size_of q - size))
        ∙ ap (λ (q : Entry). set_size (record q { offset = q.offset + size }) (size_of q - size))
            (set_entry_elsewhere step_f new region _ (λ e. apart (sym e)) ∙ region_f)

  module _ (i : ℕ) (off_new : i ≢ new) (off_region : i ≢ region) where
    other_b : step_h.table_ptr i ≡ step_b.table_ptr i
    unfolding step_h
    other_b =
        set_entry_elsewhere step_g region i _ off_region
        ∙ set_entry_elsewhere step_f new i _ off_new
        ∙ set_entry_elsewhere step_e region i _ off_region
        ∙ set_entry_elsewhere step_b new i _ off_new

    pub other_before :
        (d.table_ptr region).mprev ≡ pos i
        → step_h.table_ptr i ≡ record (d.table_ptr i) { mnext = pos (d.table_ptr new).index }
    other_before e =
        other_b
        ∙ set_mnext_here step_a (d.table_ptr region).mprev i (step_a.table_ptr new).index e
        ∙ ap (λ (q : Entry). record q { mnext = pos (step_a.table_ptr new).index })
            (set_entry_elsewhere d new i _ off_new)
        ∙ ap (λ (n : Entry). record (d.table_ptr i) { mnext = pos n.index })
            (set_entry_here d new (λ e. record e { mnext = pos (d.table_ptr region).index }))

    pub other_h : (d.table_ptr region).mprev ≢ pos i → step_h.table_ptr i ≡ d.table_ptr i
    other_h e =
        other_b
        ∙ set_mnext_elsewhere step_a (d.table_ptr region).mprev i _ e
        ∙ set_entry_elsewhere d new i _ off_new

-- The sizes after a split, in which the size of the new descriptor is yet to be written.
abbrev pub sizes : (ℕ → Entry) → ℕ → ℕ → ℕ → ℕ
sizes t new size = update (λ i. extent (t i)) new size

module _ {F : Type 0} (d : Cache F) (new region size : ℕ) where
  module _ (apart : new ≢ region) (off_new : (d.table_ptr region).mprev ≢ pos new)
      (off_region : (d.table_ptr region).mprev ≢ pos region) where
    pub step_h-Redirected :
        (d.table_ptr new).index ≡ new
        → (i : ℕ) → i ≢ new
        → i ≢ region
        → let t = (step_h d new region size).table_ptr in
          Redirected d.table_ptr t
            (λ i. extent (d.table_ptr i))
            (sizes t new size)
            (d.table_ptr region).mprev
            (pos new)
            i
    step_h-Redirected named i e f =
        let here = other_before d new region size i e f in
        let there = other_h d new region size i e f in
        elim (link_cases (d.table_ptr region).mprev i) [
          | inl w ↦
              let q = here w in
              record {
                before = ap (λ (e : Entry). e.mprev) q;
                start = ap (λ (e : Entry). e.offset) q;
                named = ap (λ (e : Entry). e.index) q;
                here = λ _. ap (λ (e : Entry). e.mnext) q ∙ ap pos named;
                elsewhere = λ k. absurd (k w);
                size =
                    update_off (λ i. extent ((step_h d new region size).table_ptr i)) new i size e
                    ∙ ap extent q;
              }
          | inr w ↦
              let q = there w in
              record {
                before = ap (λ (e : Entry). e.mprev) q;
                start = ap (λ (e : Entry). e.offset) q;
                named = ap (λ (e : Entry). e.index) q;
                here = λ k. absurd (w k);
                elsewhere = λ _. ap (λ (e : Entry). e.mnext) q;
                size =
                    update_off (λ i. extent ((step_h d new region size).table_ptr i)) new i size e
                    ∙ ap extent q;
              }
        ]

    pub step_h-Divided :
        (d.table_ptr region).index ≡ region
        → (d.table_ptr new).index ≡ new
        → (d.table_ptr region).kind ≡ free
        → size ≤ size_of (d.table_ptr region)
        → size_of (d.table_ptr region) < 2 ^ 64
        → let t = (step_h d new region size).table_ptr in
          Divided d.table_ptr t (λ i. extent (d.table_ptr i)) (sizes t new size) new region size
    step_h-Divided named new_named f l m =
        let n = new_h d new region size apart off_new off_region in
        let r = region_h d new region size apart off_new off_region in
        let kept = ap (λ (e : Entry). e.kind) r ∙ f in
        let shrunk =
          extent_free ((step_h d new region size).table_ptr region) kept
          ∙ ap size_of r
          ∙ size_of-set_size (d.table_ptr region) (size_of (d.table_ptr region) - size)
              (omega arith) in
        let whole = extent_free (d.table_ptr region) f in
        let table = (step_h d new region size).table_ptr in
        let off = update_off (λ i. extent (table i)) new region size (λ e. apart (sym e)) in
        record {
          placed = record {
            before = ap (λ (e : Entry). e.mprev) n;
            start = ap (λ (e : Entry). e.offset) n;
            named = ap (λ (e : Entry). e.index) n ∙ new_named;
            after = ap (λ (e : Entry). e.mnext) n ∙ ap pos named;
          };
          taken = update_on (λ i. extent ((step_h d new region size).table_ptr i)) new new size;
          moved = record {
            before = ap (λ (e : Entry). e.mprev) r ∙ ap pos new_named;
            start = ap (λ (e : Entry). e.offset) r;
            named = ap (λ (e : Entry). e.index) r ∙ named;
            after = ap (λ (e : Entry). e.mnext) r;
          };
          left_over = omega (arith, off, shrunk, whole);
          others_kept = step_h-Redirected new_named;
        }

  pub step_h-size :
      (i : ℕ)
      → i ≢ new
      → i ≢ region
      → size_of ((step_h d new region size).table_ptr i) ≡ size_of (d.table_ptr i)
  step_h-size i e f = elim (link_cases (d.table_ptr region).mprev i) [
    | inl w ↦ ap size_of (other_before d new region size i e f w)
    | inr w ↦ ap size_of (other_h d new region size i e f w)
  ]

  pub step_h-frame :
      step_h d new region size ≡ record d { table_ptr = (step_h d new region size).table_ptr }
  unfolding step_h set_entry
  step_h-frame =
      ap (λ (x : Cache F). record x { table_ptr = (step_h d new region size).table_ptr })
        (set_mnext_frame (step_a d new region size) (d.table_ptr region).mprev
          ((step_a d new region size).table_ptr new).index)
