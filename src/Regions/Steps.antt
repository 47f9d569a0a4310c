-- ===== src/Regions/Steps.antt =====
-- src/clampi_get.c: the steps of an eviction, one after the other.
use cla_mpi.Prelude.{ℕ, ◌≡◌, refl, negsuc, ◌∙◌, ◌>>=◌, Option, some}
use cla_mpi.Cache.{Cache, free}
use cla_mpi.HashTable.{ht_remove}
use cla_mpi.Window.{set_entry}
use cla_mpi.Regions.{Merge, merge_prev, merge_next}
use cla_mpi.Regions.Evict.{update_penalties, choose_region, evict}
use cla_mpi.Regions.Evicted.{sized}

module _ {F : Type 0} where
  -- A merged region, free.
  abbrev pub release : Merge F → Merge F
  release n = record n { cache = set_entry n.cache n.region (λ e. record e { kind = free }) }

  -- The last steps of an eviction.
  abbrev pub finish : Cache F → ℕ → Option ℕ → Option ℕ → Cache F
  finish d victim prev next =
      set_entry (ht_remove (update_penalties d victim prev next) victim) victim
        (λ e. record e { pending = negsuc 0 })

  evict_steps :
      (c : Cache F) (victim : ℕ) (selected : Option ℕ) (size : ℕ)
      → evict c victim selected size ≡ (do
        p ← merge_prev (sized c victim) victim selected
        n ← merge_next p.cache p.region p.to_index selected
        (d, selected') ← choose_region (release n) selected size
        some (finish d victim p.neighbour n.neighbour, selected'))
  unfolding evict sized
  evict_steps c victim selected size = refl

  pub evict_runs :
      (c : Cache F) (victim : ℕ) (selected : Option ℕ) (size : ℕ) (p n : Merge F)
      (r : Cache F × Option ℕ)
      → merge_prev (sized c victim) victim selected ≡ some p
      → merge_next p.cache p.region p.to_index selected ≡ some n
      → choose_region (release n) selected size ≡ some r
      → evict c victim selected size ≡ some (finish r.0 victim p.neighbour n.neighbour, r.1)
  evict_runs c victim selected size p n r e f g =
      evict_steps c victim selected size ∙ rw e (rw f (rw g refl))

  pub sized_bytes : (c : Cache F) (victim : ℕ) → (sized c victim).mem_size ≡ c.mem_size
  unfolding sized set_entry
  sized_bytes c victim = refl
