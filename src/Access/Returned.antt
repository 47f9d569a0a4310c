-- ===== src/Access/Returned.antt =====
-- src/clampi_get.c and src/clampi_win_flush.c: the data of a get on its way into the buffer, and back
-- to a later get.
use cla_mpi.Prelude.{ℕ, ◌+◌, ◌<◌, ◌≡◌, negsuc}
use cla_mpi.Cache.{Get, Cache}
use cla_mpi.Regions.Sound.{Sound}

-- The entry of a get with its data in the buffer, complete.
record Arrived {F : Type 0} (memory : ℕ → ℕ) (origin : ℕ) (key : Get) (new : ℕ) (d : Cache F)
    : Type 0 where
  keyed : (d.table_ptr new).get_info ≡ key
  complete : (d.table_ptr new).pending ≡ negsuc 0
  copied : (k : ℕ) → k < key.size → d.mem ((d.table_ptr new).offset + k) ≡ memory (origin + k)
