-- ===== src/Tests/Library.antt =====
-- The set-up of the library, its copies and its statistics: instances at small inputs.
use cla_mpi.Prelude.{
  ℕ, ◌+◌, ◌-◌, ◌%◌, ◌^◌, ◌≡◌, refl, none, some, [], ◌∷◌, ◌++◌, arith, pos, negsuc,
}
use cla_mpi.Avl.{size}
use cla_mpi.Cache.{Cache}
use cla_mpi.Window.{align}
use cla_mpi.Window.Fresh.{Fresh}
use cla_mpi.Memcpy.{memcpy, sse_memcpy}
use cla_mpi.Memcpy.Copies.{sse_memcpy-copies}
use cla_mpi.Statistics.{StatsFull, get_stats, get_abs_victim}
use cla_mpi.Statistics.Entries.{get_stats-overcounts}
use cla_mpi.Statistics.Extremes.{IsOrdered, IsExtreme, get_abs_victim-IsExtreme}
use cla_mpi.Setup.{Literals, init, init_mode, init_cache}
use cla_mpi.Setup.Config.{decimal, init-decimal, init-overflow, init-junk}
use cla_mpi.Setup.Modes.{init_mode-ignores, init_cache-Fresh}
use cla_mpi.Victim.{Search, select_victim}
use cla_mpi.Victim.Least.{IsLeast, select_victim-IsLeast}
use cla_mpi.Tests.Table.{numbers, empty}
use cla_mpi.Tests.Gets.{chance}
use cla_mpi.Tests.Regions.{two_regions, slot_five}

-- Operands at 5 and 1013: eleven bytes up to a multiple of 16, two portions, and a rest.
sse_memcpy-copies_example :
    (mem' : ℕ → ℕ) × (sse_memcpy 1013 5 700 (λ a. a % 256) ≡ some mem')
    × ((a : ℕ) → mem' a ≡ memcpy 1013 5 700 (λ a. a % 256) a)
sse_memcpy-copies_example = sse_memcpy-copies 1013 5 700 (λ a. a % 256) (omega arith) (omega arith)

abbrev no_report : StatsFull ℕ
no_report = record {
  base = empty.stat;
  entries = pos 0;
  free_regions = pos 0;
  total = 0;
  htsize = pos 0;
  mem_size = pos 0;
  load_factor = 0;
  mms = 0;
  directs = 0;
}

-- Two free regions and no entry, of sixteen descriptors.
abbrev two_free : Cache ℕ
two_free = record two_regions {
  next_free_entry = 13;
  free_idx = record two_regions.free_idx { next_free_node = pos 5 };
}

get_stats-overcounts_example :
    ((get_stats numbers two_free no_report).free_regions ≡ pos (size two_free.free_idx.root))
    × ((get_stats numbers two_free no_report).entries ≡ pos 1)
get_stats-overcounts_example =
    get_stats-overcounts numbers two_free no_report 0 (omega arith) (omega arith) (omega arith)

numbers-IsOrdered : IsOrdered numbers
numbers-IsOrdered = record {
  le_trans = λ a b c h k. ground arith;
  le_total = λ a b. ground arith;
  lt_le = λ a b. ground arith;
}

get_abs_victim-IsExtreme_example :
    IsExtreme numbers numbers-IsOrdered slot_five 8
      (get_abs_victim numbers slot_five 3 0 (negsuc 0)).0
get_abs_victim-IsExtreme_example =
    get_abs_victim-IsExtreme numbers numbers-IsOrdered slot_five 3 0 (negsuc 0)

init-decimal_example :
    init (some (decimal 64)) (some (decimal 1048576))
    ≡ some (record { htsize = 64; memsize = 1048576 })
init-decimal_example = init-decimal 64 1048576 (omega arith) (omega arith)

init-overflow_example :
    init none (some (decimal (2 ^ 64 + 4096)))
    ≡ some (record { htsize = 2000; memsize = 2 ^ 64 - 1 })
init-overflow_example = init-overflow (2 ^ 64 + 4096) (omega arith)

init-junk_example : init none (some (decimal 64 ++ (b'K' ∷ []))) ≡ none
init-junk_example = init-junk none 64 b'K' [] refl

abbrev texts : Literals
texts = record { transparent = 4194560; always_cache = 4194562; user_defined = 4194564 }

init_mode-ignores_example : init_mode texts (some b'2') ≡ init_mode texts none
init_mode-ignores_example =
    init_mode-ignores texts b'2' (omega arith) (omega arith) (omega arith) (omega arith)
      (omega arith)

init_cache-Fresh_example :
    (d : Cache ℕ) × (init_cache numbers chance.heap texts
        (some b'2')
        (record { htsize = 64; memsize = 1000 })
        empty
      ≡ some d)
    × Fresh 64 (align 1000) d
init_cache-Fresh_example =
    init_cache-Fresh numbers chance.heap texts (some b'2') (record { htsize = 64; memsize = 1000 })
      empty (omega arith) (omega arith) (omega arith) refl

select_victim-IsLeast_example :
    (s : Search ℕ) × (select_victim numbers slot_five 6 ≡ some s)
    × IsLeast numbers numbers-IsOrdered slot_five 6 s
select_victim-IsLeast_example =
    select_victim-IsLeast numbers numbers-IsOrdered slot_five 6 5 (omega arith)
      (λ _. (omega arith, refl))
