-- ===== src/Setup/Modes.antt =====
-- `_cl_win_init`: the first cache of a window, and its mode.
use cla_mpi.Prelude.{ℕ, ◌+◌, ◌^◌, ◌≤◌, ◌<◌, ◌≡◌, true, Option, none, some, arith}
use cla_mpi.Cache.{Double, Cache, u64}
use cla_mpi.Avl.Pool.{tree_new}
use cla_mpi.Window.{align}
use cla_mpi.Window.Fresh.{Fresh, reset_data_structures-Fresh}
use cla_mpi.Adapt.{Conf, Heap}
use cla_mpi.Setup.{Literals, init_mode, init_cache}

-- Where the texts of the modes lie at addresses from 2^7 on and under 2^63, `_cl_win_init` gives a
-- window the same mode whatever mode the info object asks for.
pub init_mode-ignores :
    (texts : Literals) (mode : ℕ)
    → mode < 2 ^ 8
    → 2 ^ 7 ≤ texts.always_cache
    → texts.always_cache < 2 ^ 63
    → 2 ^ 7 ≤ texts.user_defined
    → texts.user_defined < 2 ^ 63
    → init_mode texts (some mode) ≡ init_mode texts none
unfolding init_mode
init_mode-ignores texts mode h a b c d = ground arith

align-u64 : (m : ℕ) → m + 63 < 2 ^ 64 → (u64 (align m) ≡ align m) × (align m < 2 ^ 64)
unfolding align
align-u64 m h = (omega arith, omega arith)

module _ (double : Double) where
  open double use {F}

  -- For a configuration with at least one and fewer than 2^31 slots and a buffer whose rounded
  -- size is under 2^64, and memory for the buffer: `_cl_win_init` makes an empty cache of these
  -- sizes, whatever the new memory holds.
  pub init_cache-Fresh :
      (heap : Heap) (texts : Literals) (info : Option ℕ) (conf : Conf) (raw : Cache F)
      → 0 < conf.htsize
      → conf.htsize < 2 ^ 31
      → conf.memsize + 63 < 2 ^ 64
      → heap.available (align conf.memsize) ≡ true
      → (d : Cache F) × (init_cache double heap texts info conf raw ≡ some d)
        × Fresh conf.htsize (align conf.memsize) d
  unfolding init_cache tree_new
  init_cache-Fresh heap texts info conf raw h k m av =
      let (size, bound) = align-u64 conf.memsize m in
      let start : Cache F = record raw {
        mode = init_mode texts info;
        ht_entries = conf.htsize;
        mem_size = align conf.memsize;
        mem = heap.bytes;
        table_ptr = heap.entries;
        free_entries = heap.stack;
        table = heap.slots;
        free_idx = tree_new heap.nodes conf.htsize;
      } in
      let (d, f, fresh) = reset_data_structures-Fresh double start h k bound h in
      (d, rw (size, av) f, fresh)
