-- ===== src/Setup.antt =====
-- src/clampi.c, src/clampi_win.c and src/clampi_win_free.c: the configuration from the environment,
-- and the life of a window. A text is the list of its codes, without the 0 at its end. `none` is a
-- failed assertion, an `exit`, or a conversion that C leaves undefined.
pub mod Config
pub mod Modes
use cla_mpi.Prelude.{
  ℕ, zero, suc, ◌+◌, ◌-◌, ◌*◌, ◌/◌, ◌%◌, ◌^◌, Bool, true, false, ◌&&◌, ◌||◌, not, Option, none,
  some, List, [], ◌∷◌, ltb, leb, ◌==◌, if◌then◌else◌, ◌>>=◌, length,
}
use cla_mpi.Avl.Pool.{tree_new}
use cla_mpi.Cache.{Double, Cache, u32, u64}
use cla_mpi.Window.{align, reset_data_structures}
use cla_mpi.Adapt.{Conf, Heap}

abbrev pub is_digit : ℕ → Bool
is_digit c = leb b'0' c && leb c b'9'

abbrev pub is_space : ℕ → Bool
is_space c = c == 32 || leb 9 c && leb c 13

abbrev pub skip_space : List ℕ → List ℕ
skip_space [] = []
skip_space (c ∷ cs) = if is_space c then skip_space cs else c ∷ cs

-- A sign, if there is one: whether it is a minus.
abbrev pub read_sign : List ℕ → Bool × List ℕ
read_sign [] = (false, [])
read_sign (c ∷ cs) =
    if c == b'-' then (true, cs) else if c == b'+' then (false, cs) else (false, c ∷ cs)

-- The number that digits stand for, after one that has been read, and what follows them.
unfoldable pub read_digits : ℕ → List ℕ → ℕ × List ℕ
read_digits n [] = (n, [])
read_digits n (c ∷ cs) = if is_digit c then read_digits (n * 10 + (c - b'0')) cs else (n, c ∷ cs)

abbrev pub starts_with_digit : List ℕ → Bool
starts_with_digit [] = false
starts_with_digit (c ∷ cs) = is_digit c

-- `strtoull(text, &end, 10)`: the number, and the text from `end` on.
unfoldable pub strtoull : List ℕ → ℕ × List ℕ
strtoull text =
    let (minus, body) = read_sign (skip_space text) in
    let (n, rest) = read_digits 0 body in
    if starts_with_digit body
    then (if leb (2 ^ 64) n then 2 ^ 64 - 1 else if minus then u64 (2 ^ 64 - n) else n, rest)
    else (0, text)

-- `atoi(text)` as a bit pattern, where the number is one of an `int`.
unfoldable pub atoi : List ℕ → Option ℕ
atoi text =
    let (minus, body) = read_sign (skip_space text) in
    let n = (read_digits 0 body).0 in
    if minus
    then (if leb n (2 ^ 31) then some (u32 (2 ^ 32 - n)) else none)
    else if ltb n (2 ^ 31)
    then some n
    else none

-- `CL_HT_ENTRIES_VAL` and `CL_MEM_SIZE_VAL`
abbrev pub default_htsize : ℕ
default_htsize = 2000

abbrev pub default_memsize : ℕ
default_memsize = 128 * 1024 * 1024

-- The size of the buffer, with the three assertions. The `errno` of the second one is a variable of
-- the block, which stays 0.
unfoldable pub read_memsize : List ℕ → Option ℕ
read_memsize text =
    let (memsize, rest) = strtoull text in
    let errno : ℕ = 0 in
    let is_number = not (memsize == 0) || not (length rest == length text) in
    let fits = ltb memsize (2 ^ 64 - 1) || errno == 0 in
    let at_end = length rest == 0 in if is_number && fits && at_end then some memsize else none

-- `cl_init`, from the values of CL_HT_ENTRIES and CL_MEM_SIZE in the environment.
unfoldable pub init : Option (List ℕ) → Option (List ℕ) → Option Conf
init htsize_str memsize_str = do
  n ← elim htsize_str [ none ↦ some default_htsize | some text ↦ atoi text ]
  m ← elim memsize_str [ none ↦ some default_memsize | some text ↦ read_memsize text ]
  some (record { htsize = n; memsize = m })

-- The addresses of the texts CLAMPI_TRANSPARENT, CLAMPI_ALWAYS_CACHE and CLAMPI_USER_DEFINED.
pub record Literals : Type 0 where
  pub transparent : ℕ
  pub always_cache : ℕ
  pub user_defined : ℕ

-- A `char` as the address that it is compared with: its sign is extended.
abbrev pub char_address : ℕ → ℕ
char_address c = if ltb c 128 then c else c + 2 ^ 64 - 2 ^ 8

-- The mode of a window, by what MPI_Info_get has put into `mode` if it has found the key.
unfoldable pub init_mode : Literals → Option ℕ → ℕ
init_mode texts none = texts.transparent % 2 ^ 8
init_mode texts (some mode) =
    if not (char_address mode == texts.always_cache)
      && not (char_address mode == texts.user_defined)
    then texts.transparent % 2 ^ 8
    else mode

-- `CMPI_Win`
pub record Win (F : Type 0) : Type 0 where
  pub win : ℕ
  pub cache : Option (Cache F)

module _ (double : Double) where
  open double use {F}

  -- `_cl_win_init`, with the configuration, on what `malloc` leaves in the descriptor.
  unfoldable pub init_cache : Heap → Literals → Option ℕ → Conf → Cache F → Option (Cache F)
  init_cache heap texts info conf raw =
      let size = u64 (align conf.memsize) in
      if heap.available size
      then reset_data_structures double (record raw {
        mode = init_mode texts info;
        ht_entries = conf.htsize;
        mem_size = size;
        mem = heap.bytes;
        table_ptr = heap.entries;
        free_entries = heap.stack;
        table = heap.slots;
        free_idx = tree_new heap.nodes conf.htsize;
      })
      else none

  -- `_cl_win_init` on a window of the MPI library: the configuration is read at the first window. It
  -- stays for the next one.
  unfoldable pub win_init :
      Heap → Literals → Option ℕ → Option Conf → Option Conf → Cache F → ℕ → Option (Conf × Win F)
  win_init heap texts info env known raw handle = do
    conf ← elim known [ none ↦ env | some conf ↦ some conf ]
    c ← init_cache heap texts info conf raw
    some (conf, record { win = handle; cache = some c })

module _ {F : Type 0} where
  -- `CMPI_Win_free`, after the window of the MPI library has been freed.
  unfoldable pub win_free : Win F → Win F
  win_free w = record w { cache = none }
