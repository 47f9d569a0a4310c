-- ===== src/Setup/Config.antt =====
-- `cl_init`: what it makes of a decimal number in the environment.
use cla_mpi.Prelude.{
  ℕ, zero, suc, ◌+◌, ◌-◌, ◌*◌, ◌/◌, ◌%◌, ◌^◌, ◌≤◌, ◌<◌, ◌≡◌, refl, ◌∙◌, ap, subst, true, false,
  Option, none, some, List, [], ◌∷◌, ◌++◌, append_assoc, append-nil, arith, ltb, leb, if◌then◌else◌,
  length, Bool-cases, Option-cases, inl, inr,
}
use cla_mpi.Setup.{
  is_digit, skip_space, read_sign, read_digits, starts_with_digit, strtoull, atoi, read_memsize,
  init, default_htsize,
}

-- A number in decimal, with fuel for its digits.
decimal_from : ℕ → ℕ → List ℕ
decimal_from zero n = []
decimal_from (suc fuel) n =
    let front = decimal_from fuel (n / 10) in
    if ltb n 10 then (b'0' + n) ∷ [] else front ++ ((b'0' + n % 10) ∷ [])

-- A number in decimal, as a user writes it.
pub decimal : ℕ → List ℕ
unfolding decimal_from
decimal n = decimal_from (n + 1) n

-- A digit is read.
read_digits-digit :
    (m d : ℕ) (rest : List ℕ)
    → d < 10
    → read_digits m ((b'0' + d) ∷ rest) ≡ read_digits (m * 10 + d) rest
unfolding read_digits
read_digits-digit m d rest h =
    let digit : is_digit (b'0' + d) ≡ true = ground arith in
    rw digit (ap (λ k. read_digits (m * 10 + k) rest) (omega arith))

-- The digits of a number are read as the number.
read_digits-decimal_from :
    (fuel n : ℕ) (rest : List ℕ)
    → n < fuel
    → read_digits 0 (decimal_from fuel n ++ rest) ≡ read_digits n rest
unfolding decimal_from
read_digits-decimal_from zero n rest h = absurd (omega arith)
read_digits-decimal_from (suc fuel) n rest h = elim (Bool-cases (ltb n 10)) [
  | inl small ↦
      rw small
        (read_digits-digit 0 n rest (ground arith) ∙ ap (λ k. read_digits k rest) (omega arith))
  | inr large ↦ rw large (
      ap (read_digits 0) (append_assoc (decimal_from fuel (n / 10)) _ rest)
      ∙ read_digits-decimal_from fuel (n / 10) ((b'0' + n % 10) ∷ rest) (ground arith)
      ∙ read_digits-digit (n / 10) (n % 10) rest (omega arith)
      ∙ ap (λ k. read_digits k rest) (omega arith))
]

-- A number starts with a digit.
decimal_from-starts :
    (fuel n : ℕ) (rest : List ℕ) → n < fuel → starts_with_digit (decimal_from fuel n ++ rest) ≡ true
unfolding decimal_from
decimal_from-starts zero n rest h = absurd (omega arith)
decimal_from-starts (suc fuel) n rest h = elim (Bool-cases (ltb n 10)) [
  | inl small ↦ rw small (ground arith)
  | inr large ↦
      rw (large, append_assoc)
        (decimal_from-starts fuel (n / 10) ((b'0' + n % 10) ∷ rest) (ground arith))
]

-- There is nothing to skip before a digit.
skip-digit :
    (text : List ℕ) → starts_with_digit text ≡ true → read_sign (skip_space text) ≡ (false, text)
skip-digit [] h = cc
skip-digit (c ∷ cs) h = ground arith

-- What follows the digits is left.
read_digits-end :
    (n : ℕ) (rest : List ℕ) → starts_with_digit rest ≡ false → read_digits n rest ≡ (n, rest)
unfolding read_digits
read_digits-end n [] h = refl
read_digits-end n (c ∷ cs) h = rw h refl

-- What `strtoull` makes of a number, and of what follows it.
strtoull-decimal :
    (n : ℕ) (rest : List ℕ)
    → starts_with_digit rest ≡ false
    → strtoull (decimal n ++ rest) ≡ (if leb (2 ^ 64) n then 2 ^ 64 - 1 else n, rest)
unfolding strtoull decimal
strtoull-decimal n rest h =
    let starts = decimal_from-starts (n + 1) n rest (omega arith) in
    let skip = skip-digit (decimal_from (n + 1) n ++ rest) starts in
    let digits = read_digits-decimal_from (n + 1) n rest (omega arith) ∙ read_digits-end n rest h in
    rw (skip, starts, digits) refl

starts-length : (text : List ℕ) → starts_with_digit text ≡ true → 0 < length text
starts-length [] h = cc
starts-length (c ∷ cs) h = omega arith

decimal-starts : (n : ℕ) → starts_with_digit (decimal n) ≡ true
unfolding decimal
decimal-starts n =
    subst (λ text. starts_with_digit text ≡ true) (append-nil (decimal_from (n + 1) n))
      (decimal_from-starts (n + 1) n [] (omega arith))

read_memsize-decimal :
    (n : ℕ) → read_memsize (decimal n) ≡ some (if leb (2 ^ 64) n then 2 ^ 64 - 1 else n)
unfolding read_memsize
read_memsize-decimal n =
    let e =
      subst (λ text. strtoull text ≡ (if leb (2 ^ 64) n then 2 ^ 64 - 1 else n, []))
        (append-nil (decimal n)) (strtoull-decimal n [] refl) in
    let positive : 0 < length (decimal n) = starts-length (decimal n) (decimal-starts n) in
    rw e (ground (arith, positive))

read_memsize-junk :
    (n c : ℕ) (rest : List ℕ) → is_digit c ≡ false → read_memsize (decimal n ++ (c ∷ rest)) ≡ none
unfolding read_memsize
read_memsize-junk n c rest h = rw (strtoull-decimal n (c ∷ rest) h) (ground arith)

atoi-decimal : (n : ℕ) → n < 2 ^ 31 → atoi (decimal n) ≡ some n
unfolding atoi decimal
atoi-decimal n h =
    let text = decimal_from (n + 1) n in
    let starts =
      subst (λ t. starts_with_digit t ≡ true) (append-nil text)
        (decimal_from-starts (n + 1) n [] (omega arith)) in
    let digits =
      subst (λ t. read_digits 0 t ≡ (n, [])) (append-nil text)
        (read_digits-decimal_from (n + 1) n [] (omega arith) ∙ read_digits-end n [] refl) in
    rw (skip-digit text starts, digits) (ground arith)

-- Sizes that are written in decimal to the environment, under 2^31 for the hash table and under
-- 2^64 for the buffer, are the sizes of the configuration that `cl_init` makes.
pub init-decimal :
    (n m : ℕ)
    → n < 2 ^ 31
    → m < 2 ^ 64
    → init (some (decimal n)) (some (decimal m)) ≡ some (record { htsize = n; memsize = m })
unfolding init
init-decimal n m h k =
    let fits : leb (2 ^ 64) m ≡ false = ground arith in
    rw (atoi-decimal n h, read_memsize-decimal m, fits) refl

-- A size of the buffer from 2^64 on, in decimal, passes the assertions of `cl_init` and is taken
-- as 2^64 - 1.
pub init-overflow :
    (m : ℕ)
    → 2 ^ 64 ≤ m
    → init none (some (decimal m)) ≡ some (record { htsize = default_htsize; memsize = 2 ^ 64 - 1 })
unfolding init
init-overflow m h =
    let large : leb (2 ^ 64) m ≡ true = ground arith in rw (read_memsize-decimal m, large) refl

-- With a size of the buffer that is a number in decimal followed by a character that is no digit,
-- `cl_init` fails, whatever the size of the hash table is.
pub init-junk :
    (htsize_str : Option (List ℕ)) (n c : ℕ) (rest : List ℕ)
    → is_digit c ≡ false
    → init htsize_str (some (decimal n ++ (c ∷ rest))) ≡ none
unfolding init
init-junk none n c rest h = rw (read_memsize-junk n c rest h) refl
init-junk (some text) n c rest h = elim (Option-cases (atoi text)) [
  | inl e ↦ rw e refl
  | inr (k, e) ↦ rw (e, read_memsize-junk n c rest h) refl
]
