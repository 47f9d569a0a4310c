-- ===== src/Regions/Layout.antt =====
-- The list of memory regions: the descriptors linked by `mprev` and `mnext`, in the order of
-- their offsets, without a gap.
pub mod Change
pub mod Cut
pub mod Edit
pub mod Within
use cla_mpi.Prelude.{
  sym, ℕ, ◌+◌, ◌≤◌, ◌<◌, ◌≡◌, ◌≢◌, refl, List, [], ◌∷◌, ◌++◌, arith, ℤ, pos, All, subst,
  All-append_left, All-append_right, All-append, All-mono, All-zip, All-everywhere,
}
use cla_mpi.Cache.{Entry, Kind, free, busy, Cache, size_of, no_entry}
use mathlib.Core.List.{Mem, not-mem-nil, eq-or-mem_of_mem-cons}
use mathlib.Core.Logic.Or

-- The bytes of a region: of a free one, the 64-bit size; of an entry, the size of its get.
abbrev pub extent : Entry → ℕ
extent e = elim e.kind [ free ↦ size_of e | busy ↦ e.get_info.size ]

-- The neighbours of a list of regions that lies between `p` and `n`.
abbrev pub first : List ℕ → ℤ → ℤ
first [] n = n
first (x ∷ xs) n = pos x

abbrev pub last : ℤ → List ℕ → ℤ
last p [] = p
last p (x ∷ xs) = last (pos x) xs

abbrev pub total : (ℕ → ℕ) → List ℕ → ℕ
total s [] = 0
total s (x ∷ xs) = s x + total s xs

abbrev pub Absent : ℕ → List ℕ → Type 0
Absent a xs = All (λ x. x ≢ a) xs

abbrev pub Distinct : List ℕ → Type 0
Distinct [] = Unit
Distinct (x ∷ xs) = Absent x xs × Distinct xs

-- Descriptor `x` stands at offset `o`, between `p` and `n`.
pub record Sits (t : ℕ → Entry) (x : ℕ) (p : ℤ) (o : ℕ) (n : ℤ) : Type 0 where
  pub before : (t x).mprev ≡ p
  pub start : (t x).offset ≡ o
  pub named : (t x).index ≡ x
  pub after : (t x).mnext ≡ n

-- The descriptors `xs`, of sizes `s`, lie one behind the other from offset `o` on.
abbrev pub Chain : (ℕ → Entry) → (ℕ → ℕ) → ℤ → ℕ → List ℕ → ℤ → Type 0
Chain t s p o [] n = Unit
Chain t s p o (x ∷ xs) n = Sits t x p o (first xs n) × Chain t s (pos x) (o + s x) xs n

-- What the list of regions is while the sizes are `s`.
pub record Tiled (t : ℕ → Entry) (s : ℕ → ℕ) (xs : List ℕ) (size : ℕ) : Type 0 where
  pub chain : Chain t s no_entry 0 xs no_entry
  pub distinct : Distinct xs
  pub filled : total s xs ≡ size

-- The regions `xs` of a cache fill its buffer.
abbrev pub Layout : {F : Type 0} → Cache F → List ℕ → Type 0
Layout c xs = Tiled c.table_ptr (λ i. extent (c.table_ptr i)) xs c.mem_size

pub first-append : (xs ys : List ℕ) (n : ℤ) → first (xs ++ ys) n ≡ first xs (first ys n)
first-append [] ys n = refl
first-append (x ∷ xs) ys n = refl

pub total-append : (s : ℕ → ℕ) (xs ys : List ℕ) → total s (xs ++ ys) ≡ total s xs + total s ys
total-append s [] ys = omega arith
total-append s (x ∷ xs) ys = omega (arith, total-append s xs ys)

pub pos-injective : {m n : ℕ} → pos m ≡ pos n → m ≡ n
pos-injective e = cc

pub last-Absent : (x : ℕ) (p : ℤ) (ys : List ℕ) → p ≢ pos x → Absent x ys → last p ys ≢ pos x
last-Absent x p [] e h = e
last-Absent x p (y ∷ ys) e h = last-Absent x (pos y) ys (λ f. h.0 (pos-injective f)) h.1

pub first-Absent : (x : ℕ) (ys : List ℕ) (n : ℤ) → n ≢ pos x → Absent x ys → first ys n ≢ pos x
first-Absent x [] n e h = e
first-Absent x (y ∷ ys) n e h = λ f. h.0 (pos-injective f)

pub no_entry_region : (x : ℕ) → no_entry ≢ pos x
no_entry_region x e = cc

pub Distinct-left : (xs ys : List ℕ) → Distinct (xs ++ ys) → Distinct xs
Distinct-left [] ys d = tt
Distinct-left (x ∷ xs) ys d = (All-append_left (λ y. y ≢ x) xs ys d.0, Distinct-left xs ys d.1)

pub Distinct-right : (xs ys : List ℕ) → Distinct (xs ++ ys) → Distinct ys
Distinct-right [] ys d = d
Distinct-right (x ∷ xs) ys d = Distinct-right xs ys d.1

-- The elements of the second part are not in the first.
pub Distinct-across : (xs ys : List ℕ) → Distinct (xs ++ ys) → All (λ y. Absent y xs) ys
Distinct-across [] ys d = All-everywhere (λ y. Absent y []) (λ y. tt) ys
Distinct-across (x ∷ xs) ys d =
    All-mono (λ y. (y ≢ x) × Absent y xs) (λ y. Absent y (x ∷ xs)) (λ y h. (λ e. h.0 (sym e), h.1))
      ys
      (All-zip (λ y. y ≢ x) (λ y. Absent y xs) ys (All-append_right (λ y. y ≢ x) xs ys d.0)
        (Distinct-across xs ys d.1))

pub Distinct-append :
    (xs ys : List ℕ) → Distinct xs → Distinct ys → All (λ y. Absent y xs) ys → Distinct (xs ++ ys)
Distinct-append [] ys d e h = e
Distinct-append (x ∷ xs) ys d e h = (
  All-append (λ y. y ≢ x) xs ys d.0
      (All-mono (λ y. Absent y (x ∷ xs)) (λ y. y ≢ x) (λ y k f. k.0 (sym f)) ys h),
  Distinct-append xs ys d.1 e
      (All-mono (λ y. Absent y (x ∷ xs)) (λ y. Absent y xs) (λ y k. k.1) ys h),
)

module _ (t : ℕ → Entry) (s : ℕ → ℕ) where
  pub Chain-append_left :
      (p : ℤ) (o : ℕ) (xs ys : List ℕ) (n : ℤ)
      → Chain t s p o (xs ++ ys) n
      → Chain t s p o xs (first ys n)
  Chain-append_left p o [] ys n h = tt
  Chain-append_left p o (x ∷ xs) ys n h = (
    subst (Sits t x p o) (first-append xs ys n) h.0,
    Chain-append_left (pos x) (o + s x) xs ys n h.1,
  )

  pub Chain-append_right :
      (p : ℤ) (o : ℕ) (xs ys : List ℕ) (n : ℤ)
      → Chain t s p o (xs ++ ys) n
      → Chain t s (last p xs) (o + total s xs) ys n
  Chain-append_right p o [] ys n h = subst (λ m. Chain t s p m ys n) (omega arith) h
  Chain-append_right p o (x ∷ xs) ys n h =
      subst (λ m. Chain t s (last (pos x) xs) m ys n) (omega arith)
        (Chain-append_right (pos x) (o + s x) xs ys n h.1)

  pub Chain-append :
      (p : ℤ) (o : ℕ) (xs ys : List ℕ) (n : ℤ)
      → Chain t s p o xs (first ys n)
      → Chain t s (last p xs) (o + total s xs) ys n
      → Chain t s p o (xs ++ ys) n
  Chain-append p o [] ys n h k = subst (λ m. Chain t s p m ys n) (omega arith) k
  Chain-append p o (x ∷ xs) ys n h k = (
    subst (Sits t x p o) (sym (first-append xs ys n)) h.0,
    Chain-append (pos x) (o + s x) xs ys n h.1
        (subst (λ m. Chain t s (last (pos x) xs) m ys n) (omega arith) k),
  )
