-- ===== src/Prelude/Bytes.antt =====
-- Go strings and byte slices as lists of byte values, with the functions of Go's `strings` and
-- `bytes` that the program calls.
use Prim.Native.Nat.{ℕ, zero, suc}
use Prim.Native.Char.{code}
use Prim.Native.String.{String}
use mathlib.Core.Path.{◌≡◌, refl}
use mathlib.Core.Logic.{◌↔◌}
use mathlib.Core.Bool.{Bool, true, false, ◌&&◌}
use mathlib.Core.Option.{Option, none, some}
use mathlib.Core.List.{List, [], ◌∷◌, ◌++◌}
use native.Mathlib.Omega.{arith}
use apkg.Prelude.Tests.{◌==◌, if◌then◌else◌}
use apkg.Prelude.Lists.{take, drop}

abbrev pub Bytes : Type 0
Bytes = List ℕ

-- The bytes of an ASCII literal.
abbrev pub codes : String → Bytes
codes String.[] = []
codes (String.◌∷◌ c s) = code c ∷ codes s

-- `a == b` on strings, and `bytes.Equal`.
abbrev pub bytes_eq : Bytes → Bytes → Bool
bytes_eq [] [] = true
bytes_eq [] (y ∷ ys) = false
bytes_eq (x ∷ xs) [] = false
bytes_eq (x ∷ xs) (y ∷ ys) = x == y && bytes_eq xs ys

pub bytes_eq→eq : (a b : Bytes) → bytes_eq a b ≡ true → a ≡ b
bytes_eq→eq [] [] h = refl
bytes_eq→eq [] (y ∷ ys) h = cc
bytes_eq→eq (x ∷ xs) [] h = cc
bytes_eq→eq (x ∷ xs) (y ∷ ys) h = ground (arith, bytes_eq→eq xs ys)

pub bytes_eq_refl : (a : Bytes) → bytes_eq a a ≡ true
bytes_eq_refl [] = refl
bytes_eq_refl (x ∷ xs) = ground (arith, bytes_eq_refl xs)

pub bytes_eq_iff : (a b : Bytes) → (bytes_eq a b ≡ true) ↔ (a ≡ b)
bytes_eq_iff a b = (bytes_eq→eq a b, λ e. rw e (bytes_eq_refl b))

-- `strings.HasPrefix(s, prefix)`
abbrev pub has_prefix : Bytes → Bytes → Bool
has_prefix s [] = true
has_prefix [] (y ∷ ys) = false
has_prefix (x ∷ xs) (y ∷ ys) = x == y && has_prefix xs ys

pub has_prefix-append : (p r : Bytes) → has_prefix (p ++ r) p ≡ true
has_prefix-append [] r = refl
has_prefix-append (x ∷ p) r = ground (arith, has_prefix-append p r)

pub has_prefix→append : (s p : Bytes) → has_prefix s p ≡ true → (r : Bytes) × (s ≡ p ++ r)
has_prefix→append s [] h = (s, refl)
has_prefix→append [] (y ∷ ys) h = absurd (ground arith)
has_prefix→append (x ∷ xs) (y ∷ ys) h =
    let (r, e) = has_prefix→append xs ys (ground arith) in (r, ground arith)

-- `strings.IndexByte(s, c)`; none is -1.
abbrev pub index_byte : Bytes → ℕ → Option ℕ
index_byte [] c = none
index_byte (x ∷ xs) c =
    let rest = index_byte xs c in
    if x == c then some 0 else elim rest [ none ↦ none | some i ↦ some (suc i) ]

-- `strings.LastIndexByte(s, c)`; none is -1.
abbrev pub last_index_byte : Bytes → ℕ → Option ℕ
last_index_byte [] c = none
last_index_byte (x ∷ xs) c = elim (last_index_byte xs c) [
  | some i ↦ some (suc i)
  | none ↦ if x == c then some 0 else none
]

-- A found byte splits the string.
pub index_byte-split :
    (s : Bytes) (c n : ℕ) → index_byte s c ≡ some n → s ≡ take n s ++ (c ∷ drop (suc n) s)
index_byte-split [] c n h = cc
index_byte-split (x ∷ xs) c zero h = ground arith
index_byte-split (x ∷ xs) c (suc n) h = ground (arith, index_byte-split xs c n)

pub last_index_byte-split :
    (s : Bytes) (c n : ℕ) → last_index_byte s c ≡ some n → s ≡ take n s ++ (c ∷ drop (suc n) s)
last_index_byte-split [] c n h = cc
last_index_byte-split (x ∷ xs) c zero h = ground arith
last_index_byte-split (x ∷ xs) c (suc n) h = ground (arith, last_index_byte-split xs c n)
