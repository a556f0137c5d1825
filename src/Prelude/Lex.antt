-- ===== src/Prelude/Lex.antt =====
-- `strings.Compare` and `bytes.Compare`: the lexicographic order of byte strings, in which bbolt
-- keeps its keys.
use Prim.Native.Nat.{compare, Ordering}
use mathlib.Core.Path.{◌≡◌, refl}
use mathlib.Core.List.{[], ◌∷◌, ◌++◌}
use native.Mathlib.Omega.{arith}
use apkg.Prelude.Bytes.{Bytes}
use apkg.Prelude.Lists.{length}

abbrev pub bytes_compare : Bytes → Bytes → Ordering
bytes_compare [] [] = Ordering.eq
bytes_compare [] (y ∷ ys) = Ordering.lt
bytes_compare (x ∷ xs) [] = Ordering.gt
bytes_compare (x ∷ xs) (y ∷ ys) = elim (compare x y) [
  | Ordering.lt ↦ Ordering.lt
  | Ordering.gt ↦ Ordering.gt
  | Ordering.eq ↦ bytes_compare xs ys
]

pub bytes_compare_refl : (a : Bytes) → bytes_compare a a ≡ Ordering.eq
bytes_compare_refl [] = refl
bytes_compare_refl (x ∷ xs) = ground (arith, bytes_compare_refl xs)

pub bytes_compare-eq : (a b : Bytes) → bytes_compare a b ≡ Ordering.eq → a ≡ b
bytes_compare-eq [] [] h = refl
bytes_compare-eq [] (y ∷ ys) h = cc
bytes_compare-eq (x ∷ xs) [] h = cc
bytes_compare-eq (x ∷ xs) (y ∷ ys) h = ground (arith, bytes_compare-eq xs ys)

pub bytes_compare-lt_trans :
    (a b c : Bytes)
    → bytes_compare a b ≡ Ordering.lt
    → bytes_compare b c ≡ Ordering.lt
    → bytes_compare a c ≡ Ordering.lt
bytes_compare-lt_trans [] [] c h k = cc
bytes_compare-lt_trans [] (y ∷ b) [] h k = cc
bytes_compare-lt_trans [] (y ∷ b) (z ∷ c) h k = refl
bytes_compare-lt_trans (x ∷ a) [] c h k = cc
bytes_compare-lt_trans (x ∷ a) (y ∷ b) [] h k = cc
bytes_compare-lt_trans (x ∷ a) (y ∷ b) (z ∷ c) h k = ground (arith, bytes_compare-lt_trans a b c)

pub bytes_compare-gt :
    (a b : Bytes) → bytes_compare a b ≡ Ordering.gt → bytes_compare b a ≡ Ordering.lt
bytes_compare-gt [] [] h = cc
bytes_compare-gt [] (y ∷ ys) h = cc
bytes_compare-gt (x ∷ xs) [] h = refl
bytes_compare-gt (x ∷ xs) (y ∷ ys) h = ground (arith, bytes_compare-gt xs ys)

-- A common front does not matter.
pub bytes_compare-append : (p a b : Bytes) → bytes_compare (p ++ a) (p ++ b) ≡ bytes_compare a b
bytes_compare-append [] a b = refl
bytes_compare-append (x ∷ p) a b = ground (arith, bytes_compare-append p a b)

pub bytes_compare-append_length :
    (xs ys a b : Bytes)
    → length xs ≡ length ys
    → bytes_compare (xs ++ a) (ys ++ b) ≡ elim (bytes_compare xs ys) [
      | Ordering.lt ↦ Ordering.lt
      | Ordering.gt ↦ Ordering.gt
      | Ordering.eq ↦ bytes_compare a b
    ]
bytes_compare-append_length [] [] a b e = refl
bytes_compare-append_length [] (y ∷ ys) a b e = absurd (omega arith)
bytes_compare-append_length (x ∷ xs) [] a b e = absurd (omega arith)
bytes_compare-append_length (x ∷ xs) (y ∷ ys) a b e =
    ground (arith, bytes_compare-append_length xs ys a b)
