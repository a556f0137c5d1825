-- ===== src/Collate.antt =====
-- apkgdb/collate.go: the keys under which package names are stored.
pub mod Shape
pub mod Injective
pub mod Order
pub mod Split
use apkg.Prelude.{
  ℕ, zero, suc, ◌+◌, ◌%◌, Bool, Option, none, some, List, [], ◌∷◌, ◌++◌, if◌then◌else◌, length,
  take, drop,
}
use apkg.Prelude.Bytes.{Bytes}
use apkg.Natsort.{is_digit}

-- `strings.IndexAny(v, "0123456789")`; none is -1.
pub index_any_digit : Bytes → Option ℕ
index_any_digit [] = none
index_any_digit (c ∷ v) =
    let rest = index_any_digit v in
    if is_digit c then some 0 else elim rest [ none ↦ none | some n ↦ some (suc n) ]

-- `for i = 1; i <= 32; i++`: the rounds left, `i`, and `v[i:]`.
pub count_digits : ℕ → ℕ → Bytes → ℕ
count_digits zero i v = i
count_digits (suc rounds) i [] = i
count_digits (suc rounds) i (c ∷ v) =
    let more = count_digits rounds (i + 1) v in if is_digit c then more else i

-- The loop on fuel, with what is left of `v`; the fuel running out ends it, and it does not run out
-- with `len(v)` rounds.
pub collate_loop : ℕ → Bytes → Bytes
collate_loop zero v = []
collate_loop (suc fuel) [] = []
collate_loop (suc fuel) (c ∷ v) = elim (index_any_digit (c ∷ v)) [
  | none ↦ c ∷ v
  | some n ↦
      let w = drop n (c ∷ v) in
      let i = count_digits 32 1 (drop 1 w) in
      take n (c ∷ v) ++ (((0x7f + i) % 256) ∷ (take i w ++ collate_loop fuel (drop i w)))
]

unfoldable pub collated_version : Bytes → Bytes
unfolding collate_loop count_digits index_any_digit
collated_version v = collate_loop (length v) v
