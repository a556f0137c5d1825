-- ===== src/Natsort.antt =====
-- apkgdb/natsort.go: the natural order of package names. A string with a position in it is the rest
-- of the string from that position on.
pub mod Natural
pub mod Digits
pub mod Refines
pub mod Order
use apkg.Prelude.{
  ℕ, zero, suc, ◌+◌, Bool, true, false, ◌&&◌, Option, none, some, List, [], ◌∷◌, ◌++◌, Ordering,
  leb, ltb, ◌==◌, if◌then◌else◌, length, drop,
}
use apkg.Prelude.Bytes.{Bytes}
use apkg.Prelude.Lex.{bytes_compare}

-- `x >= '0' && x <= '9'`
abbrev pub is_digit : ℕ → Bool
is_digit c = leb b'0' c && leb c b'9'

-- The inner loop over one number: `run` is `a[posa:posa+intlna]`, `av` its first byte, and the third
-- argument is what follows it. A leading zero is dropped once another digit follows.
pub scan_digits : ℕ → Bytes → Bytes → Bytes × Bytes
scan_digits av run [] = (run, [])
scan_digits av run (x ∷ rest) =
    let longer = run ++ (x ∷ []) in
    let next =
      scan_digits (if av == b'0' then x else av) (if av == b'0' then drop 1 longer else longer)
        rest in
    if is_digit x then next else (run, x ∷ rest)

-- What the two numbers decide: `some` is a `return`, `none` is `continue`.
pub compare_runs : Bytes → Bytes → Option Bool
compare_runs r s =
    if ltb (length r) (length s)
    then some true
    else if ltb (length s) (length r)
    then some false
    else elim (bytes_compare r s) [
      | Ordering.lt ↦ some true
      | Ordering.gt ↦ some false
      | Ordering.eq ↦ none
    ]

-- The outer loop on fuel; `none` means that the fuel ran out.
pub natsort_loop : ℕ → Bytes → Bytes → Option Bool
natsort_loop zero a b = none
natsort_loop (suc fuel) [] [] = some false
natsort_loop (suc fuel) [] (bv ∷ b) = some true
natsort_loop (suc fuel) (av ∷ a) [] = some false
natsort_loop (suc fuel) (av ∷ a) (bv ∷ b) =
    let (run_a, rest_a) = scan_digits av (av ∷ []) a in
    let (run_b, rest_b) = scan_digits bv (bv ∷ []) b in
    let after_runs = natsort_loop fuel rest_a rest_b in
    let after_byte = natsort_loop fuel a b in
    if is_digit av && is_digit bv
    then elim (compare_runs run_a run_b) [ some r ↦ some r | none ↦ after_runs ]
    else if av == bv
    then after_byte
    else if is_digit bv
    then some true
    else if is_digit av
    then some false
    else some (ltb av bv)

-- Each round takes a byte of `a` at least, so `len(a) + 1` rounds are enough.
unfoldable pub natsort_compare : Bytes → Bytes → Option Bool
unfolding natsort_loop scan_digits compare_runs
natsort_compare a b = natsort_loop (suc (length a)) a b
