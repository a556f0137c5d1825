-- ===== src/Natsort/Digits.antt =====
-- Runs of digits without leading zeros: by length and then as strings they compare as numbers do.
use apkg.Prelude.{
  ℕ, ◌+◌, ◌-◌, ◌*◌, ◌≤◌, ◌<◌, ◌≡◌, refl, ◌⊎◌, inl, inr, Bool, true, false, Option, none, some, [],
  ◌∷◌, ◌++◌, Ordering, compare, arith, length, All, All-append, ◌==◌, Bool-cases,
}
use apkg.Prelude.Bytes.{Bytes}
use apkg.Prelude.Lex.{bytes_compare}
use apkg.Natsort.{is_digit, scan_digits, compare_runs}
use apkg.Natsort.Natural.{num, value, tokens_from}

abbrev pub IsDigit : ℕ → Type 0
IsDigit c = is_digit c ≡ true

-- A digit that is not zero and more digits, or one digit.
abbrev pub IsRun : Bytes → Type 0
IsRun [] = ⊥
IsRun (c ∷ ds) = IsDigit c × All IsDigit ds × ((ds ≡ []) ⊎ (b'0' < c))

pub value-append :
    (n : ℕ) (xs : Bytes) (x : ℕ) → value n (xs ++ (x ∷ [])) ≡ value n xs * 10 + (x - b'0')
unfolding value
value-append n [] x = refl
value-append n (y ∷ ys) x = value-append (n * 10 + (y - b'0')) ys x

-- More digits behind a smaller front cannot catch up.
pub value-lt :
    (m n : ℕ) (xs ys : Bytes)
    → All IsDigit xs
    → m < n
    → length xs ≤ length ys
    → value m xs < value n ys
unfolding value
value-lt m n [] [] dx h le = h
value-lt m n [] (y ∷ ys) dx h le =
    value-lt m (n * 10 + (y - b'0')) [] ys dx (omega arith) (omega arith)
value-lt m n (x ∷ xs) [] dx h le = absurd (omega arith)
value-lt m n (x ∷ xs) (y ∷ ys) dx h le =
    value-lt (m * 10 + (x - b'0')) (n * 10 + (y - b'0')) xs ys dx.1 (ground arith) (omega arith)

-- Digits of equal number compare as strings the way their values do.
pub bytes_compare-value :
    (n : ℕ) (xs ys : Bytes)
    → All IsDigit xs
    → All IsDigit ys
    → length xs ≡ length ys
    → bytes_compare xs ys ≡ compare (value n xs) (value n ys)
unfolding value
bytes_compare-value n [] [] dx dy e = ground arith
bytes_compare-value n [] (y ∷ ys) dx dy e = absurd (omega arith)
bytes_compare-value n (x ∷ xs) [] dx dy e = absurd (omega arith)
bytes_compare-value n (x ∷ xs) (y ∷ ys) dx dy e = ground (
  arith,
  bytes_compare-value (n * 10 + (x - b'0')) xs ys dx.1 dy.1 (omega arith),
  value-lt (n * 10 + (x - b'0')) (n * 10 + (y - b'0')) xs ys dx.1,
  value-lt (n * 10 + (y - b'0')) (n * 10 + (x - b'0')) ys xs dy.1,
)

-- A longer run is a larger number.
pub value-lt_of_shorter :
    (r s : Bytes) → IsRun r → IsRun s → length r < length s → value 0 r < value 0 s
unfolding value
value-lt_of_shorter [] s hr hs h = absurd hr
value-lt_of_shorter (c ∷ r) [] hr hs h = absurd hs
value-lt_of_shorter (c ∷ r) (d ∷ []) hr hs h = absurd (omega arith)
value-lt_of_shorter (c ∷ r) (d ∷ e ∷ s) hr hs h =
    value-lt (0 + (c - b'0')) ((0 + (d - b'0')) * 10 + (e - b'0')) r s hr.1 (first hs.2)
      (omega arith)
  where
    first : ((e ∷ s) ≡ []) ⊎ (b'0' < d) → 0 + (c - b'0') < (0 + (d - b'0')) * 10 + (e - b'0')
    first (inl p) = cc
    first (inr p) = ground (arith, hr.0)

abbrev pub decision : Ordering → Option Bool
decision Ordering.lt = some true
decision Ordering.gt = some false
decision Ordering.eq = none

IsRun-digits : (r : Bytes) → IsRun r → All IsDigit r
IsRun-digits [] h = absurd h
IsRun-digits (c ∷ r) h = (h.0, h.1)

-- Two runs decide as their values do.
pub compare_runs-value :
    (r s : Bytes)
    → IsRun r
    → IsRun s
    → compare_runs r s ≡ decision (compare (value 0 r) (value 0 s))
unfolding compare_runs
compare_runs-value r s hr hs = ground (
  arith,
  value-lt_of_shorter r s hr hs,
  value-lt_of_shorter s r hs hr,
  bytes_compare-value 0 r s (IsRun-digits r hr) (IsRun-digits s hs),
)

-- What the inner loop leaves: a run without leading zeros, which has the value of all the digits
-- that were read, and the rest.
pub record Scanned (av : ℕ) (ds rest : Bytes) (p : Bytes × Bytes) : Type 0 where
  pub run : IsRun p.0
  pub reads : tokens_from (some (value 0 (av ∷ ds))) rest ≡ num (value 0 p.0) ∷ tokens_from none p.1
  pub shorter : length p.1 ≤ length rest

Scanned-step :
    (av : ℕ) (ds : Bytes) (x : ℕ) (rest : Bytes) (v : ℕ) (es : Bytes) (p : Bytes × Bytes)
    → IsDigit x
    → value 0 (v ∷ es) ≡ value 0 (av ∷ ds) * 10 + (x - b'0')
    → Scanned v es rest p
    → Scanned av ds (x ∷ rest) p
unfolding tokens_from
Scanned-step av ds x rest v es p dx e h = record {
  run = h.run;
  reads = rw dx (rw e at h.reads);
  shorter = omega (arith, h.shorter);
}

zero_alone : (av : ℕ) (ds : Bytes) → IsRun (av ∷ ds) → (av == b'0') ≡ true → ds ≡ []
zero_alone av ds h z = ground arith

pub scan_digits-Scanned :
    (av : ℕ) (ds rest : Bytes)
    → IsRun (av ∷ ds)
    → Scanned av ds rest (scan_digits av (av ∷ ds) rest)
unfolding scan_digits tokens_from value
scan_digits-Scanned av ds [] h = record { run = h; reads = refl; shorter = omega arith }
scan_digits-Scanned av ds (x ∷ rest) h = elim (Bool-cases (is_digit x)) [
  | inr e ↦ rw e (record { run = h; reads = rw e; shorter = omega arith })
  | inl dx ↦ rw dx (elim (Bool-cases (av == b'0')) [
    | inl z ↦
        let e : ds ≡ [] = zero_alone av ds h z in
        rw (z, e)
          (Scanned-step av [] x rest x [] _ dx (ground arith)
            (scan_digits-Scanned x [] rest (dx, tt, inl refl)))
    | inr z ↦ rw z (
        Scanned-step av ds x rest av (ds ++ (x ∷ [])) _ dx (value-append 0 (av ∷ ds) x) (
          scan_digits-Scanned av (ds ++ (x ∷ [])) rest
            (h.0, All-append IsDigit ds (x ∷ []) h.1 (dx, tt), inr (ground arith))))
  ])
]
