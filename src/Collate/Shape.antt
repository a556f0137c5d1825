-- ===== src/Collate/Shape.antt =====
-- What `collatedVersion` of apkgdb/collate.go writes, as an inductive relation: bytes that are not
-- digits stay, and each run of digits, cut after 33, has its length before it.
use apkg.Prelude.{
  ℕ, zero, suc, ◌+◌, ◌%◌, ◌≤◌, ◌≡◌, refl, ap, sym, ◌∙◌, ◌⊎◌, inl, inr, false, [], ◌∷◌, ◌++◌, arith,
  All, length, take, drop, take-append-drop, length-drop, Bool-cases,
}
use apkg.Prelude.Bytes.{Bytes}
use apkg.Natsort.{is_digit}
use apkg.Natsort.Digits.{IsDigit}
use apkg.Collate.{index_any_digit, count_digits, collate_loop, collated_version}

abbrev pub HeadIsByte : Bytes → Type 0
HeadIsByte [] = Unit
HeadIsByte (c ∷ v) = is_digit c ≡ false

-- A run of one digit and `ds` ends at its cut or before a byte that is no digit.
abbrev pub Ends : Bytes → Bytes → Type 0
Ends ds v = (length ds ≡ 32) ⊎ HeadIsByte v

pub data Collation : Bytes → Bytes → Type 0 where
  done : Collation [] []
  byte : {c : ℕ} {v r : Bytes} → is_digit c ≡ false → Collation v r → Collation (c ∷ v) (c ∷ r)
  run :
      {w s : Bytes} (d : ℕ) (ds v r : Bytes)
      → IsDigit d
      → All IsDigit ds
      → length ds ≤ 32
      → Ends ds v
      → Collation v r
      → w ≡ d ∷ (ds ++ v)
      → s ≡ (0x80 + length ds) ∷ d ∷ (ds ++ r)
      → Collation w s

record Counted (rounds i : ℕ) (v : Bytes) (m : ℕ) : Type 0 where
  count : count_digits rounds i v ≡ i + m
  fits : m ≤ rounds
  digits : All IsDigit (take m v)
  long : length (take m v) ≡ m
  ends : (m ≡ rounds) ⊎ HeadIsByte (drop m v)

Counted-stop : (rounds i : ℕ) (v : Bytes) → HeadIsByte v → Counted rounds i v 0
unfolding count_digits
Counted-stop zero i v h = record {
  count = omega arith;
  fits = omega arith;
  digits = tt;
  long = refl;
  ends = inr h;
}
Counted-stop (suc rounds) i [] h = record {
  count = omega arith;
  fits = omega arith;
  digits = tt;
  long = refl;
  ends = inr tt;
}
Counted-stop (suc rounds) i (c ∷ v) h = record {
  count = ground arith;
  fits = omega arith;
  digits = tt;
  long = refl;
  ends = inr h;
}

Counted-more :
    (rounds i c : ℕ) (v : Bytes) (m : ℕ)
    → IsDigit c
    → Counted rounds (i + 1) v m
    → Counted (suc rounds) i (c ∷ v) (suc m)
unfolding count_digits
Counted-more rounds i c v m h k = record {
  count = ground (arith, k.count);
  fits = omega (arith, k.fits);
  digits = (h, k.digits);
  long = omega (arith, k.long);
  ends = more k.ends;
}
  where
    more : (m ≡ rounds) ⊎ HeadIsByte (drop m v) → (suc m ≡ suc rounds) ⊎ HeadIsByte (drop m v)
    more (inl e) = inl (ap suc e)
    more (inr e) = inr e

count_digits-Counted : (rounds i : ℕ) (v : Bytes) → (m : ℕ) × Counted rounds i v m
unfolding count_digits
count_digits-Counted zero i v = (
  0,
  record { count = omega arith; fits = omega arith; digits = tt; long = refl; ends = inl refl },
)
count_digits-Counted (suc rounds) i [] = (0, Counted-stop (suc rounds) i [] tt)
count_digits-Counted (suc rounds) i (c ∷ v) = elim (Bool-cases (is_digit c)) [
  | inl h ↦
      let (m, k) = count_digits-Counted rounds (i + 1) v in (suc m, Counted-more rounds i c v m h k)
  | inr h ↦ (0, Counted-stop (suc rounds) i (c ∷ v) h)
]

-- A byte that is no digit is copied.
byte_step :
    (fuel c : ℕ) (v : Bytes)
    → is_digit c ≡ false
    → collate_loop (suc fuel) (c ∷ v) ≡ c ∷ collate_loop (suc fuel) v
unfolding collate_loop index_any_digit
byte_step fuel c [] h = ground arith
byte_step fuel c (d ∷ v) h = ground arith

-- A digit starts a run.
run_step :
    (fuel c : ℕ) (v : Bytes) (m : ℕ)
    → IsDigit c
    → count_digits 32 1 v ≡ suc m
    → collate_loop (suc fuel) (c ∷ v)
      ≡ ((0x7f + suc m) % 256) ∷ c ∷ (take m v ++ collate_loop fuel (drop m v))
unfolding collate_loop index_any_digit
run_step fuel c v m h e = rw (h, collate_loop) (rw e)

pub collate_loop-Collation :
    (fuel : ℕ) (v : Bytes) → length v ≤ fuel → Collation v (collate_loop fuel v)
collate_loop-Collation zero [] h = unfold collate_loop in done
collate_loop-Collation zero (c ∷ v) h = absurd (omega arith)
collate_loop-Collation (suc fuel) [] h = unfold collate_loop in done
collate_loop-Collation (suc fuel) (c ∷ v) h = elim (Bool-cases (is_digit c)) [
  | inr b ↦ rw (byte_step fuel c v b) (byte b (collate_loop-Collation (suc fuel) v (omega arith)))
  | inl d ↦
      let (m, k) = count_digits-Counted 32 1 v in
      run c (take m v) (drop m v) (collate_loop fuel (drop m v)) d k.digits
        (omega (arith, k.fits, k.long)) (run_ends m v k)
        (collate_loop-Collation fuel (drop m v) (omega (arith, length-drop m v)))
        (ap (◌∷◌ c) (sym (take-append-drop m v)))
        (rw (run_step fuel c v m d (omega (arith, k.count))) (ground (arith, k.fits, k.long)))
]
  where
    run_ends : (m : ℕ) (u : Bytes) → Counted 32 1 u m → Ends (take m u) (drop m u)
    run_ends m u k = elim k.ends [ inl e ↦ inl (k.long ∙ e) | inr b ↦ inr b ]

-- `collatedVersion` ends on every name, and writes what the relation says.
pub collated_version-Collation : (v : Bytes) → Collation v (collated_version v)
unfolding collated_version
collated_version-Collation v = collate_loop-Collation (length v) v (omega arith)
