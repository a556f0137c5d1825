-- ===== src/Natsort/Refines.antt =====
-- `natsortCompare` of apkgdb/natsort.go against the natural order of Natsort/Natural.
use apkg.Prelude.{
  ℕ, zero, suc, ◌<◌, ◌≡◌, refl, inl, inr, false, some, List, [], ◌∷◌, arith, length, Bool-cases,
}
use apkg.Prelude.Bytes.{Bytes}
use apkg.Natsort.{is_digit, scan_digits, natsort_loop, natsort_compare}
use apkg.Natsort.Natural.{
  Token, sym, num, value, tokens_from, tokens, tokens_compare, is_lt, natural_lt,
}
use apkg.Natsort.Digits.{IsDigit, scan_digits-Scanned, compare_runs-value}

-- The head of a name that starts with a digit is a number.
digits_first :
    (c : ℕ) (rest : Bytes)
    → IsDigit c
    → tokens (c ∷ rest)
      ≡ num (value 0 (scan_digits c (c ∷ []) rest).0) ∷ tokens (scan_digits c (c ∷ []) rest).1
unfolding tokens_from value
digits_first c rest h = rw h ((scan_digits-Scanned c [] rest (h, tt, inl refl)).reads)

byte_first : (c : ℕ) (rest : Bytes) → is_digit c ≡ false → tokens (c ∷ rest) ≡ sym c ∷ tokens rest
unfolding tokens_from
byte_first c rest h = rw h

tokens-ne-nil :
    (c : ℕ) (rest : Bytes) → (t : Token) × (ts : List Token) × (tokens (c ∷ rest) ≡ t ∷ ts)
tokens-ne-nil c rest = elim (Bool-cases (is_digit c)) [
  | inl h ↦ (num (value 0 (scan_digits c (c ∷ []) rest).0), _, digits_first c rest h)
  | inr h ↦ (sym c, tokens rest, byte_first c rest h)
]

-- One round: the two heads decide, or the loop goes on behind them.
module _ (fuel : ℕ) (av : ℕ) (a : Bytes) (bv : ℕ) (b : Bytes) where
  abbrev Decides : Bytes → Bytes → Type 0
  Decides x y = natsort_loop fuel x y ≡ some (is_lt (tokens_compare (tokens x) (tokens y)))

  abbrev Round : Type 0
  Round =
      natsort_loop (suc fuel) (av ∷ a) (bv ∷ b)
      ≡ some (is_lt (tokens_compare (tokens (av ∷ a)) (tokens (bv ∷ b))))

  numbers_round :
      IsDigit av
      → IsDigit bv
      → Decides (scan_digits av (av ∷ []) a).1 (scan_digits bv (bv ∷ []) b).1
      → Round
  unfolding natsort_loop tokens_compare
  numbers_round da db ih =
      rw (digits_first av a da, digits_first bv b db, da, db)
        (ground (
          arith,
          ih,
          compare_runs-value (scan_digits av (av ∷ []) a).0 (scan_digits bv (bv ∷ []) b).0
              ((scan_digits-Scanned av [] a (da, tt, inl refl)).run)
              ((scan_digits-Scanned bv [] b (db, tt, inl refl)).run),
        ))

  bytes_round : is_digit av ≡ false → is_digit bv ≡ false → Decides a b → Round
  unfolding natsort_loop tokens_compare
  bytes_round da db ih = rw (byte_first av a da, byte_first bv b db, da, db) (ground (arith, ih))

  number_byte_round : IsDigit av → is_digit bv ≡ false → Round
  unfolding natsort_loop tokens_compare
  number_byte_round da db = rw (digits_first av a da, byte_first bv b db, da, db) (ground arith)

  byte_number_round : is_digit av ≡ false → IsDigit bv → Round
  unfolding natsort_loop tokens_compare
  byte_number_round da db = rw (byte_first av a da, digits_first bv b db, da, db) (ground arith)

pub natsort_loop-natural :
    (fuel : ℕ) (a b : Bytes)
    → length a < fuel
    → natsort_loop fuel a b ≡ some (is_lt (tokens_compare (tokens a) (tokens b)))
natsort_loop-natural zero a b h = absurd (omega arith)
natsort_loop-natural (suc fuel) [] [] h = unfold natsort_loop tokens_from tokens_compare in refl
natsort_loop-natural (suc fuel) [] (bv ∷ b) h =
    let (t, ts, e) = tokens-ne-nil bv b in
    rw e (unfold natsort_loop tokens_from tokens_compare in refl)
natsort_loop-natural (suc fuel) (av ∷ a) [] h =
    let (t, ts, e) = tokens-ne-nil av a in
    rw e (unfold natsort_loop tokens_from tokens_compare in refl)
natsort_loop-natural (suc fuel) (av ∷ a) (bv ∷ b) h = elim (Bool-cases (is_digit av)) [
  | inl da ↦ elim (Bool-cases (is_digit bv)) [
    | inl db ↦ numbers_round fuel av a bv b da db (
        natsort_loop-natural fuel _ _
          (omega (arith, (scan_digits-Scanned av [] a (da, tt, inl refl)).shorter)))
    | inr db ↦ number_byte_round fuel av a bv b da db
  ]
  | inr da ↦ elim (Bool-cases (is_digit bv)) [
    | inl db ↦ byte_number_round fuel av a bv b da db
    | inr db ↦ bytes_round fuel av a bv b da db (natsort_loop-natural fuel a b (omega arith))
  ]
]

-- `natsortCompare` ends on every two names, and returns whether the first comes before the second
-- in natural order.
pub natsort_compare-natural : (a b : Bytes) → natsort_compare a b ≡ some (natural_lt a b)
unfolding natsort_compare natural_lt
natsort_compare-natural a b = natsort_loop-natural (suc (length a)) a b (omega arith)
