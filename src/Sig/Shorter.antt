-- ===== src/Sig/Shorter.antt =====
-- How much is left after the reads of apkgsig/varblob.go.
use apkg.Prelude.{
  ℕ, zero, suc, ◌+◌, ◌*◌, ◌%◌, ◌^◌, ◌≤◌, ◌≡◌, [], ◌∷◌, arith, length, length-drop, length-take,
  Option-cases,
}
use apkg.Prelude.Bytes.{Bytes}
use apkg.Errors.{ok}
use apkg.Sig.{read_rounds, read_uvarint, read_full, read_varblob}

read_rounds-rest :
    (k weight acc : ℕ) (r : Bytes) → length (read_rounds k weight acc r).rest ≤ length r
unfolding read_rounds
read_rounds-rest zero weight acc r = omega arith
read_rounds-rest (suc k) weight acc [] = omega arith
read_rounds-rest (suc k) weight acc (b ∷ r) =
    ground (arith, read_rounds-rest k (weight * 128) ((acc + b % 128 * weight) % 2 ^ 64) r)

-- A read that succeeds takes exactly what was asked for.
pub read_full-rest :
    (n : ℕ) (r a rest : Bytes) → read_full n r ≡ ok (a, rest) → length r ≡ n + length rest
unfolding read_full
read_full-rest n r a rest h = ground (arith, length-drop n r)

pub read_full-length : (n : ℕ) (r a rest : Bytes) → read_full n r ≡ ok (a, rest) → length a ≡ n
unfolding read_full
read_full-length n r a rest h = ground (arith, length-take n r)

pub read_varblob-rest :
    (r : Bytes) (max_len : ℕ) (a rest : Bytes)
    → read_varblob r max_len ≡ ok (a, rest)
    → length rest ≤ length r
unfolding read_varblob read_uvarint
read_varblob-rest r max_len a rest h = ground (
  arith,
  Option-cases (read_uvarint r).error,
  read_full-rest (read_uvarint r).value (read_uvarint r).rest a rest,
  read_rounds-rest 10 1 0 r,
)
