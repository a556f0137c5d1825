-- ===== src/Format/RoundTrip.antt =====
-- Reading against writing, for the numbers of the file formats.
use apkg.Prelude.{ℕ, zero, suc, ◌^◌, ◌<◌, ◌≤◌, ◌≡◌, refl, ap, ◌++◌, arith, length}
use apkg.Prelude.Bytes.{Bytes}
use apkg.Prelude.Map.{be_uint, be_uint_from}
use apkg.Errors.{Result, ok}
use apkg.Sig.{read_full, read_varblob, write_varblob}
use apkg.Sig.RoundTrip.{read_full-append, read_varblob-write_varblob}
use apkg.Format.{zeros, put_u32, put_u64, read_be}

-- A reader that gives `a` back off what was printed, whatever follows.
abbrev pub Reads {ℓ} : {A : Type ℓ} → (Bytes → Result (A × Bytes)) → Bytes → A → Type ℓ
Reads p printed a = (rest : Bytes) → p (printed ++ rest) ≡ ok (a, rest)

pub read_full-Reads : (n : ℕ) (v : Bytes) → length v ≡ n → Reads (read_full n) v v
read_full-Reads n v e rest = rw (← e) (read_full-append v rest)

pub length-put_u32 : (v : ℕ) → length (put_u32 v) ≡ 4
unfolding put_u32
length-put_u32 v = refl

pub length-put_u64 : (v : ℕ) → length (put_u64 v) ≡ 8
unfolding put_u64
length-put_u64 v = refl

pub be_uint-put_u32 : (v : ℕ) → v < 2 ^ 32 → be_uint (put_u32 v) ≡ v
unfolding be_uint_from put_u32
be_uint-put_u32 v h = omega arith

pub be_uint-put_u64 : (v : ℕ) → v < 2 ^ 64 → be_uint (put_u64 v) ≡ v
unfolding be_uint_from put_u64
be_uint-put_u64 v h = omega arith

pub read_be-put_u32 : (v : ℕ) → v < 2 ^ 32 → Reads (read_be 4) (put_u32 v) v
unfolding read_be
read_be-put_u32 v h rest =
    rw (read_full-Reads 4 (put_u32 v) (length-put_u32 v) rest) (rw (be_uint-put_u32 v h) refl)

pub read_be-put_u64 : (v : ℕ) → v < 2 ^ 64 → Reads (read_be 8) (put_u64 v) v
unfolding read_be
read_be-put_u64 v h rest =
    rw (read_full-Reads 8 (put_u64 v) (length-put_u64 v) rest) (rw (be_uint-put_u64 v h) refl)

pub read_be-Reads : (n : ℕ) (v : Bytes) → length v ≡ n → Reads (read_be n) v (be_uint v)
unfolding read_be
read_be-Reads n v e rest = rw (read_full-Reads n v e rest) refl

pub read_varblob-Reads :
    (v : Bytes) (max_len : ℕ)
    → length v ≤ max_len
    → max_len < 2 ^ 63
    → Reads (λ r. read_varblob r max_len) (write_varblob v) v
read_varblob-Reads v max_len fits small rest =
    read_varblob-write_varblob v rest max_len fits (omega arith)

pub length-zeros : (n : ℕ) → length (zeros n) ≡ n
unfolding zeros
length-zeros zero = refl
length-zeros (suc n) = ap suc (length-zeros n)
