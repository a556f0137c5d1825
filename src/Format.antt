-- ===== src/Format.antt =====
-- The numbers of the file formats: `binary.Read` and `binary.Write` in big-endian order, with
-- `io.ReadFull` under them.
pub mod RoundTrip
use apkg.Prelude.{◌≡◌, refl, ℕ, zero, suc, Bool, true, false, ◌/◌, ◌%◌, ◌^◌, List, [], ◌∷◌}
use apkg.Prelude.Bytes.{Bytes}
use apkg.Prelude.Map.{be_uint}
use apkg.Errors.{Error, Result, ok, err, ◌>>=◌}
use apkg.Sig.{read_full}

unfoldable pub put_u32 : ℕ → Bytes
put_u32 v = v / 256 ^ 3 % 256 ∷ (v / 256 ^ 2 % 256) ∷ (v / 256 % 256) ∷ (v % 256) ∷ []

unfoldable pub put_u64 : ℕ → Bytes
put_u64 v =
    v / 256 ^ 7 % 256
    ∷ (v / 256 ^ 6 % 256)
    ∷ (v / 256 ^ 5 % 256)
    ∷ (v / 256 ^ 4 % 256)
    ∷ (v / 256 ^ 3 % 256)
    ∷ (v / 256 ^ 2 % 256)
    ∷ (v / 256 % 256)
    ∷ (v % 256)
    ∷ []

-- A number of `n` bytes, and what is left.
unfoldable pub read_be : ℕ → Bytes → Result (ℕ × Bytes)
read_be n r = do (b, rest) ← read_full n r; ok (be_uint b, rest)

-- A check that has passed.
abbrev pub guard : Bool → Error → Result (Unit {0})
guard true e = ok tt
guard false e = err e

pub guard-true : (t : Bool) (e : Error) (u : Unit {0}) → guard t e ≡ ok u → t ≡ true
guard-true true e u h = refl
guard-true false e u h = cc

-- `make([]byte, n)`
unfoldable pub zeros : ℕ → Bytes
zeros zero = []
zeros (suc n) = 0 ∷ zeros n
