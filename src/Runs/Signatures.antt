-- ===== src/Runs/Signatures.antt =====
-- Signatures at concrete inputs.
use apkg.Prelude.{◌≡◌, refl, some, List, [], ◌∷◌, ◌++◌, arith}
use apkg.Prelude.Bytes.{Bytes, codes, bytes_eq}
use apkg.Prelude.Map.{lookup}
use apkg.Errors.{panics, err, ok}
use apkg.Sig.{
  put_uvarint, read_uvarint, read_varblob, write_varblob, Crypto, Key, VerifyResult, verify, sign,
  read_full,
}
use apkg.Sig.Trust.{verify-sign, verify-Signs, verify-short_key, Signs}

-- A check that accepts the content itself as its signature.
abbrev echo : Crypto
echo = record { verify = λ key content sig. bytes_eq content sig; encode = λ key. key }

abbrev full_key : Bytes
full_key = codes "0123456789abcdef0123456789abcdef"

abbrev echo_key : Key
echo_key = record { public_blob = ok (full_key); sign = λ content. ok content }

abbrev trust : List (Bytes × Bytes)
trust = (full_key, codes "builder") ∷ []

known : lookup (full_key) trust ≡ some (codes "builder")
unfolding lookup
known = refl

verify-sign_example :
    (sig : Bytes) × (sign echo_key (codes "data") ≡ ok sig)
    × (verify echo (codes "data") sig trust
        ≡ ok (record { version = 1; key = full_key; name = codes "builder" }))
verify-sign_example =
    verify-sign echo echo_key (codes "data") (full_key) (codes "data") (codes "builder") trust refl
      refl refl (omega arith) refl known

abbrev signature : Bytes
signature = 1 ∷ 32 ∷ (full_key ++ (4 ∷ codes "data"))

abbrev signed : VerifyResult
signed = record { version = 1; key = full_key; name = codes "builder" }

accepted : verify echo (codes "data") signature trust ≡ ok signed
unfolding verify read_uvarint read_varblob read_full lookup
accepted = refl

verify-Signs_example : Signs echo (codes "data") trust signed × (signed.version ≡ 1)
verify-Signs_example = verify-Signs echo (codes "data") signature trust signed accepted

verify-short_key_example :
    verify echo
      (codes "data")
      (put_uvarint 1 ++ (write_varblob (codes "short") ++ write_varblob (codes "data")))
      trust
    ≡ err panics
verify-short_key_example =
    verify-short_key echo (codes "data") (codes "short") (codes "data") trust (omega arith)
      (omega arith)
