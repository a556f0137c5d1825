-- ===== src/Sig.antt =====
-- apkgsig: length-prefixed blobs (varblob.go), signatures and their verification (sign.go, verify.go).
-- A reader is the list of the bytes that it still holds; reading returns what is left of it.
pub mod RoundTrip
pub mod Shorter
pub mod Trust
use apkg.Prelude.{
  ℕ, zero, suc, ◌+◌, ◌*◌, ◌/◌, ◌%◌, ◌^◌, Bool, true, false, ◌&&◌, ◌||◌, Option, none, some, List,
  [], ◌∷◌, ◌++◌, if◌then◌else◌, ltb, leb, ◌==◌, length, take, drop,
}
use apkg.Prelude.Bytes.{Bytes}
use apkg.Prelude.Map.{lookup}
use apkg.Errors.{Error, panics, message, Result, ok, err, ◌>>=◌}

-- `binary.PutUvarint`: seven bits a byte, the lowest first. A uint64 takes ten rounds at most.
pub put_rounds : ℕ → ℕ → Bytes
put_rounds zero v = []
put_rounds (suc rounds) v =
    let rest = put_rounds rounds (v / 128) in if ltb v 128 then v ∷ [] else (v % 128 + 128) ∷ rest

unfoldable pub put_uvarint : ℕ → Bytes
unfolding put_rounds
put_uvarint v = put_rounds 10 v

-- What `binary.ReadUvarint` returns, with the bytes that are left; on an error the value is what was
-- read so far.
pub record UvarintRead : Type 0 where
  pub value : ℕ
  pub rest : Bytes
  pub error : Option Error

abbrev pub read_of : ℕ → Bytes → Option Error → UvarintRead
read_of v r e = record { value = v; rest = r; error = e }

-- `binary.ReadUvarint`: the rounds left, the weight of the next byte, and the sum so far. An overflow
-- and the end of the input are errors.
pub read_rounds : ℕ → ℕ → ℕ → Bytes → UvarintRead
read_rounds zero weight acc r = read_of acc r (some (message "overflow"))
read_rounds (suc rounds) weight acc [] = read_of acc [] (some (message "EOF"))
read_rounds (suc rounds) weight acc (b ∷ r) =
    let more = read_rounds rounds (weight * 128) ((acc + b % 128 * weight) % 2 ^ 64) r in
    if ltb b 128
    then (if rounds == 0 && ltb 1 b
        then read_of acc r (some (message "overflow"))
        else read_of (acc + b * weight) r none)
    else more

unfoldable pub read_uvarint : Bytes → UvarintRead
unfolding read_rounds
read_uvarint r = read_rounds 10 1 0 r

-- `io.ReadFull` of a buffer of `n` bytes.
unfoldable pub read_full : ℕ → Bytes → Result (Bytes × Bytes)
read_full n r = if ltb (length r) n then err (message "unexpected EOF") else ok (take n r, drop n r)

-- The rest of `ReadVarblob`, once the length is read.
abbrev pub sized_blob : ℕ → UvarintRead → Result (Bytes × Bytes)
sized_blob max_len l = elim l.error [
  | some e ↦ err e
  | none ↦ if ltb max_len l.value then err (message "oversized blob") else read_full l.value l.rest
]

unfoldable pub read_varblob : Bytes → ℕ → Result (Bytes × Bytes)
read_varblob r max_len = sized_blob max_len (read_uvarint r)

unfoldable pub write_varblob : Bytes → Bytes
write_varblob v = put_uvarint (length v) ++ v

-- golang.org/x/crypto/ed25519, the key of an HSM and the text form of a key are not in the repository.
pub record Crypto : Type 0 where
  -- `ed25519.Verify(pub, data, sig)`
  pub verify : Bytes → Bytes → Bytes → Bool
  -- `base64.RawURLEncoding.EncodeToString`
  pub encode : Bytes → Bytes

-- `hsm.Key`: the public key, and the signature of data.
pub record Key : Type 0 where
  pub public_blob : Result Bytes
  pub sign : Bytes → Result Bytes

pub record VerifyResult : Type 0 where
  pub version : ℕ
  pub key : Bytes
  pub name : Bytes

abbrev pub public_key_size : ℕ
public_key_size = 32

abbrev pub ed25519_signature_size : ℕ
ed25519_signature_size = 64

abbrev pub signature_size : ℕ
signature_size = 3 + 32 + 64

-- `ed25519.Verify` panics on a key that has not 32 bytes.
pub checked : Crypto → Bytes → List (Bytes × Bytes) → ℕ → Bytes → Bytes → Result VerifyResult
checked c content trust n key blob =
    let trusted : Result VerifyResult = elim (lookup (c.encode key) trust) [
      | none ↦ err (message "valid signature from non trusted key")
      | some name ↦ ok (record { version = n; key = c.encode key; name = name })
    ] in
    if length key == public_key_size
    then (if c.verify key content blob then trusted else err (message "invalid signature"))
    else err panics

-- The two blobs after the version, and the check.
pub verify_parts : Crypto → Bytes → List (Bytes × Bytes) → ℕ → Bytes → Result VerifyResult
unfolding checked
verify_parts c content trust n r0 = do
  (key, r) ← read_varblob r0 public_key_size
  (blob, _) ← read_varblob r ed25519_signature_size
  checked c content trust n key blob

-- The error of `ReadUvarint` is dropped.
abbrev pub verify_version :
    Crypto → Bytes → List (Bytes × Bytes) → UvarintRead → Result VerifyResult
verify_version c content trust n =
    let parts = verify_parts c content trust n.value n.rest in
    if n.value == 1 then parts else err (message "unsupported package signature version")

unfoldable pub verify : Crypto → Bytes → Bytes → List (Bytes × Bytes) → Result VerifyResult
unfolding verify_parts
verify c content sig trust = verify_version c content trust (read_uvarint sig)

unfoldable pub sign : Key → Bytes → Result Bytes
sign k content = do
  key ← k.public_blob
  blob ← k.sign content
  let sig = put_uvarint 1 ++ (write_varblob key ++ write_varblob blob)
  (if ltb signature_size (length sig) then err (message "signature was too large") else ok sig)
