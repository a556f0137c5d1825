-- ===== src/Sig/Trust.antt =====
-- `Sign` of apkgsig/sign.go against `verify` of apkgsig/verify.go.
use apkg.Prelude.{
  refl, ℕ, ◌+◌, ◌≤◌, ◌<◌, ◌≡◌, ap, sym, ◌∙◌, true, false, some, List, [], ◌++◌, arith, length,
  append-nil, append_assoc, length-append, ltb, Option-cases, inl, inr,
}
use apkg.Prelude.Bytes.{Bytes}
use apkg.Prelude.Map.{lookup}
use apkg.Errors.{panics, Result-cases, ok, err}
use apkg.Sig.{
  put_uvarint, read_uvarint, read_varblob, write_varblob, Crypto, Key, VerifyResult, verify, sign,
  checked, put_rounds, verify_parts, verify_version,
}
use apkg.Sig.RoundTrip.{read_uvarint-put_uvarint, read_varblob-write_varblob}

-- `checked` accepts a good signature of a trusted key.
checked-ok :
    (c : Crypto) (content key blob name : Bytes) (trust : List (Bytes × Bytes))
    → length key ≡ 32
    → c.verify key content blob ≡ true
    → lookup (c.encode key) trust ≡ some name
    → checked c content trust 1 key blob
      ≡ ok (record { version = 1; key = c.encode key; name = name })
unfolding checked
checked-ok c content key blob name trust full good found = ground arith

-- And nothing else.
checked-trusted :
    (c : Crypto) (content key blob : Bytes) (trust : List (Bytes × Bytes)) (n : ℕ)
    (r : VerifyResult)
    → checked c content trust n key blob ≡ ok r
    → (c.verify key content blob ≡ true)
      × (r.key ≡ c.encode key)
      × (r.version ≡ n)
      × (lookup (c.encode key) trust ≡ some r.name)
unfolding checked
checked-trusted c content key blob trust n r h =
    ground (arith, Option-cases (lookup (c.encode key) trust))

-- The two blobs are read, and checked; what follows them is left alone.
verify_parts-rest :
    (c : Crypto) (content key blob rest : Bytes) (trust : List (Bytes × Bytes))
    → length key ≤ 32
    → length blob ≤ 64
    → verify_parts c content trust 1 (write_varblob key ++ (write_varblob blob ++ rest))
      ≡ checked c content trust 1 key blob
unfolding verify_parts
verify_parts-rest c content key blob rest trust hk hb =
    let e = read_varblob-write_varblob key (write_varblob blob ++ rest) 32 hk (omega arith) in
    let e' = read_varblob-write_varblob blob rest 64 hb (omega arith) in rw (e, e') refl

verify_parts-write :
    (c : Crypto) (content key blob : Bytes) (trust : List (Bytes × Bytes))
    → length key ≤ 32
    → length blob ≤ 64
    → verify_parts c content trust 1 (write_varblob key ++ write_varblob blob)
      ≡ checked c content trust 1 key blob
verify_parts-write c content key blob trust hk hb =
    ap (λ t. verify_parts c content trust 1 (write_varblob key ++ t))
      (sym (append-nil (write_varblob blob)))
    ∙ verify_parts-rest c content key blob [] trust hk hb

-- A size below 128 takes one byte.
length-put_uvarint : (v : ℕ) → v < 128 → length (put_uvarint v) ≡ 1
unfolding put_uvarint put_rounds
length-put_uvarint v h = ground arith

length-write_varblob : (v : Bytes) → length v < 128 → length (write_varblob v) ≡ 1 + length v
unfolding write_varblob
length-write_varblob v h =
    omega (arith, length-append (put_uvarint (length v)) v, length-put_uvarint (length v) h)

abbrev pub signed_with : Bytes → Bytes → Bytes
signed_with key blob = put_uvarint 1 ++ (write_varblob key ++ write_varblob blob)

pub signature_fits :
    (key blob : Bytes)
    → length key ≤ 32
    → length blob ≤ 64
    → ltb 99 (length (signed_with key blob)) ≡ false
signature_fits key blob hk hb =
    let e1 = length-append (put_uvarint 1) (write_varblob key ++ write_varblob blob) in
    let e2 = length-append (write_varblob key) (write_varblob blob) in
    let e3 = length-write_varblob key (omega arith) in
    let e4 = length-write_varblob blob (omega arith) in
    let e5 = length-put_uvarint 1 (omega arith) in ground arith

pub sign-ok :
    (k : Key) (content key blob : Bytes)
    → k.public_blob ≡ ok key
    → k.sign content ≡ ok blob
    → length key ≤ 32
    → length blob ≤ 64
    → sign k content ≡ ok (signed_with key blob)
unfolding sign
sign-ok k content key blob hk hs lk lb = rw (hk, hs, signature_fits key blob lk lb)

-- A good signature of a trusted key is accepted, whatever follows it.
pub verify-signed_with :
    (c : Crypto) (content key blob name rest : Bytes) (trust : List (Bytes × Bytes))
    → length key ≡ 32
    → length blob ≤ 64
    → c.verify key content blob ≡ true
    → lookup (c.encode key) trust ≡ some name
    → verify c content (signed_with key blob ++ rest) trust
      ≡ ok (record { version = 1; key = c.encode key; name = name })
unfolding verify
verify-signed_with c content key blob name rest trust lk lb good found =
    let parts = write_varblob key ++ (write_varblob blob ++ rest) in
    let split : signed_with key blob ++ rest ≡ put_uvarint 1 ++ parts = simp append_assoc in
    ap (λ t. verify_version c content trust (read_uvarint t)) split
    ∙ ap (verify_version c content trust) (read_uvarint-put_uvarint 1 parts (omega arith))
    ∙ verify_parts-rest c content key blob rest trust (omega arith) lb
    ∙ checked-ok c content key blob name trust lk good found

-- What a key gives for a content, where `verify` trusts it: a key of the full size in the trust list,
-- and a signature that fits and that the check of ed25519 accepts.
pub record Trusted (c : Crypto) (trust : List (Bytes × Bytes)) (k : Key) (content : Bytes)
    : Type 0 where
  pub key : Bytes
  pub blob : Bytes
  pub name : Bytes
  pub key_is : k.public_blob ≡ ok key
  pub blob_is : k.sign content ≡ ok blob
  pub full : length key ≡ 32
  pub fits : length blob ≤ 64
  pub good : c.verify key content blob ≡ true
  pub found : lookup (c.encode key) trust ≡ some name

pub verify-Trusted :
    (c : Crypto) (trust : List (Bytes × Bytes)) (k : Key) (content rest : Bytes)
    (t : Trusted c trust k content)
    → verify c content (signed_with t.key t.blob ++ rest) trust
      ≡ ok (record { version = 1; key = c.encode t.key; name = t.name })
verify-Trusted c trust k content rest t =
    verify-signed_with c content t.key t.blob t.name rest trust t.full t.fits t.good t.found

pub sign-Trusted :
    (c : Crypto) (trust : List (Bytes × Bytes)) (k : Key) (content : Bytes)
    (t : Trusted c trust k content)
    → (sign k content ≡ ok (signed_with t.key t.blob))
      × (length (signed_with t.key t.blob) ≤ 99)
      × (verify c content (signed_with t.key t.blob) trust
          ≡ ok (record { version = 1; key = c.encode t.key; name = t.name }))
sign-Trusted c trust k content t =
    let full : length t.key ≤ 32 = omega (arith, t.full) in
    (
      sign-ok k content t.key t.blob t.key_is t.blob_is full t.fits,
      ground (arith, signature_fits t.key t.blob full t.fits),
      ap (λ x. verify c content x trust) (sym (append-nil (signed_with t.key t.blob)))
          ∙ verify-Trusted c trust k content [] t,
    )

-- `Sign` succeeds, and what it makes `verify` accepts under the name that the trust list has for the
-- key, if the key gives its public part of 32 bytes and a signature of at most 64, and the
-- check of ed25519 accepts that signature.
pub verify-sign :
    (c : Crypto) (k : Key) (content key blob name : Bytes) (trust : List (Bytes × Bytes))
    → k.public_blob ≡ ok key
    → k.sign content ≡ ok blob
    → length key ≡ 32
    → length blob ≤ 64
    → c.verify key content blob ≡ true
    → lookup (c.encode key) trust ≡ some name
    → (sig : Bytes) × (sign k content ≡ ok sig)
      × (verify c content sig trust ≡ ok (record { version = 1; key = c.encode key; name = name }))
unfolding verify
verify-sign c k content key blob name trust hk hs lk lb good found =
    let e = read_uvarint-put_uvarint 1 (write_varblob key ++ write_varblob blob) (omega arith) in
    (
      signed_with key blob,
      sign-ok k content key blob hk hs (omega arith) lb,
      ap (verify_version c content trust) e
          ∙ verify_parts-write c content key blob trust (omega arith) lb
          ∙ checked-ok c content key blob name trust lk good found,
    )

abbrev pub Signs : Crypto → Bytes → List (Bytes × Bytes) → VerifyResult → Type 0
Signs c content trust r =
    (key : Bytes) × (blob : Bytes) × (c.verify key content blob ≡ true)
    × (r.key ≡ c.encode key)
    × (lookup r.key trust ≡ some r.name)

verify_parts-Signs :
    (c : Crypto) (content r0 : Bytes) (trust : List (Bytes × Bytes)) (n : ℕ) (r : VerifyResult)
    → verify_parts c content trust n r0 ≡ ok r
    → Signs c content trust r × (r.version ≡ n)
unfolding verify_parts
verify_parts-Signs c content r0 trust n r h = elim (Result-cases (read_varblob r0 32)) [
  | inr (e, p) ↦ cc
  | inl ((key, r1), p) ↦ elim (Result-cases (read_varblob r1 64)) [
    | inr (e, q) ↦ cc
    | inl ((blob, r2), q) ↦
        let g : checked c content trust n key blob ≡ ok r = cc in
        let (good, k, v, named) = checked-trusted c content key blob trust n r g in
        ((key, blob, good, k, cc), v)
  ]
]

-- What `verify` accepts has version 1, a key that the trust list has under the name that is returned,
-- and a signature of the content which the check of ed25519 accepts under that key.
pub verify-Signs :
    (c : Crypto) (content sig : Bytes) (trust : List (Bytes × Bytes)) (r : VerifyResult)
    → verify c content sig trust ≡ ok r
    → Signs c content trust r × (r.version ≡ 1)
unfolding verify
verify-Signs c content sig trust r h =
    ground
      (arith, verify_parts-Signs c content (read_uvarint sig).rest trust (read_uvarint sig).value r)

-- A signature of version 1 whose key has fewer than 32 bytes makes `verify` panic, if the two blobs
-- have at most the sizes that are asked for.
pub verify-short_key :
    (c : Crypto) (content key blob : Bytes) (trust : List (Bytes × Bytes))
    → length key < 32
    → length blob ≤ 64
    → verify c content (put_uvarint 1 ++ (write_varblob key ++ write_varblob blob)) trust
      ≡ err panics
unfolding verify checked
verify-short_key c content key blob trust short lb =
    let e = read_uvarint-put_uvarint 1 (write_varblob key ++ write_varblob blob) (omega arith) in
    ap (verify_version c content trust) e
    ∙ verify_parts-write c content key blob trust (omega arith) lb
    ∙ ground arith
