-- ===== src/Sig/RoundTrip.antt =====
-- Reading against writing, for the numbers and blobs of apkgsig/varblob.go.
use apkg.Prelude.{
  ℕ, zero, suc, ◌+◌, ◌*◌, ◌/◌, ◌%◌, ◌^◌, ◌≤◌, ◌<◌, ◌≡◌, ap, ◌∙◌, Bool, false, none, [], ◌∷◌, ◌++◌,
  arith, length, append_assoc, take-length-append, drop-length-append, length-append, ltb,
  if◌then◌else◌,
}
use native.Mathlib.Decide.{dec_lt}
use native.Mathlib.Nat.{div-add-mod}
use apkg.Prelude.Bytes.{Bytes}
use apkg.Errors.{message, ok, err}
use apkg.Sig.{
  sized_blob, read_of, put_rounds, put_uvarint, read_rounds, read_uvarint, read_full, read_varblob,
  write_varblob,
}

-- One round of reading, on a last byte and on a byte with the top bit set over the group `g`.
last_byte :
    (m v weight acc : ℕ) (rest : Bytes)
    → v < 128
    → read_rounds (suc (suc m)) weight acc (v ∷ rest) ≡ read_of (acc + v * weight) rest none
unfolding read_rounds
last_byte m v weight acc rest h = ground arith

inner_byte :
    (m g weight acc : ℕ) (rest : Bytes)
    → g < 128
    → acc + g * weight < 2 ^ 64
    → read_rounds (suc m) weight acc ((g + 128) ∷ rest)
      ≡ read_rounds m (weight * 128) (acc + g * weight) rest
unfolding read_rounds
inner_byte m g weight acc rest h fits =
    let e : (g + 128) % 128 ≡ g = omega arith in
    let e' : (acc + g * weight) % 2 ^ 64 ≡ acc + g * weight = omega arith in
    let e'' : ltb (g + 128) 128 ≡ false = ground arith in rw (e'', e, e')

-- The lowest group of `v` and the rest.
split_group : (v weight : ℕ) → v * weight ≡ v % 128 * weight + v / 128 * (weight * 128)
split_group v weight = omega (arith, ap (λ (t : ℕ). t * weight) (div-add-mod v 128))

put_last : (j v : ℕ) → v < 128 → put_rounds (suc j) v ≡ v ∷ []
unfolding put_rounds
put_last j v h = ground arith

put_more : (j v : ℕ) → 128 ≤ v → put_rounds (suc j) v ≡ (v % 128 + 128) ∷ put_rounds j (v / 128)
unfolding put_rounds
put_more j v h = ground arith

-- A number of `k + 1` groups at most is read back, with rounds to spare on both sides.
rounds_round_trip :
    (k j m v weight acc : ℕ) (rest : Bytes)
    → k ≤ j
    → k ≤ m
    → v < 128 ^ suc k
    → acc + v * weight < 2 ^ 64
    → read_rounds (suc (suc m)) weight acc (put_rounds (suc j) v ++ rest)
      ≡ read_of (acc + v * weight) rest none
rounds_round_trip zero j m v weight acc rest hj hm small fits =
    rw (put_last j v (omega arith)) (last_byte m v weight acc rest (omega arith))
rounds_round_trip (suc k) zero m v weight acc rest hj hm small fits = absurd (omega arith)
rounds_round_trip (suc k) (suc j) zero v weight acc rest hj hm small fits = absurd (omega arith)
rounds_round_trip (suc k) (suc j) (suc m) v weight acc rest hj hm small fits = elim (dec_lt v 128) [
  | yes h ↦ rw (put_last (suc j) v h) (last_byte (suc m) v weight acc rest h)
  | no h ↦
      let s = split_group v weight in
      rw (put_more (suc j) v (omega arith)) (
        inner_byte (suc (suc m)) (v % 128) weight acc (put_rounds (suc j) (v / 128) ++ rest)
          (omega arith) (omega arith)
        ∙ rounds_round_trip k j m (v / 128) (weight * 128) (acc + v % 128 * weight) rest
            (omega arith) (omega arith) (omega arith) (omega arith)
        ∙ ap (λ t. read_of t rest none) (omega arith))
]

-- `ReadUvarint` reads back a number below 2^63 that `PutUvarint` wrote, and leaves what follows.
pub read_uvarint-put_uvarint :
    (v : ℕ) (rest : Bytes) → v < 2 ^ 63 → read_uvarint (put_uvarint v ++ rest) ≡ read_of v rest none
unfolding read_uvarint put_uvarint
read_uvarint-put_uvarint v rest h =
    rounds_round_trip 8 9 8 v 1 0 rest (omega arith) (omega arith) (omega arith) (omega arith)
    ∙ ap (λ t. read_of t rest none) (omega arith)

-- `io.ReadFull` of exactly the blob.
pub read_full-append : (v rest : Bytes) → read_full (length v) (v ++ rest) ≡ ok (v, rest)
unfolding read_full
read_full-append v rest =
    ground (arith, length-append v rest, take-length-append v rest, drop-length-append v rest)

after_size :
    (r v rest : Bytes) (max_len : ℕ)
    → length v ≤ max_len
    → read_uvarint r ≡ read_of (length v) (v ++ rest) none
    → read_varblob r max_len ≡ ok (v, rest)
unfolding read_varblob
after_size r v rest max_len fits e =
    let h : ltb max_len (length v) ≡ false = ground arith in
    ap (sized_blob max_len) e
    ∙ ap
        (λ (t : Bool).
          if t then err (message "oversized blob") else read_full (length v) (v ++ rest))
        h
    ∙ read_full-append v rest

-- `ReadVarblob` reads back what `WriteVarblob` wrote and leaves what follows, if the blob has at most
-- the size that is asked for.
pub read_varblob-write_varblob :
    (v rest : Bytes) (max_len : ℕ)
    → length v ≤ max_len
    → length v < 2 ^ 63
    → read_varblob (write_varblob v ++ rest) max_len ≡ ok (v, rest)
unfolding write_varblob
read_varblob-write_varblob v rest max_len fits small =
    let e = append_assoc (put_uvarint (length v)) v rest in
    let e' = read_uvarint-put_uvarint (length v) (v ++ rest) small in
    after_size (write_varblob v ++ rest) v rest max_len fits (rw e e')
