-- ===== src/Fs/Server/Wire/Lengths.antt =====
-- The lengths of what apkgfs/server.go writes.
use apkg.Prelude.{
  ℕ, zero, suc, ◌+◌, ◌/◌, ◌^◌, ◌<◌, ◌≡◌, refl, ◌++◌, length, take, arith, length-append, take-front,
  ap, sym, ◌∙◌,
}
use apkg.Prelude.Bytes.{Bytes}
use apkg.Fs.Server.{le_uint}
use apkg.Fs.Server.Wire.{
  put_le, frame, negated, reply_bytes, inode_notify, inode_notify_store_cache,
}

length-put_le : (n v : ℕ) → length (put_le n v) ≡ n
unfolding put_le
length-put_le zero v = refl
length-put_le (suc n) v = omega (arith, length-put_le n (v / 256))

le_uint-put_le4 : (v : ℕ) → v < 2 ^ 32 → le_uint (put_le 4 v) ≡ v
unfolding put_le le_uint
le_uint-put_le4 v h = omega arith

frame-length :
    (status unique : ℕ) (payload : Bytes)
    → 16 + length payload < 2 ^ 32
    → le_uint (take 4 (frame status unique payload)) ≡ length (frame status unique payload)
unfolding frame
frame-length status unique payload h =
    let size = 16 + length payload in
    let tail = put_le 8 unique ++ payload in
    let front : take 4 (put_le 4 size ++ (put_le 4 status ++ tail)) ≡ put_le 4 size =
      take-front (put_le 4 size) (put_le 4 status ++ tail) 4 (length-put_le 4 size) in
    let total : length (put_le 4 size ++ (put_le 4 status ++ tail)) ≡ size = omega (
      arith,
      length-append (put_le 4 size) (put_le 4 status ++ tail),
      length-append (put_le 4 status) tail,
      length-append (put_le 8 unique) payload,
      length-put_le 4 size,
      length-put_le 4 status,
      length-put_le 8 unique,
    ) in
    ap le_uint front ∙ le_uint-put_le4 size h ∙ sym total

-- Whatever is written to the kernel says its own length: the first four bytes of an answer, of an
-- invalidation and of a store are the number of bytes of the whole, if that fits 32 bits.
pub written-length :
    (unique status ino off len : ℕ) (payload : Bytes)
    → 40 + length payload < 2 ^ 32
    → (le_uint (take 4 (reply_bytes unique status payload))
        ≡ length (reply_bytes unique status payload))
      × (le_uint (take 4 (inode_notify ino off len)) ≡ length (inode_notify ino off len))
      × (le_uint (take 4 (inode_notify_store_cache ino off payload))
          ≡ length (inode_notify_store_cache ino off payload))
unfolding reply_bytes inode_notify inode_notify_store_cache
written-length unique status ino off len payload h =
    let store = put_le 8 ino ++ (put_le 8 off ++ (put_le 4 0 ++ (put_le 4 0 ++ payload))) in
    let inval = put_le 8 ino ++ (put_le 8 off ++ put_le 8 len) in
    let ls : length store ≡ 24 + length payload = unfold put_le in omega arith in
    let li : length inval ≡ 24 = unfold put_le in omega arith in
    (
      frame-length (negated status) unique payload (omega arith),
      frame-length (negated 2) 0 inval (omega (arith, li)),
      frame-length (negated 4) 0 store (omega (arith, ls)),
    )
