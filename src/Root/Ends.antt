-- ===== src/Root/Ends.antt =====
-- What a read of the loader's cache gives, from apkgfs/server.go down to apkgdb/ldso.go.
use apkg.Prelude.{
  ℕ, zero, suc, ◌^◌, ◌≤◌, ◌≡◌, refl, false, some, [], ◌∷◌, if◌then◌else◌, leb, ltb, length, take,
  drop, arith, length-drop, inl, inr, Bool-cases,
}
use apkg.Prelude.Bytes.{Bytes}
use apkg.Errors.{ok}
use apkg.Fs.{PkgFs, get_inode}
use apkg.Fs.Server.{
  FuseInHeader, reply_status, reply_err, reply, raw, crashed, error_out, eio, le_uint, slice,
  to_errno,
}
use apkg.Fs.Server.Handlers.{do_read}
use apkg.Root.{Layout, ldso_inode, ldso_read_at}

take-some :
    (n : ℕ) (xs : Bytes) → 1 ≤ n → 1 ≤ length xs → (b : ℕ) × (bs : Bytes) × (take n xs ≡ b ∷ bs)
take-some zero xs h k = absurd (omega arith)
take-some (suc n) [] h k = absurd (omega arith)
take-some (suc n) (x ∷ xs) h k = (x, take n xs, refl)

-- A read of at least one byte of the loader's cache, in a request of at least 40 bytes behind its header.
-- At an offset from 2 ^ 63 on the code panics. Before that, inside the cache it answers the bytes from
-- the offset on, as many as are asked for and there; from the end on it answers the error number 5,
-- EIO, where a read at the end of a file should give no bytes.
pub do_read-ldso :
    (layout : Layout) (ldso : Bytes) (hdr : FuseInHeader) (body : Bytes) (p : PkgFs)
    → get_inode hdr.node_id p ≡ ok (ldso_inode layout ldso)
    → 40 ≤ length body
    → 1 ≤ le_uint (slice 16 4 body)
    → do_read hdr body p ≡ (
      some (
          if leb (2 ^ 63) (le_uint (slice 8 8 body))
          then reply hdr.unique crashed
          else if ltb (le_uint (slice 8 8 body)) (length ldso)
          then reply hdr.unique
              (raw (take (le_uint (slice 16 4 body)) (drop (le_uint (slice 8 8 body)) ldso)))
          else reply_status hdr.unique eio),
      p,
    )
unfolding do_read ldso_inode ldso_read_at reply_err error_out to_errno
do_read-ldso layout ldso hdr body p at long some_bytes =
    let off = le_uint (slice 8 8 body) in
    let size = le_uint (slice 16 4 body) in
    let short : ltb (length body) 40 ≡ false = ground arith in
    elim (Bool-cases (leb (2 ^ 63) off)) [
      | inl negative ↦ ground (arith, at, short, negative)
      | inr not_negative ↦ elim (Bool-cases (ltb off (length ldso))) [
        | inl inside ↦
            let some_left : 1 ≤ length (drop off ldso) =
              ground (arith, inside, length-drop off ldso) in
            let (b, bs, e) = take-some size (drop off ldso) some_bytes some_left in
            ground (arith, at, short, not_negative, inside, e)
        | inr outside ↦ ground (arith, at, short, not_negative, outside)
      ]
    ]
