-- ===== src/Convert/Written.antt =====
-- What `process` of cmd/apkg-convert/process.go writes, and what is read at the places of it.
use apkg.Prelude.{
  ℕ, ◌+◌, ◌-◌, ◌*◌, ◌^◌, ◌≤◌, ◌<◌, ◌≡◌, refl, ap, sym, ◌∙◌, true, [], ◌++◌, arith, length, take,
  drop, leb, ◌==◌, append_assoc, length-append, drop-front, take-front, take-append,
}
use apkg.Prelude.Bytes.{Bytes}
use apkg.Errors.{ok}
use apkg.Sig.{Key}
use apkg.Sig.Trust.{signed_with, Trusted, sign-Trusted}
use apkg.Format.{put_u32, put_u64, zeros}
use apkg.Format.RoundTrip.{length-zeros}
use apkg.PackageFile.{FileTools, read_at, must_read_at}
use apkg.Convert.{
  header_len, block_size_of, hash_table, sign_offset, padding_at, data_offset, header_bytes,
  write_package, process,
}

pub must_read_at-after :
    (a b : Bytes) (n off : ℕ)
    → length a ≡ off
    → n ≤ length b
    → must_read_at n off (a ++ b) ≡ ok (take n b)
unfolding must_read_at read_at
must_read_at-after a b n off la fits = ground (arith, drop-front a b off la)

must_read_at-part :
    (a b c : Bytes) (off n : ℕ)
    → length a ≡ off
    → length b ≡ n
    → must_read_at n off (a ++ (b ++ c)) ≡ ok b
must_read_at-part a b c off n la lb =
    must_read_at-after a (b ++ c) n off la (omega (arith, length-append b c))
    ∙ ap ok (take-front b c n lb)

-- The header of `process`.
abbrev pub header_of : FileTools → ℕ → Bytes → Bytes → Bytes
header_of tools created meta image =
    header_bytes tools.sha256 created meta (hash_table tools.sha256 image)
      (block_size_of (length image))

abbrev pub offset_of : FileTools → Bytes → Bytes → ℕ
offset_of tools meta image = sign_offset (length meta) (length (hash_table tools.sha256 image))

-- What `process` is given: metadata of at most one megabyte that parses, and a key that is trusted;
-- the hash has 32 bytes, and the data starts below 2^32.
pub record Input (tools : FileTools) (k : Key) (created : ℕ) (meta image : Bytes) : Type 0 where
  pub name : Bytes
  pub inodes : ℕ
  pub hashes : (b : Bytes) → length (tools.sha256 b) ≡ 32
  pub short : length meta ≤ 1024 * 1024
  pub parses : tools.meta_info meta ≡ ok (name, inodes)
  pub placed : data_offset (offset_of tools meta image) < 2 ^ 32
  pub trusted : Trusted tools.crypto tools.trusted k (header_of tools created meta image)

-- The signature and the zeros behind it.
abbrev pub sign_buffer : Bytes → ℕ → Bytes
sign_buffer sig offset = sig ++ zeros (padding_at offset - length sig)

abbrev pub file_of : FileTools → ℕ → Bytes → Bytes → Bytes → Bytes
file_of tools created meta image sig =
    header_of tools created meta image
    ++ (meta
        ++ (hash_table tools.sha256 image
            ++ (sign_buffer sig (offset_of tools meta image) ++ image)))

module _ (tools : FileTools) (k : Key) (created : ℕ) (meta image : Bytes)
    (i : Input tools k created meta image) where
  pub header-length : length (header_of tools created meta image) ≡ 124
  unfolding header_bytes put_u32 put_u64
  header-length =
      let table = hash_table tools.sha256 image in
      let offset = offset_of tools meta image in
      let r2 =
        (put_u32 offset ++ put_u32 (data_offset offset))
        ++ put_u32 (block_size_of (length image)) in
      let r1 =
        (put_u32 (header_len + length meta) ++ put_u32 (length table))
        ++ (tools.sha256 table ++ r2) in
      omega (
        arith,
        length-append (tools.sha256 meta) r1,
        length-append (tools.sha256 table) r2,
        i.hashes meta,
        i.hashes table,
      )

  pub padding-room : 99 ≤ padding_at (offset_of tools meta image)
  unfolding padding_at
  padding-room = ground arith

  pub process-file :
      process tools k created meta image
      ≡ ok (file_of tools created meta image (signed_with i.trusted.key i.trusted.blob))
  unfolding process write_package
  process-file =
      let header = header_of tools created meta image in
      let sig = signed_with i.trusted.key i.trusted.blob in
      let (_, small, v) = sign-Trusted tools.crypto tools.trusted k header i.trusted in
      let g1 : leb (length meta) (1024 * 1024) ≡ true = ground (arith, i.short) in
      let g2 : (length header == 124) ≡ true = ground (arith, header-length) in
      let g3 : leb (length sig) (padding_at (offset_of tools meta image)) ≡ true =
        ground (arith, small, padding-room) in
      rw g1 (rw g2 (rw (i.trusted.key_is, i.trusted.blob_is, v) (rw g3 refl)))

  sign_buffer-length :
      length (sign_buffer (signed_with i.trusted.key i.trusted.blob) (offset_of tools meta image))
      ≡ padding_at (offset_of tools meta image)
  sign_buffer-length =
      let sig = signed_with i.trusted.key i.trusted.blob in
      let offset = offset_of tools meta image in
      let (_, small, _) =
        sign-Trusted tools.crypto tools.trusted k (header_of tools created meta image) i.trusted in
      omega (
        arith,
        length-append sig (zeros (padding_at offset - length sig)),
        length-zeros (padding_at offset - length sig),
        small,
        padding-room,
      )

  -- `n` bytes at the place of the signature: the signature, and what is behind it.
  pub read-sign_buffer :
      (n : ℕ)
      → 99 ≤ n
      → n ≤ padding_at (offset_of tools meta image) + length image
      → (rest : Bytes) × (must_read_at n
            (offset_of tools meta image)
            (file_of tools created meta image (signed_with i.trusted.key i.trusted.blob))
          ≡ ok (signed_with i.trusted.key i.trusted.blob ++ rest))
  unfolding sign_offset
  read-sign_buffer n enough inside =
      let sig = signed_with i.trusted.key i.trusted.blob in
      let offset = offset_of tools meta image in
      let header = header_of tools created meta image in
      let table = hash_table tools.sha256 image in
      let a = header ++ (meta ++ table) in
      let b = sign_buffer sig offset ++ image in
      let behind = zeros (padding_at offset - length sig) ++ image in
      let (_, small, _) = sign-Trusted tools.crypto tools.trusted k header i.trusted in
      let split : file_of tools created meta image sig ≡ a ++ b = simp append_assoc in
      let la : length a ≡ offset =
        omega
          (arith, length-append header (meta ++ table), length-append meta table, header-length) in
      let lb : n ≤ length b =
        omega (arith, length-append (sign_buffer sig offset) image, sign_buffer-length, inside) in
      let front : take n b ≡ sig ++ take (n - length sig) behind =
        ap (take n) (append_assoc sig (zeros (padding_at offset - length sig)) image)
        ∙ take-append n sig behind (omega (arith, small, enough)) in
      (
        take (n - length sig) behind,
        ap (must_read_at n offset) split ∙ must_read_at-after a b n offset la lb ∙ ap ok front,
      )

  pub read-header :
      must_read_at 124 0
        (file_of tools created meta image (signed_with i.trusted.key i.trusted.blob))
      ≡ ok (header_of tools created meta image)
  read-header = must_read_at-part [] (header_of tools created meta image) _ 0 124 refl header-length

  pub read-meta :
      must_read_at
        (length meta)
        header_len
        (file_of tools created meta image (signed_with i.trusted.key i.trusted.blob))
      ≡ ok meta
  read-meta =
      must_read_at-part (header_of tools created meta image) meta _ header_len (length meta)
        header-length refl

  pub read-table :
      must_read_at
        (length (hash_table tools.sha256 image))
        (header_len + length meta)
        (file_of tools created meta image (signed_with i.trusted.key i.trusted.blob))
      ≡ ok (hash_table tools.sha256 image)
  read-table =
      let header = header_of tools created meta image in
      let table = hash_table tools.sha256 image in
      let la : length (header ++ meta) ≡ header_len + length meta =
        omega (arith, length-append header meta, header-length) in
      ap (must_read_at (length table) (header_len + length meta)) (sym (append_assoc header meta _))
      ∙ must_read_at-part (header ++ meta) table _ (header_len + length meta) (length table) la refl

  -- The image starts at the data's offset.
  pub drop-image :
      drop
        (data_offset (offset_of tools meta image))
        (file_of tools created meta image (signed_with i.trusted.key i.trusted.blob))
      ≡ image
  unfolding data_offset sign_offset
  drop-image =
      let sig = signed_with i.trusted.key i.trusted.blob in
      let offset = offset_of tools meta image in
      let header = header_of tools created meta image in
      let table = hash_table tools.sha256 image in
      let a = header ++ (meta ++ (table ++ sign_buffer sig offset)) in
      let split : file_of tools created meta image sig ≡ a ++ image = simp append_assoc in
      let la : length a ≡ data_offset offset = omega (
        arith,
        length-append header (meta ++ (table ++ sign_buffer sig offset)),
        length-append meta (table ++ sign_buffer sig offset),
        length-append table (sign_buffer sig offset),
        sign_buffer-length,
        header-length,
      ) in
      ap (drop (data_offset offset)) split ∙ drop-front a image (data_offset offset) la
