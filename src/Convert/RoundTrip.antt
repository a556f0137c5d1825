-- ===== src/Convert/RoundTrip.antt =====
-- `process` of cmd/apkg-convert/process.go against `OpenPackage`, `validate` and `ReadAt` of
-- apkgdb/package.go.
use apkg.Prelude.{
  ℕ, ◌+◌, ◌^◌, ◌%◌, leb, false, ◌≤◌, ◌<◌, ◌≡◌, refl, ap, sym, ◌∙◌, none, some, [], ◌++◌, arith,
  length, take, drop, ltb, if◌then◌else◌, drop_add,
}
use apkg.Prelude.Bytes.{Bytes, bytes_eq_refl}
use apkg.Errors.{message, ok}
use apkg.Sig.{Key, VerifyResult, verify}
use apkg.Sig.Trust.{signed_with, verify-Trusted}
use apkg.Format.{put_u64}
use apkg.PackageFile.{
  must_read_at, FileTools, Data, read_at, open_package, validate, package_read_at,
}
use apkg.Convert.{header_len, block_size_of, hash_table, sign_offset, data_offset, process}
use apkg.Convert.Layout.{data_offset-first, block_size_of-fits}
use apkg.Convert.Header.{
  read_fields-two, read_fields-three, first-pair, second-pair, first-triple, second-triple,
  third-triple,
}
use apkg.Convert.Written.{
  Input, header_of, offset_of, file_of, padding-room, process-file, read-sign_buffer, read-header,
  read-meta, read-table, drop-image,
}

module _ (tools : FileTools) (k : Key) (created : ℕ) (meta image : Bytes)
    (i : Input tools k created meta image) where
  offset-fits : offset_of tools meta image < 2 ^ 32
  offset-fits = omega (arith, i.placed, data_offset-first (offset_of tools meta image))

  sizes-fit : (length meta < 2 ^ 32) × (length (hash_table tools.sha256 image) < 2 ^ 32)
  unfolding sign_offset
  sizes-fit = (omega (arith, i.short), omega (arith, offset-fits))

  -- `process` succeeds, and `OpenPackage` of the file that it writes gives the package: under the hash
  -- of the header, with the size of the file, the name and the inodes of the metadata, the header,
  -- the metadata, and as its signature the 99 bytes that stand in the file behind the hash table, which
  -- `Verify` accepts for the header; the flags are 0 and the creation time is the one that was given. The conditions: metadata of at most one megabyte that parses, a hash of 32 bytes, data
  -- that starts below 2^32, and a key that is trusted.
  pub open_package-process :
      (file : Bytes) × (sig : Bytes) × (process tools k created meta image ≡ ok file)
      × (must_read_at 99 (offset_of tools meta image) file ≡ ok sig)
      × ((found : VerifyResult) × (verify tools.crypto
              (header_of tools created meta image)
              sig
              tools.trusted
            ≡ ok found))
      × (open_package tools file
          ≡ ok (record {
            pkg = record {
              start_ino = 0;
              hash = tools.sha256 (header_of tools created meta image);
              size = length file;
              inodes = i.inodes;
              name = i.name;
              path = [];
              raw_header = header_of tools created meta image;
              raw_sig = sig;
              raw_meta = meta;
            };
            flags = 0;
            created = put_u64 created ++ put_u64 0;
          }))
  unfolding open_package
  open_package-process =
      let sig = signed_with i.trusted.key i.trusted.blob in
      let header = header_of tools created meta image in
      let table = hash_table tools.sha256 image in
      let offset = offset_of tools meta image in
      let file = file_of tools created meta image sig in
      let room = padding-room tools k created meta image i in
      let (rest, es) =
        read-sign_buffer tools k created meta image i 99 (omega arith) (omega (arith, room)) in
      let e0 = read-header tools k created meta image i in
      let e1 =
        read_fields-two tools.sha256 created meta table (block_size_of (length image)) i.hashes in
      let e2 = first-pair offset (data_offset offset) (offset-fits) in
      let e3 = verify-Trusted tools.crypto tools.trusted k header rest i.trusted in
      let e4 = first-pair header_len (length meta) (omega arith) in
      let e5 = second-pair header_len (length meta) (sizes-fit.0) in
      let e6 = read-meta tools k created meta image i in
      let e7 = first-pair (header_len + length meta) (length table) (omega (arith, i.short)) in
      let e8 = second-pair (header_len + length meta) (length table) (sizes-fit.1) in
      let e9 = read-table tools k created meta image i in
      (
        file,
        sig ++ rest,
        process-file tools k created meta image i,
        es,
        (_, e3),
        rw e0 (
            rw e1 (
              rw (e2, es)
                (rw e3 (
                  rw (e4, e5, e6, bytes_eq_refl (tools.sha256 meta))
                    (rw (e7, e8, e9, bytes_eq_refl (tools.sha256 table)) (rw i.parses refl)))))),
      )

  -- What is downloaded is what was converted: `process` succeeds, `validate` accepts the file that it
  -- writes for a package with the hash of the header, and every `ReadAt` of that package, at an offset
  -- from 0 up to 2^63 - 2^32 and however long, reads the squashfs image as it was. The conditions are
  -- those under which `OpenPackage` opens it, and an image of at least 29 bytes.
  pub package_read_at-process :
      (n off : ℕ)
      → 29 ≤ length image
      → off + 2 ^ 32 ≤ 2 ^ 63
      → (file : Bytes) × (d : Data) × (process tools k created meta image ≡ ok file)
        × (validate tools (tools.sha256 (header_of tools created meta image)) file ≡ ok d)
        × (d.block_size ≡ block_size_of (length image))
        × (package_read_at (some file) d n off ≡ read_at n off image)
  unfolding validate package_read_at read_at
  package_read_at-process n off large inside =
      let sig = signed_with i.trusted.key i.trusted.blob in
      let header = header_of tools created meta image in
      let table = hash_table tools.sha256 image in
      let offset = offset_of tools meta image in
      let size = block_size_of (length image) in
      let file = file_of tools created meta image sig in
      let room = padding-room tools k created meta image i in
      let (rest, es) =
        read-sign_buffer tools k created meta image i 128 (omega arith) (omega (arith, room)) in
      let e0 = read-header tools k created meta image i in
      let e1 = read_fields-three tools.sha256 created meta table size i.hashes in
      let e2 = first-triple offset (data_offset offset) size (offset-fits) in
      let e3 = verify-Trusted tools.crypto tools.trusted k header rest i.trusted in
      let e4 = second-triple offset (data_offset offset) size i.placed in
      let e5 =
        third-triple offset (data_offset offset) size
          (omega (arith, (block_size_of-fits (length image)).2)) in
      let at : drop (off + data_offset offset) file ≡ drop off image =
        sym (drop_add (data_offset offset) off (off + data_offset offset) file (omega arith))
        ∙ ap (drop off) (drop-image tools k created meta image i) in
      (
        file,
        record { offset = data_offset offset; block_size = size },
        process-file tools k created meta image i,
        rw e0 (rw (e1, bytes_eq_refl (tools.sha256 header)) (rw (e2, es) (rw (e3, e4, e5) refl))),
        refl,
        let sum : (off + data_offset offset) % 2 ^ 64 ≡ off + data_offset offset =
              omega (arith, i.placed, inside) in
            let not_negative : leb (2 ^ 63) (off + data_offset offset) ≡ false =
              ground (arith, i.placed, inside) in
            rw sum (
              rw not_negative
                (ap (λ b. (take n b, if ltb (length b) n then some (message "EOF") else none)) at)),
      )
