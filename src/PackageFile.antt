-- ===== src/PackageFile.antt =====
-- Package files, as apkgdb/package.go reads them: `OpenPackage`, `validate` and `Package.ReadAt`. A
-- file is the list of its bytes.
use apkg.Prelude.{
  ℕ, ◌+◌, Option, none, some, List, [], if◌then◌else◌, ltb, leb, ◌%◌, ◌^◌, ◌==◌, length, take, drop,
}
use apkg.Prelude.Bytes.{Bytes, codes, bytes_eq}
use apkg.Prelude.Map.{be_uint}
use apkg.Errors.{Error, message, invalid, Result, ok, err, ◌>>=◌}
use apkg.Sig.{Crypto, read_full, verify, signature_size}
use apkg.Format.{guard, read_be}
use apkg.Packages.{Package}

-- What is not in the repository: `crypto/sha256`, ed25519 with the trusted package keys, and what
-- `encoding/json` makes of the metadata, the full name and the number of inodes.
pub record FileTools : Type 0 where
  pub sha256 : Bytes → Bytes
  pub crypto : Crypto
  pub trusted : List (Bytes × Bytes)
  pub meta_info : Bytes → Result (Bytes × ℕ)

-- `f.ReadAt` of `n` bytes: what is read, and the error.
unfoldable pub read_at : ℕ → ℕ → Bytes → Bytes × Option Error
read_at n off file =
    let rest = drop off file in
    (take n rest, if ltb (length rest) n then some (message "EOF") else none)

-- `f.ReadAt` where an error ends the function.
unfoldable pub must_read_at : ℕ → ℕ → Bytes → Result Bytes
unfolding read_at
must_read_at n off file = let (b, e) = read_at n off file in elim e [ none ↦ ok b | some x ↦ err x ]

-- What the header says.
pub record Fields : Type 0 where
  pub flags : ℕ
  pub created : Bytes
  pub metadata : Bytes
  pub metadata_hash : Bytes
  pub table : Bytes
  pub table_hash : Bytes
  pub last_offt : Bytes

-- The header; `OpenPackage` reads the last two or three numbers of it, of `n` bytes together.
unfoldable pub read_fields : ℕ → Bytes → Result Fields
read_fields n header = do
  _ ← guard (bytes_eq (take 4 header) (codes "APKG")) (message "not a APKG file")
  (version, r1) ← read_be 4 (drop 4 header)
  _ ← guard (version == 1) (message "unsupported file version")
  (flags, r2) ← read_be 8 r1
  (created, r3) ← read_full 16 r2
  (metadata, r4) ← read_full 8 r3
  (metadata_hash, r5) ← read_full 32 r4
  (table, r6) ← read_full 8 r5
  (table_hash, r7) ← read_full 32 r6
  (last_offt, r8) ← read_full n r7
  ok (record {
    flags = flags;
    created = created;
    metadata = metadata;
    metadata_hash = metadata_hash;
    table = table;
    table_hash = table_hash;
    last_offt = last_offt;
  })

-- Two numbers of four bytes.
abbrev pub first_u32 : Bytes → ℕ
first_u32 b = be_uint (take 4 b)

abbrev pub second_u32 : Bytes → ℕ
second_u32 b = be_uint (take 4 (drop 4 b))

abbrev pub third_u32 : Bytes → ℕ
third_u32 b = be_uint (take 4 (drop 8 b))

-- A package whose file was opened; its entry in the database has no inodes and no path yet.
pub record Opened : Type 0 where
  pub pkg : Package
  pub flags : ℕ
  pub created : Bytes

unfoldable pub open_package : FileTools → Bytes → Result Opened
open_package tools file = do
  header ← must_read_at 124 0 file
  f ← read_fields 8 header
  sig ← must_read_at signature_size (first_u32 f.last_offt) file
  _ ← verify tools.crypto header sig tools.trusted
  mt ← must_read_at (second_u32 f.metadata) (first_u32 f.metadata) file
  _ ← guard (bytes_eq (tools.sha256 mt) f.metadata_hash) (message "corrupted metadata")
  ht ← must_read_at (second_u32 f.table) (first_u32 f.table) file
  _ ← guard (bytes_eq (tools.sha256 ht) f.table_hash) (message "corrupted hash table")
  (name, inodes) ← tools.meta_info mt
  ok (record {
    pkg = record {
      start_ino = 0;
      hash = tools.sha256 header;
      size = length file;
      inodes = inodes;
      name = name;
      path = [];
      raw_header = header;
      raw_sig = sig;
      raw_meta = mt;
    };
    flags = f.flags;
    created = f.created;
  })

-- Where the data of a package starts, and its block size.
pub record Data : Type 0 where
  pub offset : ℕ
  pub block_size : ℕ

-- `validate` of a downloaded file, for a package with the hash. That the file is removed where the
-- hash is another is not part of the result.
unfoldable pub validate : FileTools → Bytes → Bytes → Result Data
validate tools hash file = do
  header ← must_read_at 124 0 file
  _ ← guard (bytes_eq (tools.sha256 header) hash) (message "header invalid or corrupted")
  f ← read_fields 12 header
  sig ← must_read_at 128 (first_u32 f.last_offt) file
  _ ← verify tools.crypto header sig tools.trusted
  ok (record { offset = second_u32 f.last_offt; block_size = third_u32 f.last_offt })

-- `Package.ReadAt`; a package that was not downloaded has no file. `off` and the sum are int64s by their
-- bits, and `os.File` refuses a negative offset.
unfoldable pub package_read_at : Option Bytes → Data → ℕ → ℕ → Bytes × Option Error
unfolding read_at
package_read_at f d n off = elim f [
  | none ↦ ([], some invalid)
  | some file ↦
      let at = (off + d.offset) % 2 ^ 64 in
      if leb (2 ^ 63) at then ([], some (message "negative offset")) else read_at n at file
]
