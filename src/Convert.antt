-- ===== src/Convert.antt =====
-- cmd/apkg-convert/process.go: a squashfs image becomes a package file.
pub mod Layout
pub mod Blocks
pub mod Header
pub mod Written
pub mod RoundTrip
use apkg.Prelude.{
  ℕ, zero, suc, ◌+◌, ◌-◌, ◌*◌, ◌/◌, ◌%◌, Bool, ◌&&◌, List, [], ◌∷◌, ◌++◌, if◌then◌else◌, ltb, leb,
  ◌==◌, length, take, drop,
}
use apkg.Prelude.Bytes.{Bytes, codes}
use apkg.Errors.{message, Result, ok, err, ◌>>=◌}
use apkg.Sig.{Key, put_uvarint, write_varblob, verify, signature_size}
use apkg.Format.{guard, zeros, put_u32, put_u64}
use apkg.PackageFile.{FileTools}

abbrev pub header_len : ℕ
header_len = 124

-- The loop that doubles the block size, on fuel.
unfoldable pub block_size_loop : ℕ → ℕ → ℕ → ℕ
block_size_loop zero file_size block_size = block_size
block_size_loop (suc fuel) file_size block_size =
    let rest = block_size_loop fuel file_size (block_size * 2) in
    if ltb 1500 (file_size / block_size) && ltb block_size 131072 then rest else block_size

-- Five rounds take 4096 to 131072.
unfoldable pub block_size_of : ℕ → ℕ
unfolding block_size_loop
block_size_of file_size = block_size_loop 6 file_size 4096

-- The hashes of the blocks, on fuel: a round for each block.
unfoldable pub hash_blocks : (Bytes → Bytes) → ℕ → ℕ → Bytes → Bytes
hash_blocks sha256 zero size image = []
hash_blocks sha256 (suc fuel) size [] = []
hash_blocks sha256 (suc fuel) size (b ∷ image) =
    sha256 (take size (b ∷ image)) ++ hash_blocks sha256 fuel size (drop size (b ∷ image))

unfoldable pub hash_table : (Bytes → Bytes) → Bytes → Bytes
unfolding hash_blocks
hash_table sha256 image = hash_blocks sha256 (length image) (block_size_of (length image)) image

unfoldable pub sign_offset : ℕ → ℕ → ℕ
sign_offset metadata_len table_len = header_len + metadata_len + table_len

unfoldable pub padding_at : ℕ → ℕ
padding_at offset =
    let padding = 512 - offset % 512 in
    if ltb padding signature_size then padding + 512 else padding

unfoldable pub data_offset : ℕ → ℕ
data_offset offset = offset + padding_at offset

-- The header, for the creation time, the metadata, the hash table and the block size.
unfoldable pub header_bytes : (Bytes → Bytes) → ℕ → Bytes → Bytes → ℕ → Bytes
header_bytes sha256 created meta table block_size =
    let offset = sign_offset (length meta) (length table) in
    codes "APKG"
    ++ (put_u32 1
        ++ (put_u64 0
            ++ ((put_u64 created ++ put_u64 0)
                ++ ((put_u32 header_len ++ put_u32 (length meta))
                    ++ (sha256 meta
                        ++ ((put_u32 (header_len + length meta) ++ put_u32 (length table))
                            ++ (sha256 table
                                ++ ((put_u32 offset ++ put_u32 (data_offset offset))
                                    ++ put_u32 block_size))))))))

-- The parts of the file, in the order in which they are written.
abbrev package_bytes : Bytes → Bytes → Bytes → Bytes → Bytes → Bytes
package_bytes header meta table signbuf image = header ++ (meta ++ (table ++ (signbuf ++ image)))

-- The signature and the file, once the header is made.
unfoldable pub write_package : FileTools → Key → Bytes → Bytes → Bytes → Bytes → Result Bytes
write_package tools k header meta table image = do
  _ ← guard (length header == header_len) (message "invalid header length")
  key ← k.public_blob
  blob ← k.sign header
  let sig = put_uvarint 1 ++ (write_varblob key ++ write_varblob blob)
  _ ← verify tools.crypto header sig tools.trusted
  let padding = padding_at (sign_offset (length meta) (length table))
  _ ← guard (leb (length sig) padding) (message "signature buffer not large enough")
  ok (package_bytes header meta table (sig ++ zeros (padding - length sig)) image)

-- `process`, once the metadata is made: the content of the file that it writes.
unfoldable pub process : FileTools → Key → ℕ → Bytes → Bytes → Result Bytes
process tools k created meta image = do
  let table = hash_table tools.sha256 image
  _ ← guard (leb (length meta) (1024 * 1024)) (message "metadata too long, should be below 1MB")
  write_package tools k
      (header_bytes tools.sha256 created meta table (block_size_of (length image))) meta table image
