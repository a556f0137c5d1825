-- ===== src/Runs/Files.antt =====
-- Package files and modes at concrete inputs.
use apkg.Prelude.{
  ◌+◌, ◌*◌, ◌%◌, ◌^◌, ◌≤◌, ◌<◌, ◌≡◌, refl, some, [], ◌++◌, arith, length, take, drop, ltb→lt,
}
use apkg.Prelude.Bytes.{Bytes, codes}
use apkg.Errors.{ok}
use apkg.Format.{put_u64}
use apkg.PackageFile.{
  must_read_at, FileTools, Data, open_package, validate, read_at, package_read_at,
}
use apkg.Convert.{
  block_size_of, block_size_loop, hash_table, hash_blocks, padding_at, sign_offset, data_offset,
  process,
}
use apkg.Convert.Layout.{data_offset-first}
use apkg.Convert.Blocks.{hash_table-nth}
use apkg.Convert.Written.{Input, header_of, offset_of}
use apkg.Sig.{VerifyResult, verify}
use apkg.Convert.RoundTrip.{open_package-process, package_read_at-process}
use apkg.Mode.{
  s_ifreg, s_ifdir, s_ifchr, s_ifblk, s_iflnk, s_ififo, s_ifsock, mode_to_unix, unix_to_mode,
}
use apkg.Mode.Kinds.{mode_to_unix-unix_to_mode}
use apkg.Runs.Store.{zero_hash}
use apkg.Runs.Imports.{trusting, build_key, trust, trusted}

abbrev tools : FileTools
tools = record {
  sha256 = λ b. zero_hash;
  crypto = trusting;
  trusted = trust;
  meta_info = λ m. ok (codes "libs.zlib.1.2.9", 5);
}

abbrev image : Bytes
image = codes "hsqs, and then the rest of the image"

abbrev meta : Bytes
meta = codes "{}"

placed : data_offset (offset_of tools meta image) < 2 ^ 32
unfolding data_offset padding_at sign_offset hash_table hash_blocks block_size_of block_size_loop
placed = ltb→lt _ _ refl

input : Input tools build_key 1700000000 meta image
input = record {
  name = codes "libs.zlib.1.2.9";
  inodes = 5;
  hashes = λ b. refl;
  short = omega arith;
  parses = refl;
  placed = placed;
  trusted = trusted (header_of tools 1700000000 meta image);
}

open_package-process_example :
    (file : Bytes) × (sig : Bytes) × (process tools build_key 1700000000 meta image ≡ ok file)
    × (must_read_at 99 (offset_of tools meta image) file ≡ ok sig)
    × ((found : VerifyResult) × (verify tools.crypto
            (header_of tools 1700000000 meta image)
            sig
            tools.trusted
          ≡ ok found))
    × (open_package tools file
        ≡ ok (record {
          pkg = record {
            start_ino = 0;
            hash = zero_hash;
            size = length file;
            inodes = input.inodes;
            name = input.name;
            path = [];
            raw_header = header_of tools 1700000000 meta image;
            raw_sig = sig;
            raw_meta = meta;
          };
          flags = 0;
          created = put_u64 1700000000 ++ put_u64 0;
        }))
open_package-process_example = open_package-process tools build_key 1700000000 meta image input

package_read_at-process_example :
    (file : Bytes) × (d : Data) × (process tools build_key 1700000000 meta image ≡ ok file)
    × (validate tools zero_hash file ≡ ok d)
    × (d.block_size ≡ block_size_of (length image))
    × (package_read_at (some file) d 4 6 ≡ read_at 4 6 image)
package_read_at-process_example =
    package_read_at-process tools build_key 1700000000 meta image input 4 6 (omega arith)
      (omega arith)

data_offset-first_example :
    (data_offset 450 % 512 ≡ 0) × (450 + 99 ≤ data_offset 450) × (data_offset 450 < 450 + 99 + 512)
data_offset-first_example = data_offset-first 450

starts_inside : block_size_of (length image) * 0 < length image
unfolding block_size_of block_size_loop
starts_inside = ltb→lt _ _ refl

hash_table-nth_example : take 32 (drop (32 * 0) (hash_table (λ b. zero_hash) image)) ≡ zero_hash
hash_table-nth_example = hash_table-nth (λ b. zero_hash) 0 image (λ b. refl) starts_inside

mode_to_unix-unix_to_mode_example :
    (mode_to_unix (unix_to_mode (s_ifreg + 0x1ed)) ≡ s_ifreg + 0x1ed)
    × (mode_to_unix (unix_to_mode (s_ifdir + 0x1ed)) ≡ s_ifdir + 0x1ed)
    × (mode_to_unix (unix_to_mode (s_ifchr + 0x1ed)) ≡ s_ifchr + 0x1ed)
    × (mode_to_unix (unix_to_mode (s_ififo + 0x1ed)) ≡ s_ififo + 0x1ed)
    × (mode_to_unix (unix_to_mode (s_ifblk + 0x1ed)) ≡ s_ifchr + 0x1ed)
    × (mode_to_unix (unix_to_mode (s_iflnk + 0x1ed)) ≡ s_ifchr + 0x1ed)
    × (mode_to_unix (unix_to_mode (s_ifsock + 0x1ed)) ≡ s_ifdir + 0x1ed)
mode_to_unix-unix_to_mode_example = mode_to_unix-unix_to_mode 0x1ed (omega arith)
