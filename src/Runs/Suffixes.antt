-- ===== src/Runs/Suffixes.antt =====
-- Suffixed names and unsigned packages at concrete inputs, on lists.
use apkg.Prelude.{◌≡◌, refl, true, false, ◌&&◌, some, [], ◌∷◌, ◌++◌, if◌then◌else◌}
use apkg.Prelude.Bytes.{Bytes, codes, bytes_eq}
use apkg.Prelude.Map.{lookup}
use apkg.Errors.{invalid, not_exist, err}
use apkg.OsArch.{ArchOs, Os, Arch, pair, is_valid, arch_os_string}
use apkg.Bolt.Assoc.{assoc_bolt}
use apkg.Llrb.Assoc.{list_llrb}
use apkg.Inodes.{Squashfs, item_value}
use apkg.Lookup.{archos_eq, unsigned_of}
use apkg.Resolve.{World, Site, resolve}
use apkg.Resolve.Suffixed.{with_shared, name_then_base, resolve-suffix}
use apkg.Unsigned.{Files, add_unsigned_file, fresh}
use apkg.Unsigned.Kept.{file_of, lookup-add_unsigned_file}
use apkg.Runs.Store.{no_file}

abbrev linux_amd64 : ArchOs
linux_amd64 = pair Os.linux Arch.amd64

valid_pair : is_valid linux_amd64 ≡ true
unfolding is_valid
valid_pair = refl

abbrev nothing_mounted : Squashfs
nothing_mounted = record { open_file = λ f. err invalid; mounted = λ p. false }

abbrev world : World ⦃bolt = assoc_bolt⦄ ⦃llrb = list_llrb item_value⦄
world = record {
  shared = record { next_i = 1000; ino = []; pkg_cache = []; unsigned_map = [] };
  main = record {
    os_v = Os.linux;
    arch_v = Arch.amd64;
    channel = codes "latest";
    file = no_file;
    pkg_i = [];
  };
  subs = [];
}

abbrev offline : Site ⦃bolt = assoc_bolt⦄ ⦃llrb = list_llrb item_value⦄
offline = record { load_unsigned = false; open_db = λ a. err not_exist }

abbrev zlib : Bytes
zlib = codes "libs.zlib"

abbrev suffixed : Bytes
suffixed = zlib ++ (b'.' ∷ arch_os_string linux_amd64)

resolve-suffix_example :
    with_shared ⦃bolt = assoc_bolt⦄ ⦃llrb = list_llrb item_value⦄ (
      resolve ⦃bolt = assoc_bolt⦄ ⦃llrb = list_llrb item_value⦄ offline nothing_mounted suffixed
        world)
    ≡ name_then_base ⦃bolt = assoc_bolt⦄ ⦃llrb = list_llrb item_value⦄ nothing_mounted suffixed zlib
        (record { shared = world.shared; db = world.main })
resolve-suffix_example =
    resolve-suffix ⦃bolt = assoc_bolt⦄ ⦃llrb = list_llrb item_value⦄ offline nothing_mounted zlib
      linux_amd64 world world world.main valid_pair refl

abbrev regular_files : Files
regular_files = record { join = λ p f. p ++ (b'/' ∷ f); stat = λ f. some true }

lookup-add_unsigned_file_example :
    lookup suffixed (
      unsigned_of linux_amd64
        (add_unsigned_file regular_files (codes "dir") (file_of zlib linux_amd64) []))
    ≡ (if archos_eq linux_amd64 linux_amd64 && bytes_eq suffixed suffixed
        then some (fresh (codes "dir" ++ (b'/' ∷ file_of zlib linux_amd64)) suffixed)
        else lookup suffixed (unsigned_of linux_amd64 []))
lookup-add_unsigned_file_example =
    lookup-add_unsigned_file regular_files (codes "dir") zlib suffixed linux_amd64 linux_amd64 []
      valid_pair refl
