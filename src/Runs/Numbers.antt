-- ===== src/Runs/Numbers.antt =====
-- Inode numbers at concrete inputs, on lists.
use apkg.Prelude.{◌≡◌, ◌≢◌, refl, true, none, [], ◌∷◌, arith, take, drop, subst, ap}
use apkg.Prelude.Bytes.{Bytes, codes}
use apkg.Prelude.Map.{lookup, be_uint, be_uint_from}
use apkg.Errors.{ok, err}
use apkg.OsArch.{Os, Arch}
use apkg.Bolt.Assoc.{assoc_bolt}
use apkg.Llrb.Assoc.{list_llrb}
use apkg.Db.{closed, write, Tx, File}
use apkg.Packages.{Package, load_package, add_package}
use apkg.Packages.Stored.{load_package-add_package}
use apkg.Inodes.{
  Item, symlink, unsigned, UnsignedPkg, item_value, Squashfs, handle_item, Shared, State,
  pkg_ino_unsigned, register_unsigned, get_inode, alloc_inodes,
}
use apkg.Lookup.{lookup_unsigned, internal_lookup}
use apkg.Lookup.Added.{internal_lookup-add_package}
use apkg.Collate.{collated_version}
use apkg.Inodes.Ranges.{IsApart, get_inode-owner, pkg_ino_unsigned-IsApart}
use apkg.Resolve.{World, Site, new_world, resolve}
use apkg.Resolve.Served.{OpensAgree}
use apkg.Resolve.Reachable.{Reach, here, next, written, looked_up, Reach-IsApart}
use apkg.Inodes.Reserved.{Sizes}
use apkg.Inodes.Grown.{Agrees}
use apkg.Inodes.Agreeing.{add_package-Agrees}
use apkg.Lookup.Counts.{CountsSmall}
use apkg.Runs.Store.{all_open, no_file, zlib, zlib_entry, zero_hash, added}

abbrev nothing_taken : Shared ⦃bolt = assoc_bolt⦄ ⦃llrb = list_llrb item_value⦄
nothing_taken = record { next_i = 1000; ino = []; pkg_cache = []; unsigned_map = [] }

nothing-IsApart : IsApart ⦃bolt = assoc_bolt⦄ ⦃llrb = list_llrb item_value⦄ nothing_taken
nothing-IsApart = record {
  start = omega arith;
  keyed = λ n x h. absurd (ground arith);
  above = λ n x h. absurd (ground arith);
  below = λ n x h. absurd (ground arith);
  apart = λ n m x y h k l. absurd (ground arith);
}

abbrev local_zlib : UnsignedPkg
local_zlib = record {
  fn = codes "zlib.squashfs";
  pkg = codes "libs.zlib.1.3.linux.amd64";
  start_ino = 0;
  inodes = 4;
  load = true;
  failed = none;
}

abbrev pub placed : Item
placed = unsigned (record local_zlib { start_ino = 1000 })

abbrev pub one_taken : Shared ⦃bolt = assoc_bolt⦄ ⦃llrb = list_llrb item_value⦄
one_taken = record { next_i = 1005; ino = placed ∷ []; pkg_cache = []; unsigned_map = [] }

pub one-IsApart : IsApart ⦃bolt = assoc_bolt⦄ ⦃llrb = list_llrb item_value⦄ one_taken
unfolding pkg_ino_unsigned alloc_inodes register_unsigned
one-IsApart =
    (pkg_ino_unsigned-IsApart ⦃bolt = assoc_bolt⦄ ⦃llrb = list_llrb item_value⦄ local_zlib
      nothing_taken nothing-IsApart refl refl (omega arith)).0

abbrev pub mounted_all : Squashfs
mounted_all = record { open_file = λ f. ok 4; mounted = λ p. true }

get_inode-owner_example :
    get_inode ⦃bolt = assoc_bolt⦄ ⦃llrb = list_llrb item_value⦄ mounted_all one_taken 1003
    ≡ handle_item mounted_all placed 1003
get_inode-owner_example =
    get_inode-owner ⦃bolt = assoc_bolt⦄ ⦃llrb = list_llrb item_value⦄ mounted_all one_taken placed
      1003 one-IsApart (omega arith) refl (omega arith) (omega arith)

abbrev fresh_state : State ⦃bolt = assoc_bolt⦄ ⦃llrb = list_llrb item_value⦄
fresh_state = record {
  shared = nothing_taken;
  db = record {
    os_v = Os.linux;
    arch_v = Arch.amd64;
    channel = codes "latest";
    file = no_file;
    pkg_i = [];
  };
}

abbrev zlib_tx : Tx ⦃bolt = assoc_bolt⦄
zlib_tx = (add_package ⦃bolt = assoc_bolt⦄ all_open (codes "zlib.apkg") zlib no_file).1.tx

abbrev zlib_loaded : Package
zlib_loaded = record zlib { start_ino = 1000; path = codes "zlib.apkg" }

zlib_loads : load_package ⦃bolt = assoc_bolt⦄ zlib_tx 1000 zero_hash ≡ ok zlib_loaded
zlib_loads =
    load_package-add_package ⦃bolt = assoc_bolt⦄ all_open no_file (codes "zlib.apkg") zlib 1000
      (omega arith) (omega arith) added

zlib_counts : 5 ≡ be_uint (take 8 (drop 32 zlib_entry))
unfolding be_uint_from
zlib_counts = refl

no_number : lookup zero_hash fresh_state.db.pkg_i ≡ none
unfolding lookup
no_number = refl

not_cached : lookup zero_hash nothing_taken.pkg_cache ≡ none
unfolding lookup
not_cached = refl

nothing_unsigned :
    lookup_unsigned ⦃bolt = assoc_bolt⦄ ⦃llrb = list_llrb item_value⦄ Os.linux Arch.amd64
      (codes "libs.zlib.1.2.9")
      nothing_taken
    ≡ none
unfolding lookup_unsigned
nothing_unsigned = refl

still_open :
    (add_package ⦃bolt = assoc_bolt⦄ all_open (codes "zlib.apkg") zlib no_file).1.dbptr ≢ closed
unfolding add_package write collated_version
still_open = λ h. cc

internal_lookup-add_package_example :
    (t : State ⦃bolt = assoc_bolt⦄ ⦃llrb = list_llrb item_value⦄) × (internal_lookup
        ⦃bolt = assoc_bolt⦄ ⦃llrb = list_llrb item_value⦄ mounted_all
        (codes "libs.zlib.1.2.9")
        (record fresh_state {
          db = record fresh_state.db {
            file = (add_package ⦃bolt = assoc_bolt⦄ all_open (codes "zlib.apkg") zlib no_file).1;
          };
        })
      ≡ (ok 1001, t))
    × (get_inode ⦃bolt = assoc_bolt⦄ ⦃llrb = list_llrb item_value⦄ mounted_all t.shared 1000
        ≡ ok (symlink (codes "libs.zlib.1.2.9")))
internal_lookup-add_package_example =
    internal_lookup-add_package ⦃bolt = assoc_bolt⦄ ⦃llrb = list_llrb item_value⦄ mounted_all
      all_open (codes "zlib.apkg") zlib fresh_state 4 added still_open refl nothing_unsigned refl
      no_number not_cached (omega arith) nothing-IsApart (omega arith)

-- Every package has five inodes.
abbrev five : Sizes
five = λ h. 5

nothing-Agrees : Agrees ⦃bolt = assoc_bolt⦄ ⦃llrb = list_llrb item_value⦄ five no_file.tx
nothing-Agrees = record {
  entry = λ k v e. absurd (ground (arith, e));
  value = λ h v e. absurd (ground (arith, e));
}

abbrev zlib_file : File ⦃bolt = assoc_bolt⦄
zlib_file = (add_package ⦃bolt = assoc_bolt⦄ all_open (codes "zlib.apkg") zlib no_file).1

zlib-Agrees : Agrees ⦃bolt = assoc_bolt⦄ ⦃llrb = list_llrb item_value⦄ five zlib_file.tx
zlib-Agrees =
    add_package-Agrees ⦃bolt = assoc_bolt⦄ ⦃llrb = list_llrb item_value⦄ five all_open
      (codes "zlib.apkg") zlib no_file nothing-Agrees refl (omega arith) refl added

abbrev site : Site ⦃bolt = assoc_bolt⦄ ⦃llrb = list_llrb item_value⦄
site = record { load_unsigned = true; open_db = λ a. ok zlib_file }

all-OpensAgree : OpensAgree ⦃bolt = assoc_bolt⦄ ⦃llrb = list_llrb item_value⦄ five site
all-OpensAgree a f e =
    subst (λ g. Agrees ⦃bolt = assoc_bolt⦄ ⦃llrb = list_llrb item_value⦄ five g.tx)
      (ap (λ r. elim r [ ok x ↦ x | err x ↦ zlib_file ]) e) zlib-Agrees

four_each : CountsSmall mounted_all
four_each f n e = ground (arith, e)

abbrev started : World ⦃bolt = assoc_bolt⦄ ⦃llrb = list_llrb item_value⦄
started = new_world ⦃bolt = assoc_bolt⦄ ⦃llrb = list_llrb item_value⦄ Os.linux Arch.amd64 no_file

-- A package is added, then looked up for this system and for another one.
abbrev with_zlib : World ⦃bolt = assoc_bolt⦄ ⦃llrb = list_llrb item_value⦄
with_zlib = record started { main = record started.main { file = zlib_file } }

abbrev found_here : World ⦃bolt = assoc_bolt⦄ ⦃llrb = list_llrb item_value⦄
found_here =
    (resolve ⦃bolt = assoc_bolt⦄ ⦃llrb = list_llrb item_value⦄ site mounted_all
      (codes "libs.zlib.1.2.9") with_zlib).1

abbrev found_there : World ⦃bolt = assoc_bolt⦄ ⦃llrb = list_llrb item_value⦄
found_there =
    (resolve ⦃bolt = assoc_bolt⦄ ⦃llrb = list_llrb item_value⦄ site mounted_all
      (codes "libs.zlib.linux.arm64") found_here).1

all_three : Reach ⦃bolt = assoc_bolt⦄ ⦃llrb = list_llrb item_value⦄ five started 3 found_there
all_three =
    next
      (next (next here (written zlib_file zlib-Agrees refl))
        (looked_up site mounted_all (codes "libs.zlib.1.2.9") all-OpensAgree four_each refl))
      (looked_up site mounted_all (codes "libs.zlib.linux.arm64") all-OpensAgree four_each refl)

Reach-IsApart_example : IsApart ⦃bolt = assoc_bolt⦄ ⦃llrb = list_llrb item_value⦄ found_there.shared
Reach-IsApart_example =
    Reach-IsApart ⦃bolt = assoc_bolt⦄ ⦃llrb = list_llrb item_value⦄ five (λ h. omega arith) Os.linux
      Arch.amd64 no_file 3 found_there nothing-Agrees all_three (omega arith)
