-- ===== src/Runs/Store.antt =====
-- The database and its index at concrete inputs, on lists.
use apkg.Prelude.{◌≡◌, ◌≢◌, refl, true, ◌&&◌, none, some, [], ◌∷◌, ◌++◌, arith, if◌then◌else◌}
use apkg.Prelude.Bytes.{Bytes, codes, bytes_eq}
use apkg.Errors.{ok}
use apkg.Collate.{collated_version}
use apkg.Bolt.Assoc.{Entries, assoc_bolt}
use apkg.Db.{read_only, closed, Opens, Tx, File, write, bytes_or_nil}
use apkg.Pin.{pin_key, set_pin, delete_pin, get_pin, list_pins}
use apkg.Pin.Listed.{listed, list_pins-get_pin}
use apkg.Bolt.Sorted.{seek_from, seek_from-IsCursor}
use apkg.Prelude.Map.{lookup}
use apkg.Pin.Laws.{HasNoZero, get_pin-set_pin, get_pin-delete_pin}
use apkg.Index.{entry_value}
use apkg.Index.Newest.{IsIndexed, Indexed}
use apkg.Packages.{Package, load_package, be_bytes, add_package}
use apkg.Packages.Stored.{load_package-add_package, add_package-IsIndexed}

abbrev pub all_open : Opens
all_open = record { rw = true; commit = none; ro = true; after = true }

abbrev pub no_tx : Tx ⦃bolt = assoc_bolt⦄
no_tx = record {
  info = none;
  p2p = none;
  pkg = none;
  header = none;
  sig = none;
  meta = none;
  path = none;
  ldso = none;
  pins = none;
}

abbrev pub no_file : File ⦃bolt = assoc_bolt⦄
no_file = record { tx = no_tx; dbptr = read_only }

abbrev pub zero_hash : Bytes
zero_hash =
    0 ∷ 0 ∷ 0 ∷ 0 ∷ 0 ∷ 0 ∷ 0 ∷ 0 ∷ 0 ∷ 0 ∷ 0 ∷ 0 ∷ 0 ∷ 0 ∷ 0 ∷ 0 ∷ 0 ∷ 0 ∷ 0 ∷ 0 ∷ 0 ∷ 0 ∷ 0 ∷ 0
    ∷ 0 ∷ 0 ∷ 0 ∷ 0 ∷ 0 ∷ 0 ∷ 0 ∷ 0 ∷ []

abbrev pub zlib : Package
zlib = record {
  start_ino = 0;
  hash = zero_hash;
  size = 4096;
  inodes = 5;
  name = codes "libs.zlib.1.2.9";
  path = [];
  raw_header = codes "header";
  raw_sig = codes "sig";
  raw_meta = codes "{}";
}

-- Pins.
set_done :
    (set_pin ⦃bolt = assoc_bolt⦄ all_open
      (codes "stable")
      (codes "libs.zlib")
      (codes "1.2")
      no_file).0
    ≡ ok tt
unfolding set_pin write pin_key
set_done = refl

stable_clean : HasNoZero (codes "stable")
stable_clean = ground arith

latest_clean : HasNoZero (codes "beta")
latest_clean = ground arith

open_file : no_file.dbptr ≢ closed
open_file = λ h. cc

get_pin-set_pin_example :
    get_pin ⦃bolt = assoc_bolt⦄
      (codes "beta")
      (codes "libs.zlib")
      (set_pin ⦃bolt = assoc_bolt⦄ all_open
        (codes "stable")
        (codes "libs.zlib")
        (codes "1.2")
        no_file).1
    ≡ (if bytes_eq (codes "stable") (codes "beta")
          && bytes_eq (codes "libs.zlib") (codes "libs.zlib")
        then codes "1.2"
        else get_pin ⦃bolt = assoc_bolt⦄ (codes "beta") (codes "libs.zlib") no_file)
get_pin-set_pin_example =
    get_pin-set_pin ⦃bolt = assoc_bolt⦄ all_open no_file (codes "stable") (codes "libs.zlib")
      (codes "1.2") (codes "beta") (codes "libs.zlib") stable_clean latest_clean open_file refl
      set_done

abbrev pinned_file : File ⦃bolt = assoc_bolt⦄
pinned_file = record no_file {
  tx = record no_tx { pins = some ((codes "stable" ++ (0 ∷ codes "libs.zlib"), codes "1.2") ∷ []) };
}

pinned_open : pinned_file.dbptr ≢ closed
pinned_open = λ h. cc

delete_done :
    (delete_pin ⦃bolt = assoc_bolt⦄ all_open (codes "stable") (codes "libs.zlib") pinned_file).0
    ≡ ok tt
unfolding delete_pin write pin_key
delete_done = refl

get_pin-delete_pin_example :
    get_pin ⦃bolt = assoc_bolt⦄
      (codes "stable")
      (codes "libs.zlib")
      (delete_pin ⦃bolt = assoc_bolt⦄ all_open (codes "stable") (codes "libs.zlib") pinned_file).1
    ≡ (if bytes_eq (codes "stable") (codes "stable")
          && bytes_eq (codes "libs.zlib") (codes "libs.zlib")
        then []
        else get_pin ⦃bolt = assoc_bolt⦄ (codes "stable") (codes "libs.zlib") pinned_file)
get_pin-delete_pin_example =
    get_pin-delete_pin ⦃bolt = assoc_bolt⦄ all_open pinned_file (codes "stable") (codes "libs.zlib")
      (codes "stable") (codes "libs.zlib") stable_clean stable_clean pinned_open refl delete_done

list_pins-get_pin_example :
    bytes_or_nil (
      lookup
        (codes "libs.zlib")
        (listed (list_pins ⦃bolt = assoc_bolt⦄ seek_from (codes "stable") pinned_file)))
    ≡ get_pin ⦃bolt = assoc_bolt⦄ (codes "stable") (codes "libs.zlib") pinned_file
list_pins-get_pin_example =
    list_pins-get_pin ⦃bolt = assoc_bolt⦄ seek_from seek_from-IsCursor (codes "stable")
      (codes "libs.zlib") pinned_file

-- Packages.
pub added : (add_package ⦃bolt = assoc_bolt⦄ all_open (codes "zlib.apkg") zlib no_file).0 ≡ ok tt
unfolding add_package write collated_version
added = refl

load_package-add_package_example :
    load_package ⦃bolt = assoc_bolt⦄
      (add_package ⦃bolt = assoc_bolt⦄ all_open (codes "zlib.apkg") zlib no_file).1.tx
      1000
      zero_hash
    ≡ ok (record zlib { start_ino = 1000; path = codes "zlib.apkg" })
load_package-add_package_example =
    load_package-add_package ⦃bolt = assoc_bolt⦄ all_open no_file (codes "zlib.apkg") zlib 1000
      (omega arith) (omega arith) added

pub empty_index : IsIndexed ⦃bolt = assoc_bolt⦄ []
empty_index = record {
  long = λ k v h. absurd (ground arith);
  keyed = λ k v h. absurd (ground arith);
}

abbrev pub zlib_entry : Bytes
zlib_entry = entry_value zero_hash (be_bytes 5) (codes "libs.zlib.1.2.9")

add_package-IsIndexed_example :
    (b : Entries) × ((add_package ⦃bolt = assoc_bolt⦄ all_open
        (codes "zlib.apkg")
        zlib
        no_file).1.tx.p2p
      ≡ some b)
    × IsIndexed ⦃bolt = assoc_bolt⦄ b
    × Indexed ⦃bolt = assoc_bolt⦄ b zlib_entry
add_package-IsIndexed_example =
    add_package-IsIndexed ⦃bolt = assoc_bolt⦄ all_open no_file (codes "zlib.apkg") zlib refl
      empty_index added
