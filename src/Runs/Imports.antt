-- ===== src/Runs/Imports.antt =====
-- Imports and exports at concrete inputs, on lists.
use apkg.Prelude.{◌^◌, ◌<◌, ◌≡◌, ◌⊎◌, refl, true, some, List, [], ◌∷◌, ◌++◌, arith, length, ltb→lt}
use apkg.Prelude.Bytes.{Bytes, codes}
use apkg.Prelude.Map.{lookup, be_uint_from}
use apkg.Errors.{Result, ok, err, message}
use apkg.Collate.{collated_version}
use apkg.Bolt.Assoc.{Entries, assoc_bolt}
use apkg.Index.Newest.{IsIndexed}
use apkg.Db.{create, Tx, write, current_version}
use apkg.Update.{Web, update}
use apkg.Update.Signed.{Offered, update-Offered}
use apkg.Packages.{Package, pkg_value, load_package, read_package, add_package, remove_package}
use apkg.Packages.Again.{add_package-again}
use apkg.Sig.{Crypto, Key, put_uvarint, write_varblob}
use apkg.Sig.Trust.{Trusted}
use apkg.Import.{Tools, load_pins, index}
use apkg.Import.Pins.{load_pins-ends}
use apkg.Import.Invariants.{index-IsIndexed}
use apkg.Export.{
  Source, export, export_content, export_entry, export_entries, export_pin, export_pins,
}
use apkg.Export.Entries.{Fits, Describes}
use apkg.Export.Pins.{PinsFit}
use apkg.Export.Header.{HeaderFits}
use apkg.Export.RoundTrip.{stored_export, header_of, index-export}
use apkg.Runs.Store.{all_open, no_tx, no_file, zlib, zlib_entry, zero_hash, empty_index, added}

-- A check that accepts everything, under one trusted key.
abbrev pub trusting : Crypto
trusting = record { verify = λ key content sig. true; encode = λ key. codes "key" }

abbrev pub build_key : Key
build_key = record { public_blob = ok zero_hash; sign = λ content. ok (codes "blob") }

abbrev pub trust : List (Bytes × Bytes)
trust = (codes "key", codes "builder") ∷ []

abbrev tools : Tools
tools = record {
  sha256 = λ b. zero_hash;
  crypto = trusting;
  trusted = trust;
  stamp = λ s n. codes "20240101000000";
  ldso_entries = λ m. [];
}

abbrev stored_zlib : Package
stored_zlib = record zlib { path = codes "zlib.apkg" }

abbrev pin_entry : Bytes × Bytes
pin_entry = (codes "stable" ++ (0 ∷ codes "libs.zlib"), codes "1.2")

abbrev full_tx : Tx ⦃bolt = assoc_bolt⦄
full_tx = record no_tx {
  p2p = some ((collated_version (codes "libs.zlib.1.2.9"), zlib_entry) ∷ []);
  pkg = some ((zero_hash, pkg_value zlib) ∷ []);
  header = some ((zero_hash, codes "header") ∷ []);
  sig = some ((zero_hash, codes "sig") ∷ []);
  meta = some ((zero_hash, codes "{}") ∷ []);
  path = some ((zero_hash, codes "zlib.apkg") ∷ []);
  pins = some (pin_entry ∷ []);
}

abbrev source : Source
source = record {
  name = codes "main";
  os = codes "linux";
  arch = codes "amd64";
  seconds = 1700000000;
  nanoseconds = 5;
}

abbrev each : Entries → List (Bytes × Bytes)
each b = b

abbrev content : Bytes
content = elim (export_content ⦃bolt = assoc_bolt⦄ each full_tx) [ ok c ↦ c | err e ↦ [] ]

content_is : export_content ⦃bolt = assoc_bolt⦄ each full_tx ≡ ok content
unfolding export_content export_entries export_entry
content_is = refl

content_short : length content < 2 ^ 32
unfolding export_content export_entries export_entry export_pins export_pin write_varblob
    put_uvarint
content_short = ltb→lt _ _ refl

zlib_stored : load_package ⦃bolt = assoc_bolt⦄ full_tx 0 zero_hash ≡ ok stored_zlib
unfolding load_package read_package be_uint_from
zlib_stored = refl

zlib_Fits : Fits stored_zlib
zlib_Fits = record {
  name = omega arith;
  path = omega arith;
  header = omega arith;
  sig = omega arith;
  meta = omega arith;
}

described :
    Describes ⦃bolt = assoc_bolt⦄ full_tx
      ((collated_version (codes "libs.zlib.1.2.9"), zlib_entry) ∷ [])
      (stored_zlib ∷ [])
described = (zlib_stored, omega arith, omega arith, zlib_Fits, tt)

pins_fit : PinsFit (pin_entry ∷ [])
pins_fit = (
  record {
    sep = 6;
    sep_is = refl;
    channel = omega arith;
    prefix = omega arith;
    version = omega arith;
  },
  tt,
)

header_fits : HeaderFits source
header_fits = record {
  short = omega arith;
  clean = ground arith;
  seconds = omega arith;
  nanoseconds = omega arith;
}

found : lookup (codes "key") trust ≡ some (codes "builder")
unfolding lookup
found = refl

pub trusted : (bytes : Bytes) → Trusted trusting trust build_key bytes
trusted bytes = record {
  key = zero_hash;
  blob = codes "blob";
  name = codes "builder";
  key_is = refl;
  blob_is = refl;
  full = refl;
  fits = omega arith;
  good = refl;
  found = found;
}

index-export_example :
    (file : Bytes) × (export ⦃bolt = assoc_bolt⦄ each tools build_key source full_tx ≡ ok file)
    × (index ⦃bolt = assoc_bolt⦄ tools (codes "main") all_open file no_file
        ≡ write ⦃bolt = assoc_bolt⦄ all_open
            (stored_export ⦃bolt = assoc_bolt⦄ tools
              (stored_zlib ∷ [])
              (pin_entry ∷ [])
              (codes "20240101000000"))
            no_file)
index-export_example =
    index-export ⦃bolt = assoc_bolt⦄ each tools build_key source full_tx
      ((collated_version (codes "libs.zlib.1.2.9"), zlib_entry) ∷ []) (stored_zlib ∷ []) content
      all_open no_file refl described pins_fit header_fits (omega arith) content_is content_short
      refl (trusted (header_of tools source 1 content))

abbrev one_pin : Bytes
one_pin = 1 ∷ 6 ∷ (codes "stable" ++ (4 ∷ (codes "zlib" ++ (3 ∷ codes "1.2"))))

load_pins-ends_example :
    (result : Result (Tx ⦃bolt = assoc_bolt⦄)) × (load_pins ⦃bolt = assoc_bolt⦄ 18 one_pin no_tx
      ≡ some result)
load_pins-ends_example = load_pins-ends ⦃bolt = assoc_bolt⦄ 18 one_pin no_tx (omega arith)

index-IsIndexed_example : IsIndexed ⦃bolt = assoc_bolt⦄ (
    create ⦃bolt = assoc_bolt⦄
      (index ⦃bolt = assoc_bolt⦄ tools (codes "main") all_open (codes "APDB") no_file).1.tx.p2p)
index-IsIndexed_example =
    index-IsIndexed ⦃bolt = assoc_bolt⦄ tools (codes "main") all_open (codes "APDB") no_file
      empty_index

add_package-again_example :
    (add_package ⦃bolt = assoc_bolt⦄ all_open
      (codes "zlib.apkg")
      zlib
      (remove_package ⦃bolt = assoc_bolt⦄ all_open
        (codes "libs.zlib.1.2.9")
        (add_package ⦃bolt = assoc_bolt⦄ all_open (codes "zlib.apkg") zlib no_file).1).1).0
    ≡ err (message "package already in database")
add_package-again_example =
    add_package-again ⦃bolt = assoc_bolt⦄ all_open all_open all_open no_file (codes "zlib.apkg")
      (codes "zlib.apkg") (codes "libs.zlib.1.2.9") zlib added refl

-- A server that has one version, signed by the trusted key.
abbrev web : Web
web = record {
  base = codes "https://data.apkg.net/db/main/linux/amd64/";
  get = λ url. ok (record { status = 200; body = ok (codes "token") });
  trim_space = λ b. b;
  parse =
      λ b. ok (record { key_id = codes "key"; verify = λ k. true; ver = codes "20240101000000" });
  decode = λ b. ok b;
  trusted = trust;
}

update-Offered_example :
    ((update ⦃bolt = assoc_bolt⦄ tools web (codes "main") all_open no_file).1 ≡ no_file)
    ⊎ ((c : Bytes) × Offered web (current_version ⦃bolt = assoc_bolt⦄ no_file) c
        × ((update ⦃bolt = assoc_bolt⦄ tools web (codes "main") all_open no_file).1
            ≡ (index ⦃bolt = assoc_bolt⦄ tools (codes "main") all_open c no_file).1))
update-Offered_example =
    update-Offered ⦃bolt = assoc_bolt⦄ tools web (codes "main") all_open no_file
