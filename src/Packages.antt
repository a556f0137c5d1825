-- ===== src/Packages.antt =====
-- The entries that describe one package: what apkgdb/package.go reads of them (`getPkgTx`), and how
-- apkgdb/index.go writes them (`AddPackage`, `RemovePackage`). The transaction and the reopening of the
-- file around them are `write` of Db.
pub mod Stored
pub mod Loaded
pub mod Removed
pub mod Again
use apkg.Prelude.{
  ℕ, ◌/◌, ◌%◌, ◌^◌, Bool, Option, none, some, List, [], ◌∷◌, ◌++◌, length, take, drop, ltb,
  if◌then◌else◌,
}
use apkg.Prelude.Bytes.{Bytes}
use apkg.Prelude.Map.{be_uint}
use apkg.Errors.{message, invalid, panics, Result, ok, err, ◌>>=◌}
use apkg.Collate.{collated_version}
use apkg.Bolt.{Bolt}
use apkg.Index.{entry_value}
use apkg.Db.{Opens, Tx, File, bytes_or_nil, create, put_in, write}

pub record Package : Type 0 where
  pub start_ino : ℕ
  pub hash : Bytes
  pub size : ℕ
  pub inodes : ℕ
  pub name : Bytes
  pub path : Bytes
  pub raw_header : Bytes
  pub raw_sig : Bytes
  pub raw_meta : Bytes

-- `binary.BigEndian.PutUint64`
abbrev pub be_bytes : ℕ → Bytes
be_bytes v =
    v / 256 ^ 7 % 256
    ∷ (v / 256 ^ 6 % 256)
    ∷ (v / 256 ^ 5 % 256)
    ∷ (v / 256 ^ 4 % 256)
    ∷ (v / 256 ^ 3 % 256)
    ∷ (v / 256 ^ 2 % 256)
    ∷ (v / 256 % 256)
    ∷ (v % 256)
    ∷ []

-- The value in the `pkg` bucket: the type, the size, eight zero bytes, the inode count and the name.
abbrev pub pkg_value : Package → Bytes
pkg_value p = (0 ∷ []) ++ (be_bytes p.size ++ (be_bytes 0 ++ (be_bytes p.inodes ++ p.name)))

module _ ⦃bolt : Bolt⦄ where
  open bolt use {Bucket, get, delete}

  -- The package that the buckets describe; the four other buckets are there.
  abbrev pub stored_package : ℕ → Bytes → Bytes → Bucket → Bucket → Bucket → Bucket → Package
  stored_package start hash v path header sig meta = record {
    start_ino = start;
    hash = hash;
    size = be_uint (take 8 (drop 1 v));
    inodes = be_uint (take 8 (drop 17 v));
    name = drop 25 v;
    path = bytes_or_nil (get path hash);
    raw_header = bytes_or_nil (get header hash);
    raw_sig = bytes_or_nil (get sig hash);
    raw_meta = bytes_or_nil (get meta hash);
  }

  unfoldable pub read_package : Tx → ℕ → Bytes → Bytes → Result Package
  read_package tx start hash v = elim tx.path [
    | none ↦ err invalid
    | some path ↦ elim tx.header [
      | none ↦ err invalid
      | some header ↦ elim tx.sig [
        | none ↦ err invalid
        | some sig ↦ elim tx.meta [
          | none ↦ err invalid
          | some meta ↦ ok (stored_package start hash v path header sig meta)
        ]
      ]
    ]
  ]

  unfoldable pub load_package : Tx → ℕ → Bytes → Result Package
  unfolding read_package
  load_package tx start hash = elim tx.pkg [
    | none ↦ err invalid
    | some b ↦
        let v = bytes_or_nil (get b hash) in
        if ltb (length v) 25 then err invalid else read_package tx start hash v
  ]

  -- The six `Put`s in the source's order.
  unfoldable pub put_package : Bytes → Package → Tx → Result Tx
  put_package rpath p tx = do
    p2p ←
        put_in (create tx.p2p) (collated_version p.name)
          (entry_value p.hash (be_bytes p.inodes) p.name)
    pkg ← put_in (create tx.pkg) p.hash (pkg_value p)
    header ← put_in (create tx.header) p.hash p.raw_header
    sig ← put_in (create tx.sig) p.hash p.raw_sig
    meta ← put_in (create tx.meta) p.hash p.raw_meta
    path ← put_in (create tx.path) p.hash rpath
    ok (record tx {
      p2p = some p2p;
      pkg = some pkg;
      header = some header;
      sig = some sig;
      meta = some meta;
      path = some path;
    })

  -- The body of the `Update`.
  pub add_body : Bytes → Package → Tx → Result Tx
  unfolding put_package
  add_body rpath p tx = elim (get (create tx.pkg) p.hash) [
    | some v ↦ err (message "package already in database")
    | none ↦ put_package rpath p tx
  ]

  unfoldable pub add_package : Opens → Bytes → Package → File → Result (Unit {0}) × File
  unfolding add_body
  add_package o rpath p = write o (add_body rpath p)

  -- A missing bucket is a nil pointer.
  remove_body : Bytes → Tx → Result Tx
  remove_body name tx = elim tx.p2p [
    | none ↦ err panics
    | some b ↦ ok (record tx { p2p = some (delete b (collated_version name)) })
  ]

  unfoldable pub remove_package : Opens → Bytes → File → Result (Unit {0}) × File
  unfolding remove_body
  remove_package o name = write o (remove_body name)
