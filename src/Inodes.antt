-- ===== src/Inodes.antt =====
-- Inode numbers: apkgdb/lookup.go (`pkgIno`, `pkgInoUnsigned`, `GetInode`, `allocInodes`) and
-- apkgdb/package.go (`handleLookup`, the cache of `getPkgTx`). `Shared` is what the main database and its
-- sub-databases share: the counter and the tree of the main database, and the package cache.
pub mod Ranges
pub mod Reserved
pub mod Grown
pub mod Agreeing
use apkg.Prelude.{
  ℕ, ◌+◌, ◌-◌, ◌%◌, ◌^◌, Bool, true, not, Option, none, some, List, if◌then◌else◌, ltb, leb, ◌==◌,
  length, take, drop,
}
use apkg.Prelude.Bytes.{Bytes}
use apkg.Prelude.Map.{lookup, insert, be_uint}
use apkg.Errors.{Error, invalid, panics, Result, ok, err}
use apkg.OsArch.{Os, Arch, ArchOs}
use apkg.Bolt.{Bolt}
use apkg.Llrb.{Llrb}
use apkg.Db.{Tx, File}
use apkg.Packages.{Package, load_package}

-- `load` is whether `sync.Once` has run `open`, and `failed` is `p.err`; `p.squash` is nil until `open`
-- has run, and where it failed.
pub record UnsignedPkg : Type 0 where
  pub fn : Bytes
  pub pkg : Bytes
  pub start_ino : ℕ
  pub inodes : ℕ
  pub load : Bool
  pub failed : Option Error

pub data Item : Type 0 where
  signed : Package → Item
  unsigned : UnsignedPkg → Item

-- `Value()`
abbrev pub item_value : Item → ℕ
item_value (signed p) = p.start_ino
item_value (unsigned p) = p.start_ino

abbrev pub item_inodes : Item → ℕ
item_inodes (signed p) = p.inodes
item_inodes (unsigned p) = p.inodes

-- github.com/KarpelesLab/squashfs and the download: whether `squashfs.Open` of a file succeeds, with
-- the inode count, and whether a package could be downloaded, validated and mounted.
pub record Squashfs : Type 0 where
  pub open_file : Bytes → Result ℕ
  pub mounted : Package → Bool

-- What an inode number stands for; `inside` is `p.squash.GetInode(ino - p.startIno)`.
pub data Inode : Type 0 where
  root ld_so_cache : Inode
  symlink : Bytes → Inode
  inside : Item → ℕ → Inode

abbrev pub u64 : ℕ → ℕ
u64 n = n % 2 ^ 64

unfoldable pub handle_lookup : Squashfs → Package → ℕ → Result Inode
handle_lookup sq p ino =
    if ino == p.start_ino
    then ok (symlink p.name)
    else if not (sq.mounted p)
    then err invalid
    else if leb ino p.start_ino
    then err invalid
    else ok (inside (signed p) (ino - p.start_ino))

-- `p.load.Do(p.open)`
unfoldable pub load_unsigned : Squashfs → UnsignedPkg → UnsignedPkg
load_unsigned sq p = if p.load then p else elim (sq.open_file p.fn) [
  | err e ↦ record p { load = true; failed = some e }
  | ok n ↦ record p { load = true; inodes = n }
]

unfoldable pub handle_lookup_unsigned : Squashfs → UnsignedPkg → ℕ → Result Inode
unfolding load_unsigned
handle_lookup_unsigned sq p ino =
    let q = load_unsigned sq p in
    elim q.failed [
      | some e ↦ err e
      | none ↦
          if ino == q.start_ino
          then ok (symlink q.pkg)
          else if leb ino q.start_ino
          then err invalid
          else ok (inside (unsigned q) (ino - q.start_ino))
    ]

abbrev pub handle_item : Squashfs → Item → ℕ → Result Inode
handle_item sq (signed p) ino = handle_lookup sq p ino
handle_item sq (unsigned p) ino = handle_lookup_unsigned sq p ino

module _ ⦃bolt : Bolt⦄ ⦃llrb : Llrb Item item_value⦄ where
  open bolt use {Bucket, get}
  open llrb use {Tree, descend, replace_or_insert}

  pub record Shared : Type 0 where
    pub next_i : ℕ
    pub ino : Tree
    pub pkg_cache : List (Bytes × Package)
    pub unsigned_map : List (ArchOs × List (Bytes × UnsignedPkg))

  pub record Db : Type 0 where
    pub os_v : Os
    pub arch_v : Arch
    pub channel : Bytes
    pub file : File
    pub pkg_i : List (Bytes × ℕ)

  pub record State : Type 0 where
    pub shared : Shared
    pub db : Db

  -- An operation that may fail; what it changed before it failed stays changed.
  abbrev pub Exec {ℓ} : Type ℓ → Type ℓ
  Exec A = State → Result A × State

  infixl 5 ◌>>=◌
  abbrev pub ◌>>=◌ {ℓ κ} : {A : Type ℓ} {B : Type κ} → Exec A → (A → Exec B) → Exec B
  ◌>>=◌ m f s = let (r, s') = m s in elim r [ ok a ↦ f a s' | err e ↦ (err e, s') ]

  abbrev pub pure {ℓ} : {A : Type ℓ} → A → Exec A
  pure a s = (ok a, s)

  abbrev pub raise {ℓ} : {A : Type ℓ} → Error → Exec A
  raise e s = (err e, s)

  -- The numbers from the old counter on.
  unfoldable pub alloc_inodes : ℕ → Shared → ℕ × Shared
  alloc_inodes c s = (s.next_i, record s { next_i = u64 (s.next_i + c) })

  unfoldable pub pkg_ino : Bytes → Exec ℕ
  unfolding alloc_inodes
  pkg_ino pkg s =
      if ltb (length pkg) 32 then (err panics, s) else elim (lookup (take 32 pkg) s.db.pkg_i) [
        | some v ↦ (ok v, s)
        | none ↦
            let (v, shared) = alloc_inodes (u64 (be_uint (take 8 (drop 32 pkg)) + 1)) s.shared in
            if ltb (length pkg) 40 then (err panics, s) else (
              ok v,
              record s {
                shared = shared;
                db = record s.db { pkg_i = insert (take 32 pkg) v s.db.pkg_i };
              },
            )
      ]

  -- The package goes into the cache and into the tree of the main database.
  unfoldable pub keep_package : Bytes → Package → Exec Package
  keep_package hash pkg s = (
    ok pkg,
    record s {
      shared = record s.shared {
        ino = replace_or_insert s.shared.ino (signed pkg);
        pkg_cache = insert hash pkg s.shared.pkg_cache;
      };
    },
  )

  unfoldable pub get_pkg_tx : Tx → ℕ → Bytes → Exec Package
  unfolding keep_package
  get_pkg_tx tx start hash s = elim (lookup hash s.shared.pkg_cache) [
    | some v ↦ (ok v, s)
    | none ↦ elim (load_package tx start hash) [
      | err e ↦ (err e, s)
      | ok pkg ↦ keep_package hash pkg s
    ]
  ]

  -- An unsigned package with its numbers goes into the tree, unless it failed to open.
  unfoldable pub register_unsigned :
      Option Error → ℕ → UnsignedPkg → Shared → Result ℕ × UnsignedPkg × Shared
  register_unsigned none v q t = (ok v, q, record t { ino = replace_or_insert t.ino (unsigned q) })
  register_unsigned (some e) v q t = (err panics, q, t)

  -- Returns the package with its numbers too, which the source sets behind the pointer. What
  -- `SetInodeOffset` sets belongs to squashfs; of a package that failed to open it dereferences nil,
  -- behind the allocation and in front of the insertion.
  unfoldable pub pkg_ino_unsigned : UnsignedPkg → Shared → Result ℕ × UnsignedPkg × Shared
  unfolding alloc_inodes
  pkg_ino_unsigned p s =
      let (v, t) = alloc_inodes (u64 (p.inodes + 1)) s in
      let q = record p { start_ino = v } in
      if p.start_ino == 0 then register_unsigned p.failed v q t else (ok p.start_ino, p, s)

  in_range : Squashfs → ℕ → Option Item → Result Inode
  in_range sq reqino none = err invalid
  in_range sq reqino (some i) =
      if ltb reqino (u64 (item_value i + item_inodes i + 1))
      then handle_item sq i reqino
      else err invalid

  unfoldable pub get_inode : Squashfs → Shared → ℕ → Result Inode
  unfolding in_range
  get_inode sq s reqino =
      if reqino == 1
      then ok root
      else if reqino == 2
      then ok ld_so_cache
      else in_range sq reqino (descend s.ino reqino)
