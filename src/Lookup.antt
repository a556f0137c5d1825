-- ===== src/Lookup.antt =====
-- apkgdb/lookup.go: from a package name to its inode number.
pub mod Added
pub mod Counts
pub mod Grown
pub mod Cached
pub mod Answered
pub mod Serving
use apkg.Prelude.{ℕ, ◌+◌, Bool, ◌&&◌, Option, none, some, List, [], ◌∷◌, ◌++◌, if◌then◌else◌, take}
use apkg.Prelude.Bytes.{Bytes, bytes_eq, has_prefix, index_byte}
use apkg.Prelude.Map.{insert}
use apkg.Errors.{not_exist, database_closed, ok, err}
use apkg.OsArch.{Os, Arch, ArchOs, pair, os_eq, arch_eq}
use apkg.Collate.{collated_version}
use apkg.Bolt.{Bolt}
use apkg.Llrb.{Llrb}
use apkg.Db.{closed, Tx}
use apkg.Pin.{lookup_pin_tx}
use apkg.Index.{seek_version}
use apkg.Inodes.{
  Item, item_value, UnsignedPkg, Squashfs, Shared, Exec, ◌>>=◌, pure, raise, u64, pkg_ino,
  get_pkg_tx, pkg_ino_unsigned, load_unsigned,
}

abbrev pub archos_eq : ArchOs → ArchOs → Bool
archos_eq a b = os_eq a.os b.os && arch_eq a.arch b.arch

-- `unsignedMap[archos]`, in the order in which `range` takes it.
unfoldable pub unsigned_of :
    ArchOs → List (ArchOs × List (Bytes × UnsignedPkg)) → List (Bytes × UnsignedPkg)
unsigned_of a [] = []
unsigned_of a ((b, m) ∷ rest) = if archos_eq a b then m else unsigned_of a rest

-- The loop over a map of Go, whose order is another one at each lookup: the list has it in the order of
-- this lookup. Resolve/Reachable lets the order change in between.
unfoldable pub matching : Bytes → List (Bytes × UnsignedPkg) → Option (Bytes × UnsignedPkg)
matching name [] = none
matching name ((n, v) ∷ m) = if has_prefix n name then some (n, v) else matching name m

-- Writes back what is known of an unsigned package, which the source changes behind its pointer.
put_unsigned :
    ArchOs
    → Bytes
    → UnsignedPkg
    → List (ArchOs × List (Bytes × UnsignedPkg))
    → List (ArchOs × List (Bytes × UnsignedPkg))
put_unsigned a n v [] = []
put_unsigned a n v ((b, m) ∷ rest) =
    let later = put_unsigned a n v rest in
    if archos_eq a b then (b, insert n v m) ∷ rest else (b, m) ∷ later

module _ ⦃bolt : Bolt⦄ ⦃llrb : Llrb Item item_value⦄ where
  open bolt use {Bucket, get}

  unfoldable pub lookup_unsigned : Os → Arch → Bytes → Shared → Option (Bytes × UnsignedPkg)
  unfolding unsigned_of matching
  lookup_unsigned os arch name s = matching name (unsigned_of (pair os arch) s.unsigned_map)

  -- The branch of `internalLookup` for an unsigned package.
  pub found_unsigned : Squashfs → Bytes → Bytes → UnsignedPkg → Exec ℕ
  unfolding put_unsigned
  found_unsigned sq name key v s =
      let (n, q, shared) = pkg_ino_unsigned (load_unsigned sq v) s.shared in
      let m = put_unsigned (pair s.db.os_v s.db.arch_v) key q shared.unsigned_map in
      let t = record s { shared = record shared { unsigned_map = m } } in
      elim n [
        | err e ↦ (err e, t)
        | ok v ↦ (ok (if bytes_eq name q.pkg then u64 (v + 1) else v), t)
      ]

  -- An entry that was found: its package is instantiated at its number.
  found_entry : Tx → Bytes → Exec ℕ
  found_entry tx v = do n ← pkg_ino v; _ ← get_pkg_tx tx n (take 32 v); pure n

  -- The same for the exact name, which stands for the directory behind the symlink.
  exact_entry : Tx → Bytes → Exec ℕ
  exact_entry tx v = do n ← pkg_ino v; _ ← get_pkg_tx tx n (take 32 v); pure (u64 (n + 1))

  latest : Tx → Bucket → Bytes → Exec ℕ
  unfolding found_entry
  latest tx b name s = elim (seek_version b name) [
    | err e ↦ raise e s
    | ok none ↦ raise not_exist s
    | ok (some v) ↦ found_entry tx v s
  ]

  -- A pin constrains the search to its version, and gives way where that is not there.
  from_pin : Tx → Bucket → Bytes → Bytes → Exec ℕ
  unfolding latest found_entry
  from_pin tx b name [] s = latest tx b name s
  from_pin tx b name (c ∷ pin) s = elim (seek_version b (name ++ (b'.' ∷ c ∷ pin))) [
    | err e ↦ raise e s
    | ok none ↦ latest tx b name s
    | ok (some v) ↦ found_entry tx v s
  ]

  -- The body of the `View` in `internalLookup`.
  view_lookup : Tx → Bytes → Exec ℕ
  unfolding from_pin exact_entry
  view_lookup tx name s = elim tx.p2p [
    | none ↦ raise not_exist s
    | some b ↦ elim (get b (collated_version name)) [
      | some v ↦ exact_entry tx v s
      | none ↦ from_pin tx b name (lookup_pin_tx s.db.channel tx name) s
    ]
  ]

  unfoldable pub internal_lookup : Squashfs → Bytes → Exec ℕ
  unfolding found_unsigned view_lookup
  internal_lookup sq name s = elim (index_byte name b'.') [
    | none ↦ raise not_exist s
    | some _ ↦ elim (lookup_unsigned s.db.os_v s.db.arch_v name s.shared) [
      | some (key, v) ↦ found_unsigned sq name key v s
      | none ↦ elim s.db.file.dbptr [
        | closed ↦ raise database_closed s
        | _ ↦ view_lookup s.db.file.tx name s
      ]
    ]
  ]
