-- ===== src/Index.antt =====
-- The `p2p` bucket of apkgdb: entries that `index` and `AddPackage` of apkgdb/index.go write, and the
-- cursor of apkgdb/lookup.go that finds the newest version of a name.
pub mod Newest
pub mod Shadow
use apkg.Prelude.{
  ℕ, ◌≤◌, ◌≡◌, Bool, true, false, Option, none, some, List, [], ◌∷◌, ◌++◌, if◌then◌else◌, length,
  ltb, drop,
}
use apkg.Prelude.Bytes.{Bytes, has_prefix}
use apkg.Errors.{Result, ok, err, panics}
use apkg.Collate.{collated_version}
use apkg.Bolt.{Bolt}

-- `string(v[32+8:])`, the name in a value.
abbrev pub entry_name : Bytes → Bytes
entry_name v = drop 40 v

-- The value of an entry: the hash, the inode count in eight bytes, and the name.
abbrev pub entry_value : Bytes → Bytes → Bytes → Bytes
entry_value hash inodes name = hash ++ (inodes ++ name)

-- What the cursor found, against the prefix `name + "."`: none is for no entry or another name.
unfoldable pub match_entry : Bytes → Option (Bytes × Bytes) → Result (Option Bytes)
match_entry name none = ok none
match_entry name (some (k, v)) =
    if ltb (length v) 40
    then err panics
    else if has_prefix (entry_name v) (name ++ (b'.' ∷ []))
    then ok (some v)
    else ok none

module _ ⦃bolt : Bolt⦄ where
  open bolt use {Bucket, seek_prev}

  -- `c.Seek(append(collatedVersion(name), 0xff))`, `c.Prev()` and the test of the prefix.
  unfoldable pub seek_version : Bucket → Bytes → Result (Option Bytes)
  unfolding match_entry
  seek_version b name = match_entry name (seek_prev b (collated_version name ++ (0xff ∷ [])))
