-- ===== src/Unsigned.antt =====
-- apkgdb/unsigned.go: the files of the directory of unsigned packages, and the map that
-- `addUnsignedFile` and `removeUnsignedFile` keep of them.
pub mod Kept
pub mod Small
pub mod Order
use apkg.Prelude.{
  ℕ, ◌-◌, Bool, true, false, Option, none, some, List, [], ◌∷◌, ◌++◌, if◌then◌else◌, ltb, length,
  take, drop,
}
use apkg.Prelude.Bytes.{Bytes, codes, bytes_eq}
use apkg.Prelude.Map.{insert, remove}
use apkg.OsArch.{ArchOs}
use apkg.Suffix.{split_suffix}
use apkg.Inodes.{UnsignedPkg}
use apkg.Lookup.{archos_eq}

abbrev pub UnsignedMap : Type 0
UnsignedMap = List (ArchOs × List (Bytes × UnsignedPkg))

-- `filepath.Join`, and whether `os.Stat` finds a regular file under a path; none is for an error.
pub record Files : Type 0 where
  pub join : Bytes → Bytes → Bytes
  pub stat : Bytes → Option Bool

-- `strings.TrimSuffix(s, suffix)` of a string that has the suffix, none of another.
pub trim_suffix : Bytes → Bytes → Option Bytes
trim_suffix s suffix =
    let n = length s - length suffix in
    if ltb (length s) (length suffix)
    then none
    else if bytes_eq (drop n s) suffix
    then some (take n s)
    else none

-- The name, which keeps the suffix of its pair, and the pair; none where `ok` is false.
unfoldable pub clean_unsigned_name : Bytes → Option (Bytes × ArchOs)
unfolding trim_suffix
clean_unsigned_name f = elim (trim_suffix f (codes ".squashfs")) [
  | none ↦ none
  | some name ↦ elim (split_suffix name) [ none ↦ none | some (sname, a) ↦ some (name, a) ]
]

-- `unsignedMap[archos][name] = pkg`, with an empty map of the pair where there is none.
pub put_in_map : ArchOs → Bytes → UnsignedPkg → UnsignedMap → UnsignedMap
put_in_map a name p [] = (a, insert name p []) ∷ []
put_in_map a name p ((b, m) ∷ rest) =
    let later = put_in_map a name p rest in
    if archos_eq a b then (b, insert name p m) ∷ rest else (b, m) ∷ later

-- `delete(m, name)` where the pair has a map.
pub drop_from_map : ArchOs → Bytes → UnsignedMap → UnsignedMap
drop_from_map a name [] = []
drop_from_map a name ((b, m) ∷ rest) =
    let later = drop_from_map a name rest in
    if archos_eq a b then (b, remove name m) ∷ rest else (b, m) ∷ later

-- The package that `addUnsignedFile` makes; nothing of its file has been read.
abbrev pub fresh : Bytes → Bytes → UnsignedPkg
fresh fn name = record {
  fn = fn;
  pkg = name;
  start_ino = 0;
  inodes = 0;
  load = false;
  failed = none;
}

unfoldable pub add_unsigned_file : Files → Bytes → Bytes → UnsignedMap → UnsignedMap
unfolding put_in_map
add_unsigned_file files p f m = elim (clean_unsigned_name f) [
  | none ↦ m
  | some (name, a) ↦ elim (files.stat (files.join p f)) [
    | none ↦ m
    | some regular ↦ if regular then put_in_map a name (fresh (files.join p f) name) m else m
  ]
]

unfoldable pub remove_unsigned_file : Bytes → UnsignedMap → UnsignedMap
unfolding drop_from_map
remove_unsigned_file f m = elim (clean_unsigned_name f) [
  | none ↦ m
  | some (name, a) ↦ drop_from_map a name m
]
