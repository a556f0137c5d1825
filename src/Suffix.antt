-- ===== src/Suffix.antt =====
-- The suffix `.os.arch` of a package name, as apkgdb/lookup.go (`Lookup`) and apkgdb/unsigned.go
-- (`cleanUnsignedName`) cut it off.
pub mod Cut
use apkg.Prelude.{Bool, Option, none, some, List, suc, ◌∷◌, if◌then◌else◌, take, drop}
use apkg.Prelude.Bytes.{Bytes, last_index_byte}
use apkg.OsArch.{Os, Arch, ArchOs, bad_os, bad_arch, pair, os_eq, arch_eq, parse_os, parse_arch}

-- What stands before and behind the last dot.
unfoldable pub cut_last : Bytes → Option (Bytes × Bytes)
cut_last s = elim (last_index_byte s b'.') [
  | none ↦ none
  | some v ↦ some (take v s, drop (suc v) s)
]

cut_os : Arch → Bytes → Option (Bytes × ArchOs)
cut_os arch sname = elim (cut_last sname) [
  | none ↦ none
  | some (base, word) ↦
      if os_eq (parse_os word) bad_os then none else some (base, pair (parse_os word) arch)
]

cut_arch : Bytes × Bytes → Option (Bytes × ArchOs)
unfolding cut_os
cut_arch (sname, word) =
    if arch_eq (parse_arch word) bad_arch then none else cut_os (parse_arch word) sname

-- None where a dot is missing or a word is not known.
unfoldable pub split_suffix : Bytes → Option (Bytes × ArchOs)
unfolding cut_arch
split_suffix name = elim (cut_last name) [ none ↦ none | some p ↦ cut_arch p ]
