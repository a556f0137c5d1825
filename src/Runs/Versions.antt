-- ===== src/Runs/Versions.antt =====
-- The newest version of a name, suffixes and unsigned packages at concrete inputs, on lists.
use apkg.Prelude.{
  ◌≡◌, ◌≢◌, refl, false, none, some, [], ◌∷◌, arith, if◌then◌else◌, Ordering, Bool-cases, inl, inr,
  subst,
}
use apkg.Prelude.Bytes.{Bytes, codes, bytes_eq}
use apkg.Prelude.Lex.{bytes_compare}
use apkg.Errors.{ok}
use apkg.Natsort.{natsort_compare}
use apkg.Collate.{collated_version}
use apkg.Collate.Order.{IsCanonical, canonical_from}
use apkg.Bolt.Assoc.{Entries, assoc_bolt}
use apkg.Db.{File, write}
use apkg.Index.{entry_name, entry_value, seek_version}
use apkg.Index.Newest.{IsIndexed, Indexed, Versions, seek_version-newest, seek_version-natural}
use apkg.Index.Shadow.{Unshadowed, seek_version-finds, seek_version-shadowed}
use apkg.Packages.{be_bytes, remove_package}
use apkg.Packages.Stored.{IsIndexed-put}
use apkg.Packages.Removed.{remove_package-get}
use apkg.Runs.Store.{zero_hash, zlib_entry, empty_index, all_open, no_file, no_tx}

abbrev older_entry : Bytes
older_entry = entry_value zero_hash (be_bytes 5) (codes "libs.zlib.1.2.8")

abbrev zlib_name : Bytes
zlib_name = codes "libs.zlib"

abbrev one_version : Entries
one_version = (collated_version (entry_name zlib_entry), zlib_entry) ∷ []

abbrev two_versions : Entries
two_versions = (collated_version (entry_name older_entry), older_entry) ∷ one_version

one-IsIndexed : IsIndexed ⦃bolt = assoc_bolt⦄ one_version
unfolding collated_version
one-IsIndexed =
    IsIndexed-put ⦃bolt = assoc_bolt⦄ [] one_version zlib_entry refl (omega arith) empty_index

two-IsIndexed : IsIndexed ⦃bolt = assoc_bolt⦄ two_versions
unfolding collated_version
two-IsIndexed =
    IsIndexed-put ⦃bolt = assoc_bolt⦄ one_version two_versions older_entry refl (omega arith)
      one-IsIndexed

newest_found : seek_version ⦃bolt = assoc_bolt⦄ two_versions zlib_name ≡ ok (some zlib_entry)
unfolding seek_version collated_version
newest_found = refl

older-Indexed : Indexed ⦃bolt = assoc_bolt⦄ two_versions older_entry
unfolding collated_version
older-Indexed = refl

seek_version-newest_example :
    Indexed ⦃bolt = assoc_bolt⦄ two_versions zlib_entry
    × Versions zlib_name zlib_entry
    × ((w : Bytes)
        → Indexed ⦃bolt = assoc_bolt⦄ two_versions w
        → Versions zlib_name w
        → bytes_compare (collated_version (entry_name zlib_entry)) (collated_version (entry_name w))
          ≢ Ordering.lt)
seek_version-newest_example =
    seek_version-newest ⦃bolt = assoc_bolt⦄ two_versions zlib_name zlib_entry two-IsIndexed
      newest_found

zlib-IsCanonical : IsCanonical (entry_name zlib_entry)
unfolding canonical_from
zlib-IsCanonical = refl

older-IsCanonical : IsCanonical (entry_name older_entry)
unfolding canonical_from
older-IsCanonical = refl

seek_version-natural_example :
    natsort_compare (codes "libs.zlib.1.2.9") (codes "libs.zlib.1.2.8") ≡ some false
seek_version-natural_example =
    seek_version-natural ⦃bolt = assoc_bolt⦄ two_versions zlib_name zlib_entry older_entry
      two-IsIndexed newest_found zlib-IsCanonical older-Indexed refl older-IsCanonical

only_zlib : (j k x : Bytes) → assoc_bolt.get ((j, zlib_entry) ∷ []) k ≡ some x → zlib_entry ≡ x
only_zlib j k x h = elim (Bool-cases (bytes_eq j k)) [
  | inl e ↦ cc (h, e)
  | inr e ↦ absurd (ground (arith, h, e))
]

clear : Unshadowed ⦃bolt = assoc_bolt⦄ one_version zlib_name
unfolding collated_version
clear x i lo hi =
    subst (Versions zlib_name)
      (only_zlib (collated_version (entry_name zlib_entry)) (collated_version (entry_name x)) x i)
      refl

zlib-Indexed : Indexed ⦃bolt = assoc_bolt⦄ one_version zlib_entry
unfolding collated_version
zlib-Indexed = refl

seek_version-finds_example :
    (v : Bytes) × (seek_version ⦃bolt = assoc_bolt⦄ one_version zlib_name ≡ ok (some v))
seek_version-finds_example =
    seek_version-finds ⦃bolt = assoc_bolt⦄ one_version zlib_name zlib_entry one-IsIndexed clear
      zlib-Indexed refl

-- "libs.zlib.1.2.9" continues "libs.z" by a letter.
seek_version-shadowed_example :
    seek_version ⦃bolt = assoc_bolt⦄ one_version (codes "libs.z") ≡ ok none
seek_version-shadowed_example =
    seek_version-shadowed ⦃bolt = assoc_bolt⦄ one_version (codes "libs.z") zlib_entry
      (codes "ib.1.2.9") b'l' one-IsIndexed zlib-Indexed refl (omega arith) (omega arith) refl

abbrev indexed_file : File ⦃bolt = assoc_bolt⦄
indexed_file = record no_file { tx = record no_tx { p2p = some two_versions } }

removed :
    (remove_package ⦃bolt = assoc_bolt⦄ all_open (codes "libs.zlib.1.2.8") indexed_file).0 ≡ ok tt
unfolding remove_package write
removed = refl

remove_package-get_example :
    (c : Entries) × ((remove_package ⦃bolt = assoc_bolt⦄ all_open
        (codes "libs.zlib.1.2.8")
        indexed_file).1.tx.p2p
      ≡ some c)
    × (assoc_bolt.get c (collated_version (codes "libs.zlib.1.2.9")) ≡ (
        if bytes_eq (codes "libs.zlib.1.2.8") (codes "libs.zlib.1.2.9")
        then none
        else assoc_bolt.get two_versions (collated_version (codes "libs.zlib.1.2.9"))))
remove_package-get_example =
    remove_package-get ⦃bolt = assoc_bolt⦄ all_open indexed_file (codes "libs.zlib.1.2.8")
      (codes "libs.zlib.1.2.9") two_versions refl removed
