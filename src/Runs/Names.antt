-- ===== src/Runs/Names.antt =====
-- Names, versions and suffixes at concrete inputs.
use apkg.Prelude.{[], ◌∷◌, ◌++◌, ◌≡◌, refl, some}
use apkg.Prelude.Bytes.{Bytes, codes}
use apkg.Prelude.Lex.{bytes_compare}
use apkg.Errors.{ok}
use apkg.Filename.{split_dots, join_dots, part, PackageFilename, parse_package_filename}
use apkg.Filename.Joined.{join_dots-parse_package_filename}
use apkg.Natsort.{natsort_compare}
use apkg.Natsort.Natural.{natural_lt, is_lt}
use apkg.Natsort.Refines.{natsort_compare-natural}
use apkg.Collate.{collated_version}
use apkg.Collate.Injective.{collated_version-injective}
use apkg.Collate.Order.{IsCanonical, canonical_from, collated_version-order}

abbrev old : Bytes
old = codes "sys-libs.zlib.1.2.9"

abbrev new : Bytes
new = codes "sys-libs.zlib.1.2.11"

natsort_compare-natural_example : natsort_compare old new ≡ some (natural_lt old new)
natsort_compare-natural_example = natsort_compare-natural old new

collated_version-injective_example : old ≡ old
collated_version-injective_example = collated_version-injective old old refl

old-IsCanonical : IsCanonical old
unfolding canonical_from
old-IsCanonical = refl

new-IsCanonical : IsCanonical new
unfolding canonical_from
new-IsCanonical = refl

collated_version-order_example :
    natsort_compare old new
    ≡ some (is_lt (bytes_compare (collated_version old) (collated_version new)))
collated_version-order_example = collated_version-order old new old-IsCanonical new-IsCanonical

abbrev image_name : Bytes
image_name = codes "azusa.apkg.core.1.2.linux.amd64"

abbrev image_parts : PackageFilename
image_parts = record {
  cat = codes "azusa";
  name = codes "apkg";
  subcat = codes "core";
  version = codes "1" ∷ codes "2" ∷ [];
  os = codes "linux";
  arch = codes "amd64";
  name_components = codes "azusa" ∷ codes "apkg" ∷ codes "core" ∷ [];
}

image_parsed : parse_package_filename image_name ≡ ok image_parts
unfolding parse_package_filename split_dots part
image_parsed = refl

join_dots-parse_package_filename_example :
    (join_dots (
        image_parts.name_components
        ++ (image_parts.version ++ (image_parts.os ∷ image_parts.arch ∷ [])))
      ≡ image_name)
    × (image_parts.name_components ≡ image_parts.cat ∷ image_parts.name ∷ image_parts.subcat ∷ [])
join_dots-parse_package_filename_example =
    join_dots-parse_package_filename image_name image_parts image_parsed
