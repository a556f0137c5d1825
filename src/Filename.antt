-- ===== src/Filename.antt =====
-- cmd/apkg-convert/process.go: parsePackageFilename, which takes the name of an image apart at its dots,
-- and the names that process makes of it.
pub mod Joined
use apkg.Prelude.{◌++◌, ℕ, ◌-◌, List, [], ◌∷◌, if◌then◌else◌, leb, ◌==◌, length, take, drop}
use apkg.Prelude.Bytes.{Bytes}
use apkg.Errors.{Result, ok, err, message, ◌>>=◌}
use apkg.Format.{guard}

-- A byte in front of the first part.
abbrev pub onto_first : ℕ → List Bytes → List Bytes
onto_first c [] = (c ∷ []) ∷ []
onto_first c (x ∷ xs) = (c ∷ x) ∷ xs

-- `strings.Split` at the dots.
unfoldable pub split_dots : Bytes → List Bytes
split_dots [] = [] ∷ []
split_dots (c ∷ cs) = let rest = split_dots cs in if c == b'.' then [] ∷ rest else onto_first c rest

-- An element that the code knows to be there.
unfoldable pub part : ℕ → List Bytes → Bytes
part i xs = elim (drop i xs) [ [] ↦ [] | x ∷ _ ↦ x ]

pub record PackageFilename : Type 0 where
  pub cat : Bytes
  pub name : Bytes
  pub subcat : Bytes
  pub version : List Bytes
  pub os : Bytes
  pub arch : Bytes
  pub name_components : List Bytes

unfoldable pub parse_package_filename : Bytes → Result PackageFilename
parse_package_filename filename = do
  let all = split_dots filename
  _ ← guard (leb 5 (length all)) (message "invalid filename format")
  let front = take (length all - 2) all
  ok (record {
    cat = part 0 front;
    name = part 1 front;
    subcat = part 2 front;
    version = drop 3 front;
    os = part (length all - 2) all;
    arch = part (length all - 1) all;
    name_components = take 3 front;
  })

-- `strings.Join` with dots.
unfoldable pub join_dots : List Bytes → Bytes
join_dots [] = []
join_dots (x ∷ xs) = elim xs [ [] ↦ x | _ ↦ x ++ (b'.' ∷ join_dots xs) ]

-- The names of the package in `process`, from the shortest to the one with the whole version.
unfoldable pub package_names : List Bytes → List Bytes → List Bytes
package_names components [] = join_dots components ∷ []
package_names components (v ∷ vs) = join_dots components ∷ package_names (components ++ (v ∷ [])) vs
