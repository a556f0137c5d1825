-- ===== src/Packages/Removed.antt =====
-- What `RemovePackage` of apkgdb/index.go takes out of the index.
use apkg.Prelude.{◌≡◌, ◌∙◌, inl, inr, Option, none, some, arith, if◌then◌else◌}
use apkg.Prelude.Bytes.{Bytes, bytes_eq, bytes_eq_refl, bytes_eq→eq}
use apkg.Errors.{ok}
use apkg.Collate.{collated_version}
use apkg.Collate.Injective.{collated_version-injective}
use apkg.Bolt.{Bolt}
use apkg.Db.{Opens, File}
use apkg.Db.Access.{write_atomic}
use apkg.Packages.{remove_body, remove_package}

-- Two keys agree just where the names do.
same_key :
    (name m : Bytes) (o : Option Bytes)
    → (if bytes_eq (collated_version name) (collated_version m) then none else o)
      ≡ (if bytes_eq name m then none else o)
same_key name m o = ground (
  arith,
  bytes_eq→eq name m,
  bytes_eq→eq (collated_version name) (collated_version m),
  collated_version-injective name m,
  bytes_eq_refl name,
  bytes_eq_refl (collated_version m),
)

module _ ⦃bolt : Bolt⦄ where
  open bolt use {Bucket, get, delete, get-delete}

  -- `RemovePackage` takes the package of that name out of the index and no other: after a success a
  -- lookup by key finds nothing under that name, and what was there before under every other.
  pub remove_package-get :
      (o : Opens) (f : File) (name m : Bytes) (b : Bucket)
      → f.tx.p2p ≡ some b
      → (remove_package o name f).0 ≡ ok tt
      → (c : Bucket) × ((remove_package o name f).1.tx.p2p ≡ some c)
        × (get c (collated_version m)
            ≡ (if bytes_eq name m then none else get b (collated_version m)))
  unfolding remove_package remove_body
  remove_package-get o f name m b e h = elim ((write_atomic o (remove_body name) f).1) [
    | inl (_, q) ↦ (
      delete b (collated_version name),
      cc,
      get-delete b (collated_version name) (collated_version m) ∙ same_key name m _,
    )
    | inr (_, q, _) ↦ absurd (ground arith)
  ]
