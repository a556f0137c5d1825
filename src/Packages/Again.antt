-- ===== src/Packages/Again.antt =====
-- `AddPackage` and `RemovePackage` of apkgdb/index.go, one after the other.
use apkg.Prelude.{◌≡◌, ap, ◌∙◌, inl, inr, true, some, arith, Option-cases}
use apkg.Prelude.Bytes.{Bytes}
use apkg.Errors.{ok, err, message}
use apkg.Bolt.{Bolt}
use apkg.Db.{Opens, Tx, File, create, write}
use apkg.Db.Access.{write_atomic}
use apkg.Packages.{Package, pkg_value, add_body, add_package, remove_body, remove_package}
use apkg.Packages.Stored.{add_package-IsStored, put_in-same}

module _ ⦃bolt : Bolt⦄ where
  open bolt use {Bucket, get}

  remove_body-pkg : (name : Bytes) (tx t : Tx) → remove_body name tx ≡ ok t → t.pkg ≡ tx.pkg
  unfolding remove_body
  remove_body-pkg name tx t h = elim (Option-cases tx.p2p) [
    | inl e ↦ absurd (ground (arith, e))
    | inr (b, e) ↦ ground (arith, e)
  ]

  remove_package-pkg :
      (o : Opens) (name : Bytes) (f : File) → (remove_package o name f).1.tx.pkg ≡ f.tx.pkg
  unfolding remove_package
  remove_package-pkg o name f = elim ((write_atomic o (remove_body name) f).1) [
    | inl (_, q) ↦ remove_body-pkg name f.tx _ q
    | inr (_, _, q) ↦ ap (λ t. t.pkg) q
  ]

  add_package-known :
      (o : Opens) (rpath : Bytes) (p : Package) (f : File) (v : Bytes)
      → get (create f.tx.pkg) p.hash ≡ some v
      → o.rw ≡ true
      → (add_package o rpath p f).0 ≡ err (message "package already in database")
  unfolding add_package add_body write
  add_package-known o rpath p f v e h = ground (arith, e, h)

  -- A package that was added cannot be added again, not even after a `RemovePackage`, of its name
  -- or of another and whether that succeeds or not: with the file open for the write, the second
  -- `AddPackage` fails with "package already in database".
  pub add_package-again :
      (o o' o'' : Opens) (f : File) (rpath rpath' name : Bytes) (p : Package)
      → (add_package o rpath p f).0 ≡ ok tt
      → o''.rw ≡ true
      → (add_package o'' rpath' p (remove_package o' name (add_package o rpath p f).1).1).0
        ≡ err (message "package already in database")
  add_package-again o o' o'' f rpath rpath' name p h opens =
      let s = add_package-IsStored o f rpath p h in
      let g = (add_package o rpath p f).1 in
      let kept : (remove_package o' name g).1.tx.pkg ≡ some s.pkg =
        remove_package-pkg o' name g ∙ s.pkg_is in
      add_package-known o'' rpath' p (remove_package o' name g).1 (pkg_value p)
        (ap (λ b. get (create b) p.hash) kept ∙ put_in-same _ s.pkg p.hash (pkg_value p) s.pkg_put)
        opens
