-- ===== src/Packages/Loaded.antt =====
-- What a package has that `getPkgTx` of apkgdb/package.go reads from the buckets.
use apkg.Prelude.{
  ℕ, ◌≡◌, refl, ap, sym, ◌∙◌, inl, inr, Option, none, some, arith, ltb, length, take, drop,
  if◌then◌else◌, Option-cases,
}
use apkg.Prelude.Bytes.{Bytes}
use apkg.Prelude.Map.{be_uint}
use apkg.Errors.{invalid, Result, ok, err}
use apkg.Bolt.{Bolt}
use apkg.Db.{Tx, create, bytes_or_nil}
use apkg.Packages.{Package, load_package, read_package}

module _ ⦃bolt : Bolt⦄ where
  open bolt use {Bucket, get}

  -- A package is instantiated at the number it is loaded for.
  pub load_package-start :
      (tx : Tx) (n : ℕ) (h : Bytes) (p : Package) → load_package tx n h ≡ ok p → p.start_ino ≡ n
  unfolding load_package read_package
  load_package-start tx n h p e = ground (arith, e)

  pub load_package-hash :
      (tx : Tx) (n : ℕ) (h : Bytes) (p : Package) → load_package tx n h ≡ ok p → p.hash ≡ h
  unfolding load_package read_package
  load_package-hash tx n h p e = ground (arith, e)

  read_package-inodes :
      (tx : Tx) (n : ℕ) (h v : Bytes) (p : Package)
      → read_package tx n h v ≡ ok p
      → p.inodes ≡ be_uint (take 8 (drop 17 v))
  unfolding read_package
  read_package-inodes tx n h v p e = ground (arith, e)

  -- A package is read off a value that is long enough.
  read_of : Tx → ℕ → Bytes → Option Bytes → Result Package
  read_of tx n h o =
      let v = bytes_or_nil o in if ltb (length v) 25 then err invalid else read_package tx n h v

  read_of-some :
      (tx : Tx) (n : ℕ) (h : Bytes) (p : Package) (o : Option Bytes)
      → read_of tx n h o ≡ ok p
      → (v : Bytes) × (o ≡ some v) × (read_package tx n h v ≡ ok p)
  unfolding read_of
  read_of-some tx n h p none e = absurd (ground (arith, e))
  read_of-some tx n h p (some v) e = (v, refl, ground (arith, e))

  -- A package that is read has a value, and takes its number of inodes from there.
  pub load_package-value :
      (tx : Tx) (n : ℕ) (h : Bytes) (p : Package)
      → load_package tx n h ≡ ok p
      → (v : Bytes) × (get (create tx.pkg) h ≡ some v) × (p.inodes ≡ be_uint (take 8 (drop 17 v)))
  unfolding load_package read_of
  load_package-value tx n h p e = elim (Option-cases tx.pkg) [
    | inl f ↦ absurd (ground (arith, e, f))
    | inr (b, f) ↦
        let q : load_package tx n h ≡ read_of tx n h (get b h) = rw (f, load_package) refl in
        let (v, at, read) = read_of-some tx n h p (get b h) (sym q ∙ e) in
        (v, ap (λ o. get (create o) h) f ∙ at, read_package-inodes tx n h v p read)
  ]
