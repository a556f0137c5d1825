-- ===== src/Inodes/Agreeing.antt =====
-- That `AddPackage` of apkgdb/index.go keeps the counts of inodes in agreement.
use apkg.Prelude.{
  ℕ, ◌^◌, ◌<◌, ◌≡◌, ap, sym, ◌∙◌, inl, inr, some, ◌++◌, arith, length, take, drop, subst,
  Bool-cases, drop-length-append, take-length-append,
}
use apkg.Prelude.Bytes.{Bytes, bytes_eq, bytes_eq→eq}
use apkg.Prelude.Map.{be_uint}
use apkg.Errors.{ok}
use apkg.Collate.{collated_version}
use apkg.Bolt.{Bolt}
use apkg.Llrb.{Llrb}
use apkg.Index.{entry_value}
use apkg.Db.{Opens, Tx, File, create}
use apkg.Packages.{Package, be_bytes, pkg_value, add_package}
use apkg.Packages.Stored.{put_in-get, IsStored, add_package-IsStored, be_uint-be_bytes}
use apkg.Inodes.{Item, item_value}
use apkg.Inodes.Reserved.{Sizes}
use apkg.Inodes.Grown.{Agrees}

entry_value-count :
    (hash name : Bytes) (n : ℕ)
    → length hash ≡ 32
    → n < 2 ^ 64
    → (take 32 (entry_value hash (be_bytes n) name) ≡ hash)
      × (be_uint (take 8 (drop 32 (entry_value hash (be_bytes n) name))) ≡ n)
entry_value-count hash name n h small =
    let value = entry_value hash (be_bytes n) name in
    let rest = be_bytes n ++ name in
    (
      ap (λ m. take m value) (sym h) ∙ take-length-append hash rest,
      ap (λ m. be_uint (take 8 (drop m value))) (sym h)
          ∙ ap (λ r. be_uint (take 8 r)) (drop-length-append hash rest)
          ∙ be_uint-be_bytes n small,
    )

pkg_value-count :
    (p : Package) → p.inodes < 2 ^ 64 → be_uint (take 8 (drop 17 (pkg_value p))) ≡ p.inodes
pkg_value-count p h = be_uint-be_bytes p.inodes h

module _ ⦃bolt : Bolt⦄ ⦃llrb : Llrb Item item_value⦄ where
  open bolt use {Bucket, get}

  IsStored-Agrees :
      (size : Sizes) (rpath : Bytes) (p : Package) (tx t : Tx)
      → Agrees size tx
      → length p.hash ≡ 32
      → p.inodes < 2 ^ 64
      → size p.hash ≡ p.inodes
      → IsStored rpath p tx t
      → Agrees size t
  IsStored-Agrees size rpath p tx t agrees h32 small count s = record {
    entry = λ k v e.
        let key = collated_version p.name in
        let new = entry_value p.hash (be_bytes p.inodes) p.name in
        let after = put_in-get (create tx.p2p) s.p2p key new k s.p2p_put in
        let at : get s.p2p k ≡ some v = sym (ap (λ o. get (create o) k) s.p2p_is) ∙ e in
        let (hash_is, count_is) = entry_value-count p.hash p.name p.inodes h32 small in
        elim (Bool-cases (bytes_eq key k)) [
          | inl t ↦
              let same : new ≡ v = ground (arith, after, at, t) in
              subst (λ w. be_uint (take 8 (drop 32 w)) ≡ size (take 32 w)) same
                (count_is ∙ sym count ∙ ap size (sym hash_is))
          | inr t ↦ agrees.entry k v (ground (arith, after, at, t))
        ];
    value = λ h v e.
        let after = put_in-get (create tx.pkg) s.pkg p.hash (pkg_value p) h s.pkg_put in
        let at : get s.pkg h ≡ some v = sym (ap (λ o. get (create o) h) s.pkg_is) ∙ e in
        elim (Bool-cases (bytes_eq p.hash h)) [
          | inl t ↦
              let same : pkg_value p ≡ v = ground (arith, after, at, t) in
              subst (λ w. be_uint (take 8 (drop 17 w)) ≡ size h) same
                (pkg_value-count p small ∙ sym count ∙ ap size (bytes_eq→eq p.hash h t))
          | inr t ↦ agrees.value h v (ground (arith, after, at, t))
        ];
  }

  -- An `AddPackage` that succeeds keeps the counts in agreement, if the package has the count that goes
  -- with its hash.
  pub add_package-Agrees :
      (size : Sizes) (o : Opens) (rpath : Bytes) (p : Package) (f : File)
      → Agrees size f.tx
      → length p.hash ≡ 32
      → p.inodes < 2 ^ 64
      → size p.hash ≡ p.inodes
      → (add_package o rpath p f).0 ≡ ok tt
      → Agrees size (add_package o rpath p f).1.tx
  add_package-Agrees size o rpath p f agrees h32 small count done =
      IsStored-Agrees size rpath p f.tx (add_package o rpath p f).1.tx agrees h32 small count
        (add_package-IsStored o f rpath p done)
