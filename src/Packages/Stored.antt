-- ===== src/Packages/Stored.antt =====
-- What `AddPackage` of apkgdb/index.go leaves in the buckets, and what `getPkgTx` of
-- apkgdb/package.go reads of them.
use apkg.Prelude.{
  ℕ, ◌^◌, ◌<◌, ◌≤◌, ◌≡◌, refl, ap, sym, ◌∙◌, inl, inr, Bool, false, some, ◌++◌, arith,
  if◌then◌else◌, length, drop, Option-cases, ltb, length-append, append_assoc, drop-length-append,
}
use apkg.Prelude.Bytes.{Bytes, bytes_eq, bytes_eq_refl, bytes_eq→eq}
use apkg.Prelude.Map.{be_uint, be_uint_from}
use apkg.Errors.{ok, err, bind-ok, invalid}
use apkg.Collate.{collated_version}
use apkg.Bolt.{Bolt}
use apkg.Index.{entry_value, entry_name}
use apkg.Index.Newest.{IsIndexed, Indexed}
use apkg.Db.{Opens, Tx, File, create, put_in, bytes_or_nil}
use apkg.Db.Access.{write_atomic}
use apkg.Packages.{
  Package, load_package, read_package, be_bytes, pkg_value, put_package, add_body, add_package,
}

pub be_uint-be_bytes : (v : ℕ) → v < 2 ^ 64 → be_uint (be_bytes v) ≡ v
unfolding be_uint_from
be_uint-be_bytes v h = omega arith

module _ ⦃bolt : Bolt⦄ where
  open bolt use {Bucket, get, put, get-put}

  pub put_in-get :
      (b c : Bucket) (k v j : Bytes)
      → put_in b k v ≡ ok c
      → get c j ≡ (if bytes_eq k j then some v else get b j)
  put_in-get b c k v j h = elim (Option-cases (put b k v)) [
    | inl e ↦ cc
    | inr (d, e) ↦ get-put b c k v j (ground arith)
  ]

  -- What the six buckets hold after the `Put`s.
  pub record IsStored (rpath : Bytes) (p : Package) (before after : Tx) : Type 0 where
    pub p2p : Bucket
    pub pkg : Bucket
    pub header : Bucket
    pub sig : Bucket
    pub meta : Bucket
    pub path : Bucket
    pub p2p_is : after.p2p ≡ some p2p
    pub pkg_is : after.pkg ≡ some pkg
    pub header_is : after.header ≡ some header
    pub sig_is : after.sig ≡ some sig
    pub meta_is : after.meta ≡ some meta
    pub path_is : after.path ≡ some path
    pub p2p_put :
        put_in
          (create before.p2p)
          (collated_version p.name)
          (entry_value p.hash (be_bytes p.inodes) p.name)
        ≡ ok p2p
    pub pkg_put : put_in (create before.pkg) p.hash (pkg_value p) ≡ ok pkg
    pub header_put : put_in (create before.header) p.hash p.raw_header ≡ ok header
    pub sig_put : put_in (create before.sig) p.hash p.raw_sig ≡ ok sig
    pub meta_put : put_in (create before.meta) p.hash p.raw_meta ≡ ok meta
    pub path_put : put_in (create before.path) p.hash rpath ≡ ok path

  pub put_package-IsStored :
      (rpath : Bytes) (p : Package) (tx t : Tx)
      → put_package rpath p tx ≡ ok t
      → IsStored rpath p tx t
  unfolding put_package
  put_package-IsStored rpath p tx t h =
      let (b1, e1, h1) = bind-ok (put_in (create tx.p2p) _ _) _ t h in
      let (b2, e2, h2) = bind-ok (put_in (create tx.pkg) _ _) _ t h1 in
      let (b3, e3, h3) = bind-ok (put_in (create tx.header) _ _) _ t h2 in
      let (b4, e4, h4) = bind-ok (put_in (create tx.sig) _ _) _ t h3 in
      let (b5, e5, h5) = bind-ok (put_in (create tx.meta) _ _) _ t h4 in
      let (b6, e6, h6) = bind-ok (put_in (create tx.path) _ _) _ t h5 in
      record {
        p2p = b1;
        pkg = b2;
        header = b3;
        sig = b4;
        meta = b5;
        path = b6;
        p2p_is = cc;
        pkg_is = cc;
        header_is = cc;
        sig_is = cc;
        meta_is = cc;
        path_is = cc;
        p2p_put = e1;
        pkg_put = e2;
        header_put = e3;
        sig_put = e4;
        meta_put = e5;
        path_put = e6;
      }

  pub put_in-same : (b c : Bucket) (k v : Bytes) → put_in b k v ≡ ok c → get c k ≡ some v
  put_in-same b c k v h = put_in-get b c k v k h ∙ rw (bytes_eq_refl k) refl

  read_package-IsStored :
      (rpath : Bytes) (p : Package) (tx t : Tx) (start : ℕ)
      → IsStored rpath p tx t
      → p.size < 2 ^ 64
      → p.inodes < 2 ^ 64
      → read_package t start p.hash (pkg_value p)
        ≡ ok (record p { start_ino = start; path = rpath })
  unfolding read_package
  read_package-IsStored rpath p tx t start s hs hi =
      let e2 = put_in-same (create tx.path) s.path p.hash rpath s.path_put in
      let e3 = put_in-same (create tx.header) s.header p.hash p.raw_header s.header_put in
      let e4 = put_in-same (create tx.sig) s.sig p.hash p.raw_sig s.sig_put in
      let e5 = put_in-same (create tx.meta) s.meta p.hash p.raw_meta s.meta_put in
      let e6 = be_uint-be_bytes p.size hs in
      let e7 = be_uint-be_bytes p.inodes hi in
      rw (s.path_is, s.header_is, s.sig_is, s.meta_is, e2, e3, e4, e5) (ap ok (cc (e6, e7)))

  pkg_value-long : (p : Package) → ltb (length (pkg_value p)) 25 ≡ false
  pkg_value-long p = ground arith

  -- `getPkgTx` reads the package off the six buckets.
  pub load_package-IsStored :
      (rpath : Bytes) (p : Package) (tx t : Tx) (start : ℕ)
      → IsStored rpath p tx t
      → p.size < 2 ^ 64
      → p.inodes < 2 ^ 64
      → load_package t start p.hash ≡ ok (record p { start_ino = start; path = rpath })
  unfolding load_package
  load_package-IsStored rpath p tx t start s hs hi =
      let e1 = put_in-same (create tx.pkg) s.pkg p.hash (pkg_value p) s.pkg_put in
      rw s.pkg_is (
        ap
          (λ o.
            (let v = bytes_or_nil o in
              if ltb (length v) 25 then err invalid else read_package t start p.hash v))
          e1
        ∙ ap (λ (c : Bool). if c then err invalid else read_package t start p.hash (pkg_value p))
            (pkg_value-long p)
        ∙ read_package-IsStored rpath p tx t start s hs hi)

  entry_name-entry_value :
      (hash name : Bytes) (n : ℕ)
      → length hash ≡ 32
      → entry_name (entry_value hash (be_bytes n) name) ≡ name
  entry_name-entry_value hash name n h =
      let front = hash ++ be_bytes n in
      let e : 40 ≡ length front = omega (arith, length-append hash (be_bytes n)) in
      ap (λ t. drop t (entry_value hash (be_bytes n) name)) e
      ∙ ap (drop (length front)) (sym (append_assoc hash (be_bytes n) name))
      ∙ drop-length-append front name

  -- An entry under the key of its name keeps the index.
  pub IsIndexed-put :
      (b c : Bucket) (v : Bytes)
      → put_in b (collated_version (entry_name v)) v ≡ ok c
      → 40 ≤ length v
      → IsIndexed b
      → IsIndexed c
  IsIndexed-put b c v h l ix = record {
    long = λ k w g. ground (arith, put_in-get b c _ v k h, ix.long k w);
    keyed = λ k w g. ground (
      arith,
      put_in-get b c _ v k h,
      ix.keyed k w,
      bytes_eq→eq (collated_version (entry_name v)) k,
    );
  }

  -- The entry of a package with a hash of 32 bytes keeps the index, and is there.
  pub IsStored-IsIndexed :
      (rpath : Bytes) (p : Package) (before after : Tx) (s : IsStored rpath p before after)
      → length p.hash ≡ 32
      → IsIndexed (create before.p2p)
      → IsIndexed s.p2p × Indexed s.p2p (entry_value p.hash (be_bytes p.inodes) p.name)
  IsStored-IsIndexed rpath p before after s h32 ix =
      let v = entry_value p.hash (be_bytes p.inodes) p.name in
      let named = entry_name-entry_value p.hash p.name p.inodes h32 in
      let long : 40 ≤ length v =
        omega (arith, length-append p.hash (be_bytes p.inodes ++ p.name)) in
      let put : put_in (create before.p2p) (collated_version (entry_name v)) v ≡ ok s.p2p =
        cc (named, s.p2p_put) in
      (
        IsIndexed-put (create before.p2p) s.p2p v put long ix,
        put_in-same (create before.p2p) s.p2p _ v put,
      )

  -- A write that succeeded ran its body.
  pub add_package-IsStored :
      (o : Opens) (f : File) (rpath : Bytes) (p : Package)
      → (add_package o rpath p f).0 ≡ ok tt
      → IsStored rpath p f.tx (add_package o rpath p f).1.tx
  unfolding add_package add_body
  add_package-IsStored o f rpath p h = elim ((write_atomic o (add_body rpath p) f).1) [
    | inl (_, e) ↦ elim (Option-cases (get (create f.tx.pkg) p.hash)) [
      | inl q ↦ put_package-IsStored rpath p f.tx _ cc
      | inr (v, q) ↦ absurd (ground arith)
    ]
    | inr (_, e, _) ↦ absurd (ground arith)
  ]

  -- What `AddPackage` stores, `getPkgTx` instantiates: after an `AddPackage` that succeeded the buckets
  -- give the package back, at the path and the inode number given, if its size and inode count fit 64
  -- bits.
  pub load_package-add_package :
      (o : Opens) (f : File) (rpath : Bytes) (p : Package) (start : ℕ)
      → p.size < 2 ^ 64
      → p.inodes < 2 ^ 64
      → (add_package o rpath p f).0 ≡ ok tt
      → load_package (add_package o rpath p f).1.tx start p.hash
        ≡ ok (record p { start_ino = start; path = rpath })
  load_package-add_package o f rpath p start hs hi h =
      load_package-IsStored rpath p f.tx (add_package o rpath p f).1.tx start
        (add_package-IsStored o f rpath p h) hs hi

  -- An `AddPackage` that succeeded, of a package with a hash of 32 bytes, keeps the index of names in
  -- order: every entry of the bucket is long enough and stands under the key of its name, if that was
  -- so before, and the new entry is there.
  pub add_package-IsIndexed :
      (o : Opens) (f : File) (rpath : Bytes) (p : Package)
      → length p.hash ≡ 32
      → IsIndexed (create f.tx.p2p)
      → (add_package o rpath p f).0 ≡ ok tt
      → (b : Bucket) × ((add_package o rpath p f).1.tx.p2p ≡ some b)
        × IsIndexed b
        × Indexed b (entry_value p.hash (be_bytes p.inodes) p.name)
  add_package-IsIndexed o f rpath p h32 ix h =
      let s = add_package-IsStored o f rpath p h in
      let (kept, there) = IsStored-IsIndexed rpath p f.tx _ s h32 ix in
      (s.p2p, s.p2p_is, kept, there)
