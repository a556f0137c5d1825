-- ===== src/Lookup/Added.antt =====
-- From `AddPackage` to the inode: a package that was added, looked up by its name.
use apkg.Prelude.{
  ℕ, ◌+◌, ◌^◌, ◌≤◌, ◌<◌, ◌≡◌, ◌≢◌, refl, ap, sym, ◌∙◌, none, some, ◌++◌, arith, length, take, drop,
  take-front, drop-front, length-append,
}
use apkg.Prelude.Bytes.{Bytes, index_byte}
use apkg.Prelude.Map.{lookup, be_uint}
use apkg.Errors.{ok, err}
use apkg.Collate.{collated_version}
use apkg.Bolt.{Bolt}
use apkg.Llrb.{Llrb}
use apkg.Index.{entry_value}
use apkg.Db.{closed, Opens, Tx, create}
use apkg.Packages.{Package, be_bytes, load_package, add_package}
use apkg.Packages.Stored.{
  add_package-IsStored, load_package-IsStored, put_in-same, be_uint-be_bytes,
}
use apkg.Inodes.{
  Item, signed, item_value, Squashfs, State, Exec, ◌>>=◌, pure, symlink, u64, pkg_ino, get_pkg_tx,
  keep_package, handle_lookup, get_inode,
}
use apkg.Inodes.Ranges.{
  IsApart, get_inode-owner, get_pkg_tx-IsApart, pkg_ino_new, get_pkg_tx_new, numbered,
}
use apkg.Lookup.{lookup_unsigned, exact_entry, view_lookup, internal_lookup}

-- The parts of the value of an entry.
entry_value-hash :
    (hash name : Bytes) (n : ℕ)
    → length hash ≡ 32
    → take 32 (entry_value hash (be_bytes n) name) ≡ hash
entry_value-hash hash name n h = take-front hash (be_bytes n ++ name) 32 h

entry_value-inodes :
    (hash name : Bytes) (n : ℕ)
    → length hash ≡ 32
    → n < 2 ^ 64
    → be_uint (take 8 (drop 32 (entry_value hash (be_bytes n) name))) ≡ n
entry_value-inodes hash name n h small =
    ap (λ t. be_uint (take 8 t)) (drop-front hash (be_bytes n ++ name) 32 h)
    ∙ be_uint-be_bytes n small

handle_lookup-first :
    (sq : Squashfs) (p : Package) (n : ℕ)
    → p.start_ino ≡ n
    → handle_lookup sq p n ≡ ok (symlink p.name)
unfolding handle_lookup
handle_lookup-first sq p n e = ground (arith, e)

module _ ⦃bolt : Bolt⦄ ⦃llrb : Llrb Item item_value⦄ where
  open bolt use {Bucket, get}
  open llrb use {Tree, find}

  -- A lookup that comes down to the entry under the name's key.
  internal_lookup-exact :
      (sq : Squashfs) (name : Bytes) (s : State) (i : ℕ) (b : Bucket) (v : Bytes)
      → index_byte name b'.' ≡ some i
      → lookup_unsigned s.db.os_v s.db.arch_v name s.shared ≡ none
      → s.db.file.dbptr ≢ closed
      → s.db.file.tx.p2p ≡ some b
      → get b (collated_version name) ≡ some v
      → internal_lookup sq name s ≡ exact_entry s.db.file.tx v s
  unfolding internal_lookup view_lookup
  internal_lookup-exact sq name s i b v dotted signed_only is_open has found =
      ground (arith, dotted, signed_only, has, found)

  -- A step that succeeds hands its result on.
  run-bind {ℓ κ} :
      {A : Type ℓ} {B : Type κ} (m : Exec A) (f : A → Exec B) (s : State) (a : A) (t : State)
      → m s ≡ (ok a, t)
      → (m >>= f) s ≡ f a t
  run-bind m f s a t e = ap (λ r. elim r.0 [ ok b ↦ f b r.1 | err x ↦ (err x, r.1) ]) e

  -- A new hash: the numbers are taken, the package is kept, and the answer is the second number.
  exact_entry-new :
      (tx : Tx) (v : Bytes) (s : State) (p : Package)
      → 40 ≤ length v
      → lookup (take 32 v) s.db.pkg_i ≡ none
      → lookup (take 32 v) s.shared.pkg_cache ≡ none
      → load_package tx s.shared.next_i (take 32 v) ≡ ok p
      → p.inodes ≡ be_uint (take 8 (drop 32 v))
      → s.shared.next_i + p.inodes + 1 < 2 ^ 64
      → (exact_entry tx v s ≡ (
        ok (s.shared.next_i + 1),
        (get_pkg_tx tx s.shared.next_i (take 32 v) (pkg_ino v s).1).1,
      ))
        × ((get_pkg_tx tx s.shared.next_i (take 32 v) (pkg_ino v s).1).1.shared.next_i
            ≡ s.shared.next_i + (p.inodes + 1))
  unfolding exact_entry keep_package
  exact_entry-new tx v s p long unknown uncached loaded count small =
      let t = numbered v p.inodes s in
      let e = pkg_ino_new v p.inodes s long unknown count (omega arith) in
      let k = get_pkg_tx_new tx (take 32 v) s.shared.next_i t p uncached loaded in
      let n : u64 (s.shared.next_i + 1) ≡ s.shared.next_i + 1 = omega arith in
      (
        run-bind (pkg_ino v) (λ m. get_pkg_tx tx m (take 32 v) >>= λ x. pure (u64 (m + 1))) s
              s.shared.next_i t e
            ∙ run-bind (get_pkg_tx tx s.shared.next_i (take 32 v))
                (λ x. pure (u64 (s.shared.next_i + 1))) t p (keep_package (take 32 v) p t).1 k
            ∙ ap (λ m. (ok m, (keep_package (take 32 v) p t).1)) n
            ∙ ap (λ u. (ok (s.shared.next_i + 1), u)) (rw (e, k) refl),
        rw (e, k) refl,
      )

  -- A package that was just added is found under its name: with the database open again, and where no
  -- unsigned package matches, the first lookup of its full name answers the second of the numbers that
  -- it gets, the directory, and `GetInode` of the first gives the symlink with its name. The
  -- conditions: the name has a dot, the hash has 32 bytes and neither the database nor the cache
  -- knows it, size and inode count fit 64 bits, the ranges are apart, and the counter does not wrap
  -- around.
  pub internal_lookup-add_package :
      (sq : Squashfs) (o : Opens) (rpath : Bytes) (p : Package) (s : State) (i : ℕ)
      → (add_package o rpath p s.db.file).0 ≡ ok tt
      → (add_package o rpath p s.db.file).1.dbptr ≢ closed
      → index_byte p.name b'.' ≡ some i
      → lookup_unsigned s.db.os_v s.db.arch_v p.name s.shared ≡ none
      → length p.hash ≡ 32
      → lookup p.hash s.db.pkg_i ≡ none
      → lookup p.hash s.shared.pkg_cache ≡ none
      → p.size < 2 ^ 64
      → IsApart s.shared
      → s.shared.next_i + p.inodes + 1 < 2 ^ 64
      → (t : State) × (internal_lookup sq p.name
            (record s { db = record s.db { file = (add_package o rpath p s.db.file).1 } })
          ≡ (ok (s.shared.next_i + 1), t))
        × (get_inode sq t.shared s.shared.next_i ≡ ok (symlink p.name))
  internal_lookup-add_package sq o rpath p s i added is_open dotted signed_only h32 unknown uncached
        size ix small =
      let f = (add_package o rpath p s.db.file).1 in
      let s' = record s { db = record s.db { file = f } } in
      let v = entry_value p.hash (be_bytes p.inodes) p.name in
      let st = add_package-IsStored o s.db.file rpath p added in
      let q = record p { start_ino = s.shared.next_i; path = rpath } in
      let hash = entry_value-hash p.hash p.name p.inodes h32 in
      let count = entry_value-inodes p.hash p.name p.inodes h32 (omega arith) in
      let long : 40 ≤ length v =
        omega (arith, length-append p.hash (be_bytes p.inodes ++ p.name)) in
      let loaded : load_package f.tx s.shared.next_i (take 32 v) ≡ ok q =
        rw hash
          (load_package-IsStored rpath p s.db.file.tx f.tx s.shared.next_i st size (omega arith)) in
      let found : get st.p2p (collated_version p.name) ≡ some v =
        put_in-same (create s.db.file.tx.p2p) st.p2p (collated_version p.name) v st.p2p_put in
      let down =
        internal_lookup-exact sq p.name s' i st.p2p v dotted signed_only is_open st.p2p_is found in
      let (new, next) =
        exact_entry-new f.tx v s' q long (rw hash unknown) (rw hash uncached) loaded (sym count)
          (omega arith) in
      let (_, apart, there) =
        get_pkg_tx-IsApart f.tx v s' q ix long (rw hash unknown) (rw hash uncached) loaded refl
          (sym count) (omega arith) in
      (
        (get_pkg_tx f.tx s.shared.next_i (take 32 v) (pkg_ino v s').1).1,
        down ∙ new,
        get_inode-owner sq _ (signed q) s.shared.next_i apart (omega (arith, next)) there
              (omega arith) (omega arith)
            ∙ handle_lookup-first sq q s.shared.next_i refl,
      )
