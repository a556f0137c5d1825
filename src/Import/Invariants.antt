-- ===== src/Import/Invariants.antt =====
-- What an import does to the index of names, for apkgdb/index.go.
use apkg.Prelude.{
  ℕ, zero, suc, ◌*◌, ◌≡◌, refl, ap, sym, ◌∙◌, subst, inl, inr, some, [], ◌∷◌, length, arith,
  Option-cases, ◌==◌,
}
use apkg.Prelude.Bytes.{Bytes}
use apkg.Errors.{ok, err, bind-ok, bind-then, Result-cases}
use apkg.Bolt.{Bolt}
use apkg.Index.Newest.{IsIndexed}
use apkg.Db.{Opens, Tx, File, create, put_in, write}
use apkg.Db.Access.{write_atomic}
use apkg.Packages.{Package, put_package}
use apkg.Packages.Stored.{put_package-IsStored, IsStored-IsIndexed}
use apkg.Sig.{read_full, read_varblob, signature_size}
use apkg.Sig.Shorter.{read_full-length}
use apkg.Format.{guard, read_be}
use apkg.Import.Pins.{load_pins-step, load_pins-ends}
use apkg.Import.{
  Tools, DbHeader, read_header, read_entry, put_ldso, put_entry, store_entry, load_entries,
  store_pin, load_pins, all_pins, create_buckets, put_version, index_body, index, PinEntry,
  read_pin,
}

read_entry-hash :
    (r : Bytes) (p : Package) (rest : Bytes) → read_entry r ≡ ok (p, rest) → length p.hash ≡ 32
unfolding read_entry
read_entry-hash r p rest h = bind-then (read_be 1 r) _ _ h (λ t e1 h1.
    bind-then (guard (t.0 == 0) _) _ _ h1 (λ u e2 h2.
      bind-then (read_full 32 t.1) _ _ h2 (λ hash e3 h3.
        bind-then (read_be 8 hash.1) _ _ h3 (λ size e4 h4.
          bind-then (read_be 4 size.1) _ _ h4 (λ inodes e5 h5.
            bind-then (read_varblob inodes.1 256) _ _ h5 (λ name e6 h6.
              bind-then (read_varblob name.1 256) _ _ h6 (λ path e7 h7.
                bind-then (read_varblob path.1 256) _ _ h7 (λ header e8 h8.
                  bind-then (read_varblob header.1 signature_size) _ _ h8 (λ sig e9 h9.
                    bind-then (read_varblob sig.1 (1024 * 1024)) _ _ h9 (λ meta e10 h10.
                      let same : hash.0 ≡ p.hash =
                        ap (λ x. elim x [ ok (q, y) ↦ q.hash | err e ↦ [] ]) h10 in
                      ap length (sym same) ∙ read_full-length 32 t.1 hash.0 hash.1 e3))))))))))

module _ ⦃bolt : Bolt⦄ where
  open bolt use {Bucket, get}

  put_entry-IsIndexed :
      (tools : Tools) (p : Package) (tx t : Tx)
      → put_entry tools p tx ≡ ok t
      → length p.hash ≡ 32
      → IsIndexed (create tx.p2p)
      → IsIndexed (create t.p2p)
  unfolding put_entry
  put_entry-IsIndexed tools p tx t h h32 ix =
      let (u, e, h1) = bind-ok (put_package p.path p tx) _ _ h in
      let (b, e', h2) =
        bind-ok (put_ldso (tools.ldso_entries p.raw_meta) (create tx.ldso)) _ _ h1 in
      let s = put_package-IsStored p.path p tx u e in
      let is : t.p2p ≡ some s.p2p = cc (h2, s.p2p_is) in
      rw is ((IsStored-IsIndexed p.path p tx u s h32 ix).0)

  store_entry-IsIndexed :
      (tools : Tools) (p : Package) (tx t : Tx)
      → store_entry tools p tx ≡ ok t
      → length p.hash ≡ 32
      → IsIndexed (create tx.p2p)
      → IsIndexed (create t.p2p)
  unfolding store_entry
  store_entry-IsIndexed tools p tx t h h32 ix = elim (Option-cases (get (create tx.pkg) p.hash)) [
    | inl e ↦ put_entry-IsIndexed tools p tx t (ground (arith, e)) h32 ix
    | inr (v, e) ↦ let same : tx ≡ t = ground (arith, e) in rw (← same) ix
  ]

  load_entries-IsIndexed :
      (tools : Tools) (n : ℕ) (r rest : Bytes) (tx t : Tx)
      → load_entries tools n r tx ≡ ok (rest, t)
      → IsIndexed (create tx.p2p)
      → IsIndexed (create t.p2p)
  unfolding load_entries
  load_entries-IsIndexed tools zero r rest tx t h ix =
      let same : tx ≡ t = ground (arith, h) in rw (← same) ix
  load_entries-IsIndexed tools (suc n) r rest tx t h ix =
      let ((p, r1), e, h1) = bind-ok (read_entry r) _ _ h in
      let (u, e', h2) = bind-ok (store_entry tools p tx) _ _ h1 in
      load_entries-IsIndexed tools n r1 rest u t h2
        (store_entry-IsIndexed tools p tx u e' (read_entry-hash r p r1 e) ix)

  store_pin-p2p : (e : PinEntry) (tx t : Tx) → store_pin e tx ≡ ok t → t.p2p ≡ tx.p2p
  unfolding store_pin
  store_pin-p2p e tx t h = let (b, q, g) = bind-ok (put_in (create tx.pins) _ _) _ _ h in cc g

  load_pins-p2p :
      (fuel : ℕ) (r : Bytes) (tx t : Tx) → load_pins fuel r tx ≡ some (ok t) → t.p2p ≡ tx.p2p
  unfolding load_pins
  load_pins-p2p zero r tx t h = cc h
  load_pins-p2p (suc fuel) [] tx t h = cc h
  load_pins-p2p (suc fuel) (c ∷ r) tx t h = elim (Result-cases (read_pin (c ∷ r))) [
    | inr (x, e) ↦
        let q : load_pins (suc fuel) (c ∷ r) tx ≡ some (err x) = rw (e, load_pins) refl in
        absurd (ground (arith, q))
    | inl ((p, rest), e) ↦ elim (Result-cases (store_pin p tx)) [
      | inr (x, e') ↦
          let q : load_pins (suc fuel) (c ∷ r) tx ≡ some (err x) = rw (e, load_pins) (rw e' refl) in
          absurd (ground (arith, q))
      | inl (u, e') ↦
          load_pins-p2p fuel rest u t (sym (load_pins-step fuel r rest c p tx u e e') ∙ h)
          ∙ store_pin-p2p p tx u e'
    ]
  ]

  all_pins-p2p : (r : Bytes) (tx t : Tx) → all_pins r tx ≡ ok t → t.p2p ≡ tx.p2p
  unfolding all_pins
  all_pins-p2p r tx t h =
      let (result, e) = load_pins-ends (suc (length r)) r tx (omega arith) in
      let same : all_pins r tx ≡ result = rw (e, all_pins) refl in
      load_pins-p2p (suc (length r)) r tx t (e ∙ ap some (sym same ∙ h))

  index_body-IsIndexed :
      (tools : Tools) (h : DbHeader) (tx t : Tx)
      → index_body tools h tx ≡ ok t
      → IsIndexed (create tx.p2p)
      → IsIndexed (create t.p2p)
  unfolding index_body create_buckets put_version
  index_body-IsIndexed tools h tx t g ix =
      bind-then (load_entries tools h.count h.content (create_buckets tx)) _ _ g (λ w e1 g1.
        bind-then (all_pins w.0 w.1) _ _ g1 (λ v e2 g2.
          bind-then (put_in (create v.info) _ _) _ _ g2 (λ b e3 g3.
            let is : t.p2p ≡ w.1.p2p = cc (g3, all_pins-p2p w.0 w.1 v e2) in
            rw is
              (load_entries-IsIndexed tools h.count h.content w.0 (create_buckets tx) w.1 e1 ix))))

  -- An import keeps the index of names in order, whatever the file holds and whether it succeeds or
  -- not: if every entry of the bucket was long enough and stood under the key of its name, that is
  -- so afterwards.
  pub index-IsIndexed :
      (tools : Tools) (name : Bytes) (o : Opens) (r : Bytes) (f : File)
      → IsIndexed (create f.tx.p2p)
      → IsIndexed (create (index tools name o r f).1.tx.p2p)
  unfolding index
  index-IsIndexed tools name o r f ix = elim (Result-cases (read_header tools name r)) [
    | inr (x, e) ↦
        let q : index tools name o r f ≡ (err x, f) = rw (e, index) refl in
        subst (λ w. IsIndexed (create w.1.tx.p2p)) (sym q) ix
    | inl (h, e) ↦
        let q : index tools name o r f ≡ write o (index_body tools h) f = rw (e, index) refl in
        subst (λ w. IsIndexed (create w.1.tx.p2p)) (sym q)
          (elim ((write_atomic o (index_body tools h) f).1) [
            | inl (_, q') ↦ index_body-IsIndexed tools h f.tx _ q' ix
            | inr (_, _, q') ↦ rw q' ix
          ])
  ]
