-- ===== src/Lookup/Grown.antt =====
-- What a lookup does to the ranges of inode numbers: `internalLookup` of apkgdb/lookup.go.
use apkg.Prelude.{
  ℕ, ◌+◌, ◌^◌, ◌<◌, ◌≡◌, refl, ap, ◌∙◌, inl, inr, Option, none, some, [], ◌∷◌, ◌++◌, arith, take,
  Option-cases,
}
use apkg.Prelude.Bytes.{Bytes, index_byte}
use apkg.Errors.{database_closed, Result, ok, err, Result-cases}
use apkg.OsArch.{pair}
use apkg.Collate.{collated_version}
use apkg.Bolt.{Bolt}
use apkg.Llrb.{Llrb}
use apkg.Db.{Handle, closed, read_only, read_write, Tx, create}
use apkg.Index.{match_entry, seek_version}
use apkg.Index.Newest.{Versions}
use apkg.Pin.{lookup_pin_tx}
use apkg.Inodes.{Item, ◌>>=◌, pure, item_value, Squashfs, State, u64, pkg_ino, get_pkg_tx}
use apkg.Inodes.Reserved.{Ledger, Sizes}
use apkg.Inodes.Grown.{
  AreSmall, Agrees, IsSound, Grown, Grown-same, instantiated, instantiated-Grown,
}
use apkg.Lookup.Counts.{CountsSmall, unsigned_of-Small, matching-Small, found_unsigned-Grown}
use apkg.Lookup.{
  lookup_unsigned, found_entry, exact_entry, latest, from_pin, view_lookup, internal_lookup,
}

module _ ⦃bolt : Bolt⦄ ⦃llrb : Llrb Item item_value⦄ where
  open bolt use {Bucket, get, seek_prev-get}
  open llrb use {replace_or_insert}

  and_then :
      (tx : Tx) (v : Bytes) (g : ℕ → ℕ) (r : Result ℕ × State)
      → (((λ (s : State). r) >>= (λ n. get_pkg_tx tx n (take 32 v) >>= (λ p. pure (g n)))) r.1).1
        ≡ instantiated tx v r
  and_then tx v g (err e, t) = refl
  and_then tx v g (ok n, t) = elim (Result-cases (get_pkg_tx tx n (take 32 v) t).0) [
    | inl (p, e) ↦ rw (e, ◌>>=◌) refl
    | inr (x, e) ↦ rw (e, ◌>>=◌) refl
  ]

  -- What is found of an index leaves its package instantiated.
  found_entry-state :
      (tx : Tx) (v : Bytes) (s : State) → (found_entry tx v s).1 ≡ instantiated tx v (pkg_ino v s)
  unfolding found_entry
  found_entry-state tx v s = and_then tx v (λ n. n) (pkg_ino v s)

  exact_entry-state :
      (tx : Tx) (v : Bytes) (s : State) → (exact_entry tx v s).1 ≡ instantiated tx v (pkg_ino v s)
  unfolding exact_entry
  exact_entry-state tx v s = and_then tx v (λ n. u64 (n + 1)) (pkg_ino v s)

  match_entry-some :
      (name v : Bytes) (o : Option (Bytes × Bytes))
      → match_entry name o ≡ ok (some v)
      → (k : Bytes) × (o ≡ some (k, v)) × Versions name v
  unfolding match_entry
  match_entry-some name v none h = absurd (ground arith)
  match_entry-some name v (some (k, w)) h = (k, ground arith, ground arith)

  pub seek_version-get :
      (b : Bucket) (name v : Bytes)
      → seek_version b name ≡ ok (some v)
      → (k : Bytes) × (get b k ≡ some v) × Versions name v
  unfolding seek_version
  seek_version-get b name v h =
      let (k, e, p) = match_entry-some name v _ h in (k, seek_prev-get b _ k v e, p)

  -- The facts of a lookup in an index.
  module _ (size : Sizes) (l : Ledger) (tx : Tx) (b : Bucket) (s : State)
      (sizes : (h : Bytes) → size h < 2 ^ 32) (agrees : Agrees size tx) (index : tx.p2p ≡ some b)
      (sound : IsSound size l s) (room : s.shared.next_i + 2 ^ 32 < 2 ^ 64) where
    entry-Grown :
        (k v : Bytes) → get b k ≡ some v → Grown size l s (instantiated tx v (pkg_ino v s))
    entry-Grown k v e =
        instantiated-Grown size l tx v s agrees sound
          (agrees.entry k v (ap (λ o. get (create o) k) index ∙ e)) (sizes (take 32 v)) room

    latest-Grown : (name : Bytes) → Grown size l s (latest tx b name s).1
    unfolding latest
    latest-Grown name = elim (Result-cases (seek_version b name)) [
      | inr (x, e) ↦ rw (e, latest) (Grown-same size l s sound)
      | inl (none, e) ↦ rw (e, latest) (Grown-same size l s sound)
      | inl (some v, e) ↦
          let (k, f, _) = seek_version-get b name v e in
          rw (e, latest) (rw (found_entry-state tx v s) (entry-Grown k v f))
    ]

    from_pin-Grown : (name pin : Bytes) → Grown size l s (from_pin tx b name pin s).1
    unfolding from_pin
    from_pin-Grown name [] = latest-Grown name
    from_pin-Grown name (c ∷ pin) =
        elim (Result-cases (seek_version b (name ++ (b'.' ∷ c ∷ pin)))) [
          | inr (x, e) ↦ rw (e, from_pin) (Grown-same size l s sound)
          | inl (none, e) ↦ rw (e, from_pin) (latest-Grown name)
          | inl (some v, e) ↦
              let (k, f, _) = seek_version-get b _ v e in
              rw (e, from_pin) (rw (found_entry-state tx v s) (entry-Grown k v f))
        ]

  view_lookup-Grown :
      (size : Sizes) (l : Ledger) (tx : Tx) (name : Bytes) (s : State)
      → ((h : Bytes) → size h < 2 ^ 32)
      → Agrees size tx
      → IsSound size l s
      → s.shared.next_i + 2 ^ 32 < 2 ^ 64
      → Grown size l s (view_lookup tx name s).1
  unfolding view_lookup
  view_lookup-Grown size l tx name s sizes agrees sound room = elim (Option-cases tx.p2p) [
    | inl e ↦ rw (e, view_lookup) (Grown-same size l s sound)
    | inr (b, e) ↦ elim (Option-cases (get b (collated_version name))) [
      | inr (v, f) ↦
          rw (e, view_lookup)
            (rw (f, view_lookup)
              (rw (exact_entry-state tx v s)
                (entry-Grown size l tx b s sizes agrees e sound room (collated_version name) v f)))
      | inl f ↦
          rw (e, view_lookup)
            (rw (f, view_lookup)
              (from_pin-Grown size l tx b s sizes agrees e sound room name
                (lookup_pin_tx s.db.channel tx name)))
    ]
  ]

  -- On a closed file and on an open one.
  pub open_or_not :
      (h : Handle) (P : Result ℕ × State → Type 0) (r t : Result ℕ × State)
      → P r
      → P t
      → P (elim h as (λ x. Result ℕ × State) [ closed ↦ r | _ ↦ t ])
  open_or_not closed P r t p q = p
  open_or_not read_only P r t p q = q
  open_or_not read_write P r t p q = q

  -- A lookup gives out at most one range, behind all that are given out.
  pub internal_lookup-Grown :
      (size : Sizes) (l : Ledger) (sq : Squashfs) (name : Bytes) (s : State)
      → CountsSmall sq
      → ((h : Bytes) → size h < 2 ^ 32)
      → Agrees size s.db.file.tx
      → IsSound size l s
      → AreSmall s.shared.unsigned_map
      → s.shared.next_i + 2 ^ 32 < 2 ^ 64
      → Grown size l s (internal_lookup sq name s).1
  unfolding internal_lookup lookup_unsigned
  internal_lookup-Grown size l sq name s counts sizes agrees sound small room =
      elim (Option-cases (index_byte name b'.')) [
        | inl e ↦ rw (e, internal_lookup) (Grown-same size l s sound)
        | inr (_, e) ↦ elim (Option-cases (lookup_unsigned s.db.os_v s.db.arch_v name s.shared)) [
          | inr ((key, v), f) ↦
              let few =
                matching-Small name key v _
                  (unsigned_of-Small (pair s.db.os_v s.db.arch_v) s.shared.unsigned_map small) f in
              rw (e, internal_lookup)
                (rw (f, internal_lookup)
                  (found_unsigned-Grown size l sq name key v s counts sound few room))
          | inl f ↦
              let in_file = view_lookup-Grown size l s.db.file.tx name s sizes agrees sound room in
              rw (e, internal_lookup)
                (rw (f, internal_lookup)
                  (open_or_not s.db.file.dbptr (λ r. Grown size l s r.1) (err database_closed, s)
                    (view_lookup s.db.file.tx name s) (Grown-same size l s sound) in_file))
        ]
      ]
