-- ===== src/Lookup/Answered.antt =====
-- For which package `internalLookup` of apkgdb/lookup.go returns a number.
use apkg.Prelude.{
  ℕ, ◌+◌, ◌^◌, ◌≤◌, ◌<◌, ◌≡◌, refl, ap, sym, ◌∙◌, inl, inr, ◌⊎◌, none, some, [], ◌∷◌, ◌++◌, take,
  Option-cases, subst, append_assoc,
}
use apkg.Prelude.Bytes.{Bytes, index_byte, has_prefix, has_prefix→append, has_prefix-append}
use apkg.Errors.{database_closed, not_exist, err, Result-cases}
use apkg.Collate.{collated_version}
use apkg.Bolt.{Bolt}
use apkg.Llrb.{Llrb}
use apkg.Db.{Tx, create}
use apkg.Index.{entry_name, seek_version}
use apkg.Index.Newest.{Versions}
use apkg.Pin.{lookup_pin_tx}
use apkg.Packages.{Package}
use apkg.Inodes.{Item, item_value, Squashfs, State, u64}
use apkg.Inodes.Reserved.{Ledger, Sizes}
use apkg.Inodes.Grown.{Agrees, IsSound}
use apkg.Lookup.{
  unsigned_of, matching, lookup_unsigned, found_entry, exact_entry, latest, from_pin, view_lookup,
  internal_lookup,
}
use apkg.Lookup.Cached.{IsCached, Answer, Answer-error, entry-Answer}
use apkg.Lookup.Grown.{seek_version-get, open_or_not}

-- A version of a pinned version is a version of the name.
Versions-pinned : (name pin v : Bytes) → Versions (name ++ (b'.' ∷ pin)) v → Versions name v
Versions-pinned name pin v h =
    let dot = b'.' ∷ [] in
    let (r, e) = has_prefix→append (entry_name v) ((name ++ (b'.' ∷ pin)) ++ dot) h in
    let split : ((name ++ (b'.' ∷ pin)) ++ dot) ++ r ≡ (name ++ dot) ++ ((pin ++ dot) ++ r) =
      append_assoc (name ++ (b'.' ∷ pin)) dot r
      ∙ append_assoc name (b'.' ∷ pin) (dot ++ r)
      ∙ ap (λ t. name ++ (b'.' ∷ t)) (sym (append_assoc pin dot r))
      ∙ sym (append_assoc name dot ((pin ++ dot) ++ r)) in
    ap (λ m. has_prefix m (name ++ dot)) (e ∙ split)
    ∙ has_prefix-append (name ++ dot) ((pin ++ dot) ++ r)

module _ ⦃bolt : Bolt⦄ ⦃llrb : Llrb Item item_value⦄ where
  open bolt use {Bucket, get}

  -- The package is that of an entry of the index: of the exact name, and the number is that of its
  -- directory; or of a version of the name, and the number is that of its symlink.
  abbrev pub Names : Tx → Bytes → Package → ℕ → Type 0
  Names tx name p n =
      (k v : Bytes) × (get (create tx.p2p) k ≡ some v)
      × (p.hash ≡ take 32 v)
      × (((k ≡ collated_version name) × (n ≡ u64 (p.start_ino + 1)))
          ⊎ (Versions name v × (n ≡ p.start_ino)))

  module _ (size : Sizes) (l : Ledger) (tx : Tx) (b : Bucket) (name : Bytes) (s : State)
      (sizes : (h : Bytes) → (1 ≤ size h) × (size h < 2 ^ 32)) (agrees : Agrees size tx)
      (index : tx.p2p ≡ some b) (sound : IsSound size l s) (cached : IsCached s)
      (room : s.shared.next_i + 2 ^ 32 < 2 ^ 64) where
    indexed : (k v : Bytes) → get b k ≡ some v → get (create tx.p2p) k ≡ some v
    indexed k v e = ap (λ o. get (create o) k) index ∙ e

    found-Answer :
        (k v : Bytes)
        → get b k ≡ some v
        → Versions name v
        → Answer (Names tx name) (found_entry tx v s)
    unfolding found_entry
    found-Answer k v e named =
        let at = indexed k v e in
        entry-Answer size tx (λ n. n) (Names tx name) v agrees (λ h. (sizes h).0)
          (λ p h. (k, v, at, h, inr (named, refl))) l s sound cached (agrees.entry k v at)
          ((sizes (take 32 v)).1) room

    exact-Answer :
        (v : Bytes)
        → get b (collated_version name) ≡ some v
        → Answer (Names tx name) (exact_entry tx v s)
    unfolding exact_entry
    exact-Answer v e =
        let k = collated_version name in
        let at = indexed k v e in
        entry-Answer size tx (λ n. u64 (n + 1)) (Names tx name) v agrees (λ h. (sizes h).0)
          (λ p h. (k, v, at, h, inl (refl, refl))) l s sound cached (agrees.entry k v at)
          ((sizes (take 32 v)).1) room

    latest-Answer : Answer (Names tx name) (latest tx b name s)
    unfolding latest
    latest-Answer = elim (Result-cases (seek_version b name)) [
      | inr (x, e) ↦ rw (e, latest) (Answer-error (Names tx name) s x cached)
      | inl (none, e) ↦ rw (e, latest) (Answer-error (Names tx name) s not_exist cached)
      | inl (some v, e) ↦
          let (k, f, named) = seek_version-get b name v e in
          rw (e, latest) (found-Answer k v f named)
    ]

    from_pin-Answer : (pin : Bytes) → Answer (Names tx name) (from_pin tx b name pin s)
    unfolding from_pin
    from_pin-Answer [] = latest-Answer
    from_pin-Answer (c ∷ pin) = elim (Result-cases (seek_version b (name ++ (b'.' ∷ c ∷ pin)))) [
      | inr (x, e) ↦ rw (e, from_pin) (Answer-error (Names tx name) s x cached)
      | inl (none, e) ↦ rw (e, from_pin) latest-Answer
      | inl (some v, e) ↦
          let (k, f, named) = seek_version-get b _ v e in
          rw (e, from_pin) (found-Answer k v f (Versions-pinned name (c ∷ pin) v named))
    ]

  view_lookup-Answer :
      (size : Sizes) (l : Ledger) (tx : Tx) (name : Bytes) (s : State)
      → ((h : Bytes) → (1 ≤ size h) × (size h < 2 ^ 32))
      → Agrees size tx
      → IsSound size l s
      → IsCached s
      → s.shared.next_i + 2 ^ 32 < 2 ^ 64
      → Answer (Names tx name) (view_lookup tx name s)
  unfolding view_lookup
  view_lookup-Answer size l tx name s sizes agrees sound cached room = elim (Option-cases tx.p2p) [
    | inl e ↦
        let q : view_lookup tx name s ≡ (err not_exist, s) = rw (e, view_lookup) refl in
        subst (Answer (Names tx name)) (sym q) (Answer-error (Names tx name) s not_exist cached)
    | inr (b, e) ↦
        let q : view_lookup tx name s ≡ (elim (get b (collated_version name)) [
          | some v ↦ exact_entry tx v s
          | none ↦ from_pin tx b name (lookup_pin_tx s.db.channel tx name) s
        ]) =
          rw (e, view_lookup) refl in
        subst (Answer (Names tx name)) (sym q)
          (elim (Option-cases (get b (collated_version name))) [
            | inr (v, f) ↦
                rw f (exact-Answer size l tx b name s sizes agrees e sound cached room v f)
            | inl f ↦ rw f (
                from_pin-Answer size l tx b name s sizes agrees e sound cached room
                  (lookup_pin_tx s.db.channel tx name))
          ])
  ]

  -- Where no package is unsigned.
  no_unsigned :
      (name : Bytes) (s : State)
      → s.shared.unsigned_map ≡ []
      → lookup_unsigned s.db.os_v s.db.arch_v name s.shared ≡ none
  unfolding lookup_unsigned unsigned_of matching
  no_unsigned name s e = rw e refl

  pub internal_lookup-Answer :
      (size : Sizes) (l : Ledger) (sq : Squashfs) (name : Bytes) (s : State)
      → ((h : Bytes) → (1 ≤ size h) × (size h < 2 ^ 32))
      → Agrees size s.db.file.tx
      → IsSound size l s
      → IsCached s
      → s.shared.next_i + 2 ^ 32 < 2 ^ 64
      → Answer (Names s.db.file.tx name) (internal_lookup sq name s)
  unfolding internal_lookup
  internal_lookup-Answer size l sq name s sizes agrees sound cached room =
      let good = Names s.db.file.tx name in
      elim (Option-cases (index_byte name b'.')) [
        | inl e ↦ rw (e, internal_lookup) (Answer-error good s not_exist cached)
        | inr (_, e) ↦
            rw (e, internal_lookup)
              (rw (no_unsigned name s cached.signed_only, internal_lookup)
                (open_or_not s.db.file.dbptr (Answer good) (err database_closed, s)
                  (view_lookup s.db.file.tx name s) (Answer-error good s database_closed cached)
                  (view_lookup-Answer size l s.db.file.tx name s sizes agrees sound cached room)))
      ]
