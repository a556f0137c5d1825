-- ===== src/Lookup/Cached.antt =====
-- That the numbers which `internalLookup` of apkgdb/lookup.go returns are numbers of loaded packages.
use apkg.Prelude.{
  ℕ, ◌+◌, ◌^◌, ◌≤◌, ◌<◌, ◌≡◌, refl, ap, sym, ◌∙◌, inl, inr, false, none, some, [], arith, ◌==◌,
  take, drop, Bool-cases, Option-cases, subst,
}
use apkg.Prelude.Bytes.{Bytes, bytes_eq, bytes_eq→eq, bytes_eq_refl}
use apkg.Prelude.Map.{lookup, insert, lookup-insert, be_uint}
use apkg.Errors.{Error, Result, ok, err, panics, Result-cases}
use apkg.Bolt.{Bolt}
use apkg.Llrb.{Llrb}
use apkg.Db.{Tx}
use apkg.Packages.{Package, load_package}
use apkg.Inodes.{Item, signed, item_value, State, ◌>>=◌, pure, pkg_ino, get_pkg_tx, keep_package}
use apkg.Inodes.Ranges.{numbered}
use apkg.Inodes.Reserved.{Ledger, Sizes}
use apkg.Packages.Loaded.{load_package-start, load_package-hash}
use apkg.Inodes.Grown.{Agrees, IsSound, pkg_ino-cases, load_package-inodes}

module _ ⦃bolt : Bolt⦄ ⦃llrb : Llrb Item item_value⦄ where
  open bolt use {Bucket, get}
  open llrb use {replace_or_insert, find, find-insert}

  -- A package of the cache stands in the tree, at the number that its hash has; no two hashes have one
  -- number; there are no unsigned packages.
  pub record IsCached (s : State) : Type 0 where
    pub number :
        (h : Bytes) (p : Package)
        → lookup h s.shared.pkg_cache ≡ some p
        → lookup h s.db.pkg_i ≡ some p.start_ino
    pub placed :
        (h : Bytes) (p : Package)
        → lookup h s.shared.pkg_cache ≡ some p
        → find s.shared.ino p.start_ino ≡ some (signed p)
    pub sized : (h : Bytes) (p : Package) → lookup h s.shared.pkg_cache ≡ some p → 1 ≤ p.inodes
    pub hash : (h : Bytes) (p : Package) → lookup h s.shared.pkg_cache ≡ some p → p.hash ≡ h
    pub one :
        (h j : Bytes) (n : ℕ) → lookup h s.db.pkg_i ≡ some n → lookup j s.db.pkg_i ≡ some n → h ≡ j
    pub signed_only : s.shared.unsigned_map ≡ []

  -- The state behind a lookup, and the package for which a number was returned.
  pub record Answer (good : Package → ℕ → Type 0) (r : Result ℕ × State) : Type 0 where
    pub cached : IsCached r.1
    pub found :
        (n : ℕ)
        → r.0 ≡ ok n
        → (p : Package) × (find r.1.shared.ino p.start_ino ≡ some (signed p))
          × (1 ≤ p.inodes)
          × good p n

  pub Answer-error :
      (good : Package → ℕ → Type 0) (s : State) (e : Error) → IsCached s → Answer good (err e, s)
  Answer-error good s e c = record { cached = c; found = λ n f. absurd (ground (arith, f)) }

  known_below :
      (size : Sizes) (l : Ledger) (s : State) (h : Bytes) (n : ℕ)
      → IsSound size l s
      → lookup h s.db.pkg_i ≡ some n
      → n < s.shared.next_i
  known_below size l s h n sound e =
      omega (arith, sound.reserved.below n (size h) (sound.knows.known h n e))

  numbered-IsCached :
      (size : Sizes) (l : Ledger) (v : Bytes) (inodes : ℕ) (s : State)
      → IsSound size l s
      → lookup (take 32 v) s.db.pkg_i ≡ none
      → IsCached s
      → IsCached (numbered v inodes s)
  numbered-IsCached size l v inodes s sound new c =
      let h = take 32 v in
      let next = s.shared.next_i in
      record {
        number = λ j p e.
            ground
              (arith, e, new, c.number j p, lookup-insert h j next s.db.pkg_i, bytes_eq→eq h j);
        placed = c.placed;
        sized = c.sized;
        hash = c.hash;
        signed_only = c.signed_only;
        one = λ j k n e f. ground (
          arith,
          e,
          f,
          lookup-insert h j next s.db.pkg_i,
          lookup-insert h k next s.db.pkg_i,
          bytes_eq→eq h j,
          bytes_eq→eq h k,
          c.one j k n,
          known_below size l s j n sound,
          known_below size l s k n sound,
        );
      }

  -- A package at its number hides no other of the cache.
  kept_placed :
      (h j : Bytes) (p q : Package) (s : State)
      → lookup h s.db.pkg_i ≡ some p.start_ino
      → lookup j (insert h p s.shared.pkg_cache) ≡ some q
      → IsCached s
      → find (replace_or_insert s.shared.ino (signed p)) q.start_ino ≡ some (signed q)
  kept_placed h j p q s at e c = elim (Bool-cases (bytes_eq h j)) [
    | inl t ↦
        let same : p ≡ q = ground (arith, e, t, lookup-insert h j p s.shared.pkg_cache) in
        subst (λ x. find (replace_or_insert s.shared.ino (signed p)) x.start_ino ≡ some (signed x))
          same (find-insert s.shared.ino (signed p) p.start_ino ∙ ground arith)
    | inr t ↦
        let old : lookup j s.shared.pkg_cache ≡ some q =
          ground (arith, e, t, lookup-insert h j p s.shared.pkg_cache) in
        let other : (p.start_ino == q.start_ino) ≡ false =
          ground (arith, c.one h j q.start_ino, at, c.number j q old, t, bytes_eq_refl h) in
        find-insert s.shared.ino (signed p) q.start_ino ∙ rw other (c.placed j q old)
  ]

  keep_package-IsCached :
      (h : Bytes) (p : Package) (s : State)
      → lookup h s.shared.pkg_cache ≡ none
      → lookup h s.db.pkg_i ≡ some p.start_ino
      → 1 ≤ p.inodes
      → p.hash ≡ h
      → IsCached s
      → IsCached (keep_package h p s).1
  unfolding keep_package
  keep_package-IsCached h p s new at sized mine c = record {
    number = λ j q e.
        ground
          (arith, e, at, lookup-insert h j p s.shared.pkg_cache, bytes_eq→eq h j, c.number j q);
    placed = λ j q e. kept_placed h j p q s at e c;
    sized = λ j q e. ground (arith, e, sized, lookup-insert h j p s.shared.pkg_cache, c.sized j q);
    signed_only = c.signed_only;
    hash = λ j q e.
        ground
          (arith, e, mine, lookup-insert h j p s.shared.pkg_cache, bytes_eq→eq h j, c.hash j q);
    one = c.one;
  }

  answer_ok : (P : ℕ → Type 0) (a b : ℕ) → ok a ≡ ok b → P a → P b
  answer_ok P a b e p = subst P (ap (λ r. elim r [ ok x ↦ x | err x ↦ a ]) e) p

  Answer-ok :
      (good : Package → ℕ → Type 0) (n : ℕ) (p : Package) (s : State)
      → IsCached s
      → find s.shared.ino p.start_ino ≡ some (signed p)
      → 1 ≤ p.inodes
      → good p n
      → Answer good (ok n, s)
  Answer-ok good n p s c placed sized is_good = record {
    cached = c;
    found = λ m e. (p, placed, sized, answer_ok (good p) n m e is_good);
  }

  -- A package at a number that its hash has.
  module _ (size : Sizes) (tx : Tx) (g : ℕ → ℕ) (good : Package → ℕ → Type 0) (v : Bytes)
      (agrees : Agrees size tx) (full : (j : Bytes) → 1 ≤ size j)
      (is_good : (p : Package) → p.hash ≡ take 32 v → good p (g p.start_ino)) where
    abbrev last_step : ℕ → Result Package × State → Result ℕ × State
    last_step n r = ((λ (s : State). r) >>= (λ p. pure (g n))) r.1

    loaded-Answer :
        (n : ℕ) (s : State)
        → IsCached s
        → lookup (take 32 v) s.db.pkg_i ≡ some n
        → Answer good (last_step n (get_pkg_tx tx n (take 32 v) s))
    unfolding get_pkg_tx keep_package
    loaded-Answer n s c at =
        let h = take 32 v in
        elim (Option-cases (lookup h s.shared.pkg_cache)) [
          | inr (p, e) ↦
              let q : get_pkg_tx tx n h s ≡ (ok p, s) = rw (e, get_pkg_tx) refl in
              let same : n ≡ p.start_ino = ground (arith, at, c.number h p e) in
              subst (λ r. Answer good (last_step n r)) (sym q)
                (Answer-ok good (g n) p s c (c.placed h p e) (c.sized h p e)
                  (subst (λ m. good p (g m)) (sym same) (is_good p (c.hash h p e))))
          | inl e ↦ elim (Result-cases (load_package tx n h)) [
            | inr (x, f) ↦
                let q : get_pkg_tx tx n h s ≡ (err x, s) =
                  rw (e, get_pkg_tx) (rw (f, get_pkg_tx) refl) in
                subst (λ r. Answer good (last_step n r)) (sym q) (Answer-error good s x c)
            | inl (p, f) ↦
                let q : get_pkg_tx tx n h s ≡ keep_package h p s =
                  rw (e, get_pkg_tx) (rw (f, get_pkg_tx) refl) in
                let start = load_package-start tx n h p f in
                let own = load_package-hash tx n h p f in
                let sized : 1 ≤ p.inodes =
                  omega (arith, load_package-inodes size tx n h p agrees f, full h) in
                let mine : lookup h s.db.pkg_i ≡ some p.start_ino = at ∙ ap some (sym start) in
                subst (λ r. Answer good (last_step n r)) (sym q)
                  (Answer-ok good (g n) p (keep_package h p s).1
                    (keep_package-IsCached h p s e mine sized own c)
                    (find-insert s.shared.ino (signed p) p.start_ino ∙ ground arith) sized
                    (subst (λ m. good p (g m)) start (is_good p own)))
          ]
        ]

    pub entry-Answer :
        (l : Ledger) (s : State)
        → IsSound size l s
        → IsCached s
        → be_uint (take 8 (drop 32 v)) ≡ size (take 32 v)
        → size (take 32 v) < 2 ^ 32
        → s.shared.next_i + 2 ^ 32 < 2 ^ 64
        → Answer good ((pkg_ino v >>= (λ n. get_pkg_tx tx n (take 32 v) >>= (λ p. pure (g n)))) s)
    entry-Answer l s sound c count small room =
        let h = take 32 v in
        let step = λ (r : Result ℕ × State).
          ((λ (s : State). r) >>= (λ n. get_pkg_tx tx n h >>= (λ p. pure (g n)))) r.1 in
        elim (pkg_ino-cases v (size h) s count (omega (arith, small))) [
          | inl e ↦ subst (λ r. Answer good (step r)) (sym e) (Answer-error good s panics c)
          | inr (inl (n, k, e)) ↦ subst (λ r. Answer good (step r)) (sym e) (loaded-Answer n s c k)
          | inr (inr (new, e)) ↦
              subst (λ r. Answer good (step r)) (sym e)
                (loaded-Answer s.shared.next_i (numbered v (size h) s)
                  (numbered-IsCached size l v (size h) s sound new c)
                  (lookup-insert h h s.shared.next_i s.db.pkg_i ∙ rw (bytes_eq_refl h) refl))
        ]
