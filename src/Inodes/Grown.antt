-- ===== src/Inodes/Grown.antt =====
-- What the instantiation of an indexed package does to the ranges: `pkgIno` and `getPkgTx` of apkgdb,
-- as `internalLookup` calls them.
use apkg.Prelude.{
  ℕ, ◌+◌, ◌^◌, ◌≤◌, ◌<◌, ◌≡◌, refl, ap, sym, ◌∙◌, inl, inr, ◌⊎◌, none, some, List, arith, ltb,
  length, take, drop, Bool-cases, Option-cases, All, subst,
}
use apkg.Prelude.Bytes.{Bytes}
use apkg.Prelude.Map.{lookup, be_uint}
use apkg.Errors.{Result, ok, err, panics, Result-cases}
use apkg.OsArch.{ArchOs}
use apkg.Bolt.{Bolt}
use apkg.Llrb.{Llrb}
use apkg.Db.{Tx, create}
use apkg.Packages.{Package, load_package}
use apkg.Packages.Loaded.{load_package-start, load_package-value}
use apkg.Inodes.{Item, signed, UnsignedPkg, item_value, State, pkg_ino, get_pkg_tx, keep_package}
use apkg.Inodes.Ranges.{numbered, pkg_ino_new}
use apkg.Inodes.Reserved.{
  Ledger, given, Extends, Sizes, Knows, Knows-Extends, Knows-insert, IsReserved, Extends-given,
  given-IsReserved, insert-IsReserved,
}

-- squashfs counts inodes by 32 bits.
abbrev pub AreSmall : List (ArchOs × List (Bytes × UnsignedPkg)) → Type 0
AreSmall m = All (λ e. All (λ p. p.1.inodes < 2 ^ 32) e.1) m

module _ ⦃bolt : Bolt⦄ ⦃llrb : Llrb Item item_value⦄ where
  open bolt use {Bucket, get}

  -- The entries of the names and the values of the packages agree on the number of inodes of a hash.
  pub record Agrees (size : Sizes) (tx : Tx) : Type 0 where
    pub entry :
        (k v : Bytes)
        → get (create tx.p2p) k ≡ some v
        → be_uint (take 8 (drop 32 v)) ≡ size (take 32 v)
    pub value :
        (h v : Bytes) → get (create tx.pkg) h ≡ some v → be_uint (take 8 (drop 17 v)) ≡ size h

  pub record IsSound (size : Sizes) (l : Ledger) (s : State) : Type 0 where
    pub reserved : IsReserved l s.shared.next_i s.shared.ino
    pub knows : Knows size l s.db.pkg_i

  -- What an operation leaves that gives out at most one range.
  pub record Grown (size : Sizes) (l : Ledger) (s t : State) : Type 0 where
    pub ledger : Ledger
    pub extends : Extends l ledger
    pub sound : IsSound size ledger t
    pub within : t.shared.next_i ≤ s.shared.next_i + 2 ^ 32
    pub file : t.db.file ≡ s.db.file
    pub small : AreSmall s.shared.unsigned_map → AreSmall t.shared.unsigned_map

  pub Grown-same : (size : Sizes) (l : Ledger) (s : State) → IsSound size l s → Grown size l s s
  Grown-same size l s ok_s = record {
    ledger = l;
    extends = λ n c e. e;
    sound = ok_s;
    within = omega arith;
    file = refl;
    small = λ h. h;
  }

  pub load_package-inodes :
      (size : Sizes) (tx : Tx) (n : ℕ) (h : Bytes) (p : Package)
      → Agrees size tx
      → load_package tx n h ≡ ok p
      → p.inodes ≡ size h
  load_package-inodes size tx n h p agrees e =
      let (v, at, same) = load_package-value tx n h p e in same ∙ agrees.value h v at

  -- The state that `getPkgTx` leaves: as it was, or with a package on the number asked for.
  get_pkg_tx-cases :
      (tx : Tx) (n : ℕ) (h : Bytes) (s : State)
      → ((get_pkg_tx tx n h s).1 ≡ s)
        ⊎ ((p : Package) × (load_package tx n h ≡ ok p)
            × ((get_pkg_tx tx n h s).1 ≡ (keep_package h p s).1))
  unfolding get_pkg_tx
  get_pkg_tx-cases tx n h s = elim (Option-cases (lookup h s.shared.pkg_cache)) [
    | inr (p, e) ↦ inl (rw (e, get_pkg_tx) refl)
    | inl e ↦ elim (Result-cases (load_package tx n h)) [
      | inl (p, f) ↦ inr (p, f, rw (e, get_pkg_tx) (rw (f, get_pkg_tx) refl))
      | inr (x, f) ↦ inl (rw (e, get_pkg_tx) (rw (f, get_pkg_tx) refl))
    ]
  ]

  get_pkg_tx-Grown :
      (size : Sizes) (l : Ledger) (tx : Tx) (n : ℕ) (h : Bytes) (s : State)
      → Agrees size tx
      → IsSound size l s
      → l n ≡ some (size h)
      → Grown size l s (get_pkg_tx tx n h s).1
  unfolding keep_package
  get_pkg_tx-Grown size l tx n h s agrees sound at = elim (get_pkg_tx-cases tx n h s) [
    | inl e ↦ rw e (Grown-same size l s sound)
    | inr (p, e, f) ↦
        let here : l p.start_ino ≡ some p.inodes =
          ap l (load_package-start tx n h p e)
          ∙ at
          ∙ ap some (sym (load_package-inodes size tx n h p agrees e)) in
        rw f (record {
          ledger = l;
          extends = λ m c g. g;
          sound = record {
            reserved =
                insert-IsReserved l s.shared.next_i s.shared.ino (signed p) sound.reserved here;
            knows = sound.knows;
          };
          within = omega arith;
          file = refl;
          small = λ g. g;
        })
  ]

  -- A panic, a number that is known, or the next one.
  pub pkg_ino-cases :
      (v : Bytes) (inodes : ℕ) (s : State)
      → be_uint (take 8 (drop 32 v)) ≡ inodes
      → s.shared.next_i + inodes + 1 < 2 ^ 64
      → (pkg_ino v s ≡ (err panics, s))
        ⊎ ((n : ℕ) × (lookup (take 32 v) s.db.pkg_i ≡ some n) × (pkg_ino v s ≡ (ok n, s)))
        ⊎ ((lookup (take 32 v) s.db.pkg_i ≡ none)
            × (pkg_ino v s ≡ (ok s.shared.next_i, numbered v inodes s)))
  unfolding pkg_ino
  pkg_ino-cases v inodes s count room = elim (Bool-cases (ltb (length v) 32)) [
    | inl short ↦ inl (rw (short, pkg_ino) refl)
    | inr long ↦ elim (Option-cases (lookup (take 32 v) s.db.pkg_i)) [
      | inr (n, e) ↦ inr (inl (n, e, rw (long, pkg_ino) (rw (e, pkg_ino) refl)))
      | inl e ↦ elim (Bool-cases (ltb (length v) 40)) [
        | inl short ↦ inl (rw (long, pkg_ino) (rw (e, pkg_ino) (rw (short, pkg_ino) refl)))
        | inr longer ↦ inr (inr (e, pkg_ino_new v inodes s (ground arith) e (sym count) room))
      ]
    ]
  ]

  -- A number that `pkgIno` returns begins a range of the package's size.
  abbrev Numbered : Sizes → Ledger → Bytes → State → Result ℕ × State → Type 0
  Numbered size l h s r =
      (g : Grown size l s r.1) × ((n : ℕ) → r.0 ≡ ok n → g.ledger n ≡ some (size h))

  number : (a b : ℕ) → ok a ≡ ok b → a ≡ b
  number a b e = ground (arith, e)

  pkg_ino-Grown :
      (size : Sizes) (l : Ledger) (v : Bytes) (s : State)
      → IsSound size l s
      → be_uint (take 8 (drop 32 v)) ≡ size (take 32 v)
      → size (take 32 v) < 2 ^ 32
      → s.shared.next_i + 2 ^ 32 < 2 ^ 64
      → Numbered size l (take 32 v) s (pkg_ino v s)
  unfolding Grown-same
  pkg_ino-Grown size l v s sound count small room =
      let h = take 32 v in
      let next = s.shared.next_i in
      elim (pkg_ino-cases v (size h) s count (omega arith)) [
        | inl e ↦
            subst (Numbered size l h s) (sym e)
              (Grown-same size l s sound, λ n f. absurd (ground (arith, f)))
        | inr (inl (n, k, e)) ↦
            subst (Numbered size l h s) (sym e) (
              Grown-same size l s sound,
              λ m f. ap l (sym (number n m f)) ∙ sound.knows.known h n k,
            )
        | inr (inr (_, e)) ↦
            let grown = Extends-given l next (size h) s.shared.ino sound.reserved in
            let mine : given next (size h) l next ≡ some (size h) = ground arith in
            let kept = Knows-Extends size l (given next (size h) l) s.db.pkg_i grown sound.knows in
            let g : Grown size l s (numbered v (size h) s) = record {
              ledger = given next (size h) l;
              extends = grown;
              sound = record {
                reserved = given-IsReserved l next (size h) s.shared.ino sound.reserved;
                knows = Knows-insert size (given next (size h) l) s.db.pkg_i h next kept mine;
              };
              within = omega (arith, small);
              file = refl;
              small = λ f. f;
            } in
            subst (Numbered size l h s) (sym e)
              (g, λ m f. ap (given next (size h) l) (sym (number next m f)) ∙ mine)
      ]

  -- Two operations, of which the second gives out no range.
  Grown-then :
      (size : Sizes) (l : Ledger) (s t u : State) (g : Grown size l s t)
      → (h : Grown size g.ledger t u) → u.shared.next_i ≤ t.shared.next_i
      → Grown size l s u
  Grown-then size l s t u g h none_new = record {
    ledger = h.ledger;
    extends = λ n c e. h.extends n c (g.extends n c e);
    sound = h.sound;
    within = omega (arith, none_new, g.within);
    file = h.file ∙ g.file;
    small = λ f. h.small (g.small f);
  }

  get_pkg_tx-next :
      (tx : Tx) (n : ℕ) (h : Bytes) (s : State)
      → (get_pkg_tx tx n h s).1.shared.next_i ≡ s.shared.next_i
  unfolding keep_package
  get_pkg_tx-next tx n h s = elim (get_pkg_tx-cases tx n h s) [
    | inl e ↦ ap (λ t. t.shared.next_i) e
    | inr (p, _, e) ↦ ap (λ t. t.shared.next_i) e
  ]

  -- What `pkgIno` and then `getPkgTx` leave.
  abbrev pub instantiated : Tx → Bytes → Result ℕ × State → State
  instantiated tx v (err e, t) = t
  instantiated tx v (ok n, t) = (get_pkg_tx tx n (take 32 v) t).1

  pub instantiated-Grown :
      (size : Sizes) (l : Ledger) (tx : Tx) (v : Bytes) (s : State)
      → Agrees size tx
      → IsSound size l s
      → be_uint (take 8 (drop 32 v)) ≡ size (take 32 v)
      → size (take 32 v) < 2 ^ 32
      → s.shared.next_i + 2 ^ 32 < 2 ^ 64
      → Grown size l s (instantiated tx v (pkg_ino v s))
  instantiated-Grown size l tx v s agrees sound count small room =
      let (g, at) = pkg_ino-Grown size l v s sound count small room in go (pkg_ino v s) g at
    where
      go :
          (r : Result ℕ × State) (g : Grown size l s r.1)
          → ((n : ℕ) → r.0 ≡ ok n → g.ledger n ≡ some (size (take 32 v)))
          → Grown size l s (instantiated tx v r)
      go (err e, t) g at = g
      go (ok n, t) g at =
          Grown-then size l s t (get_pkg_tx tx n (take 32 v) t).1 g
            (get_pkg_tx-Grown size g.ledger tx n (take 32 v) t agrees g.sound (at n refl))
            (omega (arith, get_pkg_tx-next tx n (take 32 v) t))
