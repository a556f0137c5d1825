-- ===== src/Resolve/Served.antt =====
-- What `Lookup` of apkgdb/lookup.go leaves of the databases.
use apkg.Prelude.{
  ℕ, ◌+◌, ◌^◌, ◌≤◌, ◌<◌, ◌≡◌, refl, ap, sym, inl, inr, arith, Bool-cases, Option-cases, subst,
}
use apkg.Prelude.Bytes.{Bytes, codes, bytes_eq, last_index_byte}
use apkg.Errors.{Result, ok, err, Result-cases}
use apkg.OsArch.{ArchOs, pair}
use apkg.Suffix.{split_suffix}
use apkg.Bolt.{Bolt}
use apkg.Llrb.{Llrb}
use apkg.Db.{File}
use apkg.Inodes.{Item, item_value, Squashfs, State, Db, Exec}
use apkg.Inodes.Reserved.{Ledger, Sizes, Knows-nil}
use apkg.Inodes.Grown.{Agrees}
use apkg.Lookup.{archos_eq, internal_lookup}
use apkg.Lookup.Counts.{CountsSmall}
use apkg.Resolve.{
  World, Site, sub_of, put_sub, new_sub, init_unsigned, sub_get, either_name, in_main, in_sub,
  resolve,
}
use apkg.Resolve.Sound.{
  IsKnown, IsSoundWorld, IsKnown-Extends, subs-Extends, All-sub_of, All-put_sub, Served, IsReady,
  one-Grown, one-Served, either_name-Served,
}

module _ ⦃bolt : Bolt⦄ ⦃llrb : Llrb Item item_value⦄ where
  -- Whatever file is opened for a pair, its buckets agree on the sizes.
  abbrev pub OpensAgree : Sizes → Site → Type 0
  OpensAgree size site = (a : ArchOs) (f : File) → site.open_db a ≡ ok f → Agrees size f.tx

  -- What a lookup leaves of all databases.
  pub record ServedWorld (size : Sizes) (w u : World) : Type 0 where
    pub ledger : Ledger
    pub sound : IsSoundWorld size ledger u
    pub within : u.shared.next_i ≤ w.shared.next_i + 2 ^ 33

  module _ (size : Sizes) (l : Ledger) where
    ServedWorld-same : (w : World) → IsSoundWorld size l w → ServedWorld size w w
    ServedWorld-same w sound = record { ledger = l; sound = sound; within = omega arith }

    main-IsReady :
        (w : World)
        → IsSoundWorld size l w
        → IsReady size l (record { shared = w.shared; db = w.main })
    main-IsReady w sound = record {
      agrees = sound.main.agrees;
      sound = record { reserved = sound.reserved; knows = sound.main.knows };
      small = sound.small;
    }

    in_main-Served :
        (m : Exec ℕ) (w : World)
        → IsSoundWorld size l w
        → Served size l
            (record { shared = w.shared; db = w.main })
            (m (record { shared = w.shared; db = w.main })).1
        → ServedWorld size w (in_main m w).1
    unfolding in_main
    in_main-Served m w sound v = record {
      ledger = v.ledger;
      sound = record {
        reserved = v.sound.reserved;
        small = v.small;
        main = record { knows = v.sound.knows; agrees = rw v.file sound.main.agrees };
        subs = subs-Extends size l v.ledger w.subs v.extends sound.subs;
      };
      within = v.within;
    }

    -- The sub-database that `SubGet` gives is sound, and so is what it leaves.
    abbrev GoodSub : World → Result Db × World → Type 0
    GoodSub w r =
        IsSoundWorld size l r.1
        × (r.1.shared.next_i ≡ w.shared.next_i)
        × ((d : Db) → r.0 ≡ ok d → IsKnown size l d)

    init_unsigned-IsSoundWorld :
        (site : Site) (w : World)
        → IsSoundWorld size l w
        → IsSoundWorld size l (record w { shared = init_unsigned site w.shared })
          × ((init_unsigned site w.shared).next_i ≡ w.shared.next_i)
    init_unsigned-IsSoundWorld site w sound = elim (Bool-cases site.load_unsigned) [
      | inl e ↦ rw e (
        record { reserved = sound.reserved; small = tt; main = sound.main; subs = sound.subs },
        refl,
      )
      | inr e ↦ rw e (sound, refl)
    ]

    same_db : (P : Db → Type 0) (a : Db) → P a → (b : Db) → ok a ≡ ok b → P b
    same_db P a p b e = subst P (ap (λ r. elim r [ ok x ↦ x | err x ↦ a ]) e) p

    sub_get-GoodSub :
        (site : Site) (a : ArchOs) (w : World)
        → OpensAgree size site
        → IsSoundWorld size l w
        → GoodSub w (sub_get site a w)
    unfolding sub_get
    sub_get-GoodSub site a w opens sound =
        let (ready, next) = init_unsigned-IsSoundWorld site w sound in
        elim (Option-cases (sub_of a w.subs)) [
          | inr (d, e) ↦
              let q : sub_get site a w ≡ (ok d, w) = rw (e, sub_get) refl in
              subst (GoodSub w) (sym q) (
                sound,
                refl,
                same_db (IsKnown size l) d (All-sub_of (IsKnown size l) a d w.subs sound.subs e),
              )
          | inl e ↦ elim (Result-cases (site.open_db a)) [
            | inr (x, f) ↦
                let q : sub_get site a w
                    ≡ (err x, record w { shared = init_unsigned site w.shared }) =
                  rw (e, sub_get) (rw (f, sub_get) refl) in
                subst (GoodSub w) (sym q) (ready, next, λ d g. absurd (cc))
            | inl (file, f) ↦
                let d = new_sub a w.main.channel file in
                let made : IsKnown size l d = record {
                  knows = Knows-nil size l;
                  agrees = opens a file f;
                } in
                let v = record w {
                  shared = init_unsigned site w.shared;
                  subs = put_sub a d w.subs;
                } in
                let q : sub_get site a w ≡ (ok d, v) = rw (e, sub_get) (rw (f, sub_get) refl) in
                subst (GoodSub w) (sym q) (
                  record {
                    reserved = ready.reserved;
                    small = ready.small;
                    main = sound.main;
                    subs = All-put_sub (IsKnown size l) a d w.subs made sound.subs;
                  },
                  next,
                  same_db (IsKnown size l) d made,
                )
          ]
        ]

  module _ (size : Sizes) (site : Site) (sq : Squashfs) (opens : OpensAgree size site)
      (counts : CountsSmall sq) (sizes : (h : Bytes) → size h < 2 ^ 32) where
    in_sub-Served :
        (l : Ledger) (a : ArchOs) (name sname : Bytes) (w : World)
        → IsSoundWorld size l w
        → w.shared.next_i + 2 ^ 33 < 2 ^ 64
        → ServedWorld size w (in_sub site a (either_name sq name sname) w).1
    unfolding in_sub
    in_sub-Served l a name sname w sound room =
        let (ready, next, known) = sub_get-GoodSub size l site a w opens sound in
        let w' = (sub_get site a w).1 in
        elim (Result-cases (sub_get site a w).0) [
          | inr (x, e) ↦ rw (e, in_sub) (record { ledger = l; sound = ready; within = omega arith })
          | inl (d, e) ↦
              let at = known d e in
              let v =
                either_name-Served size sq counts sizes l name sname
                  (record { shared = w'.shared; db = d })
                  (record {
                    agrees = at.agrees;
                    sound = record { reserved = ready.reserved; knows = at.knows };
                    small = ready.small;
                  })
                  (omega arith) in
              rw (e, in_sub)
                (record {
                  ledger = v.ledger;
                  sound = record {
                    reserved = v.sound.reserved;
                    small = v.small;
                    main = IsKnown-Extends size l v.ledger w'.main v.extends ready.main;
                    subs =
                        All-put_sub (IsKnown size v.ledger) a
                          (either_name sq name sname (record { shared = w'.shared; db = d })).1.db
                          w'.subs (record { knows = v.sound.knows; agrees = rw v.file at.agrees })
                          (subs-Extends size l v.ledger w'.subs v.extends ready.subs);
                  };
                  within = omega (arith, v.within, next);
                })
        ]

    -- A lookup keeps all databases sound, and gives out at most two ranges.
    pub resolve-Served :
        (l : Ledger) (name : Bytes) (w : World)
        → IsSoundWorld size l w
        → w.shared.next_i + 2 ^ 33 < 2 ^ 64
        → ServedWorld size w (resolve site sq name w).1
    unfolding resolve
    resolve-Served l name w sound room =
        let s : State = record { shared = w.shared; db = w.main } in
        let ready = main-IsReady size l w sound in
        elim (Option-cases (last_index_byte name b'.')) [
          | inl e ↦ rw (e, resolve) (ServedWorld-same size l w sound)
          | inr (_, e) ↦ elim (Bool-cases (bytes_eq name (codes "ld.so.cache"))) [
            | inl f ↦ rw (e, resolve) (rw (f, resolve) (ServedWorld-same size l w sound))
            | inr f ↦ elim (Option-cases (split_suffix name)) [
              | inl g ↦
                  let once = one-Grown size sq counts sizes l name s ready (omega arith) in
                  rw (e, resolve)
                    (rw (f, resolve)
                      (rw (g, resolve)
                        (in_main-Served size l (internal_lookup sq name) w sound
                          (one-Served size sq counts sizes l s _ ready once))))
              | inr ((sname, a), g) ↦
                  rw (e, resolve)
                    (rw (f, resolve)
                      (rw (g, resolve)
                        (elim (Bool-cases (archos_eq (pair w.main.os_v w.main.arch_v) a)) [
                          | inl h ↦ rw h (
                              in_main-Served size l (either_name sq name sname) w sound
                                (either_name-Served size sq counts sizes l name sname s ready room))
                          | inr h ↦ rw h (in_sub-Served l a name sname w sound room)
                        ])))
            ]
          ]
        ]
