-- ===== src/Resolve/Sound.antt =====
-- The ranges of inode numbers over the main database and its sub-databases: `Lookup` of apkgdb/lookup.go
-- and `SubGet` of apkgdb/sub.go.
use apkg.Prelude.{
  ◌+◌, ◌^◌, ◌≤◌, ◌<◌, ◌≡◌, ◌∙◌, inl, inr, some, List, [], ◌∷◌, arith, Bool-cases, All, subst,
}
use apkg.Prelude.Bytes.{Bytes}
use apkg.Errors.{is_not_exist, Result-cases}
use apkg.OsArch.{ArchOs}
use apkg.Bolt.{Bolt}
use apkg.Llrb.{Llrb}
use apkg.Inodes.{Item, item_value, Squashfs, State, Db}
use apkg.Inodes.Reserved.{Ledger, Extends, Sizes, Knows, Knows-Extends, IsReserved}
use apkg.Inodes.Grown.{AreSmall, Agrees, IsSound, Grown}
use apkg.Lookup.{archos_eq, internal_lookup}
use apkg.Lookup.Counts.{CountsSmall}
use apkg.Lookup.Grown.{internal_lookup-Grown}
use apkg.Resolve.{World, sub_of, put_sub, either_name}

module _ ⦃bolt : Bolt⦄ ⦃llrb : Llrb Item item_value⦄ where
  -- A database that knows only its own ranges, and whose buckets agree on the sizes.
  pub record IsKnown (size : Sizes) (l : Ledger) (d : Db) : Type 0 where
    pub knows : Knows size l d.pkg_i
    pub agrees : Agrees size d.file.tx

  pub record IsSoundWorld (size : Sizes) (l : Ledger) (w : World) : Type 0 where
    pub reserved : IsReserved l w.shared.next_i w.shared.ino
    pub small : AreSmall w.shared.unsigned_map
    pub main : IsKnown size l w.main
    pub subs : All (λ e. IsKnown size l e.1) w.subs

  pub IsKnown-Extends :
      (size : Sizes) (l k : Ledger) (d : Db) → Extends l k → IsKnown size l d → IsKnown size k d
  IsKnown-Extends size l k d x kn = record {
    knows = Knows-Extends size l k d.pkg_i x kn.knows;
    agrees = kn.agrees;
  }

  pub subs-Extends :
      (size : Sizes) (l k : Ledger) (m : List (ArchOs × Db))
      → Extends l k
      → All (λ e. IsKnown size l e.1) m
      → All (λ e. IsKnown size k e.1) m
  subs-Extends size l k [] x h = tt
  subs-Extends size l k ((a, d) ∷ m) x h =
      (IsKnown-Extends size l k d x h.0, subs-Extends size l k m x h.1)

  pub All-sub_of :
      (P : Db → Type 0) (a : ArchOs) (d : Db) (m : List (ArchOs × Db))
      → All (λ e. P e.1) m
      → sub_of a m ≡ some d
      → P d
  unfolding sub_of
  All-sub_of P a d [] h e = absurd (ground (arith, e))
  All-sub_of P a d ((b, f) ∷ m) h e = elim (Bool-cases (archos_eq a b)) [
    | inl t ↦ let same : f ≡ d = ground (arith, e, t) in subst P same h.0
    | inr t ↦ All-sub_of P a d m h.1 (ground (arith, e, t))
  ]

  pub All-put_sub :
      (P : Db → Type 0) (a : ArchOs) (d : Db) (m : List (ArchOs × Db))
      → P d
      → All (λ e. P e.1) m
      → All (λ e. P e.1) (put_sub a d m)
  unfolding put_sub
  All-put_sub P a d [] p h = (p, tt)
  All-put_sub P a d ((b, e) ∷ m) p h = elim (Bool-cases (archos_eq a b)) [
    | inl t ↦ rw t (p, h.1)
    | inr t ↦ rw t (h.0, All-put_sub P a d m p h.1)
  ]

  -- What up to two lookups in one database leave.
  pub record Served (size : Sizes) (l : Ledger) (s t : State) : Type 0 where
    pub ledger : Ledger
    pub extends : Extends l ledger
    pub sound : IsSound size ledger t
    pub within : t.shared.next_i ≤ s.shared.next_i + 2 ^ 33
    pub file : t.db.file ≡ s.db.file
    pub small : AreSmall t.shared.unsigned_map

  -- The facts of a lookup by a state.
  pub record IsReady (size : Sizes) (l : Ledger) (s : State) : Type 0 where
    pub agrees : Agrees size s.db.file.tx
    pub sound : IsSound size l s
    pub small : AreSmall s.shared.unsigned_map

  module _ (size : Sizes) (sq : Squashfs) (counts : CountsSmall sq)
      (sizes : (h : Bytes) → size h < 2 ^ 32) where
    pub one-Grown :
        (l : Ledger) (name : Bytes) (s : State)
        → IsReady size l s
        → s.shared.next_i + 2 ^ 32 < 2 ^ 64
        → Grown size l s (internal_lookup sq name s).1
    one-Grown l name s r room =
        internal_lookup-Grown size l sq name s counts sizes r.agrees r.sound r.small room

    Grown-IsReady :
        (l : Ledger) (s t : State)
        → IsReady size l s
        → (g : Grown size l s t) → IsReady size g.ledger t
    Grown-IsReady l s t r g = record {
      agrees = rw g.file r.agrees;
      sound = g.sound;
      small = g.small r.small;
    }

    pub one-Served :
        (l : Ledger) (s t : State) → IsReady size l s → Grown size l s t → Served size l s t
    one-Served l s t r g = record {
      ledger = g.ledger;
      extends = g.extends;
      sound = g.sound;
      within = omega (arith, g.within);
      file = g.file;
      small = g.small r.small;
    }

    two-Served :
        (l : Ledger) (s t u : State)
        → IsReady size l s
        → (g : Grown size l s t) → Grown size g.ledger t u
        → Served size l s u
    two-Served l s t u r g h = record {
      ledger = h.ledger;
      extends = λ n c e. h.extends n c (g.extends n c e);
      sound = h.sound;
      within = omega (arith, g.within, h.within);
      file = h.file ∙ g.file;
      small = h.small (g.small r.small);
    }

    pub either_name-Served :
        (l : Ledger) (name sname : Bytes) (s : State)
        → IsReady size l s
        → s.shared.next_i + 2 ^ 33 < 2 ^ 64
        → Served size l s (either_name sq name sname s).1
    unfolding either_name
    either_name-Served l name sname s r room =
        let t = (internal_lookup sq name s).1 in
        let g = one-Grown l name s r (omega arith) in
        let once = one-Served l s t r g in
        elim (Result-cases (internal_lookup sq name s).0) [
          | inl (n, e) ↦ rw (e, either_name) once
          | inr (x, e) ↦ elim (Bool-cases (is_not_exist x)) [
            | inr f ↦ rw (e, either_name) (rw f once)
            | inl f ↦
                let h =
                  one-Grown g.ledger sname t (Grown-IsReady l s t r g) (omega (arith, g.within)) in
                rw (e, either_name) (rw f (two-Served l s t (internal_lookup sq sname t).1 r g h))
          ]
        ]
