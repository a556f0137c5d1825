-- ===== src/Lookup/Counts.antt =====
-- What the finding of an unsigned package does to the ranges of inode numbers: the first part of
-- `internalLookup` of apkgdb/lookup.go. Its inodes are counted in 32 bits.
use apkg.Prelude.{
  ◌∙◌, ap, Option-cases, ℕ, ◌+◌, ◌^◌, ◌<◌, ◌≡◌, refl, sym, inl, inr, ◌⊎◌, some, List, [], ◌∷◌,
  arith, ◌==◌, Bool-cases, All, subst,
}
use apkg.Prelude.Bytes.{Bytes, has_prefix}
use apkg.Prelude.Map.{insert}
use apkg.Errors.{panics, err, Result, ok, Result-cases}
use apkg.OsArch.{ArchOs, pair}
use apkg.Bolt.{Bolt}
use apkg.Llrb.{Llrb}
use apkg.Inodes.{
  Item, unsigned, UnsignedPkg, item_value, Squashfs, State, Shared, u64, pkg_ino_unsigned,
  register_unsigned, load_unsigned,
}
use apkg.Inodes.Reserved.{
  Ledger, given, Sizes, Knows-Extends, Extends-given, given-IsReserved, insert-IsReserved,
}
use apkg.Inodes.Grown.{AreSmall, IsSound, Grown}
use apkg.Lookup.{archos_eq, unsigned_of, matching, put_unsigned, found_unsigned}

-- `squashfs.Open` reads a count of 32 bits.
abbrev pub CountsSmall : Squashfs → Type 0
CountsSmall sq = (f : Bytes) (n : ℕ) → sq.open_file f ≡ ok n → n < 2 ^ 32

load_unsigned_few :
    (sq : Squashfs) (p : UnsignedPkg)
    → CountsSmall sq
    → p.inodes < 2 ^ 32
    → (load_unsigned sq p).inodes < 2 ^ 32
unfolding load_unsigned
load_unsigned_few sq p counts h = elim (Result-cases (sq.open_file p.fn)) [
  | inl (n, e) ↦ ground (arith, e, counts p.fn n e)
  | inr (x, e) ↦ ground (arith, e)
]

abbrev pub Small : Bytes × UnsignedPkg → Type 0
Small p = p.1.inodes < 2 ^ 32

pub unsigned_of-Small :
    (a : ArchOs) (m : List (ArchOs × List (Bytes × UnsignedPkg)))
    → AreSmall m
    → All Small (unsigned_of a m)
unfolding unsigned_of
unsigned_of-Small a [] h = tt
unsigned_of-Small a ((b, m) ∷ rest) h = elim (Bool-cases (archos_eq a b)) [
  | inl e ↦ rw e (h.0)
  | inr e ↦ rw e (unsigned_of-Small a rest h.1)
]

pub matching-Small :
    (name key : Bytes) (v : UnsignedPkg) (m : List (Bytes × UnsignedPkg))
    → All Small m
    → matching name m ≡ some (key, v)
    → v.inodes < 2 ^ 32
unfolding matching
matching-Small name key v [] h e = absurd (ground (arith, e))
matching-Small name key v ((n, p) ∷ m) h e = elim (Bool-cases (has_prefix n name)) [
  | inl t ↦ ground (arith, e, t, h.0)
  | inr t ↦ matching-Small name key v m h.1 (ground (arith, e, t))
]

pub insert-Small :
    (n : Bytes) (p : UnsignedPkg) (m : List (Bytes × UnsignedPkg))
    → p.inodes < 2 ^ 32
    → All Small m
    → All Small (insert n p m)
unfolding insert
insert-Small n p [] h k = (h, tt)
insert-Small n p ((j, q) ∷ m) h k = ground (arith, h, k.0, k.1, insert-Small n p m h k.1)

put_unsigned-AreSmall :
    (a : ArchOs) (n : Bytes) (p : UnsignedPkg) (m : List (ArchOs × List (Bytes × UnsignedPkg)))
    → p.inodes < 2 ^ 32
    → AreSmall m
    → AreSmall (put_unsigned a n p m)
unfolding put_unsigned
put_unsigned-AreSmall a n p [] h k = tt
put_unsigned-AreSmall a n p ((b, m) ∷ rest) h k = elim (Bool-cases (archos_eq a b)) [
  | inl e ↦ rw e (insert-Small n p m h k.0, k.1)
  | inr e ↦ rw e (k.0, put_unsigned-AreSmall a n p rest h k.1)
]

module _ ⦃bolt : Bolt⦄ ⦃llrb : Llrb Item item_value⦄ where
  open bolt use {Bucket, get, seek_prev-get}
  open llrb use {replace_or_insert}

  -- An unsigned package keeps its number, or gets the next range; one that failed to open gets the
  -- range, and no place in the tree.
  pkg_ino_unsigned-cases :
      (p : UnsignedPkg) (s : Shared)
      → s.next_i + p.inodes + 1 < 2 ^ 64
      → (pkg_ino_unsigned p s ≡ (ok p.start_ino, p, s))
        ⊎ ((pkg_ino_unsigned p s ≡ (
          ok s.next_i,
          record p { start_ino = s.next_i },
          record s {
            next_i = s.next_i + (p.inodes + 1);
            ino = replace_or_insert s.ino (unsigned (record p { start_ino = s.next_i }));
          },
        ))
            ⊎ (pkg_ino_unsigned p s ≡ (
              err panics,
              record p { start_ino = s.next_i },
              record s { next_i = s.next_i + (p.inodes + 1) },
            )))
  unfolding pkg_ino_unsigned register_unsigned
  pkg_ino_unsigned-cases p s room =
      let count : u64 (p.inodes + 1) ≡ p.inodes + 1 = omega arith in
      let next : u64 (s.next_i + (p.inodes + 1)) ≡ s.next_i + (p.inodes + 1) = omega arith in
      let q = record p { start_ino = s.next_i } in
      let t = record s { next_i = s.next_i + (p.inodes + 1) } in
      elim (Bool-cases (p.start_ino == 0)) [
        | inr old ↦ inl (rw old refl)
        | inl new ↦ elim (Option-cases p.failed) [
          | inl e ↦
              inr (inl (rw new (rw count (rw next (ap (λ o. register_unsigned o s.next_i q t) e)))))
          | inr (x, e) ↦
              inr (inr (rw new (rw count (rw next (ap (λ o. register_unsigned o s.next_i q t) e)))))
        ]
      ]

  -- The state behind an unsigned package, by what `pkgInoUnsigned` gives.
  abbrev left : ArchOs → Bytes → State → Result ℕ × UnsignedPkg × Shared → State
  left a key s (n, q, shared) = record s {
    shared = record shared { unsigned_map = put_unsigned a key q shared.unsigned_map };
  }

  found_unsigned-left :
      (sq : Squashfs) (name key : Bytes) (v : UnsignedPkg) (s : State)
      → (found_unsigned sq name key v s).1
        ≡ left (pair s.db.os_v s.db.arch_v) key s (pkg_ino_unsigned (load_unsigned sq v) s.shared)
  unfolding found_unsigned
  found_unsigned-left sq name key v s =
      elim (Result-cases (pkg_ino_unsigned (load_unsigned sq v) s.shared).0) [
        | inl (n, e) ↦ rw (e, found_unsigned) refl
        | inr (x, e) ↦ rw (e, found_unsigned) refl
      ]

  pub found_unsigned-Grown :
      (size : Sizes) (l : Ledger) (sq : Squashfs) (name key : Bytes) (v : UnsignedPkg) (s : State)
      → CountsSmall sq
      → IsSound size l s
      → v.inodes < 2 ^ 32
      → s.shared.next_i + 2 ^ 32 < 2 ^ 64
      → Grown size l s (found_unsigned sq name key v s).1
  found_unsigned-Grown size l sq name key v s counts sound small room =
      let p = load_unsigned sq v in
      let a = pair s.db.os_v s.db.arch_v in
      let next = s.shared.next_i in
      let few = load_unsigned_few sq v counts small in
      let q = record p { start_ino = next } in
      let grown = Extends-given l next p.inodes s.shared.ino sound.reserved in
      let reserved = given-IsReserved l next p.inodes s.shared.ino sound.reserved in
      let knows = Knows-Extends size l (given next p.inodes l) s.db.pkg_i grown sound.knows in
      let at = found_unsigned-left sq name key v s in
      elim (pkg_ino_unsigned-cases p s.shared (omega (arith, few))) [
        | inl e ↦ subst (Grown size l s) (sym (at ∙ ap (left a key s) e)) (record {
          ledger = l;
          extends = λ n c f. f;
          sound = record { reserved = sound.reserved; knows = sound.knows };
          within = omega arith;
          file = refl;
          small = put_unsigned-AreSmall a key p s.shared.unsigned_map few;
        })
        | inr (inl e) ↦ subst (Grown size l s) (sym (at ∙ ap (left a key s) e)) (record {
          ledger = given next p.inodes l;
          extends = grown;
          sound = record {
            reserved =
                insert-IsReserved (given next p.inodes l) (next + (p.inodes + 1)) s.shared.ino
                  (unsigned q) reserved (ground arith);
            knows = knows;
          };
          within = omega (arith, few);
          file = refl;
          small = put_unsigned-AreSmall a key q s.shared.unsigned_map few;
        })
        | inr (inr e) ↦ subst (Grown size l s) (sym (at ∙ ap (left a key s) e)) (record {
          ledger = given next p.inodes l;
          extends = grown;
          sound = record { reserved = reserved; knows = knows };
          within = omega (arith, few);
          file = refl;
          small = put_unsigned-AreSmall a key q s.shared.unsigned_map few;
        })
      ]
