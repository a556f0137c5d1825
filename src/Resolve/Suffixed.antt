-- ===== src/Resolve/Suffixed.antt =====
-- Where a name with a suffix is looked up.
use apkg.Prelude.{
  ℕ, ap, arith, ◌∙◌, ◌≡◌, ◌≢◌, refl, inl, inr, true, false, none, some, ◌∷◌, ◌++◌, if◌then◌else◌,
  Bool-cases, Option-cases,
}
use apkg.Prelude.Bytes.{Bytes, codes, bytes_eq, bytes_eq→eq, last_index_byte}
use apkg.OsArch.{ArchOs, pair, arch_os_string, is_valid, parse_arch}
use apkg.Suffix.{split_suffix, cut_last}
use apkg.Suffix.Cut.{split_suffix-append}
use apkg.Bolt.{Bolt}
use apkg.Llrb.{Llrb}
use apkg.Errors.{Result, ok, err, is_not_exist, Result-cases}
use apkg.Inodes.{Item, item_value, Squashfs, Shared, State, Exec, Db}
use apkg.Lookup.{archos_eq, internal_lookup}
use apkg.Resolve.{sub_get, World, Site, resolve, in_main, in_sub, either_name}

-- A split name has a dot, and is not that of the loader's cache.
split_dot : (name : Bytes) → split_suffix name ≢ none → last_index_byte name b'.' ≢ none
unfolding split_suffix cut_last
split_dot name h = λ e. h (rw (e, cut_last, split_suffix) refl)

split_name : (name : Bytes) → split_suffix name ≢ none → bytes_eq name (codes "ld.so.cache") ≡ false
unfolding split_suffix cut_last parse_arch
split_name name h = elim (Bool-cases (bytes_eq name (codes "ld.so.cache"))) [
  | inl e ↦ absurd (h (rw (bytes_eq→eq name _ e) refl))
  | inr e ↦ e
]

module _ ⦃bolt : Bolt⦄ ⦃llrb : Llrb Item item_value⦄ where
  resolve-split :
      (site : Site) (sq : Squashfs) (name base : Bytes) (a : ArchOs) (w : World)
      → split_suffix name ≡ some (base, a)
      → resolve site sq name w ≡ (
          if archos_eq (pair w.main.os_v w.main.arch_v) a
          then in_main (either_name sq name base) w
          else in_sub site a (either_name sq name base) w)
  unfolding resolve
  resolve-split site sq name base a w e =
      let some_split : split_suffix name ≢ none = λ h. cc in
      elim (Option-cases (last_index_byte name b'.')) [
        | inl h ↦ absurd (split_dot name some_split h)
        | inr (n, h) ↦
            rw (h, resolve) (rw (split_name name some_split, resolve) (rw (e, resolve) refl))
      ]

  -- The database of a pair, the main one or a sub-database, and what getting it leaves.
  abbrev pub database_of : Site → ArchOs → World → Result Db × World
  database_of site a w =
      if archos_eq (pair w.main.os_v w.main.arch_v) a then (ok w.main, w) else sub_get site a w

  abbrev pub with_shared : Result ℕ × World → Result ℕ × Shared
  with_shared (r, w) = (r, w.shared)

  abbrev shared_of : Result ℕ × State → Result ℕ × Shared
  shared_of (r, s) = (r, s.shared)

  -- A lookup of the name in the database, and one of the base in what it leaves where the name does
  -- not exist there.
  abbrev pub name_then_base : Squashfs → Bytes → Bytes → State → Result ℕ × Shared
  name_then_base sq name base s =
      let first = internal_lookup sq name s in
      let second = internal_lookup sq base first.1 in
      elim first.0 [
        | ok n ↦ (ok n, first.1.shared)
        | err e ↦ if is_not_exist e then (second.0, second.1.shared) else (err e, first.1.shared)
      ]

  either_name-shared :
      (sq : Squashfs) (name base : Bytes) (s : State)
      → shared_of (either_name sq name base s) ≡ name_then_base sq name base s
  unfolding either_name
  either_name-shared sq name base s = elim (Result-cases (internal_lookup sq name s).0) [
    | inl (n, e) ↦ ground (arith, e)
    | inr (x, e) ↦ ground (arith, e)
  ]

  in_sub-shared :
      (site : Site) (a : ArchOs) (m : Exec ℕ) (w v : World) (d : Db)
      → sub_get site a w ≡ (ok d, v)
      → with_shared (in_sub site a m w) ≡ shared_of (m (record { shared = v.shared; db = d }))
  unfolding in_sub
  in_sub-shared site a m w v d e =
      rw (e, in_sub) (ap (λ r. shared_of (m (record { shared = r.1.shared; db = d }))) e)

  -- A name that carries the suffix of a valid pair, whose database there is, is looked up in that
  -- database, as it is. Where it does not exist, the answer is the one of the name without the suffix,
  -- looked up in what the first lookup left; any other answer of the first lookup is the answer. The
  -- inode numbers and the packages that the databases share are left as the last lookup leaves them.
  pub resolve-suffix :
      (site : Site) (sq : Squashfs) (base : Bytes) (a : ArchOs) (w v : World) (d : Db)
      → is_valid a ≡ true
      → database_of site a w ≡ (ok d, v)
      → with_shared (resolve site sq (base ++ (b'.' ∷ arch_os_string a)) w)
        ≡ name_then_base sq
            (base ++ (b'.' ∷ arch_os_string a))
            base
            (record { shared = v.shared; db = d })
  unfolding in_main
  resolve-suffix site sq base a w v d valid got =
      let name = base ++ (b'.' ∷ arch_os_string a) in
      let split = resolve-split site sq name base a w (split_suffix-append base a valid) in
      let both = either_name sq name base in
      let looked = either_name-shared sq name base (record { shared = v.shared; db = d }) in
      elim (Bool-cases (archos_eq (pair w.main.os_v w.main.arch_v) a)) [
        | inl e ↦
            let same : (w.main ≡ d) × (w ≡ v) = ground (arith, got, e) in
            let at : State = record { shared = w.shared; db = w.main } in
            let here : resolve site sq name w ≡ in_main both w = ground (arith, split, e) in
            let moved : at ≡ record { shared = v.shared; db = d } = cc (same.0, same.1) in
            ap with_shared here ∙ (ap (λ u. shared_of (both u)) moved ∙ looked)
        | inr e ↦
            let same : sub_get site a w ≡ (ok d, v) = ground (arith, got, e) in
            let there : resolve site sq name w ≡ in_sub site a both w = ground (arith, split, e) in
            ap with_shared there ∙ (in_sub-shared site a both w v d same ∙ looked)
      ]
