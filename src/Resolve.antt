-- ===== src/Resolve.antt =====
-- apkgdb/lookup.go, `Lookup`, and apkgdb/sub.go, `SubGet`: names with the suffix of an operating system
-- and an architecture, and the sub-databases that they go to.
pub mod Suffixed
pub mod Sound
pub mod Served
pub mod Reachable
use mathlib.Core.List.{map}
use apkg.Prelude.{ℕ, Bool, true, false, Option, none, some, List, [], ◌∷◌, if◌then◌else◌}
use apkg.Prelude.Bytes.{Bytes, codes, bytes_eq, last_index_byte}
use apkg.Errors.{Error, not_exist, Result, ok, err, is_not_exist}
use apkg.OsArch.{Os, Arch, ArchOs, pair, parse_os, parse_arch, os_string, arch_string}
use apkg.Suffix.{split_suffix}
use apkg.Bolt.{Bolt}
use apkg.Llrb.{Llrb}
use apkg.Db.{File, closed}
use apkg.Inodes.{Item, item_value, Squashfs, Shared, Db, State, Exec}
use apkg.Lookup.{archos_eq, internal_lookup}

module _ ⦃bolt : Bolt⦄ ⦃llrb : Llrb Item item_value⦄ where
  open llrb use {new}

  -- The main database and its `sub` map.
  pub record World : Type 0 where
    pub shared : Shared
    pub main : Db
    pub subs : List (ArchOs × Db)

  -- The state that `NewOsArch` makes of an opened file.
  unfoldable pub new_world : Os → Arch → File → World
  new_world os arch file = record {
    shared = record { next_i = 1000; ino = new; pkg_cache = []; unsigned_map = [] };
    main = record { os_v = os; arch_v = arch; channel = []; file = file; pkg_i = [] };
    subs = [];
  }

  -- `-load_unsigned`, and what `bolt.Open` and the first download give for a database file.
  pub record Site : Type 0 where
    pub load_unsigned : Bool
    pub open_db : ArchOs → Result File

  pub sub_of : ArchOs → List (ArchOs × Db) → Option Db
  sub_of a [] = none
  sub_of a ((b, d) ∷ rest) = if archos_eq a b then some d else sub_of a rest

  pub put_sub : ArchOs → Db → List (ArchOs × Db) → List (ArchOs × Db)
  put_sub a d [] = (a, d) ∷ []
  put_sub a d ((b, e) ∷ rest) =
      let later = put_sub a d rest in if archos_eq a b then (a, d) ∷ rest else (b, e) ∷ later

  -- `NewOsArch` as `SubGet` calls it, with the channel that `SubGet` sets.
  abbrev pub new_sub : ArchOs → Bytes → File → Db
  new_sub a channel file = record {
    os_v = parse_os (os_string a.os);
    arch_v = parse_arch (arch_string a.arch);
    channel = channel;
    file = file;
    pkg_i = [];
  }

  -- `initUnsigned` makes a new map where unsigned packages are on.
  abbrev pub init_unsigned : Site → Shared → Shared
  init_unsigned site s = if site.load_unsigned then record s { unsigned_map = [] } else s

  -- `SubGet` for another pair than the database's own.
  unfoldable pub sub_get : Site → ArchOs → World → Result Db × World
  unfolding sub_of put_sub
  sub_get site a w = elim (sub_of a w.subs) [
    | some d ↦ (ok d, w)
    | none ↦
        let shared = init_unsigned site w.shared in
        elim (site.open_db a) [
          | err e ↦ (err e, record w { shared = shared })
          | ok file ↦
              let d = new_sub a w.main.channel file in
              (ok d, record w { shared = shared; subs = put_sub a d w.subs })
        ]
  ]

  -- The name with its suffix, and without it where that does not exist.
  unfoldable pub either_name : Squashfs → Bytes → Bytes → Exec ℕ
  either_name sq name sname s =
      let (r, s') = internal_lookup sq name s in
      elim r [
        | ok n ↦ (ok n, s')
        | err e ↦ if is_not_exist e then internal_lookup sq sname s' else (err e, s')
      ]

  pub in_main : Exec ℕ → World → Result ℕ × World
  in_main m w =
      let (r, s) = m (record { shared = w.shared; db = w.main }) in
      (r, record w { shared = s.shared; main = s.db })

  pub in_sub : Site → ArchOs → Exec ℕ → World → Result ℕ × World
  unfolding put_sub
  in_sub site a m w =
      let (r, w') = sub_get site a w in
      elim r [
        | err e ↦ (err e, w')
        | ok d ↦
            let (n, s) = m (record { shared = w'.shared; db = d }) in
            (n, record w' { shared = s.shared; subs = put_sub a s.db w'.subs })
      ]

  unfoldable pub resolve : Site → Squashfs → Bytes → World → Result ℕ × World
  unfolding in_main in_sub
  resolve site sq name w = elim (last_index_byte name b'.') [
    | none ↦ (err not_exist, w)
    | some _ ↦ if bytes_eq name (codes "ld.so.cache") then (ok 2, w) else elim (split_suffix name) [
      | none ↦ in_main (internal_lookup sq name) w
      | some (sname, a) ↦
          if archos_eq (pair w.main.os_v w.main.arch_v) a
          then in_main (either_name sq name sname) w
          else in_sub site a (either_name sq name sname) w
    ]
  ]

  abbrev pub with_channel : Bytes → ArchOs × Db → ArchOs × Db
  with_channel ch (a, d) = (a, record d { channel = ch })

  -- `SetChannel`, which also sets the channel of every sub-database.
  unfoldable pub set_channel : Bytes → World → World
  set_channel ch w = record w {
    main = record w.main { channel = ch };
    subs = map (with_channel ch) w.subs;
  }

  -- `ListSubs`, in the order in which `range` takes them.
  unfoldable pub list_subs : World → List ArchOs
  list_subs w = map (λ e. e.0) w.subs

  -- `Close`: the errors of the sub-databases are dropped, and one of the own file leaves it open. The
  -- channel `done`, which a second call would close again, is not part of the state.
  unfoldable pub close : Option Error → World → Result (Unit {0}) × World
  close failed w =
      let v = record w { subs = [] } in
      let shut = record v {
        main = record w.main { file = record w.main.file { dbptr = closed } };
      } in
      elim w.main.file.dbptr [
        | closed ↦ (ok tt, shut)
        | _ ↦ elim failed [ some e ↦ (err e, v) | none ↦ (ok tt, shut) ]
      ]
