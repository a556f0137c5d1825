-- ===== src/Lookup/Serving.antt =====
-- That `GetInode` answers every number which `internalLookup` of apkgdb/lookup.go returns.
use apkg.Prelude.{◌≡◌, List, [], ◌∷◌}
use apkg.Prelude.Bytes.{Bytes}
use apkg.OsArch.{Os, Arch}
use apkg.Bolt.{Bolt}
use apkg.Llrb.{Llrb}
use apkg.Db.{File}
use apkg.Inodes.{Item, item_value, Squashfs, State}
use apkg.Inodes.Reserved.{Ledger, Sizes}
use apkg.Inodes.Grown.{IsSound, Grown}
use apkg.Lookup.{internal_lookup}
use apkg.Lookup.Cached.{IsCached}

module _ ⦃bolt : Bolt⦄ ⦃llrb : Llrb Item item_value⦄ where
  open bolt use {Bucket, get}
  open llrb use {new, find, find-new}

  -- A database that was just opened, without unsigned packages.
  abbrev pub opened : Os → Arch → Bytes → File → State
  opened os arch channel file = record {
    shared = record { next_i = 1000; ino = new; pkg_cache = []; unsigned_map = [] };
    db = record { os_v = os; arch_v = arch; channel = channel; file = file; pkg_i = [] };
  }

  abbrev pub lookups : Squashfs → List Bytes → State → State
  lookups sq [] s = s
  lookups sq (name ∷ names) s = lookups sq names (internal_lookup sq name s).1

  -- What every lookup finds, and leaves.
  record IsServing (size : Sizes) (file : File) (s : State) : Type 0 where
    ledger : Ledger
    sound : IsSound size ledger s
    cached : IsCached s
    same_file : s.db.file ≡ file
