-- ===== src/Db.antt =====
-- The database file of apkgdb/db.go and how apkgdb/write.go opens it for a write. Each bucket is there
-- once something has created it. `bolt.Open` succeeds or fails as the `Opens` say; a file that is
-- closed keeps its content on disk.
pub mod Access
use apkg.Prelude.{Bool, true, false, Option, none, some, [], ◌∷◌, if◌then◌else◌}
use apkg.Prelude.Bytes.{Bytes, codes}
use apkg.Errors.{Error, bolt_error, Result, ok, err}
use apkg.Bolt.{Bolt}

-- `d.dbptr`: nil, or open in one of two ways.
pub data Handle : Type 0 where
  closed read_only read_write : Handle

-- What bbolt returns: `bolt.Open` for the write, for the reopening after a failure, and at the end, and
-- the commit of the transaction in between.
pub record Opens : Type 0 where
  pub rw : Bool
  pub commit : Option Error
  pub ro : Bool
  pub after : Bool

-- The empty string for nil.
abbrev pub bytes_or_nil : Option Bytes → Bytes
bytes_or_nil none = []
bytes_or_nil (some v) = v

module _ ⦃bolt : Bolt⦄ where
  open bolt use {Bucket, empty, get, put}

  pub record Tx : Type 0 where
    pub info : Option Bucket
    pub p2p : Option Bucket
    pub pkg : Option Bucket
    pub header : Option Bucket
    pub sig : Option Bucket
    pub meta : Option Bucket
    pub path : Option Bucket
    pub ldso : Option Bucket
    pub pins : Option Bucket

  pub record File : Type 0 where
    pub tx : Tx
    pub dbptr : Handle

  -- `tx.CreateBucketIfNotExists`, in a write transaction and under a fixed name.
  abbrev pub create : Option Bucket → Bucket
  create none = empty
  create (some b) = b

  -- `b.Put(k, v)` with its error.
  abbrev pub put_in : Bucket → Bytes → Bytes → Result Bucket
  put_in b k v = elim (put b k v) [ none ↦ err bolt_error | some c ↦ ok c ]

  pub write_start : Opens → File → Result (Unit {0}) × File
  write_start o f =
      if o.rw
      then (ok tt, record f { dbptr = read_write })
      else if o.ro
      then (err bolt_error, record f { dbptr = read_only })
      else (err bolt_error, record f { dbptr = closed })

  pub write_end : Opens → File → File
  write_end o f =
      if o.after then (record f { dbptr = read_only }) else (record f { dbptr = closed })

  -- What is relied on of `d.dbptr.Update(body)`, whose code is not in the repository: an error of the
  -- body, and one of the commit, rolls the transaction back and is returned.
  pub update : Option Error → (Tx → Result Tx) → File → Result (Unit {0}) × File
  update commit body f = elim (body f.tx) [
    | err e ↦ (err e, f)
    | ok t ↦ elim commit [ some e ↦ (err e, f) | none ↦ (ok tt, record f { tx = t }) ]
  ]

  -- `writeStart`, `defer writeEnd`, and one `Update` in between.
  unfoldable pub write : Opens → (Tx → Result Tx) → File → Result (Unit {0}) × File
  unfolding write_start write_end update
  write o body f =
      let (r, g) = write_start o f in
      elim r [
        | err e ↦ (err e, g)
        | ok u ↦ let (r', h) = update o.commit body g in (r', write_end o h)
      ]

  version_in : Option Bucket → Option Bucket → Bytes
  version_in none info = []
  version_in (some p2p) none = []
  version_in (some p2p) (some info) = bytes_or_nil (get info (codes "version"))

  -- The empty string where nothing is stored.
  unfoldable pub current_version : File → Bytes
  unfolding version_in
  current_version f = elim f.dbptr [ closed ↦ [] | _ ↦ version_in f.tx.p2p f.tx.info ]
