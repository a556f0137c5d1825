-- ===== src/Import.antt =====
-- apkgdb/index.go, `index`: a database file is checked and its entries go into the buckets. A reader is
-- the list of the bytes that it still holds, and a seek goes back to the whole file.
pub mod Pins
pub mod Invariants
use apkg.Prelude.{
  ℕ, zero, suc, Bool, true, false, Option, none, some, List, [], ◌∷◌, ◌++◌, ◌*◌, if◌then◌else◌, ltb,
  ◌==◌, length, take, drop,
}
use apkg.Prelude.Map.{be_uint}
use apkg.Prelude.Bytes.{Bytes, codes, bytes_eq, index_byte}
use apkg.Errors.{Error, message, Result, ok, err, ◌>>=◌}
use apkg.Bolt.{Bolt}
use apkg.Db.{Opens, Tx, File, create, put_in, write}
use apkg.Sig.{Crypto, read_full, read_varblob, signature_size, verify}
use apkg.Format.{guard, read_be}
use apkg.Pin.{pin_key}
use apkg.Packages.{Package, put_package}

-- What is not in the repository: `crypto/sha256`, ed25519 with the trusted database keys, the stamp
-- that `created.UTC().Format` makes of seconds and nanoseconds, and the keys and values that
-- `encoding/json` and ldcache get for the `ldso` bucket out of the metadata of a package.
pub record Tools : Type 0 where
  pub sha256 : Bytes → Bytes
  pub crypto : Crypto
  pub trusted : List (Bytes × Bytes)
  pub stamp : ℕ → ℕ → Bytes
  pub ldso_entries : Bytes → List (Bytes × Bytes)

-- A name in a buffer ends at its first zero byte.
unfoldable pub before_zero : Bytes → Bytes
before_zero name = elim (index_byte name 0) [ none ↦ name | some offt ↦ take offt name ]

-- What `index` keeps of the header: the stamp, the number of packages, and the checked data.
pub record DbHeader : Type 0 where
  pub created : Bytes
  pub count : ℕ
  pub content : Bytes

unfoldable pub read_header : Tools → Bytes → Bytes → Result DbHeader
unfolding before_zero
read_header tools db_name r0 = do
  (sig, r1) ← read_full 4 r0
  _ ← guard (bytes_eq sig (codes "APDB")) (message "not a apkgdb file")
  (version, r2) ← read_be 4 r1
  _ ← guard (version == 1) (message "unsupported db version")
  (flags, r3) ← read_be 8 r2
  (created, r4) ← read_full 16 r3
  (os_arch_count, r5) ← read_full 12 r4
  (name, r6) ← read_full 32 r5
  _ ← guard (bytes_eq (before_zero name) db_name) (message "invalid database")
  (data_loc, r7) ← read_full 8 r6
  (data_hash, r8) ← read_full 32 r7
  (content, r9) ← read_full (be_uint (drop 4 data_loc)) (drop (be_uint (take 4 data_loc)) r0)
  _ ← guard (bytes_eq data_hash (tools.sha256 content)) (message "invalid data hash")
  (header_data, r10) ← read_full 196 r0
  _ ← verify tools.crypto header_data r10 tools.trusted
  ok (record {
    created = tools.stamp (be_uint (take 8 created)) (be_uint (drop 8 created));
    count = be_uint (drop 8 os_arch_count);
    content = content;
  })

-- One package of the data.
unfoldable pub read_entry : Bytes → Result (Package × Bytes)
read_entry r0 = do
  (t, r1) ← read_be 1 r0
  _ ← guard (t == 0) (message "invalid data in db (invalid package type)")
  (hash, r2) ← read_full 32 r1
  (size, r3) ← read_be 8 r2
  (inodes, r4) ← read_be 4 r3
  (name, r5) ← read_varblob r4 256
  (path, r6) ← read_varblob r5 256
  (raw_header, r7) ← read_varblob r6 256
  (raw_sig, r8) ← read_varblob r7 signature_size
  (raw_meta, r9) ← read_varblob r8 (1024 * 1024)
  ok (
    record {
      start_ino = 0;
      hash = hash;
      size = size;
      inodes = inodes;
      name = name;
      path = path;
      raw_header = raw_header;
      raw_sig = raw_sig;
      raw_meta = raw_meta;
    },
    r9,
  )

-- A pin of the data: channel, prefix and version.
pub record PinEntry : Type 0 where
  pub channel : Bytes
  pub prefix : Bytes
  pub version : Bytes

unfoldable pub read_pin : Bytes → Result (PinEntry × Bytes)
read_pin r0 = do
  (t, r1) ← read_be 1 r0
  _ ← guard (t == 1) (message "invalid data in db (unexpected type after packages)")
  (channel, r2) ← read_varblob r1 256
  (prefix, r3) ← read_varblob r2 256
  (version, r4) ← read_varblob r3 256
  ok (record { channel = channel; prefix = prefix; version = version }, r4)

module _ ⦃bolt : Bolt⦄ where
  open bolt use {Bucket, get}

  put_ldso : List (Bytes × Bytes) → Bucket → Result Bucket
  put_ldso [] b = ok b
  put_ldso ((k, v) ∷ es) b = do c ← put_in b k v; put_ldso es c

  -- The `Put`s of the loop, which are those of `AddPackage`, and the loader's entries.
  put_entry : Tools → Package → Tx → Result Tx
  unfolding put_ldso
  put_entry tools p tx = do
    t ← put_package p.path p tx
    b ← put_ldso (tools.ldso_entries p.raw_meta) (create tx.ldso)
    ok (record t { ldso = some b })

  -- A hash that is there already is passed over.
  unfoldable pub store_entry : Tools → Package → Tx → Result Tx
  unfolding put_entry
  store_entry tools p tx = elim (get (create tx.pkg) p.hash) [
    | some v ↦ ok tx
    | none ↦ put_entry tools p tx
  ]

  unfoldable pub load_entries : Tools → ℕ → Bytes → Tx → Result (Bytes × Tx)
  load_entries tools zero r tx = ok (r, tx)
  load_entries tools (suc count) r tx = do
    (p, rest) ← read_entry r
    t ← store_entry tools p tx
    load_entries tools count rest t

  unfoldable pub store_pin : PinEntry → Tx → Result Tx
  store_pin e tx = do
    b ← put_in (create tx.pins) (pin_key e.channel e.prefix) e.version
    ok (record tx { pins = some b })

  -- The loop over the pins, on fuel; `none` means that the fuel ran out. The end of the data ends it.
  unfoldable pub load_pins : ℕ → Bytes → Tx → Option (Result Tx)
  load_pins zero r tx = none
  load_pins (suc fuel) [] tx = some (ok tx)
  load_pins (suc fuel) (t ∷ r) tx = elim (read_pin (t ∷ r)) [
    | err e ↦ some (err e)
    | ok (e, rest) ↦ elim (store_pin e tx) [ err x ↦ some (err x) | ok u ↦ load_pins fuel rest u ]
  ]

  -- `load_pins` with a round for each byte and one more; the fuel runs out for no input.
  unfoldable pub all_pins : Bytes → Tx → Result Tx
  unfolding load_pins
  all_pins r tx = elim (load_pins (suc (length r)) r tx) [
    | none ↦ err (message "out of fuel")
    | some result ↦ result
  ]

  -- `CreateBucketIfNotExists` for the nine buckets.
  unfoldable pub create_buckets : Tx → Tx
  create_buckets tx = record {
    info = some (create tx.info);
    p2p = some (create tx.p2p);
    pkg = some (create tx.pkg);
    header = some (create tx.header);
    sig = some (create tx.sig);
    meta = some (create tx.meta);
    path = some (create tx.path);
    ldso = some (create tx.ldso);
    pins = some (create tx.pins);
  }

  unfoldable pub put_version : Bytes → Tx → Result Tx
  put_version version tx = do
    b ← put_in (create tx.info) (codes "version") version
    ok (record tx { info = some b })

  -- The body of the `Update`.
  unfoldable pub index_body : Tools → DbHeader → Tx → Result Tx
  unfolding all_pins create_buckets put_version
  index_body tools h tx = do
    (rest, t) ← load_entries tools h.count h.content (create_buckets tx)
    u ← all_pins rest t
    put_version h.created u

  -- `index` up to the loader's cache, which is built from the `ldso` bucket at its end.
  unfoldable pub index : Tools → Bytes → Opens → Bytes → File → Result (Unit {0}) × File
  index tools db_name o r f = elim (read_header tools db_name r) [
    | err e ↦ (err e, f)
    | ok h ↦ write o (index_body tools h) f
  ]
