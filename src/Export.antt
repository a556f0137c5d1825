-- ===== src/Export.antt =====
-- apkgdb/export.go, `ExportAndUpload`: the binary file that describes a whole database. The file is
-- built as the list of its bytes; what the source writes by seeking back is put in its place.
pub mod Entries
pub mod Header
pub mod Pins
pub mod RoundTrip
use apkg.Prelude.{
  ℕ, zero, suc, ◌-◌, ◌%◌, ◌^◌, Option, none, some, List, [], ◌∷◌, ◌++◌, ◌||◌, if◌then◌else◌, ltb,
  length, take, drop,
}
use apkg.Prelude.Bytes.{Bytes, codes, index_byte}
use apkg.Errors.{Result, ok, err, panics, ◌>>=◌}
use apkg.OsArch.{
  Os, any_os, linux, darwin, windows, bad_os, Arch, any_arch, x86, amd64, arm, arm64, riscv64,
  bad_arch, parse_os, parse_arch,
}
use apkg.Bolt.{Bolt}
use apkg.Db.{Tx, bytes_or_nil}
use apkg.Sig.{Key, verify, sign, write_varblob}
use apkg.Format.{zeros, put_u32, put_u64}
use apkg.Import.{Tools}

-- The constants of apkgdb/osarch.go.
abbrev pub os_number : Os → ℕ
os_number any_os = 0
os_number linux = 1
os_number darwin = 2
os_number windows = 3
os_number bad_os = 0xffffffff

abbrev pub arch_number : Arch → ℕ
arch_number any_arch = 0
arch_number x86 = 1
arch_number amd64 = 2
arch_number arm = 3
arch_number arm64 = 4
arch_number riscv64 = 5
arch_number bad_arch = 0xffffffff

-- `copy` of a name into 32 bytes.
unfoldable pub name_buffer : Bytes → Bytes
name_buffer name = take 32 name ++ zeros (32 - length name)

-- The hash of the empty string, as the source spells it.
abbrev pub empty_hash : Bytes
empty_hash =
    0xe3 ∷ 0xb0 ∷ 0xc4 ∷ 0x42 ∷ 0x98 ∷ 0xfc ∷ 0x1c ∷ 0x14 ∷ 0x9a ∷ 0xfb ∷ 0xf4 ∷ 0xc8 ∷ 0x99 ∷ 0x6f
    ∷ 0xb9 ∷ 0x24 ∷ 0x27 ∷ 0xae ∷ 0x41 ∷ 0xe4 ∷ 0x64 ∷ 0x9b ∷ 0x93 ∷ 0x4c ∷ 0xa4 ∷ 0x95 ∷ 0x99
    ∷ 0x1b ∷ 0x78 ∷ 0x52 ∷ 0xb8 ∷ 0x55 ∷ []

-- What is exported: the database's name, system and architecture, and the time.
pub record Source : Type 0 where
  pub name : Bytes
  pub os : Bytes
  pub arch : Bytes
  pub seconds : ℕ
  pub nanoseconds : ℕ

-- The two indices that follow the data's hash, both empty.
abbrev pub no_indices : Bytes
no_indices = put_u32 0 ++ (put_u32 0 ++ (empty_hash ++ (put_u32 0 ++ (put_u32 0 ++ empty_hash))))

-- The 196 bytes of the header, with the count, the data's length and its hash filled in.
unfoldable pub header_bytes : Source → ℕ → ℕ → Bytes → Bytes
header_bytes s count len hash =
    codes "APDB"
    ++ (put_u32 1
        ++ (put_u64 0
            ++ ((put_u64 s.seconds ++ put_u64 s.nanoseconds)
                ++ ((put_u32 (os_number (parse_os s.os))
                      ++ (put_u32 (arch_number (parse_arch s.arch)) ++ put_u32 count))
                    ++ (name_buffer s.name
                        ++ ((put_u32 295 ++ put_u32 len) ++ (hash ++ no_indices)))))))

module _ ⦃bolt : Bolt⦄ where
  open bolt use {Bucket, get}

  -- A method of a bucket that is not there.
  abbrev pub bucket : Option Bucket → Result Bucket
  bucket none = err panics
  bucket (some b) = ok b

  -- What is written for one entry of the index; slices out of range panic.
  unfoldable pub export_entry : Tx → Bytes → Result Bytes
  export_entry tx v = do
    pkg_b ← bucket tx.pkg
    path_b ← bucket tx.path
    header_b ← bucket tx.header
    sig_b ← bucket tx.sig
    meta_b ← bucket tx.meta
    let h = take 32 v
    let pkg = bytes_or_nil (get pkg_b h)
    (if ltb (length v) 32 || ltb (length pkg) 25
        then err panics
        else ok (
            (0 ∷ [])
            ++ (h
                ++ (take 8 (drop 1 pkg)
                    ++ (take 4 (drop 21 pkg)
                        ++ (write_varblob (drop 25 pkg)
                            ++ (write_varblob (bytes_or_nil (get path_b h))
                                ++ (write_varblob (bytes_or_nil (get header_b h))
                                    ++ (write_varblob (bytes_or_nil (get sig_b h))
                                        ++ write_varblob (bytes_or_nil (get meta_b h)))))))))))

  unfoldable pub export_entries : Tx → List (Bytes × Bytes) → Result Bytes
  export_entries tx [] = ok []
  export_entries tx ((k, v) ∷ es) = do
    e ← export_entry tx v
    rest ← export_entries tx es
    ok (e ++ rest)

-- A key without a zero byte leaves its type alone in the file.
unfoldable pub export_pin : Bytes → Bytes → Bytes
export_pin k v = 1 ∷ elim (index_byte k 0) [
  | none ↦ []
  | some sep ↦ write_varblob (take sep k) ++ (write_varblob (drop (suc sep) k) ++ write_varblob v)
]

unfoldable pub export_pins : List (Bytes × Bytes) → Bytes
export_pins [] = []
export_pins ((k, v) ∷ es) = export_pin k v ++ export_pins es

-- The signature has room for 99 bytes before the data; it is written over them.
unfoldable pub signed_file : Tools → Key → Bytes → Bytes → Result Bytes
signed_file tools key header content = do
  sig ← sign key header
  _ ← verify tools.crypto header sig tools.trusted
  ok (header ++ (sig ++ (zeros (99 - length sig) ++ content)))

-- `bucket.ForEach` of bbolt is a parameter: the entries of a bucket in the order of their keys.
module _ ⦃bolt : Bolt⦄ (for_each : bolt.Bucket → List (Bytes × Bytes)) where
  abbrev pub pins_of : Option bolt.Bucket → List (Bytes × Bytes)
  pins_of none = []
  pins_of (some b) = for_each b

  -- The data: the packages, and the pins behind them.
  unfoldable pub export_content : Tx → Result Bytes
  export_content tx = do
    p2p ← bucket tx.p2p
    packages ← export_entries tx (for_each p2p)
    ok (packages ++ export_pins (pins_of tx.pins))

  unfoldable pub export : Tools → Key → Source → Tx → Result Bytes
  export tools key s tx = do
    p2p ← bucket tx.p2p
    content ← export_content tx
    signed_file tools key
        (header_bytes s (length (for_each p2p) % 2 ^ 32) (length content % 2 ^ 32)
          (tools.sha256 content))
        content
