-- ===== src/Export/RoundTrip.antt =====
-- `ExportAndUpload` of apkgdb/export.go against `index` of apkgdb/index.go.
use apkg.Prelude.{
  ℕ, ◌%◌, ◌^◌, ◌<◌, ◌-◌, ◌≡◌, refl, ap, subst, fun_ext, some, List, ◌++◌, length, arith, inl, inr,
}
use apkg.Prelude.Bytes.{Bytes}
use apkg.Errors.{Result, ok, ◌>>=◌, Result-cases}
use apkg.Bolt.{Bolt}
use apkg.Db.{Opens, Tx, File, write}
use apkg.Packages.{Package}
use apkg.Sig.{Key}
use apkg.Sig.Trust.{signed_with, Trusted, sign-Trusted, verify-Trusted}
use apkg.Import.{Tools, DbHeader, read_header, create_buckets, put_version, index_body, index}
use apkg.Format.{zeros}
use apkg.Export.{
  Source, header_bytes, export_entries, export_pins, signed_file, pins_of, export_content, export,
}
use apkg.Export.Entries.{Describes, store_all, load_entries-export_entries}
use apkg.Export.Pins.{PinsFit, put_pins, all_pins-export_pins}
use apkg.Export.Header.{HeaderFits, content-drop, length-header_bytes, read_header-fields}

-- The header that stands before the data.
abbrev pub header_of : Tools → Source → ℕ → Bytes → Bytes
header_of tools s count content = header_bytes s count (length content) (tools.sha256 content)

-- The import reads the header and the data of a file that was signed.
signed_file-read_header :
    (tools : Tools) (k : Key) (s : Source) (count : ℕ) (content : Bytes)
    → HeaderFits s
    → count < 2 ^ 32
    → length content < 2 ^ 32
    → length (tools.sha256 content) ≡ 32
    → Trusted tools.crypto tools.trusted k (header_of tools s count content)
    → (file : Bytes) × (signed_file tools k (header_of tools s count content) content ≡ ok file)
      × (read_header tools s.name file
          ≡ ok (record {
            created = tools.stamp s.seconds s.nanoseconds;
            count = count;
            content = content;
          }))
unfolding signed_file
signed_file-read_header tools k s count content fits hc hl lh t =
    let header = header_of tools s count content in
    let sig = signed_with t.key t.blob in
    let tail = sig ++ (zeros (99 - length sig) ++ content) in
    let (signed, small, v) = sign-Trusted tools.crypto tools.trusted k header t in
    let v' =
      verify-Trusted tools.crypto tools.trusted k header (zeros (99 - length sig) ++ content) t in
    let lh' = length-header_bytes s count (length content) (tools.sha256 content) fits.short lh in
    (
      header ++ tail,
      rw signed (rw v refl),
      read_header-fields tools s count content tail _ fits hc hl lh
          (content-drop header sig content lh' small) v',
    )

module _ ⦃bolt : Bolt⦄ where
  open bolt use {Bucket}

  -- What the import does to the buckets: the packages in order, the pins, and the version.
  abbrev pub stored_export : Tools → List Package → List (Bytes × Bytes) → Bytes → Tx → Result Tx
  stored_export tools ps pins stamp t = do
    u ← store_all tools ps (create_buckets t)
    w ← put_pins pins u
    put_version stamp w

  -- The body of the import over the data of an export.
  index_body-export :
      (tools : Tools) (tx : Tx) (es pins : List (Bytes × Bytes)) (ps : List Package) (stamp : Bytes)
      → Describes tx es ps
      → PinsFit pins
      → (b : Bytes) × (export_entries tx es ≡ ok b)
        × ((t : Tx)
            → index_body tools
                (record { created = stamp; count = length es; content = b ++ export_pins pins })
                t
              ≡ stored_export tools ps pins stamp t)
  unfolding index_body
  index_body-export tools tx es pins ps stamp d fits =
      let (b, eb, step) = load_entries-export_entries tools tx es ps d in
      (
        b,
        eb,
        λ t.
            rw (step (export_pins pins) (create_buckets t))
              (elim (Result-cases (store_all tools ps (create_buckets t))) [
                | inl (u, q) ↦ rw q (rw (all_pins-export_pins pins u fits) refl)
                | inr (x, q) ↦ rw q refl
              ]),
      )

  export_content-parts :
      (for_each : Bucket → List (Bytes × Bytes)) (tx : Tx) (p2p : Bucket) (b content : Bytes)
      → tx.p2p ≡ some p2p
      → export_entries tx (for_each p2p) ≡ ok b
      → export_content for_each tx ≡ ok content
      → b ++ export_pins (pins_of for_each tx.pins) ≡ content
  unfolding export_content
  export_content-parts for_each tx p2p b content is eb ec =
      let e : export_content for_each tx ≡ ok (b ++ export_pins (pins_of for_each tx.pins)) =
        simp (is, eb) in
      cc (e, ec)

  export-signed_file :
      (for_each : Bucket → List (Bytes × Bytes)) (tools : Tools) (k : Key) (s : Source) (tx : Tx)
      (p2p : Bucket) (content file : Bytes)
      → tx.p2p ≡ some p2p
      → length (for_each p2p) < 2 ^ 32
      → export_content for_each tx ≡ ok content
      → length content < 2 ^ 32
      → signed_file tools k (header_of tools s (length (for_each p2p)) content) content ≡ ok file
      → export for_each tools k s tx ≡ ok file
  unfolding export
  export-signed_file for_each tools k s tx p2p content file is hn ec hl signed =
      let count : length (for_each p2p) % 2 ^ 32 ≡ length (for_each p2p) = omega arith in
      let len : length content % 2 ^ 32 ≡ length content = omega arith in
      rw ec (rw is (rw (count, len) signed))

  index-read_header :
      (tools : Tools) (name : Bytes) (o : Opens) (r : Bytes) (f : File) (h : DbHeader)
      (body : Tx → Result Tx)
      → read_header tools name r ≡ ok h
      → ((t : Tx) → index_body tools h t ≡ body t)
      → index tools name o r f ≡ write o body f
  unfolding index
  index-read_header tools name o r f h body e same =
      rw (e, index) (ap (λ g. write o g f) (fun_ext same))

  -- An export imports as what it was made of: `export` succeeds, and `index` of its file, into
  -- whatever database, is one write that stores the packages which `getPkgTx` reads off the exported
  -- index, in the order of the index, then puts back every pin under its key, then puts the stamp
  -- as the version. The conditions: every entry of the index describes a package whose texts and
  -- inode count have the sizes that the format allows, every pin has a zero byte in its key and parts
  -- of at most 256 bytes, the database's name has at most 32 bytes and no zero, the two times fit 64
  -- bits, the number of packages and the length of the data fit 32, the hash has 32 bytes, and the
  -- signature is one that the import trusts.
  pub index-export :
      (for_each : Bucket → List (Bytes × Bytes)) (tools : Tools) (k : Key) (s : Source) (tx : Tx)
      (p2p : Bucket) (ps : List Package) (content : Bytes) (o : Opens) (f : File)
      → tx.p2p ≡ some p2p
      → Describes tx (for_each p2p) ps
      → PinsFit (pins_of for_each tx.pins)
      → HeaderFits s
      → length (for_each p2p) < 2 ^ 32
      → export_content for_each tx ≡ ok content
      → length content < 2 ^ 32
      → length (tools.sha256 content) ≡ 32
      → Trusted tools.crypto tools.trusted k (header_of tools s (length (for_each p2p)) content)
      → (file : Bytes) × (export for_each tools k s tx ≡ ok file)
        × (index tools s.name o file f
            ≡ write o
                (stored_export tools ps
                  (pins_of for_each tx.pins)
                  (tools.stamp s.seconds s.nanoseconds))
                f)
  index-export for_each tools k s tx p2p ps content o f is d pf hf hn ec hl lh t =
      let stamp = tools.stamp s.seconds s.nanoseconds in
      let pins = pins_of for_each tx.pins in
      let (b, eb, body) = index_body-export tools tx (for_each p2p) pins ps stamp d pf in
      let same = export_content-parts for_each tx p2p b content is eb ec in
      let (file, signed, read) =
        signed_file-read_header tools k s (length (for_each p2p)) content hf hn hl lh t in
      (
        file,
        export-signed_file for_each tools k s tx p2p content file is hn ec hl signed,
        index-read_header tools s.name o file f _ (stored_export tools ps pins stamp) read (
            subst
              (λ c.
                (u : Tx)
                → index_body tools
                    (record { created = stamp; count = length (for_each p2p); content = c }) u
                  ≡ stored_export tools ps pins stamp u)
              same body),
      )
