-- ===== src/Export/Entries.antt =====
-- The packages of an exported file, read by `index` of apkgdb/index.go.
use apkg.Prelude.{
  ℕ, ◌+◌, ◌*◌, ◌^◌, ◌≤◌, ◌<◌, ◌≡◌, refl, ap, sym, ◌∙◌, inl, inr, List, [], ◌∷◌, ◌++◌, false, ltb,
  length, take, drop, arith, append_assoc, Option-cases, length-drop, length-take, drop_add,
}
use apkg.Prelude.Bytes.{Bytes}
use apkg.Prelude.Map.{be_uint, be_uint_from}
use apkg.Errors.{Result, ok, ◌>>=◌, Result-cases}
use apkg.Bolt.{Bolt}
use apkg.Db.{Tx, bytes_or_nil}
use apkg.Sig.{write_varblob}
use apkg.Packages.{Package, load_package, read_package, stored_package}
use apkg.Format.RoundTrip.{Reads, read_full-Reads, read_be-Reads, read_varblob-Reads}
use apkg.Import.{Tools, read_entry, store_entry, load_entries}
use apkg.Export.{export_entry, export_entries}

-- The sizes that the import accepts.
pub record Fits (p : Package) : Type 0 where
  pub name : length p.name ≤ 256
  pub path : length p.path ≤ 256
  pub header : length p.raw_header ≤ 256
  pub sig : length p.raw_sig ≤ 99
  pub meta : length p.raw_meta ≤ 1024 * 1024

-- What is written for a package, from its parts.
abbrev entry_bytes : Bytes → Bytes → Package → Bytes
entry_bytes size inodes p =
    (0 ∷ [])
    ++ (p.hash
        ++ (size
            ++ (inodes
                ++ (write_varblob p.name
                    ++ (write_varblob p.path
                        ++ (write_varblob p.raw_header
                            ++ (write_varblob p.raw_sig ++ write_varblob p.raw_meta)))))))

read_entry-entry_bytes :
    (size inodes : Bytes) (p : Package)
    → length p.hash ≡ 32
    → length size ≡ 8
    → length inodes ≡ 4
    → Fits p
    → Reads read_entry
        (entry_bytes size inodes p)
        (record p { start_ino = 0; size = be_uint size; inodes = be_uint inodes })
unfolding read_entry be_uint_from
read_entry-entry_bytes size inodes p lh ls li fits rest =
    let r8 = write_varblob p.raw_meta ++ rest in
    let r7 = write_varblob p.raw_sig ++ r8 in
    let r6 = write_varblob p.raw_header ++ r7 in
    let r5 = write_varblob p.path ++ r6 in
    let r4 = write_varblob p.name ++ r5 in
    let r3 = inodes ++ r4 in
    let r2 = size ++ r3 in
    let r1 = p.hash ++ r2 in
    let split : entry_bytes size inodes p ++ rest ≡ (0 ∷ []) ++ r1 = simp append_assoc in
    let e0 = read_be-Reads 1 (0 ∷ []) refl r1 in
    let e1 = read_full-Reads 32 p.hash lh r2 in
    let e2 = read_be-Reads 8 size ls r3 in
    let e3 = read_be-Reads 4 inodes li r4 in
    let e4 = read_varblob-Reads p.name 256 fits.name (omega arith) r5 in
    let e5 = read_varblob-Reads p.path 256 fits.path (omega arith) r6 in
    let e6 = read_varblob-Reads p.raw_header 256 fits.header (omega arith) r7 in
    let e7 = read_varblob-Reads p.raw_sig 99 fits.sig (omega arith) r8 in
    let e8 = read_varblob-Reads p.raw_meta (1024 * 1024) fits.meta (omega arith) rest in
    ap read_entry split ∙ rw (e0, e1, e2, e3, e4, e5, e6, e7, e8) refl

-- The low half of a number of eight bytes is the number, if it fits four.
be_uint-low :
    (x : Bytes)
    → 8 ≤ length x
    → be_uint (take 8 x) < 2 ^ 32
    → be_uint (take 4 (drop 4 x)) ≡ be_uint (take 8 x)
unfolding be_uint_from
be_uint-low (a ∷ b ∷ c ∷ d ∷ e ∷ f ∷ g ∷ h ∷ x) l small = omega arith
be_uint-low x l small = absurd (omega arith)

length-window : (n k : ℕ) (x : Bytes) → n + k ≤ length x → length (take k (drop n x)) ≡ k
length-window n k x h = length-take k (drop n x) (omega (arith, length-drop n x))

short : (x : Bytes) (n : ℕ) → n ≤ length x → ltb (length x) n ≡ false
short x n h = ground arith

module _ ⦃bolt : Bolt⦄ where
  open bolt use {Bucket, get}

  -- What `getPkgTx` reads, an export writes.
  export_entry-load_package :
      (tx : Tx) (v : Bytes) (p : Package) (start : ℕ)
      → load_package tx start (take 32 v) ≡ ok p
      → 32 ≤ length v
      → (w : Bytes) × (25 ≤ length w)
        × (p.hash ≡ take 32 v)
        × (p.start_ino ≡ start)
        × (p.size ≡ be_uint (take 8 (drop 1 w)))
        × (p.inodes ≡ be_uint (take 8 (drop 17 w)))
        × (export_entry tx v ≡ ok (entry_bytes (take 8 (drop 1 w)) (take 4 (drop 21 w)) p))
  unfolding export_entry load_package read_package
  export_entry-load_package tx v p start h l = elim (Option-cases tx.pkg) [
    | inl e ↦ absurd (ground arith)
    | inr (b, e) ↦ elim (Option-cases tx.path) [
      | inl e1 ↦ absurd (ground arith)
      | inr (b1, e1) ↦ elim (Option-cases tx.header) [
        | inl e2 ↦ absurd (ground arith)
        | inr (b2, e2) ↦ elim (Option-cases tx.sig) [
          | inl e3 ↦ absurd (ground arith)
          | inr (b3, e3) ↦ elim (Option-cases tx.meta) [
            | inl e4 ↦ absurd (ground arith)
            | inr (b4, e4) ↦
                let w = bytes_or_nil (get b (take 32 v)) in
                let long : 25 ≤ length w = ground arith in
                let is : p ≡ stored_package start (take 32 v) w b1 b2 b3 b4 = ground arith in
                (
                  w,
                  long,
                  cc is,
                  cc is,
                  cc is,
                  cc is,
                  rw (is, e, e1, e2, e3, e4, short v 32 l, short w 25 long) refl,
                )
          ]
        ]
      ]
    ]
  ]

  -- An import reads what an export writes for a package that `getPkgTx` finds.
  read_entry-export_entry :
      (tx : Tx) (v : Bytes) (p : Package)
      → load_package tx 0 (take 32 v) ≡ ok p
      → 32 ≤ length v
      → p.inodes < 2 ^ 32
      → Fits p
      → (b : Bytes) × (export_entry tx v ≡ ok b) × Reads read_entry b p
  read_entry-export_entry tx v p h l small fits =
      let (w, long, eh, es, ez, ei, eb) = export_entry-load_package tx v p 0 h l in
      let lh : length p.hash ≡ 32 = ap length eh ∙ length-take 32 v l in
      let low : be_uint (take 4 (drop 21 w)) ≡ p.inodes =
        ap (λ t. be_uint (take 4 t)) (sym (drop_add 17 4 21 w refl))
        ∙ be_uint-low (drop 17 w) (omega (arith, length-drop 17 w)) (omega (arith, ei))
        ∙ sym ei in
      let r =
        read_entry-entry_bytes (take 8 (drop 1 w)) (take 4 (drop 21 w)) p lh
          (length-window 1 8 w (omega arith)) (length-window 21 4 w (omega arith)) fits in
      (_, eb, λ rest. r rest ∙ ap (λ q. ok (q, rest)) (cc (es, ez, low)))

  -- The packages that the entries of an index describe, fit for an export.
  abbrev pub Describes : Tx → List (Bytes × Bytes) → List Package → Type 0
  Describes tx [] [] = Unit {0}
  Describes tx [] (p ∷ ps) = ⊥
  Describes tx (e ∷ es) [] = ⊥
  Describes tx ((k, v) ∷ es) (p ∷ ps) =
      (load_package tx 0 (take 32 v) ≡ ok p)
      × (32 ≤ length v)
      × (p.inodes < 2 ^ 32)
      × Fits p
      × Describes tx es ps

  -- Package after package into the buckets.
  abbrev pub store_all : Tools → List Package → Tx → Result Tx
  store_all tools [] t = ok t
  store_all tools (p ∷ ps) t = store_entry tools p t >>= store_all tools ps

  -- Importing the packages of an export stores them one after the other.
  pub load_entries-export_entries :
      (tools : Tools) (tx : Tx) (es : List (Bytes × Bytes)) (ps : List Package)
      → Describes tx es ps
      → (b : Bytes) × (export_entries tx es ≡ ok b)
        × ((rest : Bytes) (t : Tx)
            → load_entries tools (length es) (b ++ rest) t
              ≡ store_all tools ps t >>= λ u. ok (rest, u))
  unfolding export_entries load_entries
  load_entries-export_entries tools tx [] [] d = ([], refl, λ rest t. refl)
  load_entries-export_entries tools tx [] (p ∷ ps) d = absurd d
  load_entries-export_entries tools tx (e ∷ es) [] d = absurd d
  load_entries-export_entries tools tx ((k, v) ∷ es) (p ∷ ps) (h, l, small, fits, d) =
      let (b, eb, r) = read_entry-export_entry tx v p h l small fits in
      let (c, ec, ih) = load_entries-export_entries tools tx es ps d in
      (
        b ++ c,
        rw (eb, ec) refl,
        λ rest t. rw (append_assoc b c rest) (
            rw (r (c ++ rest)) (elim (Result-cases (store_entry tools p t)) [
              | inl (a, q) ↦ rw q (ih rest a)
              | inr (x, q) ↦ rw q refl
            ])),
      )
