-- ===== src/Export/Pins.antt =====
-- The pins of an exported file, read by `index` of apkgdb/index.go.
use apkg.Prelude.{
  ℕ, zero, suc, ◌≤◌, ◌<◌, ◌≡◌, refl, ap, sym, ◌∙◌, inl, inr, some, List, [], ◌∷◌, ◌++◌, length,
  take, drop, arith, append_assoc, length-append,
}
use apkg.Prelude.Bytes.{Bytes, index_byte, index_byte-split}
use apkg.Prelude.Map.{be_uint_from}
use apkg.Errors.{Result, ok, ◌>>=◌, Result-cases}
use apkg.Bolt.{Bolt}
use apkg.Db.{Tx, create, put_in}
use apkg.Pin.{pin_key}
use apkg.Sig.{write_varblob}
use apkg.Format.RoundTrip.{Reads, read_be-Reads, read_varblob-Reads}
use apkg.Import.{read_pin, store_pin, load_pins, all_pins}
use apkg.Import.Pins.{load_pins-step}
use apkg.Export.{export_pin, export_pins}

-- A key with a zero byte at `n`, whose parts and value have the sizes that the import accepts.
pub record PinFits (k v : Bytes) : Type 0 where
  pub sep : ℕ
  pub sep_is : index_byte k 0 ≡ some sep
  pub channel : length (take sep k) ≤ 256
  pub prefix : length (drop (suc sep) k) ≤ 256
  pub version : length v ≤ 256

read_pin-export_pin :
    (k v : Bytes) (f : PinFits k v)
    → Reads read_pin
        (export_pin k v)
        (record { channel = take f.sep k; prefix = drop (suc f.sep) k; version = v })
unfolding read_pin export_pin be_uint_from
read_pin-export_pin k v f rest =
    let r3 = write_varblob v ++ rest in
    let r2 = write_varblob (drop (suc f.sep) k) ++ r3 in
    let r1 = write_varblob (take f.sep k) ++ r2 in
    let split : export_pin k v ++ rest ≡ (1 ∷ []) ++ r1 = rw f.sep_is (simp append_assoc) in
    let e0 = read_be-Reads 1 (1 ∷ []) refl r1 in
    let e1 = read_varblob-Reads (take f.sep k) 256 f.channel (omega arith) r2 in
    let e2 = read_varblob-Reads (drop (suc f.sep) k) 256 f.prefix (omega arith) r3 in
    let e3 = read_varblob-Reads v 256 f.version (omega arith) rest in
    ap read_pin split ∙ rw (e0, e1, e2, e3) refl

abbrev pub PinsFit : List (Bytes × Bytes) → Type 0
PinsFit [] = Unit {0}
PinsFit ((k, v) ∷ es) = PinFits k v × PinsFit es

module _ ⦃bolt : Bolt⦄ where
  abbrev put_pin : Bytes → Bytes → Tx → Result Tx
  put_pin k v t = do b ← put_in (create t.pins) k v; ok (record t { pins = some b })

  -- Pin after pin into the bucket.
  abbrev pub put_pins : List (Bytes × Bytes) → Tx → Result Tx
  put_pins [] t = ok t
  put_pins ((k, v) ∷ es) t = put_pin k v t >>= put_pins es

  -- The key of a pin that was read is the key that was exported.
  store_pin-key :
      (k v : Bytes) (f : PinFits k v) (t : Tx)
      → store_pin (record { channel = take f.sep k; prefix = drop (suc f.sep) k; version = v }) t
        ≡ put_pin k v t
  unfolding store_pin pin_key
  store_pin-key k v f t = ap (λ j. put_pin j v t) (sym (index_byte-split k 0 f.sep f.sep_is))

  load_pins-export_pins :
      (fuel : ℕ) (es : List (Bytes × Bytes)) (t : Tx)
      → PinsFit es
      → length (export_pins es) < fuel
      → load_pins fuel (export_pins es) t ≡ some (put_pins es t)
  unfolding export_pins export_pin load_pins
  load_pins-export_pins zero es t fits h = absurd (omega arith)
  load_pins-export_pins (suc fuel) [] t fits h = refl
  load_pins-export_pins (suc fuel) ((k, v) ∷ es) t (f, fits) h =
      let e = read_pin-export_pin k v f (export_pins es) in
      let l : length (export_pins es) < fuel =
        omega (arith, length-append (export_pin k v) (export_pins es)) in
      elim (Result-cases (put_pin k v t)) [
        | inr (x, q) ↦ rw (e, load_pins) (rw (store_pin-key k v f t, q) refl)
        | inl (u, q) ↦
            load_pins-step fuel _ (export_pins es) 1 _ t u e (store_pin-key k v f t ∙ q)
            ∙ load_pins-export_pins fuel es u fits l
            ∙ rw q refl
      ]

  -- Importing the pins of an export puts each of them back under its key.
  pub all_pins-export_pins :
      (es : List (Bytes × Bytes)) (t : Tx)
      → PinsFit es
      → all_pins (export_pins es) t ≡ put_pins es t
  unfolding all_pins
  all_pins-export_pins es t fits =
      rw (load_pins-export_pins (suc (length (export_pins es))) es t fits (omega arith), all_pins)
        refl
