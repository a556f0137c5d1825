-- ===== src/Index/Newest.antt =====
-- Which entry the cursor of apkgdb/lookup.go finds.
use apkg.Prelude.{
  ℕ, ◌≤◌, ◌≡◌, ◌≢◌, refl, ap, ◌∙◌, true, false, Option, none, some, [], ◌∷◌, ◌++◌, arith, length,
  Ordering, append_assoc,
}
use apkg.Prelude.Bytes.{Bytes, has_prefix, has_prefix→append}
use apkg.Prelude.Lex.{bytes_compare, bytes_compare-append}
use apkg.Errors.{ok}
use apkg.Natsort.{is_digit, natsort_compare}
use apkg.Collate.{collated_version}
use apkg.Collate.Shape.{byte, collated_version-Collation}
use apkg.Collate.Split.{Collation-functional, collated_version-append}
use apkg.Collate.Order.{IsCanonical, collated_version-order}
use apkg.Bolt.{Bolt}
use apkg.Index.{entry_name, match_entry, seek_version}

-- A name that goes on with a byte that is no digit has the key of its front, the byte, and the rest.
pub key-byte :
    (c : ℕ) (name rest : Bytes)
    → is_digit c ≡ false
    → collated_version (name ++ (c ∷ rest)) ≡ collated_version name ++ (c ∷ collated_version rest)
key-byte c name rest h =
    collated_version-append name (c ∷ rest) h
    ∙ ap (◌++◌ (collated_version name)) (
        Collation-functional (collated_version-Collation (c ∷ rest))
          (byte h (collated_version-Collation rest)) refl)

-- So a version of the name lies below the cursor's key.
pub below_cursor :
    (name m : Bytes)
    → has_prefix m (name ++ (b'.' ∷ [])) ≡ true
    → bytes_compare (collated_version m) (collated_version name ++ (0xff ∷ [])) ≡ Ordering.lt
below_cursor name m h =
    let (r, e) = has_prefix→append m (name ++ (b'.' ∷ [])) h in
    rw (e, append_assoc name (b'.' ∷ []) r, key-byte b'.' name r refl)
      (bytes_compare-append (collated_version name) (b'.' ∷ collated_version r) (0xff ∷ []))

-- The package with this value has a name that continues `name` behind a dot.
abbrev pub Versions : Bytes → Bytes → Type 0
Versions name v = has_prefix (entry_name v) (name ++ (b'.' ∷ [])) ≡ true

module _ ⦃bolt : Bolt⦄ where
  open bolt use {
    Bucket, get, seek_prev, seek_prev-get, seek_prev-lt, seek_prev-last, seek_prev-none,
  }

  -- Every entry is long enough, and stands under the key of its name.
  pub record IsIndexed (b : Bucket) : Type 0 where
    pub long : (k v : Bytes) → get b k ≡ some v → 40 ≤ length v
    pub keyed : (k v : Bytes) → get b k ≡ some v → k ≡ collated_version (entry_name v)

  -- The package with this value is in the index.
  abbrev pub Indexed : Bucket → Bytes → Type 0
  Indexed b v = get b (collated_version (entry_name v)) ≡ some v

  found_entry :
      (name : Bytes) (o : Option (Bytes × Bytes)) (v : Bytes)
      → match_entry name o ≡ ok (some v)
      → (k : Bytes) × (o ≡ some (k, v)) × Versions name v
  unfolding match_entry
  found_entry name none v h = absurd (ground arith)
  found_entry name (some (k, w)) v h = (k, ground arith, ground arith)

  -- In an index in order, what the cursor returns is an indexed version of the name asked for, and no
  -- indexed version of that name has a later key.
  pub seek_version-newest :
      (b : Bucket) (name v : Bytes)
      → IsIndexed b
      → seek_version b name ≡ ok (some v)
      → Indexed b v
        × Versions name v
        × ((w : Bytes)
            → Indexed b w
            → Versions name w
            → bytes_compare (collated_version (entry_name v)) (collated_version (entry_name w))
              ≢ Ordering.lt)
  unfolding seek_version
  seek_version-newest b name v ix h =
      let (k, e, p) = found_entry name _ v h in
      let g = seek_prev-get b _ k v e in
      let same : k ≡ collated_version (entry_name v) = ix.keyed k v g in
      (
        rw same at g,
        p,
        λ w iw pw. rw same at (
            seek_prev-last b _ k v (collated_version (entry_name w)) w e iw
              (below_cursor name (entry_name w) pw)),
      )

  -- In an index in order, if the cursor returns an entry with a canonical name, no indexed version of
  -- the name with a canonical name comes after it in natural order.
  pub seek_version-natural :
      (b : Bucket) (name v w : Bytes)
      → IsIndexed b
      → seek_version b name ≡ ok (some v)
      → IsCanonical (entry_name v)
      → Indexed b w
      → Versions name w
      → IsCanonical (entry_name w)
      → natsort_compare (entry_name v) (entry_name w) ≡ some false
  seek_version-natural b name v w ix h cv iw pw cw =
      let (_, _, last) = seek_version-newest b name v ix h in
      collated_version-order (entry_name v) (entry_name w) cv cw ∙ ground (arith, last w iw pw)
