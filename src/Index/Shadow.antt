-- ===== src/Index/Shadow.antt =====
-- When the cursor of apkgdb/lookup.go finds a version that is there, and when it does not.
use apkg.Prelude.{
  ℕ, ◌≤◌, ◌<◌, ◌≡◌, ◌≢◌, refl, inl, inr, true, false, none, some, [], ◌∷◌, ◌++◌, arith, length,
  Ordering, Option-cases, append_assoc,
}
use apkg.Prelude.Bytes.{Bytes, has_prefix, has_prefix→append}
use apkg.Prelude.Lex.{bytes_compare, bytes_compare-append, bytes_compare-lt_trans, bytes_compare-eq}
use apkg.Errors.{ok}
use apkg.Natsort.{is_digit}
use apkg.Collate.{collated_version}
use apkg.Bolt.{Bolt}
use apkg.Index.{entry_name, match_entry, seek_version}
use apkg.Index.Newest.{IsIndexed, Indexed, Versions, key-byte, below_cursor}

-- The key of a version does not lie before the key of the name and a dot.
from_dot :
    (name m : Bytes) (k : Bytes)
    → has_prefix m (name ++ (b'.' ∷ [])) ≡ true
    → bytes_compare k (collated_version name ++ (b'.' ∷ [])) ≡ Ordering.lt
    → bytes_compare k (collated_version m) ≡ Ordering.lt
from_dot name m k h lt =
    let (r, e) = has_prefix→append m (name ++ (b'.' ∷ [])) h in
    rw (e, append_assoc name (b'.' ∷ []) r, key-byte b'.' name r refl)
      (ground (
        arith,
        lt,
        bytes_compare-append (collated_version name) (b'.' ∷ []) (b'.' ∷ collated_version r),
        bytes_compare-lt_trans k (collated_version name ++ (b'.' ∷ []))
            (collated_version name ++ (b'.' ∷ collated_version r)),
        bytes_compare-eq (collated_version name ++ (b'.' ∷ []))
            (collated_version name ++ (b'.' ∷ collated_version r)),
      ))

found_match :
    (name k v : Bytes)
    → 40 ≤ length v
    → Versions name v
    → match_entry name (some (k, v)) ≡ ok (some v)
unfolding match_entry
found_match name k v h p = ground arith

no_match :
    (name k v : Bytes)
    → 40 ≤ length v
    → ¬ Versions name v
    → match_entry name (some (k, v)) ≡ ok none
unfolding match_entry
no_match name k v h p = ground arith

module _ ⦃bolt : Bolt⦄ where
  open bolt use {
    Bucket, get, seek_prev, seek_prev-get, seek_prev-lt, seek_prev-last, seek_prev-none,
  }

  -- No package of another name has its key from `name.` on and before the cursor's key.
  abbrev pub Unshadowed : Bucket → Bytes → Type 0
  Unshadowed b name =
      (x : Bytes)
      → Indexed b x
      → bytes_compare (collated_version (entry_name x)) (collated_version name ++ (0xff ∷ []))
        ≡ Ordering.lt
      → bytes_compare (collated_version (entry_name x)) (collated_version name ++ (b'.' ∷ []))
        ≢ Ordering.lt
      → Versions name x

  -- In an index in order, where nothing shadows the name and some version of it is indexed, the cursor
  -- finds a version.
  pub seek_version-finds :
      (b : Bucket) (name w : Bytes)
      → IsIndexed b
      → Unshadowed b name
      → Indexed b w
      → Versions name w
      → (v : Bytes) × (seek_version b name ≡ ok (some v))
  unfolding seek_version
  seek_version-finds b name w ix clear iw pw =
      elim (Option-cases (seek_prev b (collated_version name ++ (0xff ∷ [])))) [
        | inl e ↦ absurd (seek_prev-none b _ _ w e iw (below_cursor name (entry_name w) pw))
        | inr ((k, v), e) ↦
            let g = seek_prev-get b _ k v e in
            let same : k ≡ collated_version (entry_name v) = ix.keyed k v g in
            let p : Versions name v =
              clear v (rw same at g) (rw same at (seek_prev-lt b _ k v e)) (λ early.
                seek_prev-last b _ k v _ w e iw (below_cursor name (entry_name w) pw)
                  (from_dot name (entry_name w) k pw (rw (← same) at early))) in
            (v, rw e (found_match name k v (ix.long k v g) p))
      ]

  -- In an index in order, a package whose name continues the name asked for by an ASCII byte behind the dot that is no
  -- digit, such as a letter, hides every version: the cursor finds nothing.
  pub seek_version-shadowed :
      (b : Bucket) (name x rest : Bytes) (c : ℕ)
      → IsIndexed b
      → Indexed b x
      → entry_name x ≡ name ++ (c ∷ rest)
      → b'.' < c
      → c < 0x80
      → is_digit c ≡ false
      → seek_version b name ≡ ok none
  unfolding seek_version
  seek_version-shadowed b name x rest c ix ixx e lo hi hd =
      let kx : collated_version (entry_name x)
          ≡ collated_version name ++ (c ∷ collated_version rest) =
        rw e (key-byte c name rest hd) in
      let below : bytes_compare (collated_version (entry_name x))
            (collated_version name ++ (0xff ∷ []))
          ≡ Ordering.lt =
        rw (kx, bytes_compare-append) (ground arith) in
      elim (Option-cases (seek_prev b (collated_version name ++ (0xff ∷ [])))) [
        | inl n ↦ absurd (seek_prev-none b _ _ x n ixx below)
        | inr ((k, v), n) ↦
            let g = seek_prev-get b _ k v n in
            let same : k ≡ collated_version (entry_name v) = ix.keyed k v g in
            rw n (
              no_match name k v (ix.long k v g) (λ p.
                seek_prev-last b _ k v _ x n ixx below
                  (rw (same, kx) (before_byte name (entry_name v) p c rest lo))))
      ]
    where
      before_byte :
          (name m : Bytes)
          → has_prefix m (name ++ (b'.' ∷ [])) ≡ true
          → (c : ℕ) (rest : Bytes) → b'.' < c
          → bytes_compare
              (collated_version m)
              (collated_version name ++ (c ∷ collated_version rest))
            ≡ Ordering.lt
      before_byte name m h c rest lo =
          let (r, e) = has_prefix→append m (name ++ (b'.' ∷ [])) h in
          rw (e, append_assoc name (b'.' ∷ []) r, key-byte b'.' name r refl, bytes_compare-append)
            (ground arith)
