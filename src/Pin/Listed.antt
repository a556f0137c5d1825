-- ===== src/Pin/Listed.antt =====
-- That `ListPins` of apkgdb/pin.go shows the pins which `GetPin` reads one by one.
use apkg.Prelude.{
  ◌≡◌, ◌≢◌, refl, ap, inl, inr, true, false, Option, none, some, List, [], ◌∷◌, ◌++◌, arith, All,
  Ordering, Option-cases, Bool-cases, length, drop, drop-length-append,
}
use apkg.Prelude.Bytes.{
  Bytes, bytes_eq, bytes_eq→eq, has_prefix, has_prefix-append, has_prefix→append,
}
use apkg.Prelude.Lex.{bytes_compare, bytes_compare_refl}
use apkg.Prelude.Map.{lookup, insert, lookup-insert}
use apkg.Bolt.{Bolt}
use apkg.Bolt.Cursor.{IsAscending, IsCursor}
use apkg.Db.{File, bytes_or_nil}
use apkg.Pin.{pin_key, get_pin, list_loop, list_pins}

-- What stands between a front and its continuation goes on from that front.
bytes_compare-between :
    (k p r : Bytes)
    → bytes_compare k p ≢ Ordering.lt
    → bytes_compare k (p ++ r) ≡ Ordering.lt
    → has_prefix k p ≡ true
bytes_compare-between k [] r from below = refl
bytes_compare-between [] (y ∷ p) r from below = absurd (from refl)
bytes_compare-between (x ∷ k) (y ∷ p) r from below = ground (arith, bytes_compare-between k p r)

bytes_compare-append_above : (p r : Bytes) → bytes_compare (p ++ r) p ≢ Ordering.lt
bytes_compare-append_above [] [] = λ h. cc
bytes_compare-append_above [] (x ∷ r) = λ h. cc
bytes_compare-append_above (x ∷ p) r = ground (arith, bytes_compare-append_above p r)

pin_key-append : (channel prefix : Bytes) → (channel ++ (0 ∷ [])) ++ prefix ≡ pin_key channel prefix
unfolding pin_key
pin_key-append [] prefix = refl
pin_key-append (x ∷ channel) prefix = ap (λ l. x ∷ l) (pin_key-append channel prefix)

lookup-above :
    (k i : Bytes) (l : List (Bytes × Bytes))
    → All (λ e. bytes_compare k e.0 ≡ Ordering.lt) l
    → bytes_compare k i ≢ Ordering.lt
    → lookup i l ≡ none
unfolding lookup
lookup-above k i [] above at = refl
lookup-above k i ((j, v) ∷ l) above at =
    ground (arith, above.0, lookup-above k i l above.1, bytes_eq→eq j i)

bytes_eq-append : (p a b : Bytes) → bytes_eq (p ++ a) (p ++ b) ≡ bytes_eq a b
bytes_eq-append [] a b = refl
bytes_eq-append (x ∷ p) a b = ground (arith, bytes_eq-append p a b)

-- The loop over ascending keys that are not below the front puts all of them that go on from it.
lookup-list_loop :
    (pfx p : Bytes) (l m : List (Bytes × Bytes))
    → IsAscending l
    → All (λ e. bytes_compare e.0 pfx ≢ Ordering.lt) l
    → lookup p (list_loop pfx l m)
      ≡ elim (lookup (pfx ++ p) l) [ some v ↦ some v | none ↦ lookup p m ]
unfolding lookup list_loop
lookup-list_loop pfx p [] m ascending from = refl
lookup-list_loop pfx p ((k, v) ∷ l) m (above, ascending) (at, from) =
    elim (Bool-cases (has_prefix k pfx)) [
      | inl e ↦
          let (r, same) = has_prefix→append k pfx e in
          let cut : drop (length pfx) k ≡ r = rw same (drop-length-append pfx r) in
          let key : bytes_eq k (pfx ++ p) ≡ bytes_eq r p = rw same (bytes_eq-append pfx r p) in
          let not_below : k ≡ pfx ++ r
              → bytes_eq r p ≡ true
              → bytes_compare k (pfx ++ p) ≢ Ordering.lt =
            λ s h. ground (arith, s, bytes_eq→eq r p h, bytes_compare_refl (pfx ++ p)) in
          let past : bytes_eq r p ≡ true → lookup (pfx ++ p) l ≡ none =
            λ h. lookup-above k (pfx ++ p) l above (not_below same h) in
          ground (
            arith,
            e,
            cut,
            key,
            past,
            lookup-insert r p v m,
            lookup-list_loop pfx p l (insert r v m) ascending from,
          )
      | inr e ↦
          let below : bytes_compare k (pfx ++ p) ≢ Ordering.lt =
            ground (arith, bytes_compare-between k pfx p at, e) in
          let other : bytes_eq k (pfx ++ p) ≡ false =
            ground (arith, bytes_eq→eq k (pfx ++ p), has_prefix-append pfx p, e) in
          ground (arith, e, other, lookup-above k (pfx ++ p) l above below)
    ]

-- What is read of a map of Go, which may be nil.
abbrev pub listed : Option (List (Bytes × Bytes)) → List (Bytes × Bytes)
listed none = []
listed (some m) = m

module _ ⦃bolt : Bolt⦄ (seek : bolt.Bucket → Bytes → List (Bytes × Bytes))
    (cursor : IsCursor seek) where
  -- The map that `ListPins` makes for a channel has at every prefix what `GetPin` returns for that
  -- channel and prefix, the empty string where there is no pin. So it is for an open database
  -- and a closed one.
  pub list_pins-get_pin :
      (channel prefix : Bytes) (f : File)
      → bytes_or_nil (lookup prefix (listed (list_pins seek channel f))) ≡ get_pin channel prefix f
  unfolding list_pins get_pin lookup
  list_pins-get_pin channel prefix f = elim (Option-cases f.tx.pins) [
    | inl e ↦ ground (arith, e)
    | inr (b, e) ↦
        let pfx = channel ++ (0 ∷ []) in
        let read =
          lookup-list_loop pfx prefix (seek b pfx) [] (cursor.ascending b pfx)
            (cursor.from b pfx) in
        let held = cursor.holds b pfx (pfx ++ prefix) in
        let above = bytes_compare-append_above pfx prefix in
        let same = pin_key-append channel prefix in
        let there : lookup (pfx ++ prefix) (seek b pfx) ≡ bolt.get b (pin_key channel prefix) =
          ground (arith, held, above, same) in
        ground (arith, e, read, there)
  ]
