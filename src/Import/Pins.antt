-- ===== src/Import/Pins.antt =====
-- The loop over the pins of apkgdb/index.go, which the end of the data ends.
use apkg.Prelude.{
  ℕ, zero, suc, ◌+◌, ◌<◌, ◌≡◌, refl, ap, ◌∙◌, inl, inr, some, [], ◌∷◌, arith, length, ◌==◌,
}
use apkg.Prelude.Bytes.{Bytes}
use apkg.Errors.{Result, ok, err, bind-ok, Result-cases}
use apkg.Bolt.{Bolt}
use apkg.Db.{Tx}
use apkg.Sig.{read_full, read_varblob}
use apkg.Sig.Shorter.{read_full-rest, read_varblob-rest}
use apkg.Format.{guard, read_be}
use apkg.Import.{PinEntry, read_pin, store_pin, load_pins}

read_be-rest :
    (n : ℕ) (r : Bytes) (t : ℕ) (rest : Bytes)
    → read_be n r ≡ ok (t, rest)
    → length r ≡ n + length rest
unfolding read_be
read_be-rest n r t rest h =
    let ((a, r'), e, g) = bind-ok (read_full n r) _ _ h in
    let q = read_full-rest n r a r' e in ground arith

-- A pin takes at least its first byte.
read_pin-rest :
    (r : Bytes) (e : PinEntry) (rest : Bytes) → read_pin r ≡ ok (e, rest) → length rest < length r
unfolding read_pin
read_pin-rest r e rest h =
    let ((t, r1), e1, h1) = bind-ok (read_be 1 r) _ _ h in
    let (u, e2, h2) = bind-ok (guard (t == 1) _) _ _ h1 in
    let ((c, r2), e3, h3) = bind-ok (read_varblob r1 256) _ _ h2 in
    let ((p, r3), e4, h4) = bind-ok (read_varblob r2 256) _ _ h3 in
    let ((v, r4), e5, h5) = bind-ok (read_varblob r3 256) _ _ h4 in
    let l1 = read_be-rest 1 r t r1 e1 in
    let l2 = read_varblob-rest r1 256 c r2 e3 in
    let l3 = read_varblob-rest r2 256 p r3 e4 in
    let l4 = read_varblob-rest r3 256 v r4 e5 in
    let same : r4 ≡ rest = ground arith in omega (arith, ap length same)

module _ ⦃bolt : Bolt⦄ where
  -- A round that reads a pin and stores it.
  pub load_pins-step :
      (fuel : ℕ) (r rest : Bytes) (t : ℕ) (p : PinEntry) (tx u : Tx)
      → read_pin (t ∷ r) ≡ ok (p, rest)
      → store_pin p tx ≡ ok u
      → load_pins (suc fuel) (t ∷ r) tx ≡ load_pins fuel rest u
  unfolding load_pins
  load_pins-step fuel r rest t p tx u e e' = rw (e, load_pins) (rw e' refl)

  -- The loop over the pins ends: with more rounds than the data has bytes it never runs out of them,
  -- whatever the bytes are and whatever the bucket answers.
  pub load_pins-ends :
      (fuel : ℕ) (r : Bytes) (tx : Tx)
      → length r < fuel
      → (result : Result Tx) × (load_pins fuel r tx ≡ some result)
  unfolding load_pins
  load_pins-ends zero r tx h = absurd (omega arith)
  load_pins-ends (suc fuel) [] tx h = (ok tx, refl)
  load_pins-ends (suc fuel) (t ∷ r) tx h = elim (Result-cases (read_pin (t ∷ r))) [
    | inr (x, e) ↦ (err x, rw (e, load_pins) refl)
    | inl ((p, rest), e) ↦ elim (Result-cases (store_pin p tx)) [
      | inr (x, e') ↦ (err x, rw (e, load_pins) (rw e' refl))
      | inl (u, e') ↦
          let (result, ih) =
            load_pins-ends fuel rest u (omega (arith, read_pin-rest (t ∷ r) p rest e)) in
          (result, load_pins-step fuel r rest t p tx u e e' ∙ ih)
    ]
  ]
