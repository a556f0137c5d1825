-- ===== src/Collate/Order.antt =====
-- The order of the keys that apkgdb/collate.go writes, against the natural order of names of
-- apkgdb/natsort.go.
use apkg.Prelude.{
  ℕ, suc, ◌+◌, ◌-◌, ◌*◌, ◌<◌, ◌≡◌, refl, ◌∙◌, ◌⊎◌, inl, inr, Bool, true, false, not, ◌&&◌, some, [],
  ◌∷◌, ◌++◌, arith, length, All, ltb, ◌==◌, if◌then◌else◌,
}
use apkg.Prelude.Bytes.{Bytes}
use apkg.Prelude.Lex.{bytes_compare, bytes_compare-append_length}
use apkg.Natsort.{is_digit, natsort_compare}
use apkg.Natsort.Natural.{
  num, sym as sym_token, value, tokens_from, tokens, tokens_compare, is_lt, natural_lt,
}
use apkg.Natsort.Digits.{IsDigit, IsRun, value-lt_of_shorter, bytes_compare-value}
use apkg.Natsort.Refines.{natsort_compare-natural}
use apkg.Collate.{collated_version}
use apkg.Collate.Shape.{Collation, done, byte, run, HeadIsByte, Ends, collated_version-Collation}

-- ASCII, no run of more than 33 digits, and no zero before another digit of its run. `n` digits of
-- the current run are read, and `z` says whether the first of them is a zero.
unfoldable pub canonical_from : ℕ → Bool → Bytes → Bool
canonical_from n z [] = true
canonical_from n z (c ∷ v) =
    let first = canonical_from 1 (c == b'0') v in
    let more = canonical_from (n + 1) z v in
    let after = canonical_from 0 false v in
    if is_digit c
    then (if n == 0 then first else not z && (ltb n 33 && more))
    else ltb c 128 && after

abbrev pub IsCanonical : Bytes → Type 0
IsCanonical v = canonical_from 0 false v ≡ true

record RunIsCanonical (n : ℕ) (z : Bool) (ds v : Bytes) : Type 0 where
  lead : (ds ≡ []) ⊎ (z ≡ false)
  after : canonical_from (n + length ds) z v ≡ true

run-canonical :
    (n : ℕ) (z : Bool) (ds v : Bytes)
    → 0 < n
    → All IsDigit ds
    → canonical_from n z (ds ++ v) ≡ true
    → RunIsCanonical n z ds v
unfolding canonical_from
run-canonical n z [] v hn hd h = record {
  lead = inl refl;
  after = let e : n + 0 ≡ n = omega arith in rw e h;
}
run-canonical n z (x ∷ ds) v hn hd h =
    let k : RunIsCanonical (n + 1) z ds v =
      run-canonical (n + 1) z ds v (omega arith) hd.1 (ground (arith, hd.0)) in
    let e : n + suc (length ds) ≡ n + 1 + length ds = omega arith in
    record { lead = inr (ground (arith, hd.0)); after = rw e (k.after) }

-- After a whole run the text goes on with a byte, and is canonical by itself.
record RestIsCanonical (d : ℕ) (ds v : Bytes) : Type 0 where
  is_run : IsRun (d ∷ ds)
  head : HeadIsByte v
  rest : IsCanonical v

rest_head :
    (n : ℕ) (z : Bool) (v : Bytes)
    → (n ≡ 33) ⊎ HeadIsByte v
    → 0 < n
    → canonical_from n z v ≡ true
    → HeadIsByte v × IsCanonical v
unfolding canonical_from
rest_head n z [] e hn h = (tt, refl)
rest_head n z (c ∷ v) (inl e) hn h = (ground arith, ground arith)
rest_head n z (c ∷ v) (inr e) hn h = (e, ground arith)

rest_canonical :
    (d : ℕ) (ds v : Bytes)
    → IsDigit d
    → All IsDigit ds
    → Ends ds v
    → IsCanonical (d ∷ (ds ++ v))
    → RestIsCanonical d ds v
unfolding canonical_from
rest_canonical d ds v hd hs en h = record {
  is_run = (hd, hs, leading k.lead);
  head = both.0;
  rest = both.1;
}
  where
    k : RunIsCanonical 1 (d == b'0') ds v
    k = run-canonical 1 (d == b'0') ds v (omega arith) hs (ground (arith, hd))

    leading : (ds ≡ []) ⊎ ((d == b'0') ≡ false) → (ds ≡ []) ⊎ (b'0' < d)
    leading (inl e) = inl e
    leading (inr e) = inr (ground (arith, hd))

    whole : Ends ds v → (1 + length ds ≡ 33) ⊎ HeadIsByte v
    whole (inl e) = inl (omega arith)
    whole (inr e) = inr e

    both : HeadIsByte v × IsCanonical v
    both = rest_head (1 + length ds) (d == b'0') v (whole en) (omega arith) k.after

-- A run and what follows it, as tokens.
tokens_of_digits :
    (n : ℕ) (ds v : Bytes)
    → All IsDigit ds
    → HeadIsByte v
    → tokens_from (some n) (ds ++ v) ≡ num (value n ds) ∷ tokens v
unfolding tokens_from value
tokens_of_digits n [] [] hd h = refl
tokens_of_digits n [] (c ∷ v) hd h = ground arith
tokens_of_digits n (x ∷ ds) v hd h =
    ground (arith, hd.0, tokens_of_digits (n * 10 + (x - b'0')) ds v hd.1 h)

-- The two orders agree on what one round of the comparison sees.
abbrev Agree : Bytes → Bytes → Bytes → Bytes → Type 0
Agree a b s t = bytes_compare s t ≡ tokens_compare (tokens a) (tokens b)

run_tokens :
    (d : ℕ) (ds v : Bytes)
    → RestIsCanonical d ds v
    → tokens (d ∷ (ds ++ v)) ≡ num (value 0 (d ∷ ds)) ∷ tokens v
unfolding tokens_from value
run_tokens d ds v k = rw k.is_run.0 (tokens_of_digits (0 + (d - b'0')) ds v k.is_run.1 k.head)

byte_tokens : (c : ℕ) (v : Bytes) → is_digit c ≡ false → tokens (c ∷ v) ≡ sym_token c ∷ tokens v
unfolding tokens_from
byte_tokens c v h = rw h

byte-IsCanonical :
    (c : ℕ) (v : Bytes) → is_digit c ≡ false → IsCanonical (c ∷ v) → (c < 128) × IsCanonical v
unfolding canonical_from
byte-IsCanonical c v h k = (ground arith, ground arith)

bytes-Agree :
    (c d : ℕ) (v w r q : Bytes)
    → is_digit c ≡ false
    → is_digit d ≡ false
    → Agree v w r q
    → Agree (c ∷ v) (d ∷ w) (c ∷ r) (d ∷ q)
unfolding tokens_compare
bytes-Agree c d v w r q h h' k = rw (byte_tokens c v h, byte_tokens d w h') (ground (arith, k))

byte_run-Agree :
    (c : ℕ) (v r : Bytes) (d : ℕ) (ds w q : Bytes)
    → is_digit c ≡ false
    → c < 128
    → RestIsCanonical d ds w
    → Agree (c ∷ v) (d ∷ (ds ++ w)) (c ∷ r) ((0x80 + length ds) ∷ d ∷ (ds ++ q))
unfolding tokens_compare
byte_run-Agree c v r d ds w q h lt k = rw (byte_tokens c v h, run_tokens d ds w k) (ground arith)

run_byte-Agree :
    (d : ℕ) (ds w q : Bytes) (c : ℕ) (v r : Bytes)
    → is_digit c ≡ false
    → c < 128
    → RestIsCanonical d ds w
    → Agree (d ∷ (ds ++ w)) (c ∷ v) ((0x80 + length ds) ∷ d ∷ (ds ++ q)) (c ∷ r)
unfolding tokens_compare
run_byte-Agree d ds w q c v r h lt k = rw (byte_tokens c v h, run_tokens d ds w k) (ground arith)

runs-Agree :
    (d : ℕ) (ds v r : Bytes) (e : ℕ) (es w q : Bytes)
    → RestIsCanonical d ds v
    → RestIsCanonical e es w
    → Agree v w r q
    → Agree
        (d ∷ (ds ++ v))
        (e ∷ (es ++ w))
        ((0x80 + length ds) ∷ d ∷ (ds ++ r))
        ((0x80 + length es) ∷ e ∷ (es ++ q))
unfolding tokens_compare
runs-Agree d ds v r e es w q k k' ih =
    rw (run_tokens d ds v k, run_tokens e es w k')
      (ground (
        arith,
        ih,
        value-lt_of_shorter (d ∷ ds) (e ∷ es) k.is_run k'.is_run,
        value-lt_of_shorter (e ∷ es) (d ∷ ds) k'.is_run k.is_run,
        bytes_compare-value 0 (d ∷ ds) (e ∷ es) (k.is_run.0, k.is_run.1) (k'.is_run.0, k'.is_run.1),
        bytes_compare-append_length (d ∷ ds) (e ∷ es) r q,
      ))

Collation-Agree :
    {a b s t : Bytes}
    → Collation a s
    → Collation b t
    → IsCanonical a
    → IsCanonical b
    → Agree a b s t
Collation-Agree done done x y = unfold tokens_from tokens_compare in refl
Collation-Agree done (byte {c} {v} h k) x y =
    rw (byte_tokens c v h) (unfold tokens_from tokens_compare in refl)
Collation-Agree done (run d ds v r hd hs le en k ew es) x y =
    rw (ew, es, run_tokens d ds v (rest_canonical d ds v hd hs en (rw ew at y)))
      (unfold tokens_from tokens_compare in refl)
Collation-Agree (byte {c} {v} h k) done x y =
    rw (byte_tokens c v h) (unfold tokens_from tokens_compare in refl)
Collation-Agree (byte {c} {v} {r} h k) (byte {c = d} {v = w} {r = q} h' k') x y =
    bytes-Agree c d v w r q h h'
      (Collation-Agree k k' (byte-IsCanonical c v h x).1 (byte-IsCanonical d w h' y).1)
Collation-Agree (byte {c} {v} {r} h k) (run d ds w q hd hs le en k' ew es) x y =
    rw (ew, es)
      (byte_run-Agree c v r d ds w q h (byte-IsCanonical c v h x).0
        (rest_canonical d ds w hd hs en (rw ew at y)))
Collation-Agree (run d ds v r hd hs le en k ew es) done x y =
    rw (ew, es, run_tokens d ds v (rest_canonical d ds v hd hs en (rw ew at x)))
      (unfold tokens_from tokens_compare in refl)
Collation-Agree (run d ds w q hd hs le en k' ew es) (byte {c} {v} {r} h k) x y =
    rw (ew, es)
      (run_byte-Agree d ds w q c v r h (byte-IsCanonical c v h y).0
        (rest_canonical d ds w hd hs en (rw ew at x)))
Collation-Agree (run d ds v r hd hs le en k ew es) (run d' ds' v' r' hd' hs' le' en' k' ew' es') x
      y =
    let m = rest_canonical d ds v hd hs en (rw ew at x) in
    let m' = rest_canonical d' ds' v' hd' hs' en' (rw ew' at y) in
    rw (ew, es, ew', es')
      (runs-Agree d ds v r d' ds' v' r' m m' (Collation-Agree k k' m.rest m'.rest))

-- On canonical names the byte order of the keys is the natural order, as `natsortCompare` decides it.
pub collated_version-order :
    (a b : Bytes)
    → IsCanonical a
    → IsCanonical b
    → natsort_compare a b ≡ some (is_lt (bytes_compare (collated_version a) (collated_version b)))
unfolding natural_lt
collated_version-order a b x y =
    natsort_compare-natural a b
    ∙ rw (Collation-Agree (collated_version-Collation a) (collated_version-Collation b) x y)
