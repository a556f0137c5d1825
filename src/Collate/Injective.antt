-- ===== src/Collate/Injective.antt =====
-- Whether the keys of apkgdb/collate.go tell names apart, on which an exact `Get` and a `Put` of the
-- `p2p` bucket rely.
use apkg.Prelude.{ℕ, ◌+◌, ◌≡◌, ◌≢◌, refl, sym, ◌∙◌, false, ◌∷◌, ◌++◌, arith, length, append-cancel}
use apkg.Prelude.Bytes.{Bytes}
use apkg.Natsort.{is_digit}
use apkg.Natsort.Digits.{IsDigit}
use apkg.Collate.{collated_version}
use apkg.Collate.Shape.{Collation, done, byte, run, HeadIsByte, collated_version-Collation}

-- No key starts with a digit.
head_byte : {v r : Bytes} → Collation v r → HeadIsByte r
head_byte done = tt
head_byte (byte h k) = h
head_byte (run d ds v r hd hs le e k ew es) = rw es (ground arith)

not_digit_first : {v r : Bytes} (d : ℕ) (s : Bytes) → Collation v r → IsDigit d → r ≢ d ∷ s
not_digit_first d s k hd e = let h : is_digit d ≡ false = rw e at (head_byte k) in cc

tails_eq : (c d : ℕ) (r s : Bytes) → c ∷ r ≡ d ∷ s → (c ≡ d) × (r ≡ s)
tails_eq c d r s e = (cc, cc)

lengths_eq : (m n : ℕ) → 0x80 + m ≡ 0x80 + n → m ≡ n
lengths_eq m n e = omega arith

pub Collation-injective : {a b s t : Bytes} → Collation a s → Collation b t → s ≡ t → a ≡ b
Collation-injective done done e = refl
Collation-injective done (byte h k) e = cc
Collation-injective done (run d ds v r hd hs le en k ew es) e = cc
Collation-injective (byte h k) done e = cc
Collation-injective (byte {c} {v} {r} h k) (byte {c = d} {v = w} {r = q} h' k') e =
    let (p, q') = tails_eq c d r q e in ground (arith, Collation-injective k k' q')
Collation-injective (byte {c} {v} {r} h k) (run d ds w q hd hs le en k' ew es) e =
    absurd (not_digit_first d (ds ++ q) k hd (cc))
Collation-injective (run d ds v r hd hs le en k ew es) done e = cc
Collation-injective (run d ds v r hd hs le en k ew es) (byte {c} {v = w} {r = q} h k') e =
    absurd (not_digit_first d (ds ++ r) k' hd (cc))
Collation-injective (run d ds v r hd hs le en k ew es) (run d' ds' v' r' hd' hs' le' en' k' ew' es')
      e =
    let f : (0x80 + length ds) ∷ d ∷ (ds ++ r) ≡ (0x80 + length ds') ∷ d' ∷ (ds' ++ r') =
      sym es ∙ e ∙ es' in
    let (p, f') = tails_eq _ _ (d ∷ (ds ++ r)) (d' ∷ (ds' ++ r')) f in
    let (x, f'') = tails_eq d d' (ds ++ r) (ds' ++ r') f' in
    let (y, z) = append-cancel ds ds' r r' (lengths_eq _ _ p) f'' in
    cc (ew, ew', x, y, Collation-injective k k' z)

-- Two names with the same key are the same name.
pub collated_version-injective : (a b : Bytes) → collated_version a ≡ collated_version b → a ≡ b
collated_version-injective a b e =
    Collation-injective (collated_version-Collation a) (collated_version-Collation b) e
