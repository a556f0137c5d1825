-- ===== src/Collate/Split.antt =====
-- How the keys of apkgdb/collate.go are put together: the key of `name + "." + rest` and the key of
-- `name`.
use apkg.Prelude.{
  ℕ, zero, suc, ◌+◌, ◌≤◌, ◌≡◌, refl, ap, sym, ◌∙◌, ◌⊎◌, inl, inr, false, [], ◌∷◌, ◌++◌, arith,
  length, All, append_assoc,
}
use apkg.Prelude.Bytes.{Bytes}
use apkg.Natsort.{is_digit}
use apkg.Natsort.Digits.{IsDigit}
use apkg.Collate.{collated_version}
use apkg.Collate.Shape.{Collation, done, byte, run, HeadIsByte, Ends, collated_version-Collation}

-- One run of digits cannot be cut in two ways.
same_run :
    (k : ℕ) (ds es v w : Bytes)
    → All IsDigit ds
    → All IsDigit es
    → length ds ≤ k
    → length es ≤ k
    → (length ds ≡ k) ⊎ HeadIsByte v
    → (length es ≡ k) ⊎ HeadIsByte w
    → ds ++ v ≡ es ++ w
    → (ds ≡ es) × (v ≡ w)
same_run k [] [] v w hd he ld le ed ee e = (refl, e)
same_run k [] (y ∷ es) [] w hd he ld le ed ee e = (cc, cc)
same_run k [] (y ∷ es) (x ∷ v) w hd he ld le (inl z) ee e = absurd (omega arith)
same_run k [] (y ∷ es) (x ∷ v) w hd he ld le (inr z) ee e = (cc (he.0), cc (he.0))
same_run k (x ∷ ds) [] v [] hd he ld le ed ee e = (cc, cc)
same_run k (x ∷ ds) [] v (y ∷ w) hd he ld le ed (inl z) e = absurd (omega arith)
same_run k (x ∷ ds) [] v (y ∷ w) hd he ld le ed (inr z) e = (cc (hd.0), cc (hd.0))
same_run zero (x ∷ ds) (y ∷ es) v w hd he ld le ed ee e = absurd (omega arith)
same_run (suc k) (x ∷ ds) (y ∷ es) v w hd he ld le ed ee e =
    let (p, q) =
      same_run k ds es v w hd.1 he.1 (omega arith) (omega arith) (fewer ds v ed) (fewer es w ee)
        (cc e) in
    (cc (p, e), q)
  where
    fewer :
        (fs : Bytes) (u : Bytes)
        → (suc (length fs) ≡ suc k) ⊎ HeadIsByte u
        → (length fs ≡ k) ⊎ HeadIsByte u
    fewer fs u (inl z) = inl (omega arith)
    fewer fs u (inr z) = inr z

not_digit : {c d : ℕ} {u v : Bytes} → is_digit c ≡ false → IsDigit d → c ∷ u ≡ d ∷ v → ⊥
not_digit h hd e = cc

-- A name has one key.
pub Collation-functional : {a b s t : Bytes} → Collation a s → Collation b t → a ≡ b → s ≡ t
Collation-functional done done e = refl
Collation-functional done (byte h k) e = cc
Collation-functional done (run d ds v r hd hs le en k ew es) e = cc
Collation-functional (byte h k) done e = cc
Collation-functional (byte {c} {v} {r} h k) (byte {c = d} {v = w} {r = q} h' k') e =
    let p : v ≡ w = cc e in ground (arith, Collation-functional k k' p)
Collation-functional (byte {c} {v} {r} h k) (run d ds w q hd hs le en k' ew es) e =
    absurd (not_digit h hd (e ∙ ew))
Collation-functional (run d ds v r hd hs le en k ew es) done e = cc
Collation-functional (run d ds v r hd hs le en k ew es) (byte {c} {v = w} {r = q} h k') e =
    absurd (not_digit h hd (sym e ∙ ew))
Collation-functional (run d ds v r hd hs le en k ew es)
      (run d' ds' v' r' hd' hs' le' en' k' ew' es') e =
    let f : d ∷ (ds ++ v) ≡ d' ∷ (ds' ++ v') = sym ew ∙ e ∙ ew' in
    let g : ds ++ v ≡ ds' ++ v' = cc f in
    let (x, y) = same_run 32 ds ds' v v' hs hs' le le' en en' g in
    cc (es, es', x, f, Collation-functional k k' y)

Ends-append : (ds v b : Bytes) → Ends ds v → HeadIsByte b → Ends ds (v ++ b)
Ends-append ds v b (inl e) h = inl e
Ends-append ds [] b (inr e) h = inr h
Ends-append ds (c ∷ v) b (inr e) h = inr e

Collation-append :
    {a s : Bytes} (b t : Bytes)
    → Collation a s
    → HeadIsByte b
    → Collation b t
    → Collation (a ++ b) (s ++ t)
Collation-append b t done h k = k
Collation-append b t (byte x y) h k = byte x (Collation-append b t y h k)
Collation-append b t (run d ds v r hd hs le en y ew es) h k =
    run d ds (v ++ b) (r ++ t) hd hs le (Ends-append ds v b en h) (Collation-append b t y h k)
      (rw ew (ap (◌∷◌ d) (append_assoc ds v b)))
      (rw es (ap (λ z. (0x80 + length ds) ∷ d ∷ z) (append_assoc ds r t)))

-- Before a byte that is no digit the key splits.
pub collated_version-append :
    (a b : Bytes)
    → HeadIsByte b
    → collated_version (a ++ b) ≡ collated_version a ++ collated_version b
collated_version-append a b h =
    Collation-functional (collated_version-Collation (a ++ b))
      (Collation-append b (collated_version b) (collated_version-Collation a) h
        (collated_version-Collation b))
      refl
