-- ===== src/Natsort/Order.antt =====
-- The order that `natsortCompare` of apkgdb/natsort.go decides, as `sort.Sort` uses it.
use apkg.Prelude.{◌≡◌, refl, ◌∙◌, ◌↔◌, Bool, true, false, some, List, [], ◌∷◌, arith, Ordering}
use apkg.Prelude.Bytes.{Bytes}
use apkg.Natsort.{natsort_compare}
use apkg.Natsort.Natural.{Token, tokens, token_compare, tokens_compare, is_lt, natural_lt}
use apkg.Natsort.Refines.{natsort_compare-natural}

token_compare-eq : (s t : Token) → token_compare s t ≡ Ordering.eq → s ≡ t
token_compare-eq s t h = ground arith

tokens_compare-eq : (a b : List Token) → tokens_compare a b ≡ Ordering.eq → a ≡ b
unfolding tokens_compare
tokens_compare-eq [] [] h = refl
tokens_compare-eq [] (t ∷ b) h = cc
tokens_compare-eq (s ∷ a) [] h = cc
tokens_compare-eq (s ∷ a) (t ∷ b) h = ground (arith, token_compare-eq s t, tokens_compare-eq a b)

tokens_compare_refl : (a : List Token) → tokens_compare a a ≡ Ordering.eq
unfolding tokens_compare
tokens_compare_refl [] = refl
tokens_compare_refl (s ∷ a) = ground (arith, tokens_compare_refl a)

tokens_compare-gt :
    (a b : List Token) → tokens_compare a b ≡ Ordering.gt → tokens_compare b a ≡ Ordering.lt
unfolding tokens_compare
tokens_compare-gt [] [] h = cc
tokens_compare-gt [] (t ∷ b) h = cc
tokens_compare-gt (s ∷ a) [] h = refl
tokens_compare-gt (s ∷ a) (t ∷ b) h = ground (arith, tokens_compare-gt a b)

tokens_compare-lt_trans :
    (a b c : List Token)
    → tokens_compare a b ≡ Ordering.lt
    → tokens_compare b c ≡ Ordering.lt
    → tokens_compare a c ≡ Ordering.lt
unfolding tokens_compare
tokens_compare-lt_trans [] [] c h k = cc
tokens_compare-lt_trans [] (t ∷ b) [] h k = cc
tokens_compare-lt_trans [] (t ∷ b) (u ∷ c) h k = refl
tokens_compare-lt_trans (s ∷ a) [] c h k = cc
tokens_compare-lt_trans (s ∷ a) (t ∷ b) [] h k = cc
tokens_compare-lt_trans (s ∷ a) (t ∷ b) (u ∷ c) h k = ground (arith, tokens_compare-lt_trans a b c)

natural→compare : (a b : Bytes) (r : Bool) → natsort_compare a b ≡ some r → natural_lt a b ≡ r
natural→compare a b r h = cc (natsort_compare-natural a b)

-- `natsortCompare` is transitive.
pub natsort_compare_trans :
    (a b c : Bytes)
    → natsort_compare a b ≡ some true
    → natsort_compare b c ≡ some true
    → natsort_compare a c ≡ some true
unfolding natural_lt
natsort_compare_trans a b c h k = ground (
  arith,
  natsort_compare-natural a c,
  natural→compare a b true h,
  natural→compare b c true k,
  tokens_compare-lt_trans (tokens a) (tokens b) (tokens c),
)

same_tokens :
    (a b : List Token)
    → is_lt (tokens_compare a b) ≡ false
    → is_lt (tokens_compare b a) ≡ false
    → a ≡ b
same_tokens a b h k = ground (arith, tokens_compare-eq a b, tokens_compare-gt a b)

-- Neither of two names comes before the other exactly when they are the same bytes and numbers, so
-- that being incomparable is transitive too.
pub natsort_compare-incomparable :
    (a b : Bytes)
    → ((natsort_compare a b ≡ some false) × (natsort_compare b a ≡ some false))
      ↔ (tokens a ≡ tokens b)
unfolding natural_lt
natsort_compare-incomparable a b = (
  λ h.
      same_tokens (tokens a) (tokens b) (natural→compare a b false h.0)
        (natural→compare b a false h.1),
  λ e. (
    natsort_compare-natural a b ∙ rw (e, tokens_compare_refl),
    natsort_compare-natural b a ∙ rw (e, tokens_compare_refl),
  ),
)
