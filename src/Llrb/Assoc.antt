-- ===== src/Llrb/Assoc.antt =====
-- Lists have what `Llrb` asks for; the examples run on them.
use apkg.Prelude.{
  ℕ, ◌≤◌, ◌<◌, ◌≡◌, refl, Option, none, some, List, [], ◌∷◌, arith, if◌then◌else◌, leb, ◌==◌,
  Option-cases, inl, inr,
}
use apkg.Llrb.{Llrb}

module _ {A : Type 0} (value : A → ℕ) where
  abbrev pub find : List A → ℕ → Option A
  find [] n = none
  find (x ∷ t) n = if value x == n then some x else find t n

  abbrev pub higher : A → Option A → Option A
  higher x none = some x
  higher x (some y) = if leb (value y) (value x) then some x else some y

  abbrev pub descend : List A → ℕ → Option A
  descend [] n = none
  descend (x ∷ t) n = let rest = descend t n in if leb (value x) n then higher x rest else rest

  pub descend-le : (t : List A) (n : ℕ) (x : A) → descend t n ≡ some x → value x ≤ n
  descend-le [] n x h = absurd (ground arith)
  descend-le (y ∷ t) n x h = elim (Option-cases (descend t n)) [
    | inl e ↦ ground arith
    | inr (z, e) ↦ ground (arith, descend-le t n z e)
  ]

  pub descend-find : (t : List A) (n : ℕ) (x : A) → descend t n ≡ some x → find t (value x) ≡ some x
  descend-find [] n x h = absurd (ground arith)
  descend-find (y ∷ t) n x h = elim (Option-cases (descend t n)) [
    | inl e ↦ ground arith
    | inr (z, e) ↦ ground (arith, descend-find t n z e, descend-le t n z e)
  ]

  pub descend-none : (t : List A) (n m : ℕ) (y : A) → descend t n ≡ none → find t m ≡ some y → n < m
  descend-none [] n m y h g = absurd (ground arith)
  descend-none (x ∷ t) n m y h g = elim (Option-cases (descend t n)) [
    | inl e ↦ ground (arith, descend-none t n m y e)
    | inr (z, e) ↦ ground arith
  ]

  pub descend-last :
      (t : List A) (n m : ℕ) (x y : A)
      → descend t n ≡ some x
      → find t m ≡ some y
      → m ≤ n
      → m ≤ value x
  descend-last [] n m x y h g le = absurd (ground arith)
  descend-last (a ∷ t) n m x y h g le = elim (Option-cases (descend t n)) [
    | inl e ↦ ground (arith, descend-none t n m y e)
    | inr (z, e) ↦ ground (arith, descend-last t n m z y e)
  ]

abbrev pub list_llrb : {A : Type 0} (value : A → ℕ) → Llrb A value
list_llrb {A} value = record {
  Tree = List A;
  new = [];
  replace_or_insert = λ t x. x ∷ t;
  descend = descend value;
  find = find value;
  find-new = λ n. refl;
  find-insert = λ t x n. refl;
  descend-find = descend-find value;
  descend-le = descend-le value;
  descend-last = descend-last value;
  descend-none = descend-none value;
}
