-- ===== src/Natsort/Natural.antt =====
-- The natural order, stated without positions: a name is read as a list of bytes and of numbers.
use apkg.Prelude.{
  ℕ, ◌+◌, ◌-◌, ◌*◌, Bool, true, false, Option, none, some, List, [], ◌∷◌, if◌then◌else◌, compare,
  Ordering,
}
use apkg.Prelude.Bytes.{Bytes}
use apkg.Natsort.{is_digit}

pub data Token : Type 0 where
  sym num : ℕ → Token

-- The number that the digits `xs` continue from `n`.
unfoldable pub value : ℕ → Bytes → ℕ
value n [] = n
value n (x ∷ xs) = value (n * 10 + (x - b'0')) xs

abbrev pub pending : Option ℕ → ℕ
pending none = 0
pending (some n) = n

abbrev pub flush : Option ℕ → List Token → List Token
flush none ts = ts
flush (some n) ts = num n ∷ ts

-- The first argument is the number that is being read, if any.
unfoldable pub tokens_from : Option ℕ → Bytes → List Token
tokens_from cur [] = flush cur []
tokens_from cur (x ∷ xs) =
    let more = tokens_from (some (pending cur * 10 + (x - b'0'))) xs in
    let rest = tokens_from none xs in if is_digit x then more else flush cur (sym x ∷ rest)

abbrev pub tokens : Bytes → List Token
tokens = tokens_from none

-- Bytes by their value, numbers by theirs, and every number after every byte.
abbrev pub token_compare : Token → Token → Ordering
token_compare (sym a) (sym b) = compare a b
token_compare (sym a) (num n) = Ordering.lt
token_compare (num m) (sym b) = Ordering.gt
token_compare (num m) (num n) = compare m n

-- The first difference decides, and a proper front comes first.
unfoldable pub tokens_compare : List Token → List Token → Ordering
tokens_compare [] [] = Ordering.eq
tokens_compare [] (t ∷ ts) = Ordering.lt
tokens_compare (s ∷ ss) [] = Ordering.gt
tokens_compare (s ∷ ss) (t ∷ ts) = elim (token_compare s t) [
  | Ordering.lt ↦ Ordering.lt
  | Ordering.gt ↦ Ordering.gt
  | Ordering.eq ↦ tokens_compare ss ts
]

abbrev pub is_lt : Ordering → Bool
is_lt Ordering.lt = true
is_lt Ordering.eq = false
is_lt Ordering.gt = false

-- `a` comes before `b` in natural order.
unfoldable pub natural_lt : Bytes → Bytes → Bool
unfolding tokens_compare tokens_from
natural_lt a b = is_lt (tokens_compare (tokens a) (tokens b))
