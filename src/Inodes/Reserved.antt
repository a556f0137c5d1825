-- ===== src/Inodes/Reserved.antt =====
-- The ranges of inode numbers that apkgdb/lookup.go gives out, also those whose package is not loaded.
use apkg.Prelude.{
  ℕ, ◌+◌, ◌<◌, ◌≡◌, inl, inr, Option, none, some, List, [], arith, ◌==◌, if◌then◌else◌, Bool-cases,
}
use apkg.Prelude.Bytes.{Bytes, bytes_eq, bytes_eq→eq}
use apkg.Prelude.Map.{lookup, insert, lookup-insert}
use apkg.Bolt.{Bolt}
use apkg.Llrb.{Llrb}
use apkg.Inodes.{Item, item_value, item_inodes, Shared}
use apkg.Inodes.Ranges.{IsApart}

-- `some c` at the first number of a range that has `c` numbers behind it.
abbrev pub Ledger : Type 0
Ledger = ℕ → Option ℕ

abbrev pub none_given : Ledger
none_given n = none

abbrev pub given : ℕ → ℕ → Ledger → Ledger
given n c l = λ m. if n == m then some c else l m

-- What was given out stays given out.
abbrev pub Extends : Ledger → Ledger → Type 0
Extends l k = (n c : ℕ) → l n ≡ some c → k n ≡ some c

-- The numbers of a package, by its hash.
abbrev pub Sizes : Type 0
Sizes = Bytes → ℕ

-- A database knows a number only for a hash that has a range there.
pub record Knows (size : Sizes) (l : Ledger) (m : List (Bytes × ℕ)) : Type 0 where
  pub known : (h : Bytes) (n : ℕ) → lookup h m ≡ some n → l n ≡ some (size h)

pub Knows-nil : (size : Sizes) (l : Ledger) → Knows size l []
unfolding lookup
Knows-nil size l = record { known = λ h n e. absurd (ground (arith, e)) }

pub Knows-Extends :
    (size : Sizes) (l k : Ledger) (m : List (Bytes × ℕ))
    → Extends l k
    → Knows size l m
    → Knows size k m
Knows-Extends size l k m x kn = record { known = λ h n e. x n (size h) (kn.known h n e) }

pub Knows-insert :
    (size : Sizes) (l : Ledger) (m : List (Bytes × ℕ)) (h : Bytes) (n : ℕ)
    → Knows size l m
    → l n ≡ some (size h)
    → Knows size l (insert h n m)
Knows-insert size l m h n kn at = record {
  known = λ j i e. elim (Bool-cases (bytes_eq h j)) [
    | inl same ↦ ground (arith, e, same, at, lookup-insert h j n m, bytes_eq→eq h j same)
    | inr other ↦ ground (arith, e, other, lookup-insert h j n m, kn.known j i)
  ];
}

module _ ⦃bolt : Bolt⦄ ⦃llrb : Llrb Item item_value⦄ where
  open llrb use {Tree, replace_or_insert, find, find-insert}

  -- The ranges lie between the two special inodes and the counter, no two of them meet, and every
  -- package in the tree stands on a range of its size.
  pub record IsReserved (l : Ledger) (next : ℕ) (t : Tree) : Type 0 where
    pub start : 2 < next
    pub above : (n c : ℕ) → l n ≡ some c → 2 < n
    pub below : (n c : ℕ) → l n ≡ some c → n + c < next
    pub apart : (n m c d : ℕ) → l n ≡ some c → l m ≡ some d → n < m → n + c < m
    pub keyed : (n : ℕ) (x : Item) → find t n ≡ some x → item_value x ≡ n
    pub items : (n : ℕ) (x : Item) → find t n ≡ some x → l n ≡ some (item_inodes x)

  pub IsReserved-IsApart : (l : Ledger) (s : Shared) → IsReserved l s.next_i s.ino → IsApart s
  IsReserved-IsApart l s r = record {
    start = r.start;
    keyed = r.keyed;
    above = λ n x f. r.above n (item_inodes x) (r.items n x f);
    below = λ n x f. r.below n (item_inodes x) (r.items n x f);
    apart = λ n m x y f g lt.
        r.apart n m (item_inodes x) (item_inodes y) (r.items n x f) (r.items m y g) lt;
  }

  pub Extends-given :
      (l : Ledger) (next c : ℕ) (t : Tree) → IsReserved l next t → Extends l (given next c l)
  Extends-given l next c t r n d e = ground (arith, r.below n d e)

  -- A new range at the counter.
  pub given-IsReserved :
      (l : Ledger) (next c : ℕ) (t : Tree)
      → IsReserved l next t
      → IsReserved (given next c l) (next + (c + 1)) t
  given-IsReserved l next c t r = record {
    start = omega (arith, r.start);
    above = λ n d e. ground (arith, r.above n d, r.start);
    below = λ n d e. ground (arith, r.below n d);
    apart = λ n m d e p q lt. ground (arith, r.apart n m d e, r.below n d, r.below m e);
    keyed = r.keyed;
    items = λ n x f. Extends-given l next c t r n (item_inodes x) (r.items n x f);
  }

  -- A package put on a range of its size.
  pub insert-IsReserved :
      (l : Ledger) (next : ℕ) (t : Tree) (x : Item)
      → IsReserved l next t
      → l (item_value x) ≡ some (item_inodes x)
      → IsReserved l next (replace_or_insert t x)
  insert-IsReserved l next t x r at = record {
    start = r.start;
    above = r.above;
    below = r.below;
    apart = r.apart;
    keyed = λ n y f. ground (arith, find-insert t x n, r.keyed n y);
    items = λ n y f. ground (arith, find-insert t x n, r.items n y);
  }
