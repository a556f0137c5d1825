-- ===== src/Llrb.antt =====
-- What apkgdb relies on of github.com/petar/GoLLRB, whose code is not in the repository: a set of
-- items ordered by a number, one item to a number. `descend` is the first item that
-- `DescendLessOrEqual` visits. `find` says which item stands at a number; the laws speak of it.
pub mod Assoc
use apkg.Prelude.{ℕ, ◌≤◌, ◌<◌, ◌≡◌, Option, none, some, if◌then◌else◌, ◌==◌}

pub record Llrb (A : Type 0) (value : A → ℕ) : Type 1 where
  pub Tree : Type 0
  pub new : Tree
  pub replace_or_insert : Tree → A → Tree
  pub descend : Tree → ℕ → Option A
  pub find : Tree → ℕ → Option A
  pub find-new : (n : ℕ) → find new n ≡ none
  pub find-insert :
      (t : Tree) (x : A) (n : ℕ)
      → find (replace_or_insert t x) n ≡ (if value x == n then some x else find t n)
  pub descend-find : (t : Tree) (n : ℕ) (x : A) → descend t n ≡ some x → find t (value x) ≡ some x
  pub descend-le : (t : Tree) (n : ℕ) (x : A) → descend t n ≡ some x → value x ≤ n
  pub descend-last :
      (t : Tree) (n m : ℕ) (x y : A)
      → descend t n ≡ some x
      → find t m ≡ some y
      → m ≤ n
      → m ≤ value x
  pub descend-none : (t : Tree) (n m : ℕ) (y : A) → descend t n ≡ none → find t m ≡ some y → n < m
