-- ===== src/Bolt/Cursor.antt =====
-- What is relied on of a forward cursor of go.etcd.io/bbolt: `c.Seek(k)` and then `c.Next()` until the end
-- give the entries from `k` on, in the byte order of their keys.
use apkg.Prelude.{◌≡◌, ◌≢◌, none, List, [], ◌∷◌, Ordering, All}
use apkg.Prelude.Bytes.{Bytes}
use apkg.Prelude.Lex.{bytes_compare}
use apkg.Prelude.Map.{lookup}
use apkg.Bolt.{Bolt}

abbrev pub IsAscending : List (Bytes × Bytes) → Type 0
IsAscending [] = Unit
IsAscending ((k, v) ∷ l) = All (λ e. bytes_compare k e.0 ≡ Ordering.lt) l × IsAscending l

pub record IsCursor ⦃bolt : Bolt⦄ (seek : bolt.Bucket → Bytes → List (Bytes × Bytes)) : Type 0 where
  pub ascending : (b : bolt.Bucket) (k : Bytes) → IsAscending (seek b k)
  pub from : (b : bolt.Bucket) (k : Bytes) → All (λ e. bytes_compare e.0 k ≢ Ordering.lt) (seek b k)
  pub holds :
      (b : bolt.Bucket) (k i : Bytes)
      → lookup i (seek b k) ≡ elim (bytes_compare i k) [ Ordering.lt ↦ none | _ ↦ bolt.get b i ]
