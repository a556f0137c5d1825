-- ===== src/Bolt.antt =====
-- What apkgdb relies on of go.etcd.io/bbolt, whose code is not in the repository: buckets of keys and
-- values in the byte order of their keys. `put` may fail (a blank or oversized key). `seek_prev b k`
-- is `c.Seek(k)` and then `c.Prev()`: the last entry whose key is below `k`.
pub mod Assoc
pub mod Cursor
pub mod Sorted
use apkg.Prelude.{◌≡◌, ◌≢◌, Option, none, some, Ordering, if◌then◌else◌}
use apkg.Prelude.Bytes.{Bytes, bytes_eq}
use apkg.Prelude.Lex.{bytes_compare}

pub record Bolt : Type 1 where
  pub Bucket : Type 0
  pub empty : Bucket
  pub get : Bucket → Bytes → Option Bytes
  pub put : Bucket → Bytes → Bytes → Option Bucket
  pub delete : Bucket → Bytes → Bucket
  pub seek_prev : Bucket → Bytes → Option (Bytes × Bytes)
  pub get-empty : (k : Bytes) → get empty k ≡ none
  pub get-put :
      (b c : Bucket) (k v j : Bytes)
      → put b k v ≡ some c
      → get c j ≡ (if bytes_eq k j then some v else get b j)
  pub get-delete :
      (b : Bucket) (k j : Bytes) → get (delete b k) j ≡ (if bytes_eq k j then none else get b j)
  pub seek_prev-get : (b : Bucket) (k j v : Bytes) → seek_prev b k ≡ some (j, v) → get b j ≡ some v
  pub seek_prev-lt :
      (b : Bucket) (k j v : Bytes) → seek_prev b k ≡ some (j, v) → bytes_compare j k ≡ Ordering.lt
  pub seek_prev-last :
      (b : Bucket) (k j v i w : Bytes)
      → seek_prev b k ≡ some (j, v)
      → get b i ≡ some w
      → bytes_compare i k ≡ Ordering.lt
      → bytes_compare j i ≢ Ordering.lt
  pub seek_prev-none :
      (b : Bucket) (k i w : Bytes)
      → seek_prev b k ≡ none
      → get b i ≡ some w
      → bytes_compare i k ≢ Ordering.lt
