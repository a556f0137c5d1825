-- ===== src/Bolt/Assoc.antt =====
-- Association lists have what `Bolt` asks for; the examples run on them.
use apkg.Prelude.{
  ◌≡◌, ◌≢◌, refl, Option, none, some, List, [], ◌∷◌, Ordering, if◌then◌else◌, arith, length, ltb,
  ◌||◌, inl, inr, Option-cases,
}
use apkg.Prelude.Bytes.{Bytes, bytes_eq, bytes_eq_iff}
use apkg.Prelude.Lex.{
  bytes_compare, bytes_compare-eq, bytes_compare-gt, bytes_compare_refl, bytes_compare-lt_trans,
}
use apkg.Bolt.{Bolt}

abbrev pub Entries : Type 0
Entries = List (Bytes × Bytes)

abbrev pub get : Entries → Bytes → Option Bytes
get [] k = none
get ((j, v) ∷ l) k = if bytes_eq j k then some v else get l k

abbrev pub put : Entries → Bytes → Bytes → Option Entries
put l k v = if ltb 32768 (length k) || ltb (length k) 1 then none else some ((k, v) ∷ l)

abbrev pub delete : Entries → Bytes → Entries
delete [] k = []
delete ((j, v) ∷ l) k = let rest = delete l k in if bytes_eq j k then rest else (j, v) ∷ rest

abbrev pub later : Bytes × Bytes → Option (Bytes × Bytes) → Option (Bytes × Bytes)
later e none = some e
later (j, v) (some (i, w)) = elim (bytes_compare j i) [
  | Ordering.lt ↦ some (i, w)
  | _ ↦ some (j, v)
]

abbrev pub seek_prev : Entries → Bytes → Option (Bytes × Bytes)
seek_prev [] k = none
seek_prev ((j, v) ∷ l) k =
    let rest = seek_prev l k in
    elim (bytes_compare j k) [ Ordering.lt ↦ later (j, v) rest | _ ↦ rest ]

pub get-put :
    (b c : Entries) (k v j : Bytes)
    → put b k v ≡ some c
    → get c j ≡ (if bytes_eq k j then some v else get b j)
get-put b c k v j h = ground arith

pub get-delete :
    (b : Entries) (k j : Bytes) → get (delete b k) j ≡ (if bytes_eq k j then none else get b j)
get-delete [] k j = ground arith
get-delete ((i, v) ∷ l) k j =
    ground (arith, get-delete l k j, bytes_eq_iff i k, bytes_eq_iff i j, bytes_eq_iff k j)

pub seek_prev-lt :
    (b : Entries) (k j v : Bytes) → seek_prev b k ≡ some (j, v) → bytes_compare j k ≡ Ordering.lt
seek_prev-lt [] k j v h = cc
seek_prev-lt ((i, w) ∷ l) k j v h = ground (arith, seek_prev-lt l k j v)

pub seek_prev-get : (b : Entries) (k j v : Bytes) → seek_prev b k ≡ some (j, v) → get b j ≡ some v
seek_prev-get [] k j v h = cc
seek_prev-get ((i, w) ∷ l) k j v h = elim (Option-cases (seek_prev l k)) [
  | inl e ↦ ground (arith, bytes_eq_iff i j)
  | inr (r, e) ↦
      ground
        (arith, bytes_eq_iff i j, bytes_compare_refl i, seek_prev-lt l k j v, seek_prev-get l k j v)
]

pub seek_prev-none :
    (b : Entries) (k i w : Bytes)
    → seek_prev b k ≡ none
    → get b i ≡ some w
    → bytes_compare i k ≢ Ordering.lt
seek_prev-none [] k i w h g = λ e. cc
seek_prev-none ((j, v) ∷ l) k i w h g = ground (arith, seek_prev-none l k i w, bytes_eq_iff j i)

pub seek_prev-last :
    (b : Entries) (k j v i w : Bytes)
    → seek_prev b k ≡ some (j, v)
    → get b i ≡ some w
    → bytes_compare i k ≡ Ordering.lt
    → bytes_compare j i ≢ Ordering.lt
seek_prev-last [] k j v i w h g lt = cc
seek_prev-last ((a, x) ∷ l) k j v i w h g lt = elim (Option-cases (seek_prev l k)) [
  | inl e ↦ ground (arith, bytes_eq_iff a i, bytes_compare_refl i, seek_prev-none l k i w e)
  | inr ((i', w'), e) ↦ ground (
    arith,
    bytes_eq_iff a i,
    bytes_compare_refl a,
    bytes_compare_refl j,
    seek_prev-last l k i' w' i w e,
    bytes_compare-eq i' i,
    bytes_compare-gt i' i,
    bytes_compare-lt_trans a i i',
    bytes_compare-lt_trans j a j,
  )
]

abbrev pub assoc_bolt : Bolt
assoc_bolt = record {
  Bucket = Entries;
  empty = [];
  get = get;
  put = put;
  delete = delete;
  seek_prev = seek_prev;
  get-empty = λ k. refl;
  get-put = get-put;
  get-delete = get-delete;
  seek_prev-get = seek_prev-get;
  seek_prev-lt = seek_prev-lt;
  seek_prev-last = seek_prev-last;
  seek_prev-none = seek_prev-none;
}
