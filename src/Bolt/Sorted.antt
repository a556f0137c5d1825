-- ===== src/Bolt/Sorted.antt =====
-- A cursor over the association lists of Bolt/Assoc, which sorts what it passes over.
use apkg.Prelude.{
  ◌≡◌, ◌≢◌, refl, sym, subst, none, some, [], ◌∷◌, arith, All, Ordering, if◌then◌else◌,
}
use apkg.Prelude.Bytes.{Bytes, bytes_eq, bytes_eq_iff}
use apkg.Prelude.Lex.{
  bytes_compare, bytes_compare-eq, bytes_compare-gt, bytes_compare_refl, bytes_compare-lt_trans,
}
use apkg.Prelude.Map.{lookup}
use apkg.Bolt.Assoc.{Entries, get, assoc_bolt}
use apkg.Bolt.Cursor.{IsAscending, IsCursor}

abbrev pub Above : Bytes → Entries → Type 0
Above k = All (λ e. bytes_compare k e.0 ≡ Ordering.lt)

abbrev pub From : Bytes → Entries → Type 0
From k = All (λ e. bytes_compare e.0 k ≢ Ordering.lt)

-- An entry next to the first one of a list, by the order of their keys; `rest` has it further behind.
abbrev put_by : Ordering → Bytes × Bytes → Bytes × Bytes → Entries → Entries → Entries
put_by Ordering.lt e d l rest = e ∷ d ∷ l
put_by Ordering.eq e d l rest = e ∷ l
put_by Ordering.gt e d l rest = d ∷ rest

put_sorted : Bytes → Bytes → Entries → Entries
put_sorted k v [] = (k, v) ∷ []
put_sorted k v ((j, w) ∷ l) =
    let rest = put_sorted k v l in put_by (bytes_compare k j) (k, v) (j, w) l rest

-- An entry from a key on is put in; `rest` is without it.
take_by : Ordering → Bytes → Bytes → Entries → Entries
unfolding put_sorted
take_by Ordering.lt j v rest = rest
take_by _ j v rest = put_sorted j v rest

pub seek_from : Entries → Bytes → Entries
seek_from [] k = []
seek_from ((j, v) ∷ l) k = let rest = seek_from l k in take_by (bytes_compare j k) j v rest

lookup-put_sorted :
    (k v i : Bytes) (l : Entries)
    → lookup i (put_sorted k v l) ≡ (if bytes_eq k i then some v else lookup i l)
unfolding lookup put_sorted
lookup-put_sorted k v i [] = refl
lookup-put_sorted k v i ((j, w) ∷ l) = ground (
  arith,
  lookup-put_sorted k v i l,
  bytes_compare-eq k j,
  bytes_compare_refl k,
  bytes_eq_iff k i,
  bytes_eq_iff j i,
)

Above-bytes_compare :
    (a b : Bytes) (l : Entries) → bytes_compare a b ≡ Ordering.lt → Above b l → Above a l
Above-bytes_compare a b [] h above = tt
Above-bytes_compare a b ((j, w) ∷ l) h above =
    (bytes_compare-lt_trans a b j h above.0, Above-bytes_compare a b l h above.1)

put_by-All :
    (P : Bytes × Bytes → Type 0) (o : Ordering) (e d : Bytes × Bytes) (l rest : Entries)
    → P e
    → P d
    → All P l
    → All P rest
    → All P (put_by o e d l rest)
put_by-All P Ordering.lt e d l rest pe pd pl pr = (pe, (pd, pl))
put_by-All P Ordering.eq e d l rest pe pd pl pr = (pe, pl)
put_by-All P Ordering.gt e d l rest pe pd pl pr = (pd, pr)

put_sorted-All :
    (P : Bytes × Bytes → Type 0) (k v : Bytes) (l : Entries)
    → P (k, v)
    → All P l
    → All P (put_sorted k v l)
unfolding put_sorted
put_sorted-All P k v [] p all = (p, tt)
put_sorted-All P k v ((j, w) ∷ l) p all =
    put_by-All P (bytes_compare k j) (k, v) (j, w) l (put_sorted k v l) p all.0 all.1
      (put_sorted-All P k v l p all.1)

put_by-IsAscending :
    (o : Ordering) (k v j w : Bytes) (l rest : Entries)
    → bytes_compare k j ≡ o
    → IsAscending ((j, w) ∷ l)
    → Above j l × IsAscending rest
    → (bytes_compare j k ≡ Ordering.lt → Above j rest)
    → IsAscending (put_by o (k, v) (j, w) l rest)
put_by-IsAscending Ordering.lt k v j w l rest e old (above, ascending) further =
    ((e, Above-bytes_compare k j l e above), old)
put_by-IsAscending Ordering.eq k v j w l rest e old (above, ascending) further =
    (subst (λ i. Above i l) (sym (bytes_compare-eq k j e)) above, old.1)
put_by-IsAscending Ordering.gt k v j w l rest e old (above, ascending) further =
    (further (bytes_compare-gt k j e), ascending)

put_sorted-IsAscending :
    (k v : Bytes) (l : Entries) → IsAscending l → IsAscending (put_sorted k v l)
unfolding put_sorted
put_sorted-IsAscending k v [] ascending = (tt, tt)
put_sorted-IsAscending k v ((j, w) ∷ l) ascending =
    put_by-IsAscending (bytes_compare k j) k v j w l (put_sorted k v l) refl ascending
      (ascending.0, put_sorted-IsAscending k v l ascending.1)
      (λ h. put_sorted-All (λ e. bytes_compare j e.0 ≡ Ordering.lt) k v l h ascending.0)

take_by-IsAscending :
    (o : Ordering) (j v : Bytes) (rest : Entries)
    → IsAscending rest
    → IsAscending (take_by o j v rest)
unfolding take_by
take_by-IsAscending Ordering.lt j v rest ascending = ascending
take_by-IsAscending Ordering.eq j v rest ascending = put_sorted-IsAscending j v rest ascending
take_by-IsAscending Ordering.gt j v rest ascending = put_sorted-IsAscending j v rest ascending

seek_from-IsAscending : (b : Entries) (k : Bytes) → IsAscending (seek_from b k)
unfolding seek_from
seek_from-IsAscending [] k = tt
seek_from-IsAscending ((j, v) ∷ l) k =
    take_by-IsAscending (bytes_compare j k) j v (seek_from l k) (seek_from-IsAscending l k)

take_by-From :
    (o : Ordering) (k j v : Bytes) (rest : Entries)
    → bytes_compare j k ≡ o
    → From k rest
    → From k (take_by o j v rest)
unfolding take_by
take_by-From Ordering.lt k j v rest e from = from
take_by-From Ordering.eq k j v rest e from =
    put_sorted-All (λ d. bytes_compare d.0 k ≢ Ordering.lt) j v rest (λ h. cc) from
take_by-From Ordering.gt k j v rest e from =
    put_sorted-All (λ d. bytes_compare d.0 k ≢ Ordering.lt) j v rest (λ h. cc) from

seek_from-From : (b : Entries) (k : Bytes) → From k (seek_from b k)
unfolding seek_from
seek_from-From [] k = tt
seek_from-From ((j, v) ∷ l) k =
    take_by-From (bytes_compare j k) k j v (seek_from l k) refl (seek_from-From l k)

seek_from-get :
    (b : Entries) (k i : Bytes)
    → lookup i (seek_from b k) ≡ elim (bytes_compare i k) [ Ordering.lt ↦ none | _ ↦ get b i ]
unfolding lookup seek_from take_by
seek_from-get [] k i = ground arith
seek_from-get ((j, v) ∷ l) k i =
    ground (arith, seek_from-get l k i, lookup-put_sorted j v i (seek_from l k), bytes_eq_iff j i)

pub seek_from-IsCursor : IsCursor ⦃bolt = assoc_bolt⦄ seek_from
seek_from-IsCursor = record {
  ascending = seek_from-IsAscending;
  from = seek_from-From;
  holds = seek_from-get;
}
