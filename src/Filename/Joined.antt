-- ===== src/Filename/Joined.antt =====
-- That the parts of parsePackageFilename make up the name they are taken from.
use apkg.Prelude.{
  ℕ, zero, suc, ◌≤◌, ◌-◌, ◌≡◌, refl, ap, sym, ◌∙◌, inl, inr, List, [], ◌∷◌, ◌++◌, leb, leb→le,
  ==_iff, ◌==◌, length, take, drop, arith, Bool-cases, take-append-drop, append-nil, append_assoc,
  subst, length-take,
}
use apkg.Prelude.Bytes.{Bytes}
use apkg.Errors.{ok, err, bind-then}
use apkg.Format.{guard, guard-true}
use apkg.Filename.{
  onto_first, split_dots, join_dots, package_names, part, PackageFilename, parse_package_filename,
}

-- There is always a first part.
split_some : (cs : Bytes) → (x : Bytes) × (xs : List Bytes) × (split_dots cs ≡ x ∷ xs)
unfolding split_dots
split_some [] = ([], [], refl)
split_some (c ∷ cs) = elim (Bool-cases (c == b'.')) [
  | inl e ↦ ([], split_dots cs, rw e refl)
  | inr e ↦ let (x, xs, h) = split_some cs in (c ∷ x, xs, rw (e, h) refl)
]

join-onto_first :
    (c : ℕ) (x : Bytes) (xs : List Bytes)
    → join_dots (onto_first c (x ∷ xs)) ≡ c ∷ join_dots (x ∷ xs)
unfolding join_dots
join-onto_first c x [] = refl
join-onto_first c x (y ∷ ys) = refl

pub join_dots-split_dots : (cs : Bytes) → join_dots (split_dots cs) ≡ cs
unfolding split_dots join_dots
join_dots-split_dots [] = refl
join_dots-split_dots (c ∷ cs) =
    let (x, xs, h) = split_some cs in
    let ih : join_dots (x ∷ xs) ≡ cs = ap join_dots (sym h) ∙ join_dots-split_dots cs in
    elim (Bool-cases (c == b'.')) [
      | inl e ↦
          rw (e, h)
            (ap (◌∷◌ b'.') (join_dots-split_dots cs) ∙ ap (λ d. d ∷ cs) (sym ((==_iff c b'.').0 e)))
      | inr e ↦ rw (e, h) (join-onto_first c x xs ∙ ap (◌∷◌ c) ih)
    ]

-- A list from two elements on ends with its last two.
last_two :
    (n : ℕ) (xs : List Bytes)
    → length xs ≡ suc (suc n)
    → take n xs ++ (part n xs ∷ part (suc n) xs ∷ []) ≡ xs
unfolding part
last_two n [] h = absurd (omega arith)
last_two n (x ∷ []) h = absurd (omega arith)
last_two zero (x ∷ y ∷ []) h = refl
last_two zero (x ∷ y ∷ z ∷ zs) h = absurd (omega arith)
last_two (suc n) (x ∷ y ∷ ys) h = ap (◌∷◌ x) (last_two n (y ∷ ys) (omega arith))

first_three : (xs : List Bytes) → 3 ≤ length xs → take 3 xs ≡ part 0 xs ∷ part 1 xs ∷ part 2 xs ∷ []
unfolding part
first_three [] h = absurd (omega arith)
first_three (x ∷ []) h = absurd (omega arith)
first_three (x ∷ y ∷ []) h = absurd (omega arith)
first_three (x ∷ y ∷ z ∷ zs) h = refl

-- The parts in their order, as the code takes them.
all_parts :
    (n : ℕ) (xs : List Bytes)
    → length xs ≡ suc (suc n)
    → take 3 (take n xs) ++ (drop 3 (take n xs) ++ (part n xs ∷ part (suc n) xs ∷ [])) ≡ xs
all_parts n xs h =
    let ends = part n xs ∷ part (suc n) xs ∷ [] in
    sym (append_assoc (take 3 (take n xs)) (drop 3 (take n xs)) ends)
    ∙ ap (λ front. front ++ ends) (take-append-drop 3 (take n xs))
    ∙ last_two n xs h

ok_parsed : (a b : PackageFilename) → ok a ≡ ok b → a ≡ b
ok_parsed a b h = ap (λ r. elim r [ ok x ↦ x | err e ↦ a ]) h

-- Nothing of a file's name is lost: the three parts of the name, those of the version, the system and
-- the architecture make up the name again, joined by dots.
pub join_dots-parse_package_filename :
    (filename : Bytes) (p : PackageFilename)
    → parse_package_filename filename ≡ ok p
    → (join_dots (p.name_components ++ (p.version ++ (p.os ∷ p.arch ∷ []))) ≡ filename)
      × (p.name_components ≡ p.cat ∷ p.name ∷ p.subcat ∷ [])
unfolding parse_package_filename
join_dots-parse_package_filename filename p h =
    let all = split_dots filename in
    bind-then (guard (leb 5 (length all)) _) _ p h (λ u e h1.
      let same = ok_parsed _ p h1 in
      let enough = leb→le 5 (length all) (guard-true _ _ u e) in
      let n = length all - 2 in
      let last : length all - 1 ≡ suc n = omega (arith, enough) in
      let front : 3 ≤ length (take n all) = omega (arith, enough, length-take n all) in
      subst
        (λ q.
          (join_dots (q.name_components ++ (q.version ++ (q.os ∷ q.arch ∷ []))) ≡ filename)
          × (q.name_components ≡ q.cat ∷ q.name ∷ q.subcat ∷ []))
        same
        (
          rw last (
              ap join_dots (all_parts n all (omega (arith, enough)))
              ∙ join_dots-split_dots filename),
          first_three (take n all) front,
        ))

-- The package goes by one name for each part of its version and one more: name number `i` has the three
-- parts of the name and the first `i` parts of the version.
pub part-package_names :
    (i : ℕ) (components version : List Bytes)
    → i ≤ length version
    → part i (package_names components version) ≡ join_dots (components ++ take i version)
unfolding part package_names
part-package_names zero components [] h = ap join_dots (sym (append-nil components))
part-package_names zero components (v ∷ vs) h = ap join_dots (sym (append-nil components))
part-package_names (suc i) components [] h = absurd (omega arith)
part-package_names (suc i) components (v ∷ vs) h =
    part-package_names i (components ++ (v ∷ [])) vs (omega (arith, h))
    ∙ ap join_dots (append_assoc components (v ∷ []) (take i vs))
