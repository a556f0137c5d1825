-- ===== src/Unsigned/Order.antt =====
-- The order in which `range` takes a map of Go, which may be another one at each loop: lookupUnsigned of
-- apkgdb/unsigned.go loops over the packages of a pair.
use apkg.Prelude.{List, [], ◌∷◌, inl, inr, All, Bool-cases, if◌then◌else◌}
use apkg.Prelude.Bytes.{Bytes}
use apkg.OsArch.{ArchOs}
use apkg.Inodes.{UnsignedPkg}
use apkg.Inodes.Grown.{AreSmall}
use apkg.Lookup.{archos_eq, unsigned_of}
use apkg.Lookup.Counts.{Small, unsigned_of-Small}

pub data Rearranged {ℓ} {A : Type ℓ} : List A → List A → Type ℓ where
  empty : Rearranged [] []
  behind : {x : A} {l m : List A} → Rearranged l m → Rearranged (x ∷ l) (x ∷ m)
  swapped : {x y : A} {l : List A} → Rearranged (x ∷ y ∷ l) (y ∷ x ∷ l)
  further : {k l m : List A} → Rearranged k l → Rearranged l m → Rearranged k m

Rearranged-All {ℓ κ} :
    {A : Type ℓ} (P : A → Type κ) {l m : List A} → Rearranged l m → All P l → All P m
Rearranged-All P empty h = tt
Rearranged-All P (behind r) h = (h.0, Rearranged-All P r h.1)
Rearranged-All P swapped h = (h.1.0, (h.0, h.1.1))
Rearranged-All P (further r t) h = Rearranged-All P t (Rearranged-All P r h)

-- The packages of a pair in the order given.
unfoldable pub in_order :
    ArchOs
    → List (Bytes × UnsignedPkg)
    → List (ArchOs × List (Bytes × UnsignedPkg))
    → List (ArchOs × List (Bytes × UnsignedPkg))
in_order a m [] = []
in_order a m ((b, l) ∷ rest) =
    let later = in_order a m rest in if archos_eq a b then (b, m) ∷ rest else (b, l) ∷ later

in_order-Small :
    (a : ArchOs) (m : List (Bytes × UnsignedPkg)) (u : List (ArchOs × List (Bytes × UnsignedPkg)))
    → All Small m
    → AreSmall u
    → AreSmall (in_order a m u)
unfolding in_order
in_order-Small a m [] small h = tt
in_order-Small a m ((b, l) ∷ rest) small h = elim (Bool-cases (archos_eq a b)) [
  | inl e ↦ rw e (small, h.1)
  | inr e ↦ rw e (h.0, in_order-Small a m rest small h.1)
]

pub in_order-AreSmall :
    (a : ArchOs) (m : List (Bytes × UnsignedPkg)) (u : List (ArchOs × List (Bytes × UnsignedPkg)))
    → Rearranged (unsigned_of a u) m
    → AreSmall u
    → AreSmall (in_order a m u)
in_order-AreSmall a m u r h =
    in_order-Small a m u (Rearranged-All Small r (unsigned_of-Small a u h)) h
