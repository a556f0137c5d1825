-- ===== src/Unsigned/Small.antt =====
-- The counts of the packages in the map of apkgdb/unsigned.go.
use apkg.Prelude.{◌^◌, ◌<◌, inl, inr, List, [], ◌∷◌, arith, Bool-cases, Option-cases, All}
use apkg.Prelude.Bytes.{Bytes, bytes_eq}
use apkg.Prelude.Map.{remove}
use apkg.OsArch.{ArchOs}
use apkg.Inodes.{UnsignedPkg}
use apkg.Inodes.Grown.{AreSmall}
use apkg.Lookup.{archos_eq}
use apkg.Lookup.Counts.{Small, insert-Small}
use apkg.Unsigned.{
  UnsignedMap, Files, clean_unsigned_name, put_in_map, drop_from_map, fresh, add_unsigned_file,
  remove_unsigned_file,
}

put_in_map-AreSmall :
    (a : ArchOs) (name : Bytes) (p : UnsignedPkg) (m : UnsignedMap)
    → p.inodes < 2 ^ 32
    → AreSmall m
    → AreSmall (put_in_map a name p m)
unfolding put_in_map
put_in_map-AreSmall a name p [] h k = (insert-Small name p [] h tt, tt)
put_in_map-AreSmall a name p ((b, m) ∷ rest) h k = elim (Bool-cases (archos_eq a b)) [
  | inl e ↦ rw e (insert-Small name p m h k.0, k.1)
  | inr e ↦ rw e (k.0, put_in_map-AreSmall a name p rest h k.1)
]

remove-Small : (n : Bytes) (m : List (Bytes × UnsignedPkg)) → All Small m → All Small (remove n m)
unfolding remove
remove-Small n [] k = tt
remove-Small n ((j, q) ∷ m) k = elim (Bool-cases (bytes_eq j n)) [
  | inl e ↦ rw e (remove-Small n m k.1)
  | inr e ↦ rw e (k.0, remove-Small n m k.1)
]

drop_from_map-AreSmall :
    (a : ArchOs) (name : Bytes) (m : UnsignedMap) → AreSmall m → AreSmall (drop_from_map a name m)
unfolding drop_from_map
drop_from_map-AreSmall a name [] k = tt
drop_from_map-AreSmall a name ((b, m) ∷ rest) k = elim (Bool-cases (archos_eq a b)) [
  | inl e ↦ rw e (remove-Small name m k.0, k.1)
  | inr e ↦ rw e (k.0, drop_from_map-AreSmall a name rest k.1)
]

pub add_unsigned_file-AreSmall :
    (files : Files) (p f : Bytes) (m : UnsignedMap)
    → AreSmall m
    → AreSmall (add_unsigned_file files p f m)
unfolding add_unsigned_file
add_unsigned_file-AreSmall files p f m k = elim (Option-cases (clean_unsigned_name f)) [
  | inl e ↦ rw (e, add_unsigned_file) k
  | inr ((name, a), e) ↦ elim (Option-cases (files.stat (files.join p f))) [
    | inl g ↦ rw (e, add_unsigned_file) (rw (g, add_unsigned_file) k)
    | inr (regular, g) ↦
        rw (e, add_unsigned_file)
          (rw (g, add_unsigned_file)
            (elim (Bool-cases regular) [
              | inl h ↦
                  rw h (put_in_map-AreSmall a name (fresh (files.join p f) name) m (omega arith) k)
              | inr h ↦ rw h k
            ]))
  ]
]

pub remove_unsigned_file-AreSmall :
    (f : Bytes) (m : UnsignedMap) → AreSmall m → AreSmall (remove_unsigned_file f m)
unfolding remove_unsigned_file
remove_unsigned_file-AreSmall f m k = elim (Option-cases (clean_unsigned_name f)) [
  | inl e ↦ rw (e, remove_unsigned_file) k
  | inr ((name, a), e) ↦ rw (e, remove_unsigned_file) (drop_from_map-AreSmall a name m k)
]
