-- ===== src/Unsigned/Kept.antt =====
-- What the files of the directory do to the map of apkgdb/unsigned.go.
use apkg.Prelude.{
  ◌-◌, ◌≡◌, refl, sym, subst, inl, inr, true, false, ◌&&◌, none, some, [], ◌∷◌, ◌++◌, arith,
  if◌then◌else◌, length, Bool-cases, length-append, take-length-append, drop-length-append, ltb,
}
use apkg.Prelude.Bytes.{Bytes, codes, bytes_eq, bytes_eq_refl}
use apkg.Prelude.Map.{lookup, insert, lookup-insert, lookup-remove}
use apkg.OsArch.{
  Os, any_os, linux, darwin, windows, bad_os, Arch, any_arch, x86, amd64, arm, arm64, riscv64,
  bad_arch, ArchOs, os_eq, arch_eq, arch_os_string, is_valid,
}
use apkg.Suffix.Cut.{split_suffix-append}
use apkg.Inodes.{UnsignedPkg}
use apkg.Lookup.{archos_eq, unsigned_of}
use apkg.Unsigned.{
  UnsignedMap, Files, trim_suffix, clean_unsigned_name, put_in_map, drop_from_map, fresh,
  add_unsigned_file, remove_unsigned_file,
}

trim_suffix-append : (s suffix : Bytes) → trim_suffix (s ++ suffix) suffix ≡ some s
unfolding trim_suffix
trim_suffix-append s suffix =
    let l = length-append s suffix in
    let n : length (s ++ suffix) - length suffix ≡ length s = omega arith in
    let short : ltb (length (s ++ suffix)) (length suffix) ≡ false = ground arith in
    rw (n, drop-length-append s suffix, take-length-append s suffix, short, bytes_eq_refl suffix)
      refl

-- A file named for a package of a valid pair is taken for that package.
pub clean_unsigned_name-append :
    (base : Bytes) (a : ArchOs)
    → is_valid a ≡ true
    → clean_unsigned_name ((base ++ (b'.' ∷ arch_os_string a)) ++ codes ".squashfs")
      ≡ some (base ++ (b'.' ∷ arch_os_string a), a)
unfolding clean_unsigned_name
clean_unsigned_name-append base a valid =
    let name = base ++ (b'.' ∷ arch_os_string a) in
    rw (trim_suffix-append name (codes ".squashfs"), clean_unsigned_name)
      (rw (split_suffix-append base a valid, clean_unsigned_name) refl)

os_eq→eq : (a b : Os) → os_eq a b ≡ true → a ≡ b
os_eq→eq any_os any_os h = refl
os_eq→eq linux linux h = refl
os_eq→eq darwin darwin h = refl
os_eq→eq windows windows h = refl
os_eq→eq bad_os bad_os h = refl
os_eq→eq _ _ h = absurd (ground arith)

arch_eq→eq : (a b : Arch) → arch_eq a b ≡ true → a ≡ b
arch_eq→eq any_arch any_arch h = refl
arch_eq→eq x86 x86 h = refl
arch_eq→eq amd64 amd64 h = refl
arch_eq→eq arm arm h = refl
arch_eq→eq arm64 arm64 h = refl
arch_eq→eq riscv64 riscv64 h = refl
arch_eq→eq bad_arch bad_arch h = refl
arch_eq→eq _ _ h = absurd (ground arith)

os_eq_refl : (a : Os) → os_eq a a ≡ true
os_eq_refl any_os = refl
os_eq_refl _ = refl

arch_eq_refl : (a : Arch) → arch_eq a a ≡ true
arch_eq_refl any_arch = refl
arch_eq_refl _ = refl

archos_eq→eq : (a b : ArchOs) → archos_eq a b ≡ true → a ≡ b
archos_eq→eq a b h =
    let o = os_eq→eq a.os b.os (ground arith) in
    let c = arch_eq→eq a.arch b.arch (ground arith) in cc

archos_eq_refl : (a : ArchOs) → archos_eq a a ≡ true
archos_eq_refl a = ground (arith, os_eq_refl a.os, arch_eq_refl a.arch)

-- Where two pairs agree with a third, they agree with each other.
archos_eq-false :
    (a b c : ArchOs) → archos_eq b c ≡ true → archos_eq a c ≡ false → archos_eq b a ≡ false
archos_eq-false a b c h k = ground (arith, archos_eq→eq b c h, archos_eq→eq b a, archos_eq_refl a)

archos_eq_apart :
    (a b c : ArchOs) → archos_eq b c ≡ false → archos_eq a c ≡ true → archos_eq b a ≡ false
archos_eq_apart a b c h k = subst (λ t. archos_eq b t ≡ false) (sym (archos_eq→eq a c k)) h

archos_eq-true :
    (a b c : ArchOs) → archos_eq b c ≡ true → archos_eq a c ≡ true → archos_eq b a ≡ true
archos_eq-true a b c h k = subst (λ t. archos_eq b t ≡ true) (sym (archos_eq→eq a c k)) h

lookup-put_in_map :
    (a b : ArchOs) (name n : Bytes) (p : UnsignedPkg) (m : UnsignedMap)
    → lookup n (unsigned_of b (put_in_map a name p m))
      ≡ (if archos_eq b a && bytes_eq name n then some p else lookup n (unsigned_of b m))
unfolding put_in_map unsigned_of lookup insert
lookup-put_in_map a b name n p [] = ground arith
lookup-put_in_map a b name n p ((c, k) ∷ m) = elim (Bool-cases (archos_eq a c)) [
  | inl ac ↦ elim (Bool-cases (archos_eq b c)) [
    | inl bc ↦ rw (ac, unsigned_of) (rw (bc, archos_eq-true a b c bc ac) (lookup-insert name n p k))
    | inr bc ↦ rw (ac, unsigned_of) (rw (bc, archos_eq_apart a b c bc ac) refl)
  ]
  | inr ac ↦ elim (Bool-cases (archos_eq b c)) [
    | inl bc ↦ rw (ac, unsigned_of) (rw (bc, archos_eq-false a b c bc ac) refl)
    | inr bc ↦ rw (ac, unsigned_of) (rw bc (lookup-put_in_map a b name n p m))
  ]
]

lookup-drop_from_map :
    (a b : ArchOs) (name n : Bytes) (m : UnsignedMap)
    → lookup n (unsigned_of b (drop_from_map a name m))
      ≡ (if archos_eq b a && bytes_eq name n then none else lookup n (unsigned_of b m))
unfolding drop_from_map unsigned_of lookup
lookup-drop_from_map a b name n [] = ground arith
lookup-drop_from_map a b name n ((c, k) ∷ m) = elim (Bool-cases (archos_eq a c)) [
  | inl ac ↦ elim (Bool-cases (archos_eq b c)) [
    | inl bc ↦ rw (ac, unsigned_of) (rw (bc, archos_eq-true a b c bc ac) (lookup-remove name n k))
    | inr bc ↦ rw (ac, unsigned_of) (rw (bc, archos_eq_apart a b c bc ac) refl)
  ]
  | inr ac ↦ elim (Bool-cases (archos_eq b c)) [
    | inl bc ↦ rw (ac, unsigned_of) (rw (bc, archos_eq-false a b c bc ac) refl)
    | inr bc ↦ rw (ac, unsigned_of) (rw bc (lookup-drop_from_map a b name n m))
  ]
]

-- The name of the file of a package.
abbrev pub file_of : Bytes → ArchOs → Bytes
file_of base a = (base ++ (b'.' ∷ arch_os_string a)) ++ codes ".squashfs"

-- When a regular file is named for a package of a valid pair, `addUnsignedFile` puts the package under
-- its name with the suffix, in the map of its pair, and changes no other entry.
pub lookup-add_unsigned_file :
    (files : Files) (p base n : Bytes) (a b : ArchOs) (m : UnsignedMap)
    → is_valid a ≡ true
    → files.stat (files.join p (file_of base a)) ≡ some true
    → lookup n (unsigned_of b (add_unsigned_file files p (file_of base a) m)) ≡ (
        if archos_eq b a && bytes_eq (base ++ (b'.' ∷ arch_os_string a)) n
        then some (fresh (files.join p (file_of base a)) (base ++ (b'.' ∷ arch_os_string a)))
        else lookup n (unsigned_of b m))
unfolding add_unsigned_file
lookup-add_unsigned_file files p base n a b m valid regular =
    let name = base ++ (b'.' ∷ arch_os_string a) in
    rw (clean_unsigned_name-append base a valid, add_unsigned_file)
      (rw (regular, add_unsigned_file)
        (lookup-put_in_map a b name n (fresh (files.join p (file_of base a)) name) m))

-- `removeUnsignedFile` takes out what `addUnsignedFile` put in for the same file, and nothing else.
pub lookup-remove_unsigned_file :
    (base n : Bytes) (a b : ArchOs) (m : UnsignedMap)
    → is_valid a ≡ true
    → lookup n (unsigned_of b (remove_unsigned_file (file_of base a) m)) ≡ (
        if archos_eq b a && bytes_eq (base ++ (b'.' ∷ arch_os_string a)) n
        then none
        else lookup n (unsigned_of b m))
unfolding remove_unsigned_file
lookup-remove_unsigned_file base n a b m valid =
    rw (clean_unsigned_name-append base a valid, remove_unsigned_file)
      (lookup-drop_from_map a b (base ++ (b'.' ∷ arch_os_string a)) n m)
