-- ===== src/Suffix/Cut.antt =====
-- Cutting off against putting behind, for the suffixes of names.
use apkg.Prelude.{
  suc, ◌≡◌, ◌≢◌, refl, ap, sym, ◌∙◌, true, false, none, some, [], ◌∷◌, ◌++◌, arith, length, drop,
  All, take-length-append, append_assoc,
}
use apkg.Prelude.Bytes.{Bytes, last_index_byte}
use apkg.OsArch.{
  Os, any_os, bad_os, Arch, any_arch, bad_arch, ArchOs, pair, os_eq, arch_eq, parse_os, parse_arch,
  os_string, arch_string, arch_os_string, is_valid,
}
use apkg.Suffix.{cut_last, cut_os, cut_arch, split_suffix}

last_none : (w : Bytes) → All (λ c. c ≢ b'.') w → last_index_byte w b'.' ≡ none
last_none [] h = refl
last_none (x ∷ w) h = ground (arith, last_none w h.1, h.0)

last_at :
    (s w : Bytes) → All (λ c. c ≢ b'.') w → last_index_byte (s ++ (b'.' ∷ w)) b'.' ≡ some (length s)
last_at [] w h = ground (arith, last_none w h)
last_at (x ∷ s) w h = ground (arith, last_at s w h)

drop-suc : (s w : Bytes) → drop (suc (length s)) (s ++ w) ≡ drop 1 w
drop-suc [] w = refl
drop-suc (x ∷ s) w = drop-suc s w

pub cut_last-append :
    (s w : Bytes) → All (λ c. c ≢ b'.') w → cut_last (s ++ (b'.' ∷ w)) ≡ some (s, w)
unfolding cut_last
cut_last-append s w h =
    rw (last_at s w h, cut_last)
      (ap some (cc (take-length-append s (b'.' ∷ w), drop-suc s (b'.' ∷ w))))

-- No word has a dot, and each is read as what it stands for.
os_word : (o : Os) → o ≢ bad_os → All (λ c. c ≢ b'.') (os_string o) × (parse_os (os_string o) ≡ o)
unfolding os_string parse_os
os_word any_os h = (ground arith, refl)
os_word bad_os h = absurd (h refl)
os_word _ h = (ground arith, refl)

arch_word :
    (c : Arch)
    → c ≢ bad_arch
    → All (λ c. c ≢ b'.') (arch_string c) × (parse_arch (arch_string c) ≡ c)
unfolding arch_string parse_arch
arch_word any_arch h = (ground arith, refl)
arch_word bad_arch h = absurd (h refl)
arch_word _ h = (ground arith, refl)

cut_os-append :
    (base : Bytes) (o : Os) (c : Arch)
    → o ≢ bad_os
    → cut_os c (base ++ (b'.' ∷ os_string o)) ≡ some (base, pair o c)
unfolding cut_os
cut_os-append base o c h =
    let (dots, back) = os_word o h in
    let known : os_eq o bad_os ≡ false = ground arith in
    rw (cut_last-append base (os_string o) dots, cut_os) (rw (back, known) refl)

cut_arch-append :
    (sname : Bytes) (c : Arch) → c ≢ bad_arch → cut_arch (sname, arch_string c) ≡ cut_os c sname
unfolding cut_arch
cut_arch-append sname c h =
    let (dots, back) = arch_word c h in
    let known : arch_eq c bad_arch ≡ false = ground arith in rw (back, known) refl

-- A name with the suffix of a valid pair is split into the name and the pair.
pub split_suffix-append :
    (base : Bytes) (a : ArchOs)
    → is_valid a ≡ true
    → split_suffix (base ++ (b'.' ∷ arch_os_string a)) ≡ some (base, a)
unfolding split_suffix arch_os_string is_valid
split_suffix-append base a h =
    let good_os : a.os ≢ bad_os = ground arith in
    let good_arch : a.arch ≢ bad_arch = ground arith in
    let sname = base ++ (b'.' ∷ os_string a.os) in
    let (dots, _) = arch_word a.arch good_arch in
    let e = append_assoc base (b'.' ∷ os_string a.os) (b'.' ∷ arch_string a.arch) in
    ap (λ (s : Bytes). elim (cut_last s) [ none ↦ none | some p ↦ cut_arch p ]) (sym e)
    ∙ (rw (cut_last-append sname (arch_string a.arch) dots)
        (cut_arch-append sname a.arch good_arch))
    ∙ cut_os-append base a.os a.arch good_os
