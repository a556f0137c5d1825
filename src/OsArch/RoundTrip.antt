-- ===== src/OsArch/RoundTrip.antt =====
-- Printing against parsing, for apkgdb/osarch.go.
use apkg.Prelude.{
  ℕ, zero, suc, ◌≡◌, ◌≢◌, refl, true, some, arith, Option-cases, inl, inr, take, drop,
  if◌then◌else◌, ◌||◌,
}
use apkg.Prelude.Bytes.{Bytes, codes, bytes_eq→eq, index_byte, index_byte-split}
use apkg.OsArch.{
  Os, any_os, bad_os, Arch, any_arch, bad_arch, ArchOs, pair, bad, parse_os, parse_arch,
  parse_arch_os, os_string, arch_string, arch_os_string, is_valid, os_eq, arch_eq,
}

pub parse_os-os_string : (s : Bytes) → parse_os s ≢ bad_os → os_string (parse_os s) ≡ s
unfolding parse_os os_string
parse_os-os_string s h = ground (
  arith,
  bytes_eq→eq s (codes "any"),
  bytes_eq→eq s (codes "linux"),
  bytes_eq→eq s (codes "darwin"),
  bytes_eq→eq s (codes "windows"),
)

pub parse_arch-arch_string : (s : Bytes) → parse_arch s ≢ bad_arch → arch_string (parse_arch s) ≡ s
unfolding parse_arch arch_string
parse_arch-arch_string s h = ground (
  arith,
  bytes_eq→eq s (codes "any"),
  bytes_eq→eq s (codes "386"),
  bytes_eq→eq s (codes "amd64"),
  bytes_eq→eq s (codes "arm"),
  bytes_eq→eq s (codes "arm64"),
  bytes_eq→eq s (codes "riscv64"),
)

reads_back :
    (o : Os) (c : Arch)
    → is_valid (pair o c) ≡ true
    → parse_arch_os (arch_os_string (pair o c)) ≡ pair o c
unfolding parse_arch_os parse_os parse_arch arch_os_string os_string arch_string is_valid
reads_back any_os any_arch h = refl
reads_back bad_os c h = cc
reads_back o bad_arch h = absurd (ground arith)
reads_back _ _ h = refl

-- Every valid pair is read back from what it is printed as.
pub parse_arch_os-arch_os_string :
    (a : ArchOs) → is_valid a ≡ true → parse_arch_os (arch_os_string a) ≡ a
parse_arch_os-arch_os_string a h = reads_back a.os a.arch h

valid_parts :
    (o : Os) (c : Arch)
    → is_valid (if os_eq o bad_os || arch_eq c bad_arch then bad else pair o c) ≡ true
    → (o ≢ bad_os)
      × (c ≢ bad_arch)
      × ((if os_eq o bad_os || arch_eq c bad_arch then bad else pair o c) ≡ pair o c)
unfolding is_valid
valid_parts o c h = (ground arith, ground arith, ground arith)

prints_at :
    (s : Bytes) (q : ℕ)
    → index_byte s b'.' ≡ some (suc q)
    → is_valid (parse_arch_os s) ≡ true
    → arch_os_string (parse_arch_os s) ≡ s
unfolding parse_arch_os arch_os_string
prints_at s q e h =
    let o = parse_os (take (suc q) s) in
    let c = parse_arch (drop (suc (suc q)) s) in
    let (p, p', p'') = valid_parts o c (rw (e, parse_arch_os) at h) in
    rw (e, parse_arch_os)
      (rw p'' (
        cc (
          parse_os-os_string (take (suc q) s) p,
          parse_arch-arch_string (drop (suc (suc q)) s) p',
          index_byte-split s b'.' (suc q) e,
        )))

unprinted : (s : Bytes) → parse_arch_os s ≡ bad → is_valid (parse_arch_os s) ≢ true
unfolding is_valid
unprinted s e = rw e (λ h. cc)

-- What is parsed as a valid pair is printed back as the text that it was parsed from.
pub arch_os_string-parse_arch_os :
    (s : Bytes) → is_valid (parse_arch_os s) ≡ true → arch_os_string (parse_arch_os s) ≡ s
arch_os_string-parse_arch_os s h = elim (Option-cases (index_byte s b'.')) [
  | inl e ↦ absurd (unprinted s (unfold parse_arch_os in rw (e, parse_arch_os)) h)
  | inr (zero, e) ↦ absurd (unprinted s (unfold parse_arch_os in rw (e, parse_arch_os)) h)
  | inr (suc q, e) ↦ prints_at s q e h
]
