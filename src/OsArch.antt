-- ===== src/OsArch.antt =====
-- apkgdb/osarch.go: operating systems and architectures, and how names spell them.
pub mod RoundTrip
use apkg.Prelude.{
  zero, suc, Bool, true, false, Option, none, some, List, ◌∷◌, ◌++◌, if◌then◌else◌, take, drop,
  ◌&&◌, not, ◌||◌,
}
use apkg.Prelude.Bytes.{Bytes, codes, bytes_eq, index_byte}

-- `BadOS` stands for every value that is no constant.
pub data Os : Type 0 where
  any_os linux darwin windows bad_os : Os

pub data Arch : Type 0 where
  any_arch x86 amd64 arm arm64 riscv64 bad_arch : Arch

pub record ArchOs : Type 0 where
  pub os : Os
  pub arch : Arch

abbrev pub os_eq : Os → Os → Bool
os_eq any_os any_os = true
os_eq linux linux = true
os_eq darwin darwin = true
os_eq windows windows = true
os_eq bad_os bad_os = true
os_eq _ _ = false

abbrev pub arch_eq : Arch → Arch → Bool
arch_eq any_arch any_arch = true
arch_eq x86 x86 = true
arch_eq amd64 amd64 = true
arch_eq arm arm = true
arch_eq arm64 arm64 = true
arch_eq riscv64 riscv64 = true
arch_eq bad_arch bad_arch = true
arch_eq _ _ = false

unfoldable pub parse_os : Bytes → Os
parse_os os =
    if bytes_eq os (codes "any")
    then any_os
    else if bytes_eq os (codes "linux")
    then linux
    else if bytes_eq os (codes "darwin")
    then darwin
    else if bytes_eq os (codes "windows")
    then windows
    else bad_os

unfoldable pub parse_arch : Bytes → Arch
parse_arch arch =
    if bytes_eq arch (codes "any")
    then any_arch
    else if bytes_eq arch (codes "386")
    then x86
    else if bytes_eq arch (codes "amd64")
    then amd64
    else if bytes_eq arch (codes "arm")
    then arm
    else if bytes_eq arch (codes "arm64")
    then arm64
    else if bytes_eq arch (codes "riscv64")
    then riscv64
    else bad_arch

abbrev pub bad : ArchOs
bad = record { os = bad_os; arch = bad_arch }

abbrev pub pair : Os → Arch → ArchOs
pair o c = record { os = o; arch = c }

-- The cases of `pos <= 0` are none and `some 0`.
unfoldable pub parse_arch_os : Bytes → ArchOs
parse_arch_os archos = elim (index_byte archos b'.') [
  | none ↦ bad
  | some p ↦ elim p [
    | zero ↦ bad
    | suc q ↦
        let os = parse_os (take (suc q) archos) in
        let arch = parse_arch (drop (suc (suc q)) archos) in
        if os_eq os bad_os || arch_eq arch bad_arch then bad else pair os arch
  ]
]

unfoldable pub os_string : Os → Bytes
os_string any_os = codes "any"
os_string linux = codes "linux"
os_string darwin = codes "darwin"
os_string windows = codes "windows"
os_string bad_os = codes "unknown"

unfoldable pub arch_string : Arch → Bytes
arch_string any_arch = codes "any"
arch_string x86 = codes "386"
arch_string amd64 = codes "amd64"
arch_string arm = codes "arm"
arch_string arm64 = codes "arm64"
arch_string riscv64 = codes "riscv64"
arch_string bad_arch = codes "unknown"

unfoldable pub arch_os_string : ArchOs → Bytes
arch_os_string a = os_string a.os ++ (codes "." ++ arch_string a.arch)

unfoldable pub is_valid : ArchOs → Bool
is_valid a = not (os_eq a.os bad_os) && not (arch_eq a.arch bad_arch)
