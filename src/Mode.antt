-- ===== src/Mode.antt =====
-- The modes of apkgfs/inode.go: Unix's numbers and Go's `os.FileMode`.
pub mod Kinds
use Prim.Native.Nat.{bit_and, bit_or}
use apkg.Prelude.{ℕ, ◌^◌, Bool, if◌then◌else◌, ◌==◌}

-- The constants of `syscall`.
abbrev pub s_ifchr : ℕ
s_ifchr = 0x2000

abbrev pub s_ifblk : ℕ
s_ifblk = 0x6000

abbrev pub s_ifdir : ℕ
s_ifdir = 0x4000

abbrev pub s_ififo : ℕ
s_ififo = 0x1000

abbrev pub s_iflnk : ℕ
s_iflnk = 0xa000

abbrev pub s_ifsock : ℕ
s_ifsock = 0xc000

abbrev pub s_ifreg : ℕ
s_ifreg = 0x8000

abbrev pub s_isuid : ℕ
s_isuid = 0x800

abbrev pub s_isgid : ℕ
s_isgid = 0x400

abbrev pub s_isvtx : ℕ
s_isvtx = 0x200

-- The constants of `os.FileMode`.
abbrev pub mode_dir : ℕ
mode_dir = 2 ^ 31

abbrev pub mode_symlink : ℕ
mode_symlink = 2 ^ 27

abbrev pub mode_device : ℕ
mode_device = 2 ^ 26

abbrev pub mode_named_pipe : ℕ
mode_named_pipe = 2 ^ 25

abbrev pub mode_socket : ℕ
mode_socket = 2 ^ 24

abbrev pub mode_setuid : ℕ
mode_setuid = 2 ^ 23

abbrev pub mode_setgid : ℕ
mode_setgid = 2 ^ 22

abbrev pub mode_char_device : ℕ
mode_char_device = 2 ^ 21

abbrev pub mode_sticky : ℕ
mode_sticky = 2 ^ 20

-- `mode&flag == flag`
abbrev pub has : ℕ → ℕ → Bool
has mode flag = bit_and mode flag == flag

-- `res |= value` where the flag is set.
abbrev pub or_if : Bool → ℕ → ℕ → ℕ
or_if b res value = if b then bit_or res value else res

-- The type of a file in Go's numbers; 0 for every other.
unfoldable pub unix_kind : ℕ → ℕ
unix_kind mode =
    if has mode s_ifchr
    then mode_char_device
    else if has mode s_ifblk
    then mode_device
    else if has mode s_ifdir
    then mode_dir
    else if has mode s_ififo
    then mode_named_pipe
    else if has mode s_iflnk
    then mode_symlink
    else if has mode s_ifsock
    then mode_socket
    else 0

unfoldable pub unix_to_mode : ℕ → ℕ
unfolding unix_kind
unix_to_mode mode =
    let res = bit_or (bit_and mode 0x1ff) (unix_kind mode) in
    or_if (has mode s_isvtx)
      (or_if (has mode s_isuid) (or_if (has mode s_isgid) res mode_setgid) mode_setuid) mode_sticky

unfoldable pub mode_kind : ℕ → ℕ
mode_kind mode =
    if has mode mode_char_device
    then s_ifchr
    else if has mode mode_device
    then s_ifblk
    else if has mode mode_dir
    then s_ifdir
    else if has mode mode_named_pipe
    then s_ififo
    else if has mode mode_symlink
    then s_iflnk
    else if has mode mode_socket
    then s_ifsock
    else s_ifreg

unfoldable pub mode_to_unix : ℕ → ℕ
unfolding mode_kind
mode_to_unix mode =
    let res = bit_or (bit_and mode 0x1ff) (mode_kind mode) in
    or_if (has mode mode_sticky)
      (or_if (has mode mode_setuid) (or_if (has mode mode_setgid) res s_isgid) s_isuid) s_isvtx
