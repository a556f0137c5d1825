-- ===== src/Root.antt =====
-- The inodes that stand for no file of a package: the root (apkgdb/inode.go), the loader's cache
-- (apkgdb/ldso.go) and virtual symlinks (apkgfs/inode-symlink.go), with their attributes on Linux; and
-- who is told of a change (apkgdb/notify.go). The layout of `fuse.Attr` is an argument.
pub mod Mounted
pub mod Ends
use apkg.Prelude.{
  ℕ, ◌+◌, ◌-◌, ◌/◌, ◌^◌, ◌%◌, Bool, true, false, Option, none, some, List, [], ◌∷◌, if◌then◌else◌,
  leb, length, take, drop,
}
use apkg.Prelude.Bytes.{Bytes}
use apkg.Errors.{Error, invalid, permission, panics, message, Result, ok, err}
use apkg.Mode.{mode_dir, mode_symlink, mode_to_unix}
use apkg.Fs.{Attr, Inode}
use apkg.Inodes
use apkg.Inodes.{Item, u64}

-- What is put into a `fuse.Attr`; the nanoseconds are 0.
pub record FuseAttr : Type 0 where
  pub ino : ℕ
  pub size : ℕ
  pub blocks : ℕ
  pub mode : ℕ
  pub nlink : ℕ
  pub rdev : ℕ
  pub blksize : ℕ

abbrev pub Layout : Type 0
Layout = FuseAttr → Attr

abbrev pub filled : ℕ → ℕ → ℕ → FuseAttr
filled ino size mode = record {
  ino = ino;
  size = size;
  blocks = 1;
  mode = mode_to_unix mode;
  nlink = 1;
  rdev = 1;
  blksize = 4096;
}

-- `os.ModeSymlink | 0444`; 0444 is 292.
abbrev pub symlink_mode : ℕ
symlink_mode = mode_symlink + 292

abbrev pub root_mode : ℕ
root_mode = mode_dir + 292

-- `NewSymlink`; the attributes keep the inode number that is set in them.
unfoldable pub symlink_inode : Layout → Bytes → Inode
symlink_inode layout link = record {
  ident = 0;
  counted = false;
  is_dir = false;
  mode = symlink_mode;
  lookup = λ name. err invalid;
  fill_attr = λ ino. ok (layout (filled ino (length link) symlink_mode));
  readlink = ok link;
  open_file = λ flags. err invalid;
  open_dir = err invalid;
  read_dir = λ off size plus. err invalid;
  read_at = none;
}

-- `io.EOF`
abbrev pub eof : Error
eof = message "EOF"

-- A negative offset is a slice out of range.
unfoldable pub ldso_read_at : Bytes → ℕ → ℕ → Bytes × Option Error
ldso_read_at ldso off size =
    if leb (2 ^ 63) off
    then ([], some panics)
    else if leb (length ldso) off
    then ([], some eof)
    else (take size (drop off ldso), none)

-- `fuse.FOPEN_KEEP_CACHE`
abbrev pub fopen_keep_cache : ℕ
fopen_keep_cache = 2

unfoldable pub ldso_inode : Layout → Bytes → Inode
ldso_inode layout ldso = record {
  ident = 0;
  counted = false;
  is_dir = false;
  mode = 292;
  lookup = λ name. err invalid;
  fill_attr = λ ino. ok (layout (filled 2 (length ldso) 292));
  readlink = err invalid;
  open_file = λ flags. ok fopen_keep_cache;
  open_dir = err invalid;
  read_dir = λ off size plus. err invalid;
  read_at = some (ldso_read_at ldso);
}

-- The database itself, with what its `Lookup` answers.
unfoldable pub root_inode : Layout → ℕ → (Bytes → Result ℕ) → Inode
root_inode layout ident lookup = record {
  ident = ident;
  counted = true;
  is_dir = true;
  mode = root_mode;
  lookup = lookup;
  fill_attr = λ ino. ok (layout (filled 1 4096 root_mode));
  readlink = err invalid;
  open_file = λ flags. err invalid;
  open_dir = err permission;
  read_dir = λ off size plus. err permission;
  read_at = none;
}

-- `GetInode` as the filesystem sees its result; `inside` is an inode of a squashfs.
unfoldable pub fs_inode : Layout → Bytes → Inode → (Item → ℕ → Inode) → Inodes.Inode → Inode
fs_inode layout ldso root inside Inodes.root = root
fs_inode layout ldso root inside Inodes.ld_so_cache = ldso_inode layout ldso
fs_inode layout ldso root inside (Inodes.symlink target) = symlink_inode layout target
fs_inode layout ldso root inside (Inodes.inside x n) = inside x n

pub record StatfsOut : Type 0 where
  pub blocks : ℕ
  pub bfree : ℕ
  pub bavail : ℕ
  pub files : ℕ
  pub ffree : ℕ
  pub bsize : ℕ
  pub name_len : ℕ
  pub frsize : ℕ

-- `StatFs`, from the size of the database file and the counter of inodes; `Inodes` is one less.
unfoldable pub stat_fs : ℕ → ℕ → StatfsOut
stat_fs size next_i = record {
  blocks = u64 (size / 4096 + 1);
  bfree = 0;
  bavail = 0;
  files = u64 (next_i + (2 ^ 64 - 1) + 2);
  ffree = 0;
  bsize = 4096;
  name_len = 255;
  frsize = 4096;
}

-- `notifyInode`: the target of the database, or of the nearest parent that has one.
unfoldable pub notify_target {ℓ} : {A : Type ℓ} → List (Option A) → Option A
notify_target [] = none
notify_target (some t ∷ parents) = some t
notify_target (none ∷ parents) = notify_target parents
