-- ===== src/Fs.antt =====
-- apkgfs: the inode interface (inode.go) and the inode cache (cache.go). The server stands in `Server`.
pub mod Cache
pub mod Methods
pub mod Server
use apkg.Prelude.{
  ℕ, ◌+◌, ◌-◌, ◌%◌, ◌^◌, Bool, true, false, Option, none, some, List, [], ◌∷◌, if◌then◌else◌, ltb,
  ◌==◌, ◌||◌,
}
use apkg.Prelude.Bytes.{Bytes}
use apkg.Errors.{Error, Result}

-- `fuse.Attr`, which only goes through.
pub record Attr : Type 0 where
  pub fields : Bytes

-- A value of the interface `Inode`. `ident` is its identity as an object, `counted` whether it keeps a
-- reference count, `fill_attr` fills attributes in which only the inode number is set, and `read_at` is there if it is an `io.ReaderAt`: from an offset (an
-- `int64` of the same bits) and a size to the bytes read and the error beside them.
pub record Inode : Type 0 where
  pub ident : ℕ
  pub counted : Bool
  pub is_dir : Bool
  pub mode : ℕ
  pub lookup : Bytes → Result ℕ
  pub fill_attr : ℕ → Result Attr
  pub readlink : Result Bytes
  pub open_file : ℕ → Result ℕ
  pub open_dir : Result ℕ
  pub read_dir : ℕ → ℕ → Bool → Result Bytes
  pub read_at : Option (ℕ → ℕ → Bytes × Option Error)

-- `PkgFS`: the root with its `GetInode` and `StatFs`, the cache, and the reference counts of all
-- counted inodes, by identity.
pub record PkgFs : Type 0 where
  pub root : Inode
  pub root_get_inode : ℕ → Result Inode
  pub root_stat_fs : Result Bytes
  pub ino_cache : List (ℕ × Inode)
  pub refs : ℕ → ℕ

abbrev pub u64 : ℕ → ℕ
u64 n = n % 2 ^ 64

abbrev pub set_ref : ℕ → ℕ → (ℕ → ℕ) → ℕ → ℕ
set_ref i n refs j = if i == j then n else refs j

-- `AddRef(count)`; a virtual inode answers 1.
unfoldable pub add_ref : Inode → ℕ → PkgFs → ℕ × PkgFs
add_ref i count p =
    let n = u64 (p.refs i.ident + count) in
    if i.counted then (n, record p { refs = set_ref i.ident n p.refs }) else (1, p)

-- `DelRef(count)`: adding `^(count - 1)` is subtracting `count`; a virtual inode answers 0.
unfoldable pub del_ref : Inode → ℕ → PkgFs → ℕ × PkgFs
del_ref i count p =
    let n = u64 (p.refs i.ident + (2 ^ 64 - u64 count)) in
    if i.counted then (n, record p { refs = set_ref i.ident n p.refs }) else (0, p)

unfoldable pub get_inode_cache : ℕ → List (ℕ × Inode) → Option Inode
get_inode_cache n [] = none
get_inode_cache n ((m, i) ∷ c) = if m == n then some i else get_inode_cache n c

unfoldable pub delete : ℕ → List (ℕ × Inode) → List (ℕ × Inode)
delete n [] = []
delete n ((m, i) ∷ c) = let rest = delete n c in if m == n then rest else (m, i) ∷ rest

-- A cached inode takes over the references of the other object.
move_refs : Inode → Inode → PkgFs → PkgFs
move_refs c o p =
    let (v, q) = add_ref o 0 p in if v == 0 then q else (del_ref o v (add_ref c v q).1).1

unfoldable pub add_to_cache : ℕ → Inode → PkgFs → PkgFs
unfolding move_refs
add_to_cache ino o p = elim (get_inode_cache ino p.ino_cache) [
  | none ↦ record p { ino_cache = (ino, o) ∷ p.ino_cache }
  | some c ↦ move_refs c o p
]

drop_refs : ℕ → Inode → ℕ → PkgFs → PkgFs
drop_refs nodeid c nlookup p =
    let (v, q) = del_ref c nlookup p in
    if v == 0 || ltb 0xffff_ffff_ffff v
    then (record q { ino_cache = delete nodeid q.ino_cache })
    else q

unfoldable pub remove_from_cache : ℕ → ℕ → PkgFs → PkgFs
unfolding drop_refs
remove_from_cache nodeid nlookup p = elim (get_inode_cache nodeid p.ino_cache) [
  | none ↦ p
  | some c ↦ drop_refs nodeid c nlookup p
]

unfoldable pub get_inode : ℕ → PkgFs → Result Inode
get_inode ino p = if ino == 1 then Result.ok p.root else elim (get_inode_cache ino p.ino_cache) [
  | some i ↦ Result.ok i
  | none ↦ p.root_get_inode ino
]
