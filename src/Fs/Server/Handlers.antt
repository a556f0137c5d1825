-- ===== src/Fs/Server/Handlers.antt =====
-- The handlers of apkgfs/server.go and their dispatch. A handler returns the answer, or none where the
-- kernel awaits none, and the state behind it.
use Prim.Native.Nat.{bit_and}
use apkg.Prelude.{
  ℕ, zero, suc, Bool, not, ◌&&◌, Option, none, some, [], ◌∷◌, if◌then◌else◌, ltb, ◌==◌, length,
  take, drop,
}
use apkg.Prelude.Bytes.{Bytes}
use apkg.Errors.{Error, ok, err}
use apkg.Fs.{Inode, PkgFs, add_ref, add_to_cache, remove_from_cache, get_inode}
use apkg.Fs.Server.{
  le_uint, slice, FuseInHeader, nothing, raw, entry_out, attr_out, open_out, Reply, reply_status,
  reply_err, reply, cstring, eperm, einval, enotdir, erofs, enosys,
}

abbrev pub Answer : Type 0
Answer = Option Reply × PkgFs

abbrev answer : Reply → PkgFs → Answer
answer r p = (some r, p)

-- The inode behind a handler, or the error in its place.
abbrev with_inode : ℕ → FuseInHeader → PkgFs → (Inode → Answer) → Answer
with_inode n hdr p f = elim (get_inode n p) [
  | err e ↦ answer (reply_err hdr.unique e) p
  | ok i ↦ f i
]

-- The answer of a lookup that found `sub`: one reference more, and the inode is cached. `out.Ino` is
-- `sub` before `FillAttr`.
found : FuseInHeader → ℕ → Inode → PkgFs → Answer
found hdr sub i p =
    let q = add_to_cache sub i (add_ref i 1 p).1 in
    elim (i.fill_attr sub) [
      | err e ↦ answer (reply_err hdr.unique e) q
      | ok a ↦ answer (reply hdr.unique (entry_out sub a)) q
    ]

unfoldable pub do_lookup : FuseInHeader → Bytes → PkgFs → Answer
unfolding found
do_lookup hdr body p = with_inode hdr.node_id hdr p λ ino. elim (ino.lookup (cstring body)) [
  | err e ↦ answer (reply_err hdr.unique e) p
  | ok sub ↦ with_inode sub hdr p (λ i. found hdr sub i p)
]

unfoldable pub do_forget : FuseInHeader → Bytes → PkgFs → Answer
do_forget hdr body p =
    if ltb (length body) 8
    then (none, p)
    else (none, remove_from_cache hdr.node_id (le_uint (take 8 body)) p)

-- The loop of `doBatchForget`: the rounds left, and what is left of the body.
unfoldable pub batch_forget_loop : ℕ → Bytes → PkgFs → PkgFs
batch_forget_loop zero body p = p
batch_forget_loop (suc rounds) body p =
    let rest =
      batch_forget_loop rounds (drop 16 body)
        (remove_from_cache (le_uint (take 8 body)) (le_uint (slice 8 8 body)) p) in
    if ltb (length body) 16 then p else rest

unfoldable pub do_batch_forget : FuseInHeader → Bytes → PkgFs → Answer
unfolding batch_forget_loop
do_batch_forget hdr body p =
    if ltb (length body) 8
    then (none, p)
    else (none, batch_forget_loop (le_uint (take 4 body)) (drop 8 body) p)

unfoldable pub do_get_attr : FuseInHeader → Bytes → PkgFs → Answer
do_get_attr hdr body p = with_inode hdr.node_id hdr p λ ino. elim (ino.fill_attr hdr.node_id) [
  | err e ↦ answer (reply_err hdr.unique e) p
  | ok a ↦ answer (reply hdr.unique (attr_out hdr.node_id a)) p
]

unfoldable pub do_readlink : FuseInHeader → Bytes → PkgFs → Answer
do_readlink hdr body p = with_inode hdr.node_id hdr p λ ino. elim ino.readlink [
  | err e ↦ answer (reply_err hdr.unique e) p
  | ok target ↦ answer (reply hdr.unique (raw target)) p
]

-- `flags&syscall.O_WRONLY != 0`
abbrev has_bit : ℕ → ℕ → Bool
has_bit n mask = not (bit_and n mask == 0)

unfoldable pub do_open : FuseInHeader → Bytes → PkgFs → Answer
do_open hdr body p =
    if ltb (length body) 8
    then answer (reply_status hdr.unique einval) p
    else if has_bit (le_uint (take 4 body)) 1
    then answer (reply_status hdr.unique erofs) p
    else with_inode hdr.node_id hdr p λ ino. elim (ino.open_file (le_uint (take 4 body))) [
      | err e ↦ answer (reply_err hdr.unique e) p
      | ok flags ↦ answer (reply hdr.unique (open_out flags)) p
    ]

-- What was read, then the error, then the empty answer.
read_answer : ℕ → Bytes → Option Error → Reply
read_answer unique [] none = reply unique nothing
read_answer unique [] (some e) = reply_err unique e
read_answer unique (b ∷ bs) e = reply unique (raw (b ∷ bs))

-- `unsafe.Sizeof(fuse.ReadIn{})` less the header is 40.
unfoldable pub do_read : FuseInHeader → Bytes → PkgFs → Answer
unfolding read_answer
do_read hdr body p =
    if ltb (length body) 40
    then answer (reply_status hdr.unique einval) p
    else with_inode hdr.node_id hdr p λ ino. elim ino.read_at [
      | none ↦ answer (reply_status hdr.unique enosys) p
      | some read ↦
          let (bytes, e) = read (le_uint (slice 8 8 body)) (le_uint (slice 16 4 body)) in
          answer (read_answer hdr.unique bytes e) p
    ]

unfoldable pub do_stat_fs : FuseInHeader → Bytes → PkgFs → Answer
do_stat_fs hdr body p = elim p.root_stat_fs [
  | err e ↦ answer (reply_err hdr.unique e) p
  | ok out ↦ answer (reply hdr.unique (raw out)) p
]

unfoldable pub do_open_dir : FuseInHeader → Bytes → PkgFs → Answer
do_open_dir hdr body p = with_inode hdr.node_id hdr p λ ino.
    if not ino.is_dir then answer (reply_status hdr.unique enotdir) p else elim ino.open_dir [
      | err e ↦ answer (reply_err hdr.unique e) p
      | ok flags ↦ answer (reply hdr.unique (open_out flags)) p
    ]

unfoldable pub do_read_dir : FuseInHeader → Bytes → Bool → PkgFs → Answer
do_read_dir hdr body plus p =
    if ltb (length body) 24
    then answer (reply_status hdr.unique einval) p
    else with_inode hdr.node_id hdr p λ ino.
      if not ino.is_dir
      then answer (reply_status hdr.unique enotdir) p
      else elim (ino.read_dir (le_uint (slice 8 8 body)) (le_uint (slice 16 4 body)) plus) [
        | err e ↦ answer (reply_err hdr.unique e) p
        | ok entries ↦ answer (reply hdr.unique (raw entries)) p
      ]

-- `fuse.W_OK` is 2 and `fuse.X_OK` is 1.
unfoldable pub do_access : FuseInHeader → Bytes → PkgFs → Answer
do_access hdr body p =
    let mask = le_uint (take 4 body) in
    if ltb (length body) 8
    then answer (reply_status hdr.unique einval) p
    else if has_bit mask 2
    then answer (reply_status hdr.unique eperm) p
    else if hdr.uid == 0
    then answer (reply_status hdr.unique 0) p
    else with_inode hdr.node_id hdr p λ ino.
      if has_bit mask 1 && bit_and ino.mode 1 == 0
      then answer (reply_status hdr.unique eperm) p
      else answer (reply_status hdr.unique 0) p
