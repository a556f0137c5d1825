-- ===== src/Fs/Server/Dispatch.antt =====
-- `handleRequest` of apkgfs/server.go, with the opcodes of apkgfs/proto.go.
use apkg.Prelude.{ℕ, Bool, true, false, none, some, List, [], ◌∷◌, if◌then◌else◌, ◌==◌, ◌||◌, drop}
use apkg.Prelude.Bytes.{Bytes}
use apkg.Fs.{PkgFs}
use apkg.Fs.Server.{FuseInHeader, in_header, reply_status, erofs, enosys}
use apkg.Fs.Server.Handlers.{
  Answer, do_lookup, do_forget, do_batch_forget, do_get_attr, do_readlink, do_open, do_read,
  do_stat_fs, do_open_dir, do_read_dir, do_access,
}

-- The cases of the `switch`; `flush` is flush and fsync, and fsyncdir, of the same case, stands
-- apart. `writes` are the operations that would change the filesystem.
pub data Operation : Type 0 where
  lookup forget batch_forget get_attr readlink open_file read release stat_fs : Operation
  open_dir read_dir read_dir_plus access flush sync_dir destroy interrupt writes other : Operation

abbrev one_of : ℕ → List ℕ → Bool
one_of n [] = false
one_of n (m ∷ ms) = n == m || one_of n ms

-- Setattr, mknod, mkdir, unlink, rmdir, rename, rename2, link, symlink, create, write, setxattr,
-- removexattr, fallocate, copy_file_range.
abbrev write_opcodes : List ℕ
write_opcodes = 4 ∷ 8 ∷ 9 ∷ 10 ∷ 11 ∷ 12 ∷ 45 ∷ 13 ∷ 6 ∷ 35 ∷ 16 ∷ 21 ∷ 24 ∷ 43 ∷ 47 ∷ []

unfoldable pub operation : ℕ → Operation
operation n =
    if n == 1
    then lookup
    else if n == 2
    then forget
    else if n == 42
    then batch_forget
    else if n == 3
    then get_attr
    else if n == 5
    then readlink
    else if n == 14
    then open_file
    else if n == 15
    then read
    else if one_of n (18 ∷ 29 ∷ [])
    then release
    else if n == 17
    then stat_fs
    else if n == 27
    then open_dir
    else if n == 28
    then read_dir
    else if n == 44
    then read_dir_plus
    else if n == 34
    then access
    else if one_of n (25 ∷ 20 ∷ [])
    then flush
    else if n == 30
    then sync_dir
    else if n == 38
    then destroy
    else if n == 36
    then interrupt
    else if one_of n write_opcodes
    then writes
    else other

unfoldable pub perform : Operation → FuseInHeader → Bytes → PkgFs → Answer
perform lookup hdr body p = do_lookup hdr body p
perform forget hdr body p = do_forget hdr body p
perform batch_forget hdr body p = do_batch_forget hdr body p
perform get_attr hdr body p = do_get_attr hdr body p
perform readlink hdr body p = do_readlink hdr body p
perform open_file hdr body p = do_open hdr body p
perform read hdr body p = do_read hdr body p
perform release hdr body p = (none, p)
perform stat_fs hdr body p = do_stat_fs hdr body p
perform open_dir hdr body p = do_open_dir hdr body p
perform read_dir hdr body p = do_read_dir hdr body false p
perform read_dir_plus hdr body p = do_read_dir hdr body true p
perform access hdr body p = do_access hdr body p
perform flush hdr body p = (some (reply_status hdr.unique 0), p)
perform sync_dir hdr body p = (some (reply_status hdr.unique 0), p)
perform destroy hdr body p = (none, p)
perform interrupt hdr body p = (none, p)
perform writes hdr body p = (some (reply_status hdr.unique erofs), p)
perform other hdr body p = (some (reply_status hdr.unique enosys), p)

-- The data is at least as long as the header: `Serve` drops shorter requests.
unfoldable pub handle_request : Bytes → PkgFs → Answer
handle_request bytes p =
    let hdr = in_header bytes in perform (operation hdr.opcode) hdr (drop 40 bytes) p
