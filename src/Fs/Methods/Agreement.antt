-- ===== src/Fs/Methods/Agreement.antt =====
-- The handlers of apkgfs/server.go, which Linux runs, against the methods of apkgfs/fs.go, which go-fuse
-- calls elsewhere.
use apkg.Prelude.{ℕ, ◌≤◌, ◌≡◌, ◌∙◌, Bool, true, false, Option, none, some, length, take, arith}
use apkg.Prelude.Bytes.{Bytes}
use apkg.Fs.{PkgFs}
use apkg.Fs.Server.{FuseInHeader, to_errno, reply_err, cstring, le_uint, slice}
use apkg.Fs.Server.Handlers.{
  Answer, do_lookup, do_forget, do_get_attr, do_readlink, do_open, do_read, do_stat_fs, do_open_dir,
  do_read_dir, do_access,
}
use apkg.Fs.Server.Dispatch.{
  Operation, lookup, forget, batch_forget, get_attr, readlink, open_file, read, release, stat_fs,
  open_dir, read_dir, read_dir_plus, access, flush, sync_dir, destroy, interrupt, writes, other,
  perform,
}
use apkg.Fs.Methods
use apkg.Fs.Methods.{Outcome}

some_injective : {a b : Answer} → some a ≡ some b → a ≡ b
some_injective e = cc e

-- The answer to a request that a method's outcome stands for.
abbrev pub answer_to : FuseInHeader → Outcome → Answer
answer_to hdr o =
    (some (record { unique = hdr.unique; status = o.status; payload = o.out }), o.state)

module _ (hdr : FuseInHeader) (body : Bytes) (p : PkgFs) where
  do_lookup_lem :
      do_lookup hdr body p ≡ answer_to hdr (Methods.lookup to_errno hdr.node_id (cstring body) p)
  unfolding do_lookup Methods.lookup reply_err
  do_lookup_lem = ground arith

  do_get_attr_lem : do_get_attr hdr body p ≡ answer_to hdr (Methods.get_attr to_errno hdr.node_id p)
  unfolding do_get_attr Methods.get_attr reply_err
  do_get_attr_lem = ground arith

  do_readlink_lem : do_readlink hdr body p ≡ answer_to hdr (Methods.readlink to_errno hdr.node_id p)
  unfolding do_readlink Methods.readlink reply_err
  do_readlink_lem = ground arith

  do_open_lem :
      8 ≤ length body
      → do_open hdr body p
        ≡ answer_to hdr (Methods.open_file to_errno (le_uint (take 4 body)) hdr.node_id p)
  unfolding do_open Methods.open_file reply_err
  do_open_lem h = ground arith

  do_read_lem :
      40 ≤ length body
      → do_read hdr body p
        ≡ answer_to hdr (
            Methods.read to_errno hdr.node_id
              (le_uint (slice 8 8 body))
              (le_uint (slice 16 4 body))
              p)
  unfolding do_read Methods.read reply_err
  do_read_lem h = ground arith

  do_stat_fs_lem : do_stat_fs hdr body p ≡ answer_to hdr (Methods.stat_fs to_errno p)
  unfolding do_stat_fs Methods.stat_fs reply_err
  do_stat_fs_lem = ground arith

  do_open_dir_lem : do_open_dir hdr body p ≡ answer_to hdr (Methods.open_dir to_errno hdr.node_id p)
  unfolding do_open_dir Methods.open_dir reply_err
  do_open_dir_lem = ground arith

  do_read_dir_lem :
      (plus : Bool)
      → 24 ≤ length body
      → do_read_dir hdr body plus p
        ≡ answer_to hdr (
            Methods.read_dir to_errno hdr.node_id
              (le_uint (slice 8 8 body))
              (le_uint (slice 16 4 body))
              plus
              p)
  unfolding do_read_dir Methods.read_dir reply_err
  do_read_dir_lem plus h = ground arith

  do_access_lem :
      8 ≤ length body
      → do_access hdr body p
        ≡ answer_to hdr (Methods.access to_errno (le_uint (take 4 body)) hdr.uid hdr.node_id p)
  unfolding do_access Methods.access reply_err
  do_access_lem h = ground arith

  do_forget_lem :
      8 ≤ length body
      → do_forget hdr body p ≡ (none, Methods.forget hdr.node_id (le_uint (take 8 body)) p)
  unfolding do_forget Methods.forget
  do_forget_lem h = ground arith

-- What the method for an operation answers, for a request that is decoded as go-fuse does it; none
-- for the operations that have no method here.
abbrev pub method_answer : Operation → FuseInHeader → Bytes → PkgFs → Option Answer
method_answer lookup hdr body p =
    some (answer_to hdr (Methods.lookup to_errno hdr.node_id (cstring body) p))
method_answer forget hdr body p = some (none, Methods.forget hdr.node_id (le_uint (take 8 body)) p)
method_answer get_attr hdr body p = some (answer_to hdr (Methods.get_attr to_errno hdr.node_id p))
method_answer readlink hdr body p = some (answer_to hdr (Methods.readlink to_errno hdr.node_id p))
method_answer open_file hdr body p =
    some (answer_to hdr (Methods.open_file to_errno (le_uint (take 4 body)) hdr.node_id p))
method_answer read hdr body p = some (
    answer_to hdr
      (Methods.read to_errno hdr.node_id (le_uint (slice 8 8 body)) (le_uint (slice 16 4 body)) p))
method_answer stat_fs hdr body p = some (answer_to hdr (Methods.stat_fs to_errno p))
method_answer open_dir hdr body p = some (answer_to hdr (Methods.open_dir to_errno hdr.node_id p))
method_answer read_dir hdr body p = some (
    answer_to hdr (
      Methods.read_dir to_errno hdr.node_id (le_uint (slice 8 8 body)) (le_uint (slice 16 4 body))
        false p))
method_answer read_dir_plus hdr body p = some (
    answer_to hdr (
      Methods.read_dir to_errno hdr.node_id (le_uint (slice 8 8 body)) (le_uint (slice 16 4 body))
        true p))
method_answer access hdr body p =
    some (answer_to hdr (Methods.access to_errno (le_uint (take 4 body)) hdr.uid hdr.node_id p))
method_answer flush hdr body p = some (answer_to hdr (Methods.flush p))
method_answer writes hdr body p = some (answer_to hdr (Methods.write_method p))
method_answer _ hdr body p = none

-- The bytes behind the header that the handler asks for.
abbrev pub needed : Operation → ℕ
needed forget = 8
needed open_file = 8
needed read = 40
needed read_dir = 24
needed read_dir_plus = 24
needed access = 8
needed _ = 0

-- The Linux server answers, and changes the cache and the reference counts, exactly as the method of
-- go-fuse does, with the server's own translation of errors in place of go-fuse's: for lookup, forget,
-- getattr, readlink, open, read, statfs, opendir, readdir, readdirplus, access, flush, fsync, and
-- everything that writes. The request has the bytes behind its header that its handler asks for: 8
-- for forget, open and access, 24 for readdir and readdirplus, 40 for read, and none for the others.
pub perform-method_answer :
    (op : Operation) (hdr : FuseInHeader) (body : Bytes) (p : PkgFs) (a : Answer)
    → needed op ≤ length body
    → method_answer op hdr body p ≡ some a
    → perform op hdr body p ≡ a
unfolding perform
perform-method_answer lookup hdr body p a h e = do_lookup_lem hdr body p ∙ some_injective e
perform-method_answer forget hdr body p a h e =
    do_forget_lem hdr body p (omega arith) ∙ some_injective e
perform-method_answer batch_forget hdr body p a h e = cc
perform-method_answer get_attr hdr body p a h e = do_get_attr_lem hdr body p ∙ some_injective e
perform-method_answer readlink hdr body p a h e = do_readlink_lem hdr body p ∙ some_injective e
perform-method_answer open_file hdr body p a h e =
    do_open_lem hdr body p (omega arith) ∙ some_injective e
perform-method_answer read hdr body p a h e = do_read_lem hdr body p h ∙ some_injective e
perform-method_answer release hdr body p a h e = cc
perform-method_answer stat_fs hdr body p a h e = do_stat_fs_lem hdr body p ∙ some_injective e
perform-method_answer open_dir hdr body p a h e = do_open_dir_lem hdr body p ∙ some_injective e
perform-method_answer read_dir hdr body p a h e =
    do_read_dir_lem hdr body p false (omega arith) ∙ some_injective e
perform-method_answer read_dir_plus hdr body p a h e =
    do_read_dir_lem hdr body p true (omega arith) ∙ some_injective e
perform-method_answer access hdr body p a h e =
    do_access_lem hdr body p (omega arith) ∙ some_injective e
perform-method_answer flush hdr body p a h e = unfold Methods.flush in some_injective e
perform-method_answer sync_dir hdr body p a h e = cc
perform-method_answer destroy hdr body p a h e = cc
perform-method_answer interrupt hdr body p a h e = cc
perform-method_answer writes hdr body p a h e = unfold Methods.write_method in some_injective e
perform-method_answer other hdr body p a h e = cc
