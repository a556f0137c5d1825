-- ===== src/Fs/Server/Answers.antt =====
-- What every answer of apkgfs/server.go is like, and what a request may change.
use apkg.Prelude.{
  ◌≡◌, refl, Bool, true, false, ◌&&◌, ◌||◌, Option, none, some, arith, if◌then◌else◌, ◌==◌,
}
use apkg.Prelude.Bytes.{Bytes}
use apkg.Fs.{PkgFs}
use apkg.Fs.Server.{FuseInHeader, Payload, nothing, crashed, reply_err, error_out, in_header}
use apkg.Fs.Server.Handlers.{
  Answer, do_lookup, do_forget, do_batch_forget, do_get_attr, do_readlink, do_open, do_read,
  do_stat_fs, do_open_dir, do_read_dir, do_access,
}
use apkg.Fs.Server.Dispatch.{
  Operation, lookup, forget, batch_forget, get_attr, readlink, open_file, read, release, stat_fs,
  open_dir, read_dir, read_dir_plus, access, destroy, interrupt, operation, perform, handle_request,
}

abbrev is_nothing : Payload → Bool
is_nothing nothing = true
is_nothing _ = false

-- An answer under the id of the request, which has no content if it reports an error; or a panic.
abbrev pub is_proper : FuseInHeader → Answer → Bool
is_proper hdr a = elim a.0 [
  | none ↦ false
  | some r ↦ elim r.payload [
    | crashed ↦ true
    | payload ↦ r.unique == hdr.unique && (r.status == 0 || is_nothing payload)
  ]
]

-- The operations that the kernel awaits no answer to.
abbrev pub is_silent : Operation → Bool
is_silent forget = true
is_silent batch_forget = true
is_silent release = true
is_silent destroy = true
is_silent interrupt = true
is_silent _ = false

-- The operations that may change the cache and the reference counts.
abbrev pub is_counting : Operation → Bool
is_counting lookup = true
is_counting forget = true
is_counting batch_forget = true
is_counting _ = false

module _ (hdr : FuseInHeader) (body : Bytes) (p : PkgFs) where
  lookup_proper : is_proper hdr (do_lookup hdr body p) ≡ true
  unfolding do_lookup reply_err error_out
  lookup_proper = ground arith

  get_attr_proper : is_proper hdr (do_get_attr hdr body p) ≡ true
  unfolding do_get_attr reply_err error_out
  get_attr_proper = ground arith

  readlink_proper : is_proper hdr (do_readlink hdr body p) ≡ true
  unfolding do_readlink reply_err error_out
  readlink_proper = ground arith

  open_proper : is_proper hdr (do_open hdr body p) ≡ true
  unfolding do_open reply_err error_out
  open_proper = ground arith

  read_proper : is_proper hdr (do_read hdr body p) ≡ true
  unfolding do_read reply_err error_out
  read_proper = ground arith

  stat_fs_proper : is_proper hdr (do_stat_fs hdr body p) ≡ true
  unfolding do_stat_fs reply_err error_out
  stat_fs_proper = ground arith

  open_dir_proper : is_proper hdr (do_open_dir hdr body p) ≡ true
  unfolding do_open_dir reply_err error_out
  open_dir_proper = ground arith

  read_dir_proper : (plus : Bool) → is_proper hdr (do_read_dir hdr body plus p) ≡ true
  unfolding do_read_dir reply_err error_out
  read_dir_proper plus = ground arith

  access_proper : is_proper hdr (do_access hdr body p) ≡ true
  unfolding do_access reply_err error_out
  access_proper = ground arith

-- No answer, or one that is proper (or a panic in its place) or not.
abbrev pub answer_kind : FuseInHeader → Answer → Option Bool
answer_kind hdr a = elim a.0 [ none ↦ none | some r ↦ some (is_proper hdr a) ]

proper_kind :
    (hdr : FuseInHeader) (a : Answer) → is_proper hdr a ≡ true → answer_kind hdr a ≡ some true
proper_kind hdr a h = ground arith

perform_kind :
    (op : Operation) (hdr : FuseInHeader) (body : Bytes) (p : PkgFs)
    → answer_kind hdr (perform op hdr body p) ≡ (if is_silent op then none else some true)
unfolding perform
perform_kind lookup hdr body p = proper_kind hdr (do_lookup hdr body p) (lookup_proper hdr body p)
perform_kind forget hdr body p = unfold do_forget in ground arith
perform_kind batch_forget hdr body p = unfold do_batch_forget in ground arith
perform_kind get_attr hdr body p =
    proper_kind hdr (do_get_attr hdr body p) (get_attr_proper hdr body p)
perform_kind readlink hdr body p =
    proper_kind hdr (do_readlink hdr body p) (readlink_proper hdr body p)
perform_kind open_file hdr body p = proper_kind hdr (do_open hdr body p) (open_proper hdr body p)
perform_kind read hdr body p = proper_kind hdr (do_read hdr body p) (read_proper hdr body p)
perform_kind stat_fs hdr body p =
    proper_kind hdr (do_stat_fs hdr body p) (stat_fs_proper hdr body p)
perform_kind open_dir hdr body p =
    proper_kind hdr (do_open_dir hdr body p) (open_dir_proper hdr body p)
perform_kind read_dir hdr body p =
    proper_kind hdr (do_read_dir hdr body false p) (read_dir_proper hdr body p false)
perform_kind read_dir_plus hdr body p =
    proper_kind hdr (do_read_dir hdr body true p) (read_dir_proper hdr body p true)
perform_kind access hdr body p = proper_kind hdr (do_access hdr body p) (access_proper hdr body p)
perform_kind _ hdr body p = ground arith

-- Handled on its own, every request that is no forget, release, destroy or interrupt has exactly one
-- answer, under its own id and without content if it reports an error, or the code panics and the
-- process ends. The forgets, the releases, destroy and interrupt have no answer, and do not panic.
pub handle_request-answer :
    (bytes : Bytes) (p : PkgFs)
    → answer_kind (in_header bytes) (handle_request bytes p)
      ≡ (if is_silent (operation (in_header bytes).opcode) then none else some true)
unfolding handle_request
handle_request-answer bytes p = perform_kind (operation (in_header bytes).opcode) _ _ p

perform_keeps :
    (op : Operation) (hdr : FuseInHeader) (body : Bytes) (p : PkgFs)
    → is_counting op ≡ false
    → (perform op hdr body p).1 ≡ p
unfolding perform
perform_keeps lookup hdr body p h = cc
perform_keeps forget hdr body p h = cc
perform_keeps batch_forget hdr body p h = cc
perform_keeps get_attr hdr body p h = unfold do_get_attr in ground arith
perform_keeps readlink hdr body p h = unfold do_readlink in ground arith
perform_keeps open_file hdr body p h = unfold do_open in ground arith
perform_keeps read hdr body p h = unfold do_read in ground arith
perform_keeps stat_fs hdr body p h = unfold do_stat_fs in ground arith
perform_keeps open_dir hdr body p h = unfold do_open_dir in ground arith
perform_keeps read_dir hdr body p h = unfold do_read_dir in ground arith
perform_keeps read_dir_plus hdr body p h = unfold do_read_dir in ground arith
perform_keeps access hdr body p h = unfold do_access in ground arith
perform_keeps _ hdr body p h = refl

-- Only a lookup and the forgets change the cache or a reference count.
pub handle_request-keeps :
    (bytes : Bytes) (p : PkgFs)
    → is_counting (operation (in_header bytes).opcode) ≡ false
    → (handle_request bytes p).1 ≡ p
unfolding handle_request
handle_request-keeps bytes p h = perform_keeps (operation (in_header bytes).opcode) _ _ p h
