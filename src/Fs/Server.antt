-- ===== src/Fs/Server.antt =====
-- apkgfs/server.go: one FUSE request, from its bytes to the answer and the state behind it. The numbers
-- of the header stand in the order of the machine, which is little-endian on every supported platform
-- of the Linux server.
pub mod Handlers
pub mod Dispatch
pub mod Answers
pub mod Loop
pub mod Wire
use apkg.Prelude.{
  ℕ, suc, ◌+◌, ◌*◌, ◌%◌, ◌/◌, ◌^◌, Bool, true, false, Option, none, some, List, [], ◌∷◌,
  if◌then◌else◌, ltb, ◌==◌, length, take, drop,
}
use apkg.Prelude.Bytes.{Bytes}
use apkg.Errors.{Error, not_exist, permission, invalid, exist, errno, panics, Result}
use apkg.Fs.{Attr}

-- Little-endian numbers.
unfoldable pub le_uint : Bytes → ℕ
le_uint [] = 0
le_uint (b ∷ bs) = b + 256 * le_uint bs

abbrev pub slice : ℕ → ℕ → Bytes → Bytes
slice from n b = take n (drop from b)

pub record FuseInHeader : Type 0 where
  pub len : ℕ
  pub opcode : ℕ
  pub unique : ℕ
  pub node_id : ℕ
  pub uid : ℕ
  pub gid : ℕ
  pub pid : ℕ

unfoldable pub in_header : Bytes → FuseInHeader
unfolding le_uint
in_header b = record {
  len = le_uint (slice 0 4 b);
  opcode = le_uint (slice 4 4 b);
  unique = le_uint (slice 8 8 b);
  node_id = le_uint (slice 16 8 b);
  uid = le_uint (slice 24 4 b);
  gid = le_uint (slice 28 4 b);
  pid = le_uint (slice 32 4 b);
}

-- What is written behind the header of an answer; the records of go-fuse by what is put into them.
pub data Payload : Type 0 where
  nothing : Payload
  raw : Bytes → Payload
  entry_out : ℕ → Attr → Payload
  attr_out : ℕ → Attr → Payload
  open_out : ℕ → Payload
  -- The code panics: the process ends, and nothing is written.
  crashed : Payload

-- `status` is the errno, which `reply` negates.
pub record Reply : Type 0 where
  pub unique : ℕ
  pub status : ℕ
  pub payload : Payload

abbrev pub eperm : ℕ
eperm = 1

abbrev pub eio : ℕ
eio = 5

abbrev pub eexist : ℕ
eexist = 17

abbrev pub enotdir : ℕ
enotdir = 20

abbrev pub einval : ℕ
einval = 22

abbrev pub erofs : ℕ
erofs = 30

abbrev pub enosys : ℕ
enosys = 38

-- A panic is no error value, so it has no number here; see `error_out`.
unfoldable pub to_errno : Error → ℕ
to_errno not_exist = 2
to_errno permission = eperm
to_errno invalid = einval
to_errno exist = eexist
to_errno (errno n) = n
to_errno _ = eio

abbrev pub reply_status : ℕ → ℕ → Reply
reply_status unique status = record { unique = unique; status = status; payload = nothing }

-- What stands in the place of an answer where an error does: its status, or the end of the process.
unfoldable pub error_out : (Error → ℕ) → Error → ℕ × Payload
error_out status panics = (0, crashed)
error_out status e = (status e, nothing)

unfoldable pub reply_err : ℕ → Error → Reply
reply_err unique e =
    let (status, payload) = error_out to_errno e in
    record { unique = unique; status = status; payload = payload }

abbrev pub reply : ℕ → Payload → Reply
reply unique payload = record { unique = unique; status = 0; payload = payload }

-- `cstring`
unfoldable pub cstring : Bytes → Bytes
cstring [] = []
cstring (c ∷ b) = let rest = c ∷ cstring b in if c == 0 then [] else rest
