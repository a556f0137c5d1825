-- ===== src/Fs/Server/Loop.antt =====
-- `Serve` of apkgfs/server.go: the INIT handshake and the loop that reads requests. The source starts a
-- goroutine for each request; here they run one after the other, in the order in which they are read,
-- which is one of the orders that the goroutines may take.
pub mod Answered
use Prim.Native.Nat.{bit_and}
use apkg.Prelude.{
  ℕ, ◌+◌, ◌-◌, ◌/◌, ◌%◌, ◌^◌, Option, none, some, List, [], ◌∷◌, ◌++◌, if◌then◌else◌, ltb, leb,
  ◌==◌, length, take, drop,
}
use apkg.Prelude.Bytes.{Bytes}
use apkg.Errors.{Error, message, errno, Result, ok, err, ◌>>=◌}
use apkg.Format.{guard, zeros}
use apkg.Fs.{PkgFs}
use apkg.Fs.Server.{le_uint, slice, in_header, Reply, crashed}
use apkg.Fs.Server.Handlers.{Answer}
use apkg.Fs.Server.Dispatch.{handle_request}

-- What a read of the descriptor gives: bytes, or an error by its number.
pub data Event : Type 0 where
  got : Bytes → Event
  failed : ℕ → Event

abbrev pub enodev : ℕ
enodev = 19

abbrev pub eintr : ℕ
eintr = 4

abbrev pub op_init : ℕ
op_init = 26

-- `fuseInitOut`, less what stays 0, under the id of the request.
pub record InitOut : Type 0 where
  pub unique : ℕ
  pub major : ℕ
  pub minor : ℕ
  pub max_read_ahead : ℕ
  pub flags : ℕ
  pub max_background : ℕ
  pub congestion_threshold : ℕ
  pub max_write : ℕ
  pub time_gran : ℕ
  pub max_pages : ℕ

-- The capabilities that are asked for, as one number.
abbrev pub want_flags : ℕ
want_flags = 0x1 + 0x4 + 0x20 + 0x1000 + 0x2000 + 0x4000 + 0x8000 + 0x40000 + 0x400000 + 0x800000

abbrev pub max_write : ℕ
max_write = 131072

-- The kernel's minor version, or 28.
unfoldable pub agreed_minor : ℕ → ℕ
agreed_minor theirs = if ltb 28 theirs then 28 else theirs

-- A short read leaves the rest of the buffer of 104 bytes zero.
unfoldable pub handle_init : Event → Result InitOut
handle_init (failed n) = err (errno n)
handle_init (got b) = do
  _ ← guard (leb 40 (length b)) (message "short INIT read")
  let buf = take 104 (b ++ zeros (104 - length b))
  let body = drop 40 buf
  _ ← guard ((in_header buf).opcode == op_init) (message "expected INIT opcode")
  _ ← guard (le_uint (take 4 body) == 7) (message "unsupported FUSE major version")
  let theirs = le_uint (slice 4 4 body)
  _ ← guard (leb 12 theirs) (message "FUSE minor version too old")
  ok (record {
    unique = (in_header buf).unique;
    major = 7;
    minor = agreed_minor theirs;
    max_read_ahead = le_uint (slice 8 4 body);
    flags = bit_and want_flags (le_uint (slice 12 4 body));
    max_background = 12;
    congestion_threshold = 9;
    max_write = max_write;
    time_gran = 1;
    max_pages = ((max_write - 1) / 4096 + 1) % 2 ^ 16;
  })

-- The answer to one request in front of the others, and the state at the end; after a panic there is
-- nothing more.
abbrev pub answered : Answer → List Reply × PkgFs → List Reply × PkgFs
answered (none, q) rest = rest
answered (some r, q) rest = elim r.payload [ crashed ↦ ([], q) | _ ↦ (r ∷ rest.0, rest.1) ]

-- The loop: the answers that are written, and the state at the end.
unfoldable pub serve_loop : List Event → PkgFs → List Reply × PkgFs
serve_loop [] p = ([], p)
serve_loop (failed n ∷ es) p =
    let rest = serve_loop es p in
    if n == enodev then ([], p) else if n == eintr then rest else ([], p)
serve_loop (got b ∷ es) p =
    let skipped = serve_loop es p in
    let a = handle_request b p in
    let rest = serve_loop es a.1 in if ltb (length b) 40 then skipped else answered a rest

-- The handshake, and the loop behind it; an error of the handshake ends the server.
unfoldable pub serve : List Event → PkgFs → Option InitOut × List Reply × PkgFs
unfolding serve_loop
serve [] p = (none, [], p)
serve (e ∷ es) p = elim (handle_init e) [
  | err x ↦ (none, [], p)
  | ok out ↦ let (rs, q) = serve_loop es p in (some out, rs, q)
]
