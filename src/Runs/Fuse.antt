-- ===== src/Runs/Fuse.antt =====
-- The filesystem server at concrete inputs.
use apkg.Prelude.{
  false, leb, ◌^◌, ◌+◌, ◌≡◌, refl, take, drop, length, ltb, true, false, Option, none, some, List,
  [], ◌∷◌, ◌++◌, arith, if◌then◌else◌, ◌==◌,
}
use apkg.Prelude.Bytes.{Bytes, codes}
use apkg.Fs.Server.Wire.{inode_notify, notify_inode}
use apkg.Fs.Server.Wire.Stores.{notify_inode-size}
use apkg.Errors.{Error, not_exist, invalid, ok, err}
use apkg.Root.{Layout, ldso_inode}
use apkg.Root.Ends.{do_read-ldso}
use apkg.Fs.Server.Handlers.{do_read}
use apkg.Fs.{Inode, PkgFs, get_inode, get_inode_cache, remove_from_cache}
use apkg.Fs.Cache.{Holds, Event, looked, forgot, run, cached_until_forgotten}
use apkg.Fs.Server.{
  crashed, error_out, FuseInHeader, Reply, reply, reply_status, raw, eio, slice, nothing, in_header,
  le_uint, to_errno,
}
use apkg.Fs.Methods
use apkg.Fs.Methods.Agreement.{method_answer, perform-method_answer}
use apkg.Fs.Server.Dispatch.{Operation, handle_request, operation, perform}
use apkg.Fs.Server.Answers.{
  answer_kind, is_silent, is_counting, handle_request-answer, handle_request-keeps,
}

abbrev pub node : Inode
node = record {
  ident = 7;
  counted = true;
  is_dir = false;
  mode = 0;
  lookup = λ name. err not_exist;
  fill_attr = λ ino. err not_exist;
  readlink = err not_exist;
  open_file = λ flags. err not_exist;
  open_dir = err not_exist;
  read_dir = λ off size plus. err not_exist;
  read_at = none;
}

-- One node, looked up once.
abbrev server : PkgFs
server = record {
  root = node;
  root_get_inode = λ n. err not_exist;
  root_stat_fs = err not_exist;
  ino_cache = (1001, node) ∷ [];
  refs = λ i. if i == 7 then 1 else 0;
}

held : Holds 1001 node server 1
held = unfold get_inode_cache in record { cached = refl; refs = refl }

abbrev events : List Event
events = looked ∷ looked ∷ forgot 1 ∷ looked ∷ forgot 2 ∷ []

cached_until_forgotten_example :
    Holds 1001 node (run 1001 node refl events server) 1
    × (get_inode_cache 1001 (remove_from_cache 1001 1 (run 1001 node refl events server)).ino_cache
        ≡ none)
cached_until_forgotten_example =
    cached_until_forgotten 1001 node refl events server 1 1 held refl (omega arith)

-- An `open` of node 5 under the id 9.
abbrev request : Bytes
request =
    (40 ∷ 0 ∷ 0 ∷ 0 ∷ 14 ∷ 0 ∷ 0 ∷ 0 ∷ 9 ∷ 0 ∷ 0 ∷ 0 ∷ 0 ∷ 0 ∷ 0 ∷ 0 ∷ [])
    ++ (5 ∷ 0 ∷ 0 ∷ 0 ∷ 0 ∷ 0 ∷ 0 ∷ 0 ∷ 0 ∷ 0 ∷ 0 ∷ 0 ∷ 0 ∷ 0 ∷ 0 ∷ 0 ∷ 0 ∷ 0 ∷ 0 ∷ 0 ∷ 0 ∷ 0 ∷ 0
        ∷ 0 ∷ [])

handle_request-answer_example :
    answer_kind (in_header request) (handle_request request server)
    ≡ (if is_silent (operation (in_header request).opcode) then none else some true)
handle_request-answer_example = handle_request-answer request server

not_counting : is_counting (operation (in_header request).opcode) ≡ false
unfolding operation in_header le_uint
not_counting = refl

handle_request-keeps_example : (handle_request request server).1 ≡ server
handle_request-keeps_example = handle_request-keeps request server not_counting

abbrev open_body : Bytes
open_body = 0 ∷ 0 ∷ 0 ∷ 0 ∷ 0 ∷ 0 ∷ 0 ∷ 0 ∷ []

abbrev no_node_answer : Option Reply
no_node_answer = some (record { unique = 9; status = 2; payload = nothing })

-- The same `open`, decoded, for a node that is not there.
no_node :
    method_answer Operation.open_file (in_header request) open_body server
    ≡ some (no_node_answer, server)
unfolding Methods.open_file in_header le_uint to_errno error_out get_inode get_inode_cache
no_node = refl

perform-method_answer_example :
    perform Operation.open_file (in_header request) open_body server ≡ (no_node_answer, server)
perform-method_answer_example =
    perform-method_answer Operation.open_file (in_header request) open_body server
      (no_node_answer, server) (omega arith) no_node

-- A read of node 2 from the end of the loader's cache on.
abbrev pub plain_layout : Layout
plain_layout a = record { fields = a.ino ∷ a.size ∷ [] }

abbrev pub loader_bytes : Bytes
loader_bytes = codes "ld.so"

abbrev loader_server : PkgFs
loader_server = record server {
  root_get_inode = λ n. if n == 2 then ok (ldso_inode plain_layout loader_bytes) else err invalid;
}

abbrev pub read_header : FuseInHeader
read_header = in_header (
    (80 ∷ 0 ∷ 0 ∷ 0 ∷ 15 ∷ 0 ∷ 0 ∷ 0 ∷ 9 ∷ 0 ∷ 0 ∷ 0 ∷ 0 ∷ 0 ∷ 0 ∷ 0 ∷ [])
    ++ (2 ∷ 0 ∷ 0 ∷ 0 ∷ 0 ∷ 0 ∷ 0 ∷ 0 ∷ 0 ∷ 0 ∷ 0 ∷ 0 ∷ 0 ∷ 0 ∷ 0 ∷ 0 ∷ 0 ∷ 0 ∷ 0 ∷ 0 ∷ 0 ∷ 0 ∷ 0
        ∷ 0 ∷ []))

abbrev read_body : Bytes
read_body =
    (0 ∷ 0 ∷ 0 ∷ 0 ∷ 0 ∷ 0 ∷ 0 ∷ 0 ∷ 5 ∷ 0 ∷ 0 ∷ 0 ∷ 0 ∷ 0 ∷ 0 ∷ 0 ∷ 4 ∷ 0 ∷ 0 ∷ 0 ∷ [])
    ++ (0 ∷ 0 ∷ 0 ∷ 0 ∷ 0 ∷ 0 ∷ 0 ∷ 0 ∷ 0 ∷ 0 ∷ 0 ∷ 0 ∷ 0 ∷ 0 ∷ 0 ∷ 0 ∷ 0 ∷ 0 ∷ 0 ∷ 0 ∷ [])

loader_found :
    get_inode read_header.node_id loader_server ≡ ok (ldso_inode plain_layout loader_bytes)
unfolding get_inode in_header le_uint get_inode_cache
loader_found = refl

read_size : le_uint (slice 16 4 read_body) ≡ 4
unfolding le_uint
read_size = refl

do_read-ldso_example : do_read read_header read_body loader_server ≡ (
  some (
      if leb (2 ^ 63) (le_uint (slice 8 8 read_body))
      then reply read_header.unique crashed
      else if ltb (le_uint (slice 8 8 read_body)) (length loader_bytes)
      then reply read_header.unique (
          raw (
            take
              (le_uint (slice 16 4 read_body))
              (drop (le_uint (slice 8 8 read_body)) loader_bytes)))
      else reply_status read_header.unique eio),
  loader_server,
)
do_read-ldso_example =
    do_read-ldso plain_layout loader_bytes read_header read_body loader_server loader_found
      (omega arith) (omega (arith, read_size))

-- The loader's cache is pushed to a kernel that takes every message.
abbrev all_written : Bytes → Option Error
all_written m = none

notify_inode-size_example :
    (m : Bytes) × (notify_inode all_written 2 0 loader_bytes
      ≡ (inode_notify 2 0 (length loader_bytes) ∷ m ∷ [], none))
    × (le_uint (slice 0 4 m) ≡ 40 + length loader_bytes)
    × (le_uint (slice 32 4 m) ≡ 0)
notify_inode-size_example =
    notify_inode-size all_written 2 0 loader_bytes refl (omega arith) (omega arith)
