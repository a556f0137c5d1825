-- ===== src/Fs/Methods.antt =====
-- The methods of `PkgFS` in apkgfs/fs.go, which go-fuse calls with decoded requests. A method returns
-- the status, what it puts into its output, and the state behind it. `toStatus` of apkgfs/status.go
-- hands every error on to go-fuse's `ToStatus`, which is not in the repository: it is a parameter.
pub mod Agreement
use Prim.Native.Nat.{bit_and}
use apkg.Prelude.{ℕ, Bool, true, false, not, Option, none, some, [], ◌∷◌, if◌then◌else◌, ◌==◌}
use apkg.Prelude.Bytes.{Bytes}
use apkg.Errors.{Error, Result, ok, err}
use apkg.Fs.{Inode, PkgFs, add_ref, add_to_cache, remove_from_cache, get_inode}
use apkg.Fs.Server.{
  Payload, nothing, error_out, raw, entry_out, attr_out, open_out, eperm, enotdir, erofs, enosys,
}

pub record Outcome : Type 0 where
  pub status : ℕ
  pub out : Payload
  pub state : PkgFs

abbrev pub outcome : ℕ → Payload → PkgFs → Outcome
outcome s o p = record { status = s; out = o; state = p }

-- Bytes of which there are none are no output.
abbrev pub bytes_out : Bytes → Payload
bytes_out [] = nothing
bytes_out (b ∷ bs) = raw (b ∷ bs)

abbrev pub flag_set : ℕ → ℕ → Bool
flag_set n mask = not (bit_and n mask == 0)

module _ (to_status : Error → ℕ) where
  abbrev failure : Error → PkgFs → Outcome
  failure e p = let (status, out) = error_out to_status e in outcome status out p

  -- `p.getInode`, and `toStatus` of its error.
  abbrev with_node : ℕ → PkgFs → (Inode → Outcome) → Outcome
  with_node n p f = elim (get_inode n p) [ err e ↦ failure e p | ok i ↦ f i ]

  -- The mask, the caller and the node.
  unfoldable pub access : ℕ → ℕ → ℕ → PkgFs → Outcome
  access mask uid n p =
      if flag_set mask 2
      then outcome eperm nothing p
      else if uid == 0
      then outcome 0 nothing p
      else with_node n p (λ ino.
        if flag_set mask 1
        then (if bit_and ino.mode 1 == 0 then outcome eperm nothing p else outcome 0 nothing p)
        else outcome 0 nothing p)

  found : ℕ → Inode → PkgFs → Outcome
  found sub i p =
      let q = add_to_cache sub i (add_ref i 1 p).1 in
      elim (i.fill_attr sub) [ err e ↦ failure e q | ok a ↦ outcome 0 (entry_out sub a) q ]

  unfoldable pub lookup : ℕ → Bytes → PkgFs → Outcome
  unfolding found
  lookup n name p = with_node n p (λ ino. elim (ino.lookup name) [
    | err e ↦ failure e p
    | ok sub ↦ with_node sub p (λ i. found sub i p)
  ])

  unfoldable pub get_attr : ℕ → PkgFs → Outcome
  get_attr n p =
      with_node n p
        (λ ino. elim (ino.fill_attr n) [ err e ↦ failure e p | ok a ↦ outcome 0 (attr_out n a) p ])

  unfoldable pub readlink : ℕ → PkgFs → Outcome
  readlink n p =
      with_node n p
        (λ ino. elim ino.readlink [ err e ↦ failure e p | ok target ↦ outcome 0 (raw target) p ])

  -- The flags and the node.
  unfoldable pub open_file : ℕ → ℕ → PkgFs → Outcome
  open_file flags n p =
      if flag_set flags 1
      then outcome erofs nothing p
      else with_node n p (λ ino. elim (ino.open_file flags) [
        | err e ↦ failure e p
        | ok out ↦ outcome 0 (open_out out) p
      ])

  read_outcome : Bytes → Option Error → PkgFs → Outcome
  read_outcome (b ∷ bs) e p = outcome 0 (raw (b ∷ bs)) p
  read_outcome [] (some e) p = failure e p
  read_outcome [] none p = outcome 0 nothing p

  -- The node, the offset and the size of the buffer.
  unfoldable pub read : ℕ → ℕ → ℕ → PkgFs → Outcome
  unfolding read_outcome
  read n offset size p = with_node n p (λ ino. elim ino.read_at [
    | none ↦ outcome enosys nothing p
    | some f ↦ let (bytes, e) = f offset size in read_outcome bytes e p
  ])

  unfoldable pub open_dir : ℕ → PkgFs → Outcome
  open_dir n p = with_node n p (λ ino.
      if ino.is_dir
      then elim ino.open_dir [ err e ↦ failure e p | ok flags ↦ outcome 0 (open_out flags) p ]
      else outcome enotdir nothing p)

  -- `ReadDir` and `ReadDirPlus`.
  unfoldable pub read_dir : ℕ → ℕ → ℕ → Bool → PkgFs → Outcome
  read_dir n offset size plus p = with_node n p (λ ino.
      if ino.is_dir
      then elim (ino.read_dir offset size plus) [
        | err e ↦ failure e p
        | ok entries ↦ outcome 0 (raw entries) p
      ]
      else outcome enotdir nothing p)

  unfoldable pub stat_fs : PkgFs → Outcome
  stat_fs p = elim p.root_stat_fs [ err e ↦ failure e p | ok out ↦ outcome 0 (raw out) p ]

unfoldable pub forget : ℕ → ℕ → PkgFs → PkgFs
forget n nlookup p = remove_from_cache n nlookup p

-- Every method that would write.
unfoldable pub write_method : PkgFs → Outcome
write_method p = outcome erofs nothing p

-- `Flush` and `Fsync`.
unfoldable pub flush : PkgFs → Outcome
flush p = outcome 0 nothing p
