-- ===== src/Fs/Server/Wire.antt =====
-- What apkgfs/server.go writes to the kernel: `reply`, `InodeNotify` and `InodeNotifyStoreCache`, and
-- `NotifyInode` of apkgfs/fs.go, which calls the two. The
-- numbers stand in the order of the machine, which is little-endian on every supported platform.
pub mod Lengths
pub mod Stores
use apkg.Prelude.{
  ℕ, Option, some, none, ltb, if◌then◌else◌, zero, suc, ◌+◌, ◌-◌, ◌/◌, ◌%◌, ◌^◌, ◌<◌, ◌≡◌, refl,
  List, [], ◌∷◌, ◌++◌, length, take, arith, length-append, take-front, ap, sym, ◌∙◌,
}
use apkg.Prelude.Bytes.{Bytes}
use apkg.Errors.{Error}
use apkg.Fs.Server.{le_uint}

-- A number of `n` bytes.
unfoldable pub put_le : ℕ → ℕ → Bytes
put_le zero v = []
put_le (suc n) v = v % 256 ∷ put_le n (v / 256)

-- `fuseOutHeader` and what follows it; the status is an int32 by its bits.
unfoldable pub frame : ℕ → ℕ → Bytes → Bytes
frame status unique payload =
    put_le 4 (16 + length payload) ++ (put_le 4 status ++ (put_le 8 unique ++ payload))

-- The bits of the int32 that is `n` negated.
abbrev pub negated : ℕ → ℕ
negated n = (2 ^ 32 - n % 2 ^ 32) % 2 ^ 32

unfoldable pub reply_bytes : ℕ → ℕ → Bytes → Bytes
reply_bytes unique status payload = frame (negated status) unique payload

-- The codes are -2 and -4; offset and length are int64s by their bits.
unfoldable pub inode_notify : ℕ → ℕ → ℕ → Bytes
inode_notify ino off len = frame (negated 2) 0 (put_le 8 ino ++ (put_le 8 off ++ put_le 8 len))

-- Of the 24 bytes of `fuseNotifyStoreOut` the first 16 are copied, node and offset: the size and the
-- padding stay 0.
unfoldable pub inode_notify_store_cache : ℕ → ℕ → Bytes → Bytes
inode_notify_store_cache ino off content =
    frame (negated 4) 0 (put_le 8 ino ++ (put_le 8 off ++ (put_le 4 0 ++ (put_le 4 0 ++ content))))

-- `PkgFS.NotifyInode` of apkgfs/fs.go with the server of Linux: what it writes, and its error. `write` is
-- the system call, whose answer to the store is not looked at.
unfoldable pub notify_inode : (Bytes → Option Error) → ℕ → ℕ → Bytes → List Bytes × Option Error
notify_inode write ino off content =
    let inval = inode_notify ino off (length content) in
    elim (write inval) [
      | some e ↦ (inval ∷ [], some e)
      | none ↦
          if ltb 0 (length content)
          then (inval ∷ inode_notify_store_cache ino off content ∷ [], none)
          else (inval ∷ [], none)
    ]
