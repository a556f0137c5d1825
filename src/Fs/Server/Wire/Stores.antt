-- ===== src/Fs/Server/Wire/Stores.antt =====
-- What the kernel reads of the stores that apkgfs/server.go sends.
use apkg.Prelude.{ℕ, ◌+◌, ◌^◌, ◌≤◌, ◌<◌, ◌≡◌, refl, Option, none, [], ◌∷◌, length, arith, ◌∙◌}
use apkg.Prelude.Bytes.{Bytes}
use apkg.Errors.{Error}
use apkg.Fs.Server.{le_uint, slice}
use apkg.Fs.Server.Wire.{put_le, frame, inode_notify, inode_notify_store_cache, notify_inode}
use apkg.Fs.Server.Wire.Lengths.{written-length}

store_size :
    (ino off : ℕ) (content : Bytes)
    → le_uint (slice 32 4 (inode_notify_store_cache ino off content)) ≡ 0
unfolding inode_notify_store_cache frame put_le le_uint
store_size ino off content = refl

store_length :
    (ino off : ℕ) (content : Bytes)
    → 40 + length content < 2 ^ 32
    → le_uint (slice 0 4 (inode_notify_store_cache ino off content)) ≡ 40 + length content
store_length ino off content h =
    let total : length (inode_notify_store_cache ino off content) ≡ 40 + length content =
      unfold inode_notify_store_cache frame put_le in omega arith in
    (written-length 0 0 ino off 0 content h).2 ∙ total

-- A notification of new bytes of an inode, whose invalidation the kernel takes, is answered without an
-- error and sends the bytes in a second message. That message says in its first four bytes that it has
-- 40 bytes and the content, and in the field of the size that the content has no bytes.
pub notify_inode-size :
    (write : Bytes → Option Error) (ino off : ℕ) (content : Bytes)
    → write (inode_notify ino off (length content)) ≡ none
    → 1 ≤ length content
    → 40 + length content < 2 ^ 32
    → (m : Bytes) × (notify_inode write ino off content
        ≡ (inode_notify ino off (length content) ∷ m ∷ [], none))
      × (le_uint (slice 0 4 m) ≡ 40 + length content)
      × (le_uint (slice 32 4 m) ≡ 0)
unfolding notify_inode
notify_inode-size write ino off content taken some_bytes h = (
  inode_notify_store_cache ino off content,
  ground (arith, taken, some_bytes),
  store_length ino off content h,
  store_size ino off content,
)
