-- ===== src/Convert/Blocks.antt =====
-- The hash table of cmd/apkg-convert/process.go.
use apkg.Prelude.{
  ℕ, zero, suc, ◌*◌, ◌≤◌, ◌<◌, ◌≡◌, refl, ap, sym, ◌∙◌, [], ◌∷◌, ◌++◌, arith, length, take, drop,
  length-drop, drop_add, take-front, drop-front,
}
use native.Mathlib.Nat.{mul-suc}
use apkg.Prelude.Bytes.{Bytes}
use apkg.Convert.{hash_blocks, hash_table, block_size_of}
use apkg.Convert.Layout.{block_size_of-fits}

-- One block is hashed, and the rest.
hash_blocks-step :
    (sha256 : Bytes → Bytes) (fuel size : ℕ) (image : Bytes)
    → 0 < length image
    → hash_blocks sha256 (suc fuel) size image
      ≡ sha256 (take size image) ++ hash_blocks sha256 fuel size (drop size image)
unfolding hash_blocks
hash_blocks-step sha256 fuel size [] h = absurd (omega arith)
hash_blocks-step sha256 fuel size (b ∷ image) h = refl

hash_blocks-nth :
    (sha256 : Bytes → Bytes) (i fuel size : ℕ) (image : Bytes)
    → ((b : Bytes) → length (sha256 b) ≡ 32)
    → 0 < size
    → length image ≤ fuel
    → size * i < length image
    → take 32 (drop (32 * i) (hash_blocks sha256 fuel size image))
      ≡ sha256 (take size (drop (size * i) image))
hash_blocks-nth sha256 i zero size image h32 pos enough inside = absurd (omega arith)
hash_blocks-nth sha256 zero (suc fuel) size image h32 pos enough inside =
    ap (take 32) (hash_blocks-step sha256 fuel size image (omega arith))
    ∙ take-front (sha256 (take size image)) _ 32 (h32 (take size image))
    ∙ ap (λ k. sha256 (take size (drop k image))) {x = 0} {y = size * 0} (omega arith)
hash_blocks-nth sha256 (suc i) (suc fuel) size image h32 pos enough inside =
    let m = mul-suc size i in
    let l = length-drop size image in
    ap (λ t. take 32 (drop (32 * suc i) t)) (hash_blocks-step sha256 fuel size image (omega arith))
    ∙ ap (take 32) (sym (drop_add 32 (32 * i) (32 * suc i) _ (omega arith)))
    ∙ ap (λ t. take 32 (drop (32 * i) t))
        (drop-front (sha256 (take size image)) _ 32 (h32 (take size image)))
    ∙ hash_blocks-nth sha256 i fuel size (drop size image) h32 pos (omega (arith, l))
        (omega (arith, l, m))
    ∙ ap (λ t. sha256 (take size t))
        (drop_add size (size * i) (size * suc i) image (omega (arith, m)))

-- The table has the hash of every block of the image at its place: if the hash has 32 bytes, then
-- wherever block `i` starts inside the image, the 32 bytes at `32 * i` are its hash; a last block
-- that is not full is hashed as it is.
pub hash_table-nth :
    (sha256 : Bytes → Bytes) (i : ℕ) (image : Bytes)
    → ((b : Bytes) → length (sha256 b) ≡ 32)
    → block_size_of (length image) * i < length image
    → take 32 (drop (32 * i) (hash_table sha256 image))
      ≡ sha256 (take (block_size_of (length image)) (drop (block_size_of (length image) * i) image))
unfolding hash_table
hash_table-nth sha256 i image h32 inside =
    let (_, positive, _) = block_size_of-fits (length image) in
    hash_blocks-nth sha256 i (length image) (block_size_of (length image)) image h32
      (omega (arith, positive)) (omega arith) inside
