-- ===== src/Convert/Layout.antt =====
-- Where cmd/apkg-convert/process.go puts the parts of a package file.
use apkg.Prelude.{ℕ, ◌+◌, ◌/◌, ◌%◌, ◌≤◌, ◌<◌, ◌≡◌, ◌⊎◌, arith}
use apkg.Convert.{block_size_loop, block_size_of, padding_at, data_offset}

-- The data starts at the first multiple of 512 that leaves room for the 99 bytes of a signature.
pub data_offset-first :
    (offset : ℕ)
    → (data_offset offset % 512 ≡ 0)
      × (offset + 99 ≤ data_offset offset)
      × (data_offset offset < offset + 99 + 512)
unfolding data_offset padding_at
data_offset-first offset = ground arith

-- The rounds of the loop are enough: the block size that it ends with has at most 1500 blocks of
-- the file before it, or is the largest one; and it is between 4096 and 131072.
pub block_size_of-fits :
    (n : ℕ)
    → ((n / block_size_of n ≤ 1500) ⊎ (block_size_of n ≡ 131072))
      × (4096 ≤ block_size_of n)
      × (block_size_of n ≤ 131072)
unfolding block_size_of block_size_loop
block_size_of-fits n = ground arith
