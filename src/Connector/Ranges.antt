-- ===== src/Connector/Ranges.antt =====
-- calculateNewBlocks of ipfs-connector/blockgetter.go. The parity blocks of a strand are stored as one
-- file, which is cut again into blocks of another size: where is a parity block in it?
pub mod Laws
use ipfs_reliability.Prelude.{ℕ, zero, suc, ◌+◌, ◌*◌, ◌-◌, ◌/◌, ◌%◌, List, [], ◌∷◌, ◌++◌, Option}
use ipfs_reliability.Prelude.{none, some, length, slice, leb, ◌==◌, if◌then◌else◌, ◌>>=◌}

-- A block and the range of its bytes, [3]int{block, lo, hi}.
pub record Range : Type 0 where
  pub block : ℕ
  pub lo : ℕ
  pub hi : ℕ

-- The intermediate full blocks, `n` of them from block b on.
unfoldable pub full_blocks : ℕ → ℕ → ℕ → List Range
full_blocks zero b new_block_size = []
full_blocks (suc n) b new_block_size =
    record { block = b; lo = 0; hi = new_block_size } ∷ full_blocks n (suc b) new_block_size

-- For positive sizes.
unfoldable pub calculate_new_blocks : ℕ → ℕ → ℕ → List Range
unfolding full_blocks
calculate_new_blocks original_block_size new_block_size original_index =
    let start_byte = original_index * original_block_size in
    let end_byte = start_byte + original_block_size in
    let start_block = start_byte / new_block_size in
    let end_block = (end_byte - 1) / new_block_size in
    let last = (end_byte - 1) % new_block_size + 1 in
    let many =
      record { block = start_block; lo = start_byte % new_block_size; hi = new_block_size }
        ∷ full_blocks (end_block - suc start_block) (suc start_block) new_block_size
      ++ record { block = end_block; lo = 0; hi = last } ∷ [] in
    if start_block == end_block
    then record { block = start_block; lo = start_byte % new_block_size; hi = last } ∷ []
    else many

-- data[lo:hi] of a slice without room behind its length: past it Go panics.
unfoldable pub read_range : Range → List ℕ → Option (List ℕ)
read_range r bytes = if leb r.hi (length bytes) then some (slice r.lo r.hi bytes) else none

-- The ranges read one after the other, as GetParity does with blocks that are there.
unfoldable pub read_ranges : (ℕ → List ℕ) → List Range → Option (List ℕ)
unfolding read_range
read_ranges block_of [] = some []
read_ranges block_of (r ∷ rest) = do
  bytes ← read_range r (block_of r.block)
  more ← read_ranges block_of rest
  some (bytes ++ more)
