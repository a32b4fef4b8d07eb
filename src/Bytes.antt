-- ===== src/Bytes.antt =====
-- The byte-level part of entangler/block.go: padding and XOR of two chunks.
mod Xor
pub mod Laws
mod Tests
use ipfs_reliability.Prelude.{ℕ, ◌-◌, List, [], ◌∷◌, ◌++◌, ltb, if◌then◌else◌}
use ipfs_reliability.Prelude.{length, replicate, bit_xor}

-- The two slices that paddingData's pointers lead to, after the call.
unfoldable pub padding_data : List ℕ → List ℕ → List ℕ × List ℕ
padding_data chunk1 chunk2 =
    let len1 = length chunk1 in
    let len2 = length chunk2 in
    if ltb len2 len1
    then (chunk1, chunk2 ++ replicate (len1 - len2) 0)
    else if ltb len1 len2
    then (chunk1 ++ replicate (len2 - len1) 0, chunk2)
    else (chunk1, chunk2)

-- result[i] = chunk1[i] ^ chunk2[i], over two slices of one length.
unfoldable pub xor_bytes : List ℕ → List ℕ → List ℕ
xor_bytes (a ∷ xs) (b ∷ ys) = bit_xor a b ∷ xor_bytes xs ys
xor_bytes xs ys = []

unfoldable pub xor_chunk_data : List ℕ → List ℕ → List ℕ
xor_chunk_data [] chunk2 = chunk2
xor_chunk_data chunk1 [] = chunk1
xor_chunk_data (a ∷ xs) (b ∷ ys) =
    let padded = padding_data (a ∷ xs) (b ∷ ys) in xor_bytes padded.0 padded.1
