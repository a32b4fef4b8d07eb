-- ===== src/Bytes/Tests.antt =====
-- Runs of the XOR of two chunks.
use ipfs_reliability.Prelude.{◌-◌, ◌≡◌, refl, [], ◌∷◌}
use ipfs_reliability.Bytes.{xor_chunk_data, padding_data, xor_bytes}
use ipfs_reliability.Bytes.Laws.{
  overlay, zeros_after, xor_chunk_data-eq-overlay, xor_chunk_data_cancel,
}

padded_xor : xor_chunk_data (5 ∷ 3 ∷ []) (1 ∷ []) ≡ 4 ∷ 3 ∷ []
unfolding xor_chunk_data padding_data xor_bytes
padded_xor = refl

xor_chunk_data-eq-overlay_example :
    xor_chunk_data (5 ∷ 3 ∷ []) (1 ∷ []) ≡ overlay (5 ∷ 3 ∷ []) (1 ∷ [])
xor_chunk_data-eq-overlay_example = xor_chunk_data-eq-overlay (5 ∷ 3 ∷ []) (1 ∷ [])

xor_chunk_data_cancel_example :
    xor_chunk_data (xor_chunk_data (1 ∷ []) (5 ∷ 3 ∷ [])) (5 ∷ 3 ∷ [])
    ≡ zeros_after (1 ∷ []) (2 - 1)
xor_chunk_data_cancel_example = xor_chunk_data_cancel (1 ∷ []) (5 ∷ 3 ∷ [])
