-- ===== src/Entangler/Tests.antt =====
-- Runs of the index arithmetic of a lattice with s = p = 5.
use ipfs_reliability.Prelude.{
  ℕ, ◌≡◌, ◌≢◌, ◌≤◌, ◌+◌, ◌-◌, ◌/◌, refl, ◌↔◌, arith, [], ◌∷◌, none, some, pos,
}
use ipfs_reliability.Prelude.{◌>>=◌, true, rem, quot, ◌-ℤ◌, ◌+ℤ◌, ◌*ℤ◌}
use ipfs_reliability.Bytes.{xor_chunk_data, padding_data, xor_bytes}
use ipfs_reliability.Entangler.State.{
  EntangledBlock, Entangler, new_entangled_block, new_entangler, prepare_entangle,
}
use ipfs_reliability.Entangler.Encode.{entangle_on, set_slot, send_or_park, send}
use ipfs_reliability.Entangler.Encode.Cache.{HasSlot, chain_indexes_have_slots}
use ipfs_reliability.Entangler.Encode.Parity.{Makes, entangle_on_right}
use ipfs_reliability.Entangler.Index.{
  get_chain_indexes, get_chain_start_indexes, get_forward_neighbor_indexes,
}
use ipfs_reliability.Entangler.Index.Chains.{nth, forward_on_chain, chain_meets_column_once}
use ipfs_reliability.Entangler.Index.Starts.{chain_start_first}
use ipfs_reliability.Entangler.Index.Oblong.{oblong_breaks_right_strand}

forward_on_chain_example :
    (j : ℕ) × (nth (get_forward_neighbor_indexes 5 5 3 (pos 26)) 2 ≡ some (pos j))
    × (nth (get_chain_indexes 5 5 (pos j)) 2 ≡ nth (get_chain_indexes 5 5 (pos 26)) 2)
    × ((j - 1) / 5 ≡ (26 - 1) / 5 + 1)
forward_on_chain_example =
    forward_on_chain 5 3 26 2 (omega arith) (omega arith) (omega arith) (omega arith)

chain_meets_column_once_example : ◌≡◌ {A = ℕ} 26 26
chain_meets_column_once_example =
    chain_meets_column_once 5 26 26 1 (omega arith) (omega arith) (omega arith) (omega arith) refl
      refl

chain_start_first_example :
    (j : ℕ) × (nth (get_chain_start_indexes 5 5 (pos 26)) 1 ≡ some (pos j))
    × (1 ≤ j)
    × (j ≤ 5)
    × (nth (get_chain_indexes 5 5 (pos j)) 1 ≡ nth (get_chain_indexes 5 5 (pos 26)) 1)
    × ((j ≡ 26) ↔ (26 ≤ 5))
chain_start_first_example = chain_start_first 5 26 1 (omega arith) (omega arith) (omega arith)

chain_indexes_have_slots_example :
    (ready : Entangler) × ((new_entangler 3 2 5 [] >>= prepare_entangle) ≡ some ready)
    × ((h rh lh : ℕ) × (get_chain_indexes 2 5 (pos 9) ≡ some (pos h ∷ pos rh ∷ pos lh ∷ []))
        × HasSlot ready 0 2 h
        × HasSlot ready 1 5 rh
        × HasSlot ready 2 5 lh)
chain_indexes_have_slots_example =
    chain_indexes_have_slots 2 5 9 (omega arith) (omega arith) (omega arith)

oblong_breaks_right_strand_example :
    (j : ℕ) × (nth (get_forward_neighbor_indexes 2 5 3 (pos 1)) 1 ≡ some (pos j))
    × (nth (get_chain_indexes 2 5 (pos j)) 1 ≢ nth (get_chain_indexes 2 5 (pos 1)) 1)
oblong_breaks_right_strand_example = oblong_breaks_right_strand 2 5 (omega arith) (omega arith)

abbrev first_parity : EntangledBlock
first_parity = record {
  left_block_index = pos 1;
  right_block_index = pos 3;
  chunk = 6 ∷ 1 ∷ [];
  strand = 0;
}

abbrev second_parity : EntangledBlock
second_parity = record {
  left_block_index = pos 3;
  right_block_index = pos 5;
  chunk = 2 ∷ 1 ∷ [];
  strand = 0;
}

-- The entangler before block 3, with one strand that is generated.
abbrev before_third : Entangler
before_third = record {
  alpha = 3;
  s = 2;
  p = 2;
  chunk_num = 0;
  chain_start_data = [];
  max_chain_num_per_strand = 2;
  cached_parities = (0 ∷ 0 ∷ []) ∷ [];
  parity_blocks_to_wrap = (none ∷ none ∷ []) ∷ [];
  strands = true ∷ [];
  heap = first_parity ∷ [];
  sent = [];
}

abbrev after_third : Entangler
after_third = record before_third {
  cached_parities = (1 ∷ 0 ∷ []) ∷ [];
  heap = first_parity ∷ second_parity ∷ [];
  sent = second_parity ∷ [];
}

third_round :
    entangle_on (pos 3) (4 ∷ []) (pos 0 ∷ []) (pos 5 ∷ []) 0 before_third ≡ some after_third
unfolding entangle_on set_slot send_or_park send new_entangled_block xor_chunk_data padding_data
    xor_bytes get_chain_start_indexes get_chain_indexes rem quot ◌-ℤ◌ ◌+ℤ◌ ◌*ℤ◌
third_round = refl

entangle_on_right_example :
    Makes (pos 3) (4 ∷ []) (pos 0 ∷ []) (pos 5 ∷ []) 0 before_third after_third
entangle_on_right_example =
    entangle_on_right (pos 3) (4 ∷ []) (pos 0 ∷ []) (pos 5 ∷ []) 0 before_third after_third
      third_round
