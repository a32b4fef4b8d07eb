-- ===== src/Client/Metadata/Tests.antt =====
-- The upload of a file with a root and two leaves under the CIDs 100, 101 and 102, whose strands have the
-- same bytes and so one file, under 200, 201 and 202.
use ipfs_reliability.Prelude.{
  ℕ, zero, suc, ◌+◌, ◌≡◌, ◌<◌, refl, arith, true, List, [], ◌∷◌, ◌++◌, some, ◌==◌, if◌then◌else◌,
  rem, quot, ◌-ℤ◌, ◌+ℤ◌,
}
use ipfs_reliability.Bytes.{padding_data, xor_bytes, xor_chunk_data}
use ipfs_reliability.Entangler.Index.{
  get_chain_indexes, get_chain_start_indexes, get_forward_neighbor_indexes, get_position_category,
  is_valid_index,
}
use ipfs_reliability.Entangler.State.{
  Bytes, new_entangler, new_entangled_block, prepare_entangle, prepare_strand, addresses,
  alloc_placeholders, for_strands,
}
use ipfs_reliability.Entangler.Encode.{
  set_slot, send, send_or_park, entangle_on, entangle_on_strand, entangle_single_block, keep_start,
  entangle_next, entangle_blocks, rewrap, send_parked, wrap_chain, wrap_strand, wrap_strands,
  wrap_lattice, entangle,
}
use ipfs_reliability.Connector.Getter.{Shell}
use ipfs_reliability.Connector.Tree.{
  Tree, node, no_trees, tree_then, leaf, tree_size, construct_tree,
}
use ipfs_reliability.Connector.Tree.Swap.{get_flattened_tree, internals_after_in}
use ipfs_reliability.Connector.Merkle.Reads.{IsStored, height, arity}
use ipfs_reliability.Cluster.{Connector}
use ipfs_reliability.Client.Upload.{
  Pinning, recursive, store_block, store_blocks, generate_entanglement,
}
use ipfs_reliability.Client.Upload.Files.{StrandFile, all_pins}
use ipfs_reliability.Client.Metadata.{Ipfs, Settings, uploaded, forward_request, upload}
use ipfs_reliability.Client.Metadata.Rebuilt.{metadata_of, upload_right}

abbrev pair : Tree
pair = node (tree_then leaf (tree_then leaf no_trees))

abbrev block_of : ℕ → Bytes
block_of i = if i == 0 then 1 ∷ [] else if i == 1 then 2 ∷ [] else 4 ∷ []

abbrev network : Shell
network = record {
  object_get = λ c.
      if c == 100
      then some (101 ∷ 102 ∷ [])
      else if c == 200
      then some (201 ∷ 202 ∷ [])
      else some [];
  block_get =
      λ c. if c == 100 then some (1 ∷ []) else if c == 101 then some (2 ∷ []) else some (4 ∷ []);
  decode_protobuf = λ bytes. some bytes;
  fs_node_data = λ bytes. some (some bytes);
}

abbrev ipfs : Ipfs
ipfs = record {
  file_cid = some 100;
  add_file = λ _. some 200;
  add_metadata = λ _. some 300;
  shell = network;
}

abbrev settings : Settings
settings = record { alpha = 2; s = 1; p = 1; replication_factor = 3; has_community_node = true }

abbrev two_peers : Connector
two_peers = record {
  self_id = 1;
  peer_ids = 2 ∷ 3 ∷ [];
  current_idx = 0;
  peers = (2, 20) ∷ (3, 30) ∷ [];
}

abbrev parities : List (List Bytes)
parities = ((6 ∷ []) ∷ (3 ∷ []) ∷ (7 ∷ []) ∷ []) ∷ ((6 ∷ []) ∷ (3 ∷ []) ∷ (7 ∷ []) ∷ []) ∷ []

parities_test :
    generate_entanglement (λ sent. sent) 2 1 1 ((1 ∷ []) ∷ (2 ∷ []) ∷ (4 ∷ []) ∷ []) ≡ some parities
unfolding generate_entanglement new_entangler entangle prepare_entangle prepare_strand addresses
    alloc_placeholders for_strands entangle_blocks entangle_next entangle_single_block
    entangle_on_strand entangle_on keep_start send_or_park send set_slot wrap_lattice wrap_strands
    wrap_strand wrap_chain rewrap send_parked new_entangled_block xor_chunk_data padding_data
    xor_bytes get_chain_indexes get_chain_start_indexes get_forward_neighbor_indexes
    get_position_category is_valid_index store_blocks store_block rem quot ◌-ℤ◌ ◌+ℤ◌
parities_test = refl

order_test : get_flattened_tree 1 1 true pair ≡ some (0 ∷ 1 ∷ 2 ∷ [])
unfolding get_flattened_tree internals_after_in tree_size
order_test = refl

pair_test : construct_tree 2 2 2 3 ≡ some pair
unfolding construct_tree
pair_test = refl

abbrev file : StrandFile
file = record { cid_of = λ i. 200 + i; tree = pair }

blocks_there : (i : ℕ) → i < 3 → network.block_get (100 + i) ≡ some (block_of i)
blocks_there zero low = refl
blocks_there (suc zero) low = refl
blocks_there (suc (suc zero)) low = refl
blocks_there (suc (suc (suc i))) low = absurd (omega arith)

upload_right_example :
    (st : Pinning) × (upload ipfs 5 (λ _ _ _. true) (λ sent. sent) settings two_peers
      ≡ some (
        st,
        uploaded 100 300
            (metadata_of settings 100 2 2 2 3 (file ∷ file ∷ []))
            true
            (forward_request true 100 300 (200 ∷ 200 ∷ [])),
      ))
    × (st.requests ≡ all_pins 3 (file ∷ file ∷ []) ++ recursive 300 0 ∷ [])
unfolding IsStored height arity
upload_right_example =
    upload_right ipfs (λ _ _ _. true) (λ sent. sent) settings two_peers (λ i. 100 + i) block_of 2 2
      2 3 5 pair (0 ∷ 1 ∷ 2 ∷ []) parities (file ∷ file ∷ []) 300 (omega arith) refl pair_test
      (omega arith) refl (refl, ((refl, tt), ((refl, tt), tt))) (omega arith) blocks_there
      order_test parities_test
      (
        refl,
        (refl, ((refl, tt), ((refl, tt), tt))),
        omega arith,
        (refl, (refl, ((refl, tt), ((refl, tt), tt))), omega arith, tt),
      )
      (λ _ _ _. refl) (omega arith) refl
