-- ===== src/Client/Upload/Tests.antt =====
-- Two parity blocks that arrive in the other order, and the file of a strand.
use mathlib.Core.List.{Permᴰ}
use ipfs_reliability.Prelude.{
  ℕ, zero, suc, ◌+◌, ◌*◌, ◌≡◌, ◌<◌, refl, arith, true, false, List, [], ◌∷◌, none, some, pos,
  length-take, length-drop, length-replicate, drop, replicate, lookup, ◌==◌, if◌then◌else◌,
}
use ipfs_reliability.Entangler.State.{Bytes, EntangledBlock}
use ipfs_reliability.Connector.Getter.{Shell, TreeCell, Counters, IpfsGetter, GetterState}
use ipfs_reliability.Connector.Ranges.Laws.{file_block}
use ipfs_reliability.Connector.Parity.{get_parity_block, leaf_size}
use ipfs_reliability.Connector.Parity.Blocks.{HasLeaves}
use ipfs_reliability.Connector.Tree.{Tree, node, no_trees, tree_then, leaf, count}
use ipfs_reliability.Connector.Merkle.Reads.{IsStored, height, arity}
use ipfs_reliability.Cluster.{Connector}
use ipfs_reliability.Client.Upload.{
  Pinning, direct, store_blocks, no_blocks, merge_blocks, pin_entanglement_tree,
  pin_alpha_entanglements,
}
use ipfs_reliability.Client.Upload.Collect.{Each, goes_to, place_of, read_slot, store_blocks_right}
use ipfs_reliability.Client.Upload.Stored.{merged_strand_reads}
use ipfs_reliability.Client.Upload.Pins.{HasTurn}
use ipfs_reliability.Client.Upload.Files.{
  StrandFile, all_pins, pin_alpha_entanglements_right, failed_root_hidden,
}

abbrev first : EntangledBlock
first = record { left_block_index = pos 1; right_block_index = pos 2; chunk = 5 ∷ []; strand = 1 }

abbrev second : EntangledBlock
second = record { left_block_index = pos 2; right_block_index = pos 3; chunk = 6 ∷ []; strand = 1 }

-- The second block is stored first.
store_blocks_right_example :
    (table : List (List Bytes)) × (store_blocks (second ∷ first ∷ []) (no_blocks 2 3) ≡ some table)
    × Each (λ b. read_slot table b.strand (place_of b) ≡ some b.chunk) (first ∷ second ∷ [])
    × ((k i : ℕ)
        → k < 2
        → i < 3
        → Each (λ b. goes_to k i b ≡ false) (first ∷ second ∷ [])
        → read_slot table k i ≡ some [])
store_blocks_right_example =
    store_blocks_right 2 3 (first ∷ second ∷ []) (second ∷ first ∷ [])
      ((omega arith, refl, omega arith), ((omega arith, refl, omega arith), tt))
      ((refl, tt), (tt, tt)) (Permᴰ.swap refl refl)

abbrev strand_block : List ℕ
strand_block = replicate 262158 7

abbrev leaf_cell : ℕ → TreeCell
leaf_cell b = record { data_of = some (file_block leaf_size strand_block b); cid = 20 + b }

abbrev no_counts : Counters
no_counts = record { fetched = 0; cached = 0; unavailable = 0; error = 0 }

abbrev strand_state : GetterState
strand_state = record {
  data_cells = [];
  data_blocks = no_counts;
  parity_cells = leaf_cell 0 ∷ leaf_cell 1 ∷ [];
  parity_blocks = no_counts;
  parity_available = true ∷ [];
}

abbrev no_shell : Shell
no_shell = record {
  object_get = λ _. none;
  block_get = λ _. none;
  decode_protobuf = λ _. none;
  fs_node_data = λ _. none;
}

abbrev strand_getter : IpfsGetter
strand_getter = record {
  shell = no_shell;
  data_filter = [];
  nodes = [];
  node_map = [];
  parent_map = [];
  parity_nodes = [];
  parity_index_map = ((0, 0) ∷ (1, 1) ∷ []) ∷ [];
}

strand_leaves :
    HasLeaves
      (file_block leaf_size (merge_blocks [] (strand_block ∷ [])))
      ((0, 0) ∷ (1, 1) ∷ [])
      strand_state.parity_cells
unfolding lookup merge_blocks
strand_leaves zero some_bytes = (0, refl, leaf_cell 0, refl, refl)
strand_leaves (suc zero) some_bytes = (1, refl, leaf_cell 1, refl, refl)
strand_leaves (suc (suc b)) some_bytes =
    let size = length-take leaf_size (drop (suc (suc b) * leaf_size) strand_block) in
    let size' = length-drop (suc (suc b) * leaf_size) strand_block in
    let whole = length-replicate {A = ℕ} 262158 7 in absurd (omega arith)

merged_strand_reads_example :
    (st : GetterState) × (get_parity_block strand_getter 1 0 0 strand_state
      ≡ some (st, some strand_block))
    × (st.parity_cells ≡ strand_state.parity_cells)
merged_strand_reads_example =
    merged_strand_reads strand_getter 0 0 0 ((0, 0) ∷ (1, 1) ∷ []) (strand_block ∷ []) strand_block
      strand_state (length-replicate {A = ℕ} 262158 7, tt) refl refl refl strand_leaves

abbrev pair : Tree
pair = node (tree_then leaf (tree_then leaf no_trees))

-- The file of a strand, a root with the CID 200 and two leaves.
abbrev strand_file : StrandFile
strand_file = record { cid_of = λ i. 200 + i; tree = pair }

abbrev network : Shell
network = record no_shell { object_get = λ c. if c == 200 then some (201 ∷ 202 ∷ []) else some [] }

abbrev two_peers : Connector
two_peers = record {
  self_id = 1;
  peer_ids = 2 ∷ 3 ∷ [];
  current_idx = 0;
  peers = (2, 20) ∷ (3, 30) ∷ [];
}

pin_alpha_entanglements_right_example :
    (st : Pinning) × (pin_alpha_entanglements
        (λ _. some 200)
        network
        5
        (λ _ _ _. true)
        3
        (((6 ∷ []) ∷ (3 ∷ []) ∷ []) ∷ ((5 ∷ []) ∷ (1 ∷ []) ∷ []) ∷ [])
        two_peers
      ≡ some (st, some (record { tree_cids = 200 ∷ 200 ∷ []; max_parity_children = 2 })))
    × (st.requests ≡ all_pins 3 (strand_file ∷ strand_file ∷ []))
    × HasTurn st.connector
unfolding IsStored height arity
pin_alpha_entanglements_right_example =
    pin_alpha_entanglements_right (λ _. some 200) network 5 (λ _ _ _. true) 3
      (((6 ∷ []) ∷ (3 ∷ []) ∷ []) ∷ ((5 ∷ []) ∷ (1 ∷ []) ∷ []) ∷ [])
      (strand_file ∷ strand_file ∷ []) two_peers (λ _ _ _. refl)
      (
        refl,
        (refl, ((refl, tt), ((refl, tt), tt))),
        omega arith,
        (refl, (refl, ((refl, tt), ((refl, tt), tt))), omega arith, tt),
      )
      (omega arith)

abbrev start : Pinning
start = record { connector = two_peers; requests = []; max_children = 0 }

-- The post for peer 2 fails.
failed_root_hidden_example :
    (st : Pinning) × (pin_entanglement_tree network 5
        (λ peer _ _. if peer == 2 then false else true)
        200
        3
        start
      ≡ some (st, some 0))
    × (st.requests ≡ direct 200 3 ∷ [])
unfolding IsStored count height
failed_root_hidden_example =
    failed_root_hidden network 5 (λ peer _ _. if peer == 2 then false else true) 3 2 (λ i. 200 + i)
      (tree_then leaf (tree_then leaf no_trees)) start (refl, ((refl, tt), ((refl, tt), tt)))
      (omega arith) (omega arith) refl refl
