-- ===== src/Lattice/Request/Tests.antt =====
-- A download of a file of four blocks whose second data block is lost: the lattice of Init with
-- alpha = s = p = 2, and the parities that Entangle makes of the file.
use ipfs_reliability.Prelude.{
  ℕ, ◌≡◌, ◌<◌, refl, arith, Bool, true, false, List, [], ◌∷◌, Option, none, some, length, get_elem?,
  ◌==◌, ◌+◌, ◌*◌, ◌++◌, if◌then◌else◌, replicate, rem, quot, ◌+ℤ◌, ◌-ℤ◌,
}
use ipfs_reliability.Entangler.Index.{
  get_forward_neighbor_indexes, get_position_category, is_valid_index, get_chain_start_indexes,
  get_chain_indexes,
}
use mathlib.Core.Option
use ipfs_reliability.Bytes.{xor_chunk_data, padding_data, xor_bytes}
use ipfs_reliability.Block.{
  Cell, new_cell, start_repair, get_data, finish_repair, set_data, recover,
}
use ipfs_reliability.Lattice.{Node, Lattice, new_lattice, init, left_of, right_of}
use ipfs_reliability.Lattice.Recover.{
  data_pairs, data_pairs_on, parity_pairs, BlockPair, BlockGetter, get_recover_pairs, fetch,
  get_data_from_block,
}
use ipfs_reliability.Lattice.Recover.Evolves.{Evolves, nothing}
use ipfs_reliability.Lattice.Recover.Sound.{PairsMake, get_data_from_block_sound}
use ipfs_reliability.Lattice.Recover.Total.{AreBelow, Ready, get_data_from_block_returns}
use ipfs_reliability.Lattice.Request.{get_all_data}
use ipfs_reliability.Lattice.Request.File.{IsQuiet, AreChunks, get_all_data_right}
use ipfs_reliability.Lattice.Request.Check.{
  checked-IsQuiet, checked_honest, checked_entangled, checked_linked,
}

abbrev file : List (List ℕ)
file = (1 ∷ []) ∷ (2 ∷ []) ∷ (4 ∷ []) ∷ (8 ∷ []) ∷ []

abbrev parities : List (List ℕ)
parities =
    (4 ∷ []) ∷ (8 ∷ []) ∷ (5 ∷ []) ∷ (10 ∷ []) ∷ (8 ∷ []) ∷ (4 ∷ []) ∷ (6 ∷ []) ∷ (9 ∷ []) ∷ []

abbrev data_node : ℕ → ℕ → ℕ → ℕ → ℕ → Node
data_node index l0 l1 r0 r1 = record {
  left_neighbors = some l0 ∷ some l1 ∷ [];
  right_neighbors = some r0 ∷ some r1 ∷ [];
  is_parity = false;
  index = index;
  strand = 0;
  is_wrap_modified = false;
}

abbrev parity_node : ℕ → ℕ → ℕ → ℕ → Bool → Node
parity_node index strand l r wrapped = record {
  left_neighbors = some l ∷ [];
  right_neighbors = some r ∷ [];
  is_parity = true;
  index = index;
  strand = strand;
  is_wrap_modified = wrapped;
}

unfoldable four_blocks : Lattice
unfolding new_cell
four_blocks = record {
  alpha = 2;
  s = 2;
  p = 2;
  chunk_num = 4;
  switch_depth = 2;
  request_counter = 0;
  data_blocks = 0 ∷ 1 ∷ 2 ∷ 3 ∷ [];
  parity_blocks = (4 ∷ 5 ∷ 6 ∷ 7 ∷ []) ∷ (8 ∷ 9 ∷ 10 ∷ 11 ∷ []) ∷ [];
  nodes =
      data_node 1 6 11 4 8
      ∷ data_node 2 7 10 5 9
      ∷ data_node 3 4 9 6 10
      ∷ data_node 4 5 8 7 11
      ∷ parity_node 1 0 0 2 true
      ∷ parity_node 2 0 1 3 true
      ∷ parity_node 3 0 2 0 false
      ∷ parity_node 4 0 3 1 false
      ∷ parity_node 1 1 0 3 true
      ∷ parity_node 2 1 1 2 true
      ∷ parity_node 3 1 2 1 false
      ∷ parity_node 4 1 3 0 false
      ∷ [];
  cells = replicate 12 new_cell;
}

-- Init makes this lattice.
init_test : init (new_lattice 2 2 2 4 2) ≡ some four_blocks
unfolding init four_blocks new_lattice get_forward_neighbor_indexes get_position_category rem
    is_valid_index ◌+ℤ◌ ◌-ℤ◌ get_chain_start_indexes get_chain_indexes quot
init_test = refl

abbrev or_empty : Option (List ℕ) → List ℕ
or_empty none = []
or_empty (some v) = v

abbrev truth : ℕ → List ℕ
truth ptr = or_empty (get_elem? (file ++ parities) ptr)

abbrev lossy : BlockGetter
lossy = record {
  get_data_at = λ i. if i == 1 then none else get_elem? file i;
  get_parity_at = λ i k. get_elem? parities (4 * k + i);
}

-- The lost block comes back: the download has the file, and no error.
lossy_download :
    Option.map {B = List (List ℕ) × Bool}
      (λ (r : Lattice × List (List ℕ) × Bool). (r.1, r.2))
      (get_all_data lossy four_blocks)
    ≡ some (file, true)
unfolding get_all_data four_blocks ◌-ℤ◌ start_repair fetch get_data finish_repair set_data
    get_recover_pairs recover xor_chunk_data xor_bytes padding_data
lossy_download = refl

right_getter :
    (ptr : ℕ) (node : Node) (v : List ℕ)
    → get_elem? four_blocks.nodes ptr ≡ some node
    → fetch lossy node ≡ some v
    → v ≡ truth ptr
unfolding fetch four_blocks
right_getter = checked_honest lossy four_blocks.nodes truth refl

right_pairs :
    (ptr : ℕ) (pairs : List BlockPair)
    → get_recover_pairs four_blocks.nodes ptr ≡ some pairs
    → PairsMake truth ptr pairs
unfolding get_recover_pairs data_pairs data_pairs_on parity_pairs left_of right_of four_blocks
    xor_chunk_data padding_data xor_bytes
right_pairs = checked_entangled four_blocks.nodes truth refl

right_links :
    (ptr : ℕ)
    → ptr < length four_blocks.nodes
    → (pairs : List BlockPair) × (get_recover_pairs four_blocks.nodes ptr ≡ some pairs)
      × AreBelow (length four_blocks.nodes) pairs
unfolding get_recover_pairs data_pairs data_pairs_on parity_pairs left_of right_of four_blocks
    xor_chunk_data padding_data xor_bytes
right_links = checked_linked four_blocks.nodes truth refl

start-IsQuiet : IsQuiet four_blocks.nodes truth four_blocks
unfolding four_blocks new_cell
start-IsQuiet = checked-IsQuiet truth four_blocks refl refl

start-Ready : Ready (length four_blocks.nodes) 0 four_blocks.cells
start-Ready = record { size = start-IsQuiet.size; mine = λ q p. cc (start-IsQuiet.idle q) }

same_num : four_blocks.chunk_num ≡ length four_blocks.data_blocks
unfolding four_blocks
same_num = refl

one_below : 1 < length four_blocks.nodes
unfolding four_blocks
one_below = omega arith

-- What a recovery of the second data block gives.
recovered_run :
    (done : List Cell × Option (List ℕ)) × (get_data_from_block lossy four_blocks.nodes 2 0 1
        four_blocks.cells
      ≡ some done)
recovered_run =
    let (done, e, h) =
      get_data_from_block_returns lossy four_blocks.nodes right_links 2 0 1 four_blocks.cells
        one_below start-Ready in
    (done, e)

get_all_data_right_example :
    (r : Lattice × List (List ℕ) × Bool) × (get_all_data lossy four_blocks ≡ some r)
    × IsQuiet four_blocks.nodes truth r.0
    × AreChunks truth four_blocks.data_blocks 0 r.1
    × (r.2 ≡ true → length r.1 ≡ length four_blocks.data_blocks)
get_all_data_right_example =
    get_all_data_right lossy four_blocks.nodes truth right_getter right_pairs right_links
      four_blocks same_num start-IsQuiet

get_data_from_block_returns_example :
    (done : List Cell × Option (List ℕ)) × (get_data_from_block lossy four_blocks.nodes 2 0 1
        four_blocks.cells
      ≡ some done)
    × Ready (length four_blocks.nodes) 0 done.0
get_data_from_block_returns_example =
    get_data_from_block_returns lossy four_blocks.nodes right_links 2 0 1 four_blocks.cells
      one_below start-Ready

get_data_from_block_sound_example :
    Evolves truth nothing four_blocks.cells recovered_run.0.0
    × ((v : List ℕ) → recovered_run.0.1 ≡ some v → v ≡ truth 1)
get_data_from_block_sound_example =
    get_data_from_block_sound lossy four_blocks.nodes truth right_getter right_pairs 2 0 1
      four_blocks.cells recovered_run.0 start-IsQuiet.sound recovered_run.1
