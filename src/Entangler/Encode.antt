-- ===== src/Entangler/Encode.antt =====
-- Entangle, entangleSingleBlock and wrapLattice of entangler/entangler.go. The channel of data blocks
-- is a list, and `none` is a panic.
pub mod Parity
pub mod Cache
use ipfs_reliability.Prelude.{ℕ, suc, not, List, [], ◌∷◌, ◌++◌}
use ipfs_reliability.Prelude.{Option, some, ◌>>=◌, leb, if◌then◌else◌, length, get_elem?}
use ipfs_reliability.Prelude.{set, at, set_at, ℤ, pos, ◌-ℤ◌, ◌==ℤ◌}
use mathlib.Core.Option
use ipfs_reliability.Bytes.{xor_chunk_data}
use ipfs_reliability.Entangler.Index.{
  get_chain_indexes, get_chain_start_indexes, get_forward_neighbor_indexes, is_valid_index,
}
use ipfs_reliability.Entangler.State.{
  Bytes, EntangledBlock, Entangler, new_entangled_block, prepare_entangle, for_strands,
}

-- xss[k][i] = v
unfoldable pub set_slot {ℓ} : {A : Type ℓ} → List (List A) → ℕ → ℤ → A → Option (List (List A))
set_slot xss k i v = do xs ← get_elem? xss k; xs' ← set_at xs i v; some (set xss k xs')

unfoldable pub send : EntangledBlock → Entangler → Entangler
send block e = record e { sent = e.sent ++ block ∷ [] }

-- The parity goes into the channel, unless the block starts its chain: then it waits for wrapLattice.
unfoldable pub send_or_park : ℤ → ℤ → ℕ → EntangledBlock → ℕ → Entangler → Option Entangler
unfolding set_slot send
send_or_park start index k next_block next_ptr e =
    if not (start ==ℤ index)
    then some (send next_block e)
    else Option.map (λ to_wrap. record e { parity_blocks_to_wrap = to_wrap })
        (set_slot e.parity_blocks_to_wrap k (index -ℤ pos 1) (some next_ptr))

-- The rest of the round k of the loop of entangleSingleBlock, for a strand that is generated.
unfoldable pub entangle_on : ℤ → Bytes → List ℤ → List ℤ → ℕ → Entangler → Option Entangler
unfolding set_slot send_or_park new_entangled_block
entangle_on index block cache_pos r_indexes k e = do
  row ← get_elem? e.cached_parities k
  place ← get_elem? cache_pos k
  prev_ptr ← at row place
  prev_block ← get_elem? e.heap prev_ptr
  let parity_data = xor_chunk_data block prev_block.chunk
  r_index ← get_elem? r_indexes k
  let next_block = new_entangled_block index r_index parity_data k
  cached ← set_slot e.cached_parities k place (length e.heap)
  starts ← get_chain_start_indexes e.s e.p index
  start ← get_elem? starts k
  send_or_park start index k next_block (length e.heap)
      (record e { heap = e.heap ++ next_block ∷ []; cached_parities = cached })

-- The round k of the loop of entangleSingleBlock.
unfoldable pub entangle_on_strand : ℤ → Bytes → List ℤ → List ℤ → ℕ → Entangler → Option Entangler
unfolding entangle_on
entangle_on_strand index block cache_pos r_indexes k e = do
  wanted ← get_elem? e.strands k
  if not wanted then some e else entangle_on index block cache_pos r_indexes k e

unfoldable pub entangle_single_block : ℤ → Bytes → Entangler → Option Entangler
entangle_single_block index block e = do
  cache_pos ← get_chain_indexes e.s e.p index
  r_indexes ← get_forward_neighbor_indexes e.s e.p e.alpha index
  for_strands e.alpha 0 (entangle_on_strand index block cache_pos r_indexes) e

-- The blocks at which the chains start are kept for wrapLattice.
unfoldable pub keep_start : ℕ → Bytes → Entangler → Option Entangler
keep_start index block e =
    if leb index e.max_chain_num_per_strand
    then Option.map (λ starts. record e { chain_start_data = starts })
        (set_at e.chain_start_data (pos index -ℤ pos 1) block)
    else some e

-- The round of the loop of Entangle for the block that follows `index` blocks.
unfoldable pub entangle_next : ℕ → Bytes → Entangler → Option Entangler
unfolding entangle_single_block keep_start
entangle_next index block e = do
  e' ← entangle_single_block (pos (suc index)) block e
  keep_start (suc index) block e'

unfoldable pub entangle_blocks : ℕ → List Bytes → Entangler → Option Entangler
entangle_blocks index [] e = some (record e { chunk_num = index })
entangle_blocks index (block ∷ rest) e = do
  e' ← entangle_next index block e
  entangle_blocks (suc index) rest e'

-- Recompute the first parity of a chain, from the first block and the last parity.
unfoldable pub rewrap : ℕ → ℤ → ℤ → Bytes → Entangler → Option Entangler
unfolding set_slot new_entangled_block
rewrap k index r_index last_parity e = do
  first ← at e.chain_start_data (index -ℤ pos 1)
  let r_next = new_entangled_block index r_index (xor_chunk_data first last_parity) k
  to_wrap ← set_slot e.parity_blocks_to_wrap k (index -ℤ pos 1) (some (length e.heap))
  some (record e { heap = e.heap ++ r_next ∷ []; parity_blocks_to_wrap = to_wrap })

-- parityChan <- *e.parityBlocksToWrap[k][index-1]: nil cannot be dereferenced.
unfoldable pub send_parked : ℕ → ℤ → Entangler → Option Entangler
unfolding send
send_parked k index e = do
  row ← get_elem? e.parity_blocks_to_wrap k
  slot ← at row (index -ℤ pos 1)
  ptr ← slot
  block ← get_elem? e.heap ptr
  some (send block e)

-- The body of the inner loop of wrapLattice, for one pointer of the cache of strand k.
unfoldable pub wrap_chain : ℕ → ℕ → Entangler → Option Entangler
unfolding rewrap send_parked
wrap_chain k node_ptr e = do
  node ← get_elem? e.heap node_ptr
  starts ← get_chain_start_indexes e.s e.p node.right_block_index
  index ← get_elem? starts k
  let e' = record e { heap = set e.heap node_ptr (record node { right_block_index = index }) }
  r_indexes ← get_forward_neighbor_indexes e.s e.p e.alpha index
  r_index ← get_elem? r_indexes k
  e'' ← if is_valid_index e.chunk_num r_index then rewrap k index r_index node.chunk e' else some e'
  send_parked k index e''

unfoldable pub wrap_strand : ℕ → List ℕ → Entangler → Option Entangler
wrap_strand k [] e = some e
wrap_strand k (node_ptr ∷ rest) e = do e' ← wrap_chain k node_ptr e; wrap_strand k rest e'

unfoldable pub wrap_strands : ℕ → List (List ℕ) → Entangler → Option Entangler
wrap_strands k [] e = some e
wrap_strands k (cache_parity ∷ rest) e = do
  wanted ← get_elem? e.strands k
  e' ← if not wanted then some e else wrap_strand k cache_parity e
  wrap_strands (suc k) rest e'

unfoldable pub wrap_lattice : Entangler → Option Entangler
wrap_lattice e = wrap_strands 0 e.cached_parities e

unfoldable pub entangle : List Bytes → Entangler → Option Entangler
entangle data_chan e = do
  ready ← prepare_entangle e
  done ← entangle_blocks 0 data_chan ready
  wrap_lattice done
