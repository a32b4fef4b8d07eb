-- ===== src/Lattice.antt =====
-- entangler/lattice.go: the blocks of a lattice and their links. A pointer to a Block is an address:
-- an index into `nodes`, the fields that Init writes, and into `cells`, the others (see Block).
pub mod Recover
pub mod Request
use ipfs_reliability.Prelude.{ℕ, zero, suc, ◌+◌, ◌-◌, Bool, true, false, not, List, [], ◌∷◌, ◌++◌}
use ipfs_reliability.Prelude.{Option, none, some, ◌>>=◌, ◌==◌, if◌then◌else◌, length, get_elem?}
use ipfs_reliability.Prelude.{set, set_at, at, replicate, ℤ, pos, ◌-ℤ◌}
use mathlib.Core.Option
use ipfs_reliability.Entangler.Index.{
  get_chain_start_indexes, get_forward_neighbor_indexes, is_valid_index,
}
use ipfs_reliability.Block.{Cell, new_cell}

-- A neighbour that is not set is nil.
pub record Node : Type 0 where
  pub left_neighbors : List (Option ℕ)
  pub right_neighbors : List (Option ℕ)
  pub is_parity : Bool
  pub index : ℕ
  pub strand : ℕ
  pub is_wrap_modified : Bool

pub record Lattice : Type 0 where
  pub alpha : ℕ
  pub s : ℕ
  pub p : ℕ
  pub chunk_num : ℕ
  pub switch_depth : ℕ
  pub request_counter : ℕ
  pub data_blocks : List ℕ
  pub parity_blocks : List (List ℕ)
  pub nodes : List Node
  pub cells : List Cell

unfoldable pub new_block : ℕ → Bool → Node
new_block index parity_block = record {
  left_neighbors = [];
  right_neighbors = [];
  is_parity = parity_block;
  index = index;
  strand = 0;
  is_wrap_modified = false;
}

-- A new block at the next address.
unfoldable pub alloc_block : Node → Lattice → Lattice
unfolding new_cell
alloc_block node l = record l { nodes = l.nodes ++ node ∷ []; cells = l.cells ++ new_cell ∷ [] }

-- The rounds of initDataBlocks from i on, `n` of them.
unfoldable pub init_data_blocks : ℕ → ℕ → Lattice → Lattice
unfolding new_block alloc_block
init_data_blocks zero i l = l
init_data_blocks (suc n) i l =
    let datab = record (new_block (i + 1) false) {
      left_neighbors = replicate l.alpha none;
      right_neighbors = replicate l.alpha none;
    } in
    init_data_blocks n (i + 1)
      (record (alloc_block datab l) { data_blocks = l.data_blocks ++ length l.nodes ∷ [] })

-- The rounds of the inner loop of initParityBlocks for strand k; `row` is ParityBlocks[k] so far.
unfoldable pub init_parity_row : ℕ → ℕ → ℕ → List ℕ → Lattice → Lattice × List ℕ
unfolding new_block alloc_block
init_parity_row zero i k row l = (l, row)
init_parity_row (suc n) i k row l =
    let parityb = record (new_block (i + 1) true) {
      left_neighbors = none ∷ [];
      right_neighbors = none ∷ [];
      strand = k;
    } in
    init_parity_row n (i + 1) k (row ++ length l.nodes ∷ []) (alloc_block parityb l)

unfoldable pub init_parity_blocks : ℕ → ℕ → Lattice → Lattice
unfolding init_parity_row
init_parity_blocks zero k l = l
init_parity_blocks (suc n) k l =
    let (l', row) = init_parity_row l.chunk_num 0 k [] l in
    init_parity_blocks n (suc k) (record l' { parity_blocks = l'.parity_blocks ++ row ∷ [] })

-- A write through a pointer: node(ptr) = change(node(ptr)).
unfoldable pub update_node : ℕ → (Node → Option Node) → List Node → Option (List Node)
update_node ptr change nodes = do
  node ← get_elem? nodes ptr
  node' ← change node
  some (set nodes ptr node')

unfoldable pub set_left : ℕ → ℕ → Node → Option Node
set_left k target node = do
  links ← set_at node.left_neighbors (pos k) (some target)
  some (record node { left_neighbors = links })

unfoldable pub set_right : ℕ → ℕ → Node → Option Node
set_right k target node = do
  links ← set_at node.right_neighbors (pos k) (some target)
  some (record node { right_neighbors = links })

-- *b.RightNeighbors[k], *b.LeftNeighbors[k]: nil is a panic.
unfoldable pub right_of : ℕ → ℕ → List Node → Option ℕ
right_of ptr k nodes = do node ← get_elem? nodes ptr; slot ← get_elem? node.right_neighbors k; slot

unfoldable pub left_of : ℕ → ℕ → List Node → Option ℕ
left_of ptr k nodes = do node ← get_elem? nodes ptr; slot ← get_elem? node.left_neighbors k; slot

unfoldable pub mark_wrap_modified : ℕ → List Node → Option (List Node)
unfolding update_node
mark_wrap_modified ptr nodes =
    update_node ptr (λ node. some (record node { is_wrap_modified = true })) nodes

-- The address of the right data block, and the nodes after the mark of a wrapped chain.
unfoldable pub right_data_block : ℕ → ℕ → ℕ → ℤ → Lattice → Option (ℕ × Lattice)
unfolding mark_wrap_modified right_of
right_data_block i k datab forward_k l =
    if is_valid_index l.chunk_num forward_k
    then Option.map (λ ptr. (ptr, l)) (at l.data_blocks (forward_k -ℤ pos 1))
    else do
      starts ← get_chain_start_indexes l.s l.p (pos (i + 1))
      index ← get_elem? starts k
      ptr ← at l.data_blocks (index -ℤ pos 1)
      if ptr == datab then some (ptr, l) else do
        first ← right_of ptr k l.nodes
        nodes ← mark_wrap_modified first l.nodes
        some (ptr, record l { nodes = nodes })

-- The body of the loops of initLinks.
unfoldable pub link_strand : ℕ → ℕ → List ℤ → ℕ → Lattice → Option Lattice
unfolding right_data_block update_node set_left set_right
link_strand i datab forward k l = do
  row ← get_elem? l.parity_blocks k
  right_parity ← get_elem? row i
  nodes ← update_node right_parity (set_left 0 datab) l.nodes
  nodes' ← update_node datab (set_right k right_parity) nodes
  forward_k ← get_elem? forward k
  (right_data, l') ← right_data_block i k datab forward_k (record l { nodes = nodes' })
  nodes'' ← update_node right_parity (set_right 0 right_data) l'.nodes
  linked ← update_node right_data (set_left k right_parity) nodes''
  some (record l' { nodes = linked })

unfoldable pub link_strands : ℕ → ℕ → List ℤ → ℕ → ℕ → Lattice → Option Lattice
link_strands i datab forward zero k l = some l
link_strands i datab forward (suc n) k l = do
  l' ← link_strand i datab forward k l
  link_strands i datab forward n (suc k) l'

unfoldable pub init_links : ℕ → ℕ → Lattice → Option Lattice
unfolding link_strands link_strand
init_links zero i l = some l
init_links (suc n) i l = do
  datab ← get_elem? l.data_blocks i
  forward ← get_forward_neighbor_indexes l.s l.p l.alpha (pos (i + 1))
  l' ← link_strands i datab forward l.alpha 0 l
  init_links n (suc i) l'

-- NewLattice, for the parameters that NewEntangler accepts.
unfoldable pub new_lattice : ℕ → ℕ → ℕ → ℕ → ℕ → Lattice
new_lattice alpha s p block_num switch_depth = record {
  alpha = alpha;
  s = s;
  p = p;
  chunk_num = block_num;
  switch_depth = switch_depth;
  request_counter = 0;
  data_blocks = [];
  parity_blocks = [];
  nodes = [];
  cells = [];
}

-- Init, called once.
unfoldable pub init : Lattice → Option Lattice
unfolding init_data_blocks init_parity_blocks init_links
init l =
    let l' = init_data_blocks l.chunk_num 0 l in
    let l'' = init_parity_blocks l'.alpha 0 l' in init_links l''.chunk_num 0 l''
