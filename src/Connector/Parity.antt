-- ===== src/Connector/Parity.antt =====
-- The parity side of IPFSGetter of ipfs-connector/blockgetter.go: the file of a strand is found
-- through its own tree, and a parity block is made of the byte ranges of its leaves.
pub mod Blocks
use ipfs_reliability.Prelude.{
  ℕ, zero, suc, ◌+◌, Bool, true, false, not, List, [], ◌∷◌, ◌++◌, Option, none, some,
}
use ipfs_reliability.Prelude.{◌>>=◌, ◌==◌, if◌then◌else◌, get_elem?, set, lookup}
use ipfs_reliability.Connector.Getter.{
  Shell, ParityTreeNode, TreeCell, IpfsGetter, GetterState, Outcome, populate, keep_data,
}
use ipfs_reliability.Connector.Ranges.{Range, calculate_new_blocks, read_range}

unfoldable pub parity_unavailable : GetterState → GetterState
parity_unavailable st = record st {
  parity_blocks = record (st.parity_blocks) { unavailable = st.parity_blocks.unavailable + 1 };
}

unfoldable pub parity_error : GetterState → GetterState
parity_error st = record st {
  parity_blocks = record (st.parity_blocks) { error = st.parity_blocks.error + 1 };
}

unfoldable pub parity_cached : GetterState → GetterState
parity_cached st = record st {
  parity_blocks = record (st.parity_blocks) { cached = st.parity_blocks.cached + 1 };
}

unfoldable pub parity_fetched : List TreeCell → GetterState → GetterState
parity_fetched cells st = record st {
  parity_cells = cells;
  parity_blocks = record (st.parity_blocks) { fetched = st.parity_blocks.fetched + 1 };
}

-- getter.ParityAvailable[strand] = false, and one more block that is unavailable
unfoldable pub strand_missing : ℕ → GetterState → GetterState
unfolding parity_unavailable
strand_missing strand st = record (parity_unavailable st) {
  parity_available = set st.parity_available strand false;
}

-- What follows once the node has its links: the file data of the node, which stays nil if it is nil.
unfoldable pub finish_parity : Shell → ℕ → List ℕ → List TreeCell → GetterState → Outcome
unfolding keep_data parity_unavailable parity_fetched
finish_parity shell ptr dag_node cells st = elim (shell.fs_node_data dag_node) [
  | none ↦ some (parity_unavailable (record st { parity_cells = cells }), none)
  | some none ↦ some (parity_fetched cells st, some [])
  | some (some bytes) ↦ do
    cells' ← keep_data ptr bytes cells
    some (parity_fetched cells' st, some bytes)
]

-- The round of the loop of GetParityHelper that has a CID.
unfoldable pub fetch_parity : Shell → ℕ → ℕ → List ℕ → GetterState → Outcome
unfolding populate finish_parity parity_unavailable
fetch_parity shell cid ptr children st = elim (shell.object_get cid) [
  | none ↦ some (parity_unavailable st, none)
  | some links ↦ elim (shell.block_get cid) [
    | none ↦ some (parity_unavailable st, none)
    | some raw ↦ elim (shell.decode_protobuf raw) [
      | none ↦ some (parity_unavailable st, none)
      | some dag_node ↦ do
        cells ← populate links children st.parity_cells
        finish_parity shell ptr dag_node cells st
    ]
  ]
]

-- What follows the call for the parent.
unfoldable pub after_parity_parent :
    ℕ → (GetterState → Outcome) → GetterState × Option (List ℕ) → Outcome
unfolding strand_missing
after_parity_parent strand go_on (st, none) = some (strand_missing strand st, none)
after_parity_parent strand go_on (st, some bytes) = go_on st

unfoldable pub ask_parity_parent :
    ℕ
    → (Option ℕ → GetterState → Outcome)
    → (GetterState → Outcome)
    → Option ℕ
    → GetterState
    → Outcome
unfolding parity_error after_parity_parent
ask_parity_parent strand recur go_on none st = some (parity_error st, none)
ask_parity_parent strand recur go_on (some parent) st =
    recur (some parent) st >>= after_parity_parent strand go_on

-- The loop of GetParityHelper, for as many rounds as there is fuel. `recur` is GetParityHelper with
-- less fuel.
unfoldable pub get_parity_loop :
    IpfsGetter → ℕ → (Option ℕ → GetterState → Outcome) → ℕ → ℕ → GetterState → Outcome
unfolding fetch_parity ask_parity_parent
get_parity_loop g strand recur zero ptr st = none
get_parity_loop g strand recur (suc n) ptr st = do
  node ← get_elem? g.parity_nodes ptr
  cell ← get_elem? st.parity_cells ptr
  if cell.cid == 0
      then ask_parity_parent strand recur (get_parity_loop g strand recur n ptr) node.parent st
      else fetch_parity g.shell cell.cid ptr node.children st

unfoldable pub cached_parity_or : (GetterState → Outcome) → GetterState → Option (List ℕ) → Outcome
unfolding parity_cached
cached_parity_or loop st none = loop st
cached_parity_or loop st (some bytes) = some (parity_cached st, some bytes)

unfoldable pub get_parity_node : (GetterState → Outcome) → ℕ → GetterState → Outcome
unfolding cached_parity_or
get_parity_node loop ptr st = do
  cell ← get_elem? st.parity_cells ptr
  cached_parity_or loop st cell.data_of

unfoldable pub get_parity_helper : IpfsGetter → ℕ → ℕ → Option ℕ → GetterState → Outcome
unfolding get_parity_node get_parity_loop parity_error
get_parity_helper g strand zero ptr st = none
get_parity_helper g strand (suc n) none st = some (parity_error st, none)
get_parity_helper g strand (suc n) (some ptr) st =
    get_parity_node (get_parity_loop g strand (get_parity_helper g strand n) (suc n) ptr) ptr st

-- final_data = append(final_data, currentData[lo:hi]...) after an answer of GetParityHelper
unfoldable pub append_range :
    Range → List ℕ → (List ℕ → GetterState → Outcome) → GetterState × Option (List ℕ) → Outcome
unfolding read_range
append_range range final_data go_on (st, none) = some (st, none)
append_range range final_data go_on (st, some current_data) = do
  part ← read_range range current_data
  go_on (final_data ++ part) st

-- The loop of GetParity over its ranges.
unfoldable pub get_parity_ranges :
    IpfsGetter → ℕ → ℕ → List (ℕ × ℕ) → List Range → List ℕ → GetterState → Outcome
unfolding append_range parity_error
get_parity_ranges g fuel strand index_map [] final_data st = some (st, some final_data)
get_parity_ranges g fuel strand index_map (range ∷ rest) final_data st =
    elim (lookup range.block index_map) [
      | none ↦ some (parity_error st, none)
      | some ptr ↦
          get_parity_helper g strand fuel (some ptr) st
          >>= append_range range final_data (get_parity_ranges g fuel strand index_map rest)
    ]

-- The size of a parity block, and that of a leaf of the file of a strand.
abbrev pub parity_block_size : ℕ
parity_block_size = 262158

abbrev pub leaf_size : ℕ
leaf_size = 262144

-- GetParity; a strand out of range is a panic.
unfoldable pub get_parity_block : IpfsGetter → ℕ → ℕ → ℕ → GetterState → Outcome
unfolding parity_unavailable get_parity_ranges
get_parity_block g fuel index strand st = do
  available ← get_elem? st.parity_available strand
  if not available then some (parity_unavailable st, none) else do
    index_map ← get_elem? g.parity_index_map strand
    get_parity_ranges g fuel strand index_map
        (calculate_new_blocks parity_block_size leaf_size index) [] st

-- GetParityCID
unfoldable pub get_parity_cid : IpfsGetter → ℕ → ℕ → GetterState → Option ℕ
get_parity_cid g index strand st = do
  available ← get_elem? st.parity_available strand
  if not available then some 0 else do
    index_map ← get_elem? g.parity_index_map strand
    first ← get_elem? (calculate_new_blocks parity_block_size leaf_size index) 0
    elim (lookup first.block index_map) [
      | none ↦ some 0
      | some ptr ↦ do cell ← get_elem? st.parity_cells ptr; some cell.cid
    ]
