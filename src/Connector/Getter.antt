-- ===== src/Connector/Getter.antt =====
-- IPFSGetter of ipfs-connector/blockgetter.go: GetData finds the CID of a block through the tree of
-- the file. A pointer to a tree node is an index into `nodes`, the fields that do not change once
-- the tree is there, and into cells, the data and the CID. A CID is a number, the empty one 0.
pub mod Truth
pub mod Data
pub mod Stalls
use ipfs_reliability.Prelude.{
  ℕ, zero, suc, ◌+◌, Bool, true, false, not, List, [], ◌∷◌, Option, none, some,
}
use ipfs_reliability.Prelude.{◌>>=◌, ◌==◌, if◌then◌else◌, ◌||◌, get_elem?, set, lookup}

-- What the getter uses of the shell of IPFS: the links of an object, its bytes, and the two decoders
-- of merkledag and unixfs. `none` is an error; the file data of a node may be nil.
pub record Shell : Type 0 where
  pub object_get : ℕ → Option (List ℕ)
  pub block_get : ℕ → Option (List ℕ)
  pub decode_protobuf : List ℕ → Option (List ℕ)
  pub fs_node_data : List ℕ → Option (Option (List ℕ))

-- EmptyTreeNode; Parent and Depth are not read after ConstructTree.
pub record EmptyTreeNode : Type 0 where
  pub children : List ℕ
  pub pre_order_idx : ℕ
  pub lattice_idx : ℕ

pub record ParityTreeNode : Type 0 where
  pub children : List ℕ
  pub parent : Option ℕ
  pub index : ℕ

-- The Data and CID of a tree node of either type.
pub record TreeCell : Type 0 where
  pub data_of : Option (List ℕ)
  pub cid : ℕ

pub record IpfsGetter : Type 0 where
  pub shell : Shell
  pub data_filter : List ℕ
  pub nodes : List EmptyTreeNode
  pub node_map : List (ℕ × ℕ)
  pub parent_map : List (ℕ × ℕ)
  pub parity_nodes : List ParityTreeNode
  pub parity_index_map : List (List (ℕ × ℕ))

pub record Counters : Type 0 where
  pub fetched : ℕ
  pub cached : ℕ
  pub unavailable : ℕ
  pub error : ℕ

-- The fields of the getter that its calls change.
pub record GetterState : Type 0 where
  pub data_cells : List TreeCell
  pub data_blocks : Counters
  pub parity_cells : List TreeCell
  pub parity_blocks : Counters
  pub parity_available : List Bool

-- A call gives a state, and the bytes or an error; `none` is a panic, or a call without a result.
abbrev pub Outcome : Type 0
Outcome = Option (GetterState × Option (List ℕ))

unfoldable pub elem : ℕ → List ℕ → Bool
elem key [] = false
elem key (k ∷ rest) = (k == key) || elem key rest

-- target_node.Children[i].CID = dag_child.Hash for all links; a child that is not there is a panic.
unfoldable pub populate : List ℕ → List ℕ → List TreeCell → Option (List TreeCell)
populate [] children cells = some cells
populate (link ∷ links) [] cells = none
populate (link ∷ links) (child ∷ children) cells = do
  cell ← get_elem? cells child
  populate links children (set cells child (record cell { cid = link }))

-- node.Data = data
unfoldable pub keep_data : ℕ → List ℕ → List TreeCell → Option (List TreeCell)
keep_data ptr bytes cells = do
  cell ← get_elem? cells ptr
  some (set cells ptr (record cell { data_of = some bytes }))

unfoldable pub data_unavailable : GetterState → GetterState
data_unavailable st = record st {
  data_blocks = record (st.data_blocks) { unavailable = st.data_blocks.unavailable + 1 };
}

unfoldable pub data_error : GetterState → GetterState
data_error st = record st {
  data_blocks = record (st.data_blocks) { error = st.data_blocks.error + 1 };
}

unfoldable pub data_cached : GetterState → GetterState
data_cached st = record st {
  data_blocks = record (st.data_blocks) { cached = st.data_blocks.cached + 1 };
}

unfoldable pub data_fetched : List TreeCell → GetterState → GetterState
data_fetched cells st = record st {
  data_cells = cells;
  data_blocks = record (st.data_blocks) { fetched = st.data_blocks.fetched + 1 };
}

-- The round of the loop of GetData that has a CID.
unfoldable pub fetch_data : Shell → ℕ → ℕ → List ℕ → GetterState → Outcome
unfolding populate keep_data data_unavailable data_fetched
fetch_data shell cid ptr children st = elim (shell.object_get cid) [
  | none ↦ some (data_unavailable st, none)
  | some links ↦ elim (shell.block_get cid) [
    | none ↦ some (data_unavailable st, none)
    | some bytes ↦ do
      cells ← populate links children st.data_cells
      cells' ← keep_data ptr bytes cells
      some (data_fetched cells' st, some bytes)
  ]
]

-- What follows the call of GetData for the parent.
unfoldable pub after_parent : (GetterState → Outcome) → GetterState × Option (List ℕ) → Outcome
unfolding data_unavailable
after_parent go_on (st, none) = some (data_unavailable st, none)
after_parent go_on (st, some bytes) = go_on st

-- The round of the loop of GetData without a CID.
unfoldable pub ask_parent :
    IpfsGetter → (ℕ → GetterState → Outcome) → (GetterState → Outcome) → ℕ → GetterState → Outcome
unfolding data_error after_parent
ask_parent g recur go_on index st = elim (lookup index g.parent_map) [
  | none ↦ some (data_error st, none)
  | some parent_index ↦
      if parent_index == index
      then some (data_error st, none)
      else (recur parent_index st >>= after_parent go_on)
]

-- A round of the loop of GetData; `recur` is GetData, and `go_on` the rounds after this one.
unfoldable pub get_data_round :
    IpfsGetter
    → (ℕ → GetterState → Outcome)
    → (GetterState → Outcome)
    → ℕ
    → ℕ
    → GetterState
    → Outcome
unfolding fetch_data ask_parent
get_data_round g recur go_on index ptr st = do
  node ← get_elem? g.nodes ptr
  cell ← get_elem? st.data_cells ptr
  if cell.cid == 0
      then ask_parent g recur go_on index st
      else fetch_data g.shell cell.cid ptr node.children st

-- The loop of GetData, for as many rounds as there is fuel.
unfoldable pub get_data_loop :
    IpfsGetter → (ℕ → GetterState → Outcome) → ℕ → ℕ → ℕ → GetterState → Outcome
unfolding get_data_round
get_data_loop g recur zero index ptr st = none
get_data_loop g recur (suc n) index ptr st =
    get_data_round g recur (get_data_loop g recur n index ptr) index ptr st

unfoldable pub cached_or : (GetterState → Outcome) → GetterState → Option (List ℕ) → Outcome
unfolding data_cached
cached_or loop st none = loop st
cached_or loop st (some bytes) = some (data_cached st, some bytes)

-- GetData of a node that is in the map.
unfoldable pub get_node_data : (GetterState → Outcome) → ℕ → GetterState → Outcome
unfolding cached_or
get_node_data loop ptr st = do cell ← get_elem? st.data_cells ptr; cached_or loop st cell.data_of

unfoldable pub get_data : IpfsGetter → ℕ → ℕ → GetterState → Outcome
unfolding elem data_unavailable data_error get_node_data get_data_loop
get_data g zero index st = none
get_data g (suc n) index st =
    if elem index g.data_filter
    then some (data_unavailable st, none)
    else elim (lookup index g.node_map) [
      | none ↦ some (data_error st, none)
      | some ptr ↦ get_node_data (get_data_loop g (get_data g n) (suc n) index ptr) ptr st
    ]

-- What follows GetData of the parent in GetDataCID.
unfoldable pub cid_after_parent :
    (GetterState → Option (GetterState × ℕ))
    → GetterState × Option (List ℕ)
    → Option (GetterState × ℕ)
cid_after_parent go_on (st, none) = some (st, 0)
cid_after_parent go_on (st, some bytes) = go_on st

-- The loop of GetDataCID, for as many rounds as there is fuel; `fetch` is GetData.
unfoldable pub get_cid_loop :
    IpfsGetter → (ℕ → GetterState → Outcome) → ℕ → ℕ → ℕ → GetterState → Option (GetterState × ℕ)
unfolding cid_after_parent
get_cid_loop g fetch zero index ptr st = none
get_cid_loop g fetch (suc n) index ptr st = do
  cell ← get_elem? st.data_cells ptr
  if not (cell.cid == 0) then some (st, cell.cid) else elim (lookup index g.parent_map) [
    | none ↦ some (st, 0)
    | some parent_index ↦
        if parent_index == index
        then some (st, 0)
        else (fetch parent_index st >>= cid_after_parent (get_cid_loop g fetch n index ptr))
  ]

unfoldable pub get_data_cid : IpfsGetter → ℕ → ℕ → GetterState → Option (GetterState × ℕ)
unfolding elem get_cid_loop
get_data_cid g fuel index st =
    if elem index g.data_filter then some (st, 0) else elim (lookup index g.node_map) [
      | none ↦ some (st, 0)
      | some ptr ↦ get_cid_loop g (get_data g fuel) fuel index ptr st
    ]

unfoldable pub get_cid_for_data_block : IpfsGetter → ℕ → GetterState → Option ℕ
get_cid_for_data_block g index st = elim (lookup index g.node_map) [
  | none ↦ some 0
  | some ptr ↦ do cell ← get_elem? st.data_cells ptr; some cell.cid
]

-- For a strand that is not negative.
unfoldable pub get_cid_for_parity_block : IpfsGetter → ℕ → ℕ → GetterState → Option ℕ
get_cid_for_parity_block g index strand st = elim (get_elem? g.parity_index_map strand) [
  | none ↦ some 0
  | some index_map ↦ elim (lookup index index_map) [
    | none ↦ some 0
    | some ptr ↦ do cell ← get_elem? st.parity_cells ptr; some cell.cid
  ]
]
