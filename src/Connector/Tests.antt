-- ===== src/Connector/Tests.antt =====
-- Runs of the getter on a small tree: a root with two leaves.
use ipfs_reliability.Prelude.{
  ℕ, zero, suc, ◌+◌, ◌≡◌, ◌<◌, ◌⊎◌, inl, inr, refl, sym, arith, subst, true, List, [], ◌∷◌, Option,
  none, some, get_elem?, lookup, ◌==◌, if◌then◌else◌, some_inj,
}
use ipfs_reliability.Connector.Ranges.{calculate_new_blocks, read_ranges}
use ipfs_reliability.Connector.Ranges.Laws.{file_block, read_ranges-calculate_new_blocks}
use ipfs_reliability.Connector.Getter.{
  Shell, EmptyTreeNode, TreeCell, IpfsGetter, Counters, GetterState, elem, get_data,
}
use ipfs_reliability.Connector.Getter.Data.{get_data_right}
use ipfs_reliability.Connector.Getter.Truth.{cid_at, data_at, AreLinks, IsTreeOf, IsTrue, Serves}
use ipfs_reliability.Connector.Getter.Stalls.{get_data_stalls}

read_ranges-calculate_new_blocks_example :
    read_ranges
      (file_block 3 (1 ∷ 2 ∷ 3 ∷ 4 ∷ 5 ∷ 6 ∷ 7 ∷ 8 ∷ 9 ∷ 10 ∷ 11 ∷ []))
      (calculate_new_blocks 5 3 1)
    ≡ some (6 ∷ 7 ∷ 8 ∷ 9 ∷ 10 ∷ [])
read_ranges-calculate_new_blocks_example =
    read_ranges-calculate_new_blocks 3 5 1 (1 ∷ 2 ∷ 3 ∷ 4 ∷ 5 ∷ 6 ∷ 7 ∷ 8 ∷ 9 ∷ 10 ∷ 11 ∷ [])
      (omega arith) (omega arith) (omega arith)

-- The CID of the node at p is 10 + p.
abbrev small_shell : Shell
small_shell = record {
  object_get = λ c. if c == 10 then some (11 ∷ 12 ∷ []) else some [];
  block_get = λ c. some (c ∷ []);
  decode_protobuf = λ bytes. some bytes;
  fs_node_data = λ bytes. some (some bytes);
}

abbrev root_node : EmptyTreeNode
root_node = record { children = 1 ∷ 2 ∷ []; pre_order_idx = 0; lattice_idx = 0 }

abbrev leaf_node : ℕ → EmptyTreeNode
leaf_node i = record { children = []; pre_order_idx = i; lattice_idx = i }

abbrev small_nodes : List EmptyTreeNode
small_nodes = root_node ∷ leaf_node 1 ∷ leaf_node 2 ∷ []

abbrev small_getter : IpfsGetter
small_getter = record {
  shell = small_shell;
  data_filter = [];
  nodes = small_nodes;
  node_map = (0, 0) ∷ (1, 1) ∷ (2, 2) ∷ [];
  parent_map = (0, 0) ∷ (1, 0) ∷ (2, 0) ∷ [];
  parity_nodes = [];
  parity_index_map = [];
}

abbrev no_counts : Counters
no_counts = record { fetched = 0; cached = 0; unavailable = 0; error = 0 }

abbrev empty_cell : TreeCell
empty_cell = record { data_of = none; cid = 0 }

abbrev start : GetterState
start = record {
  data_cells = record { data_of = none; cid = 10 } ∷ empty_cell ∷ empty_cell ∷ [];
  data_blocks = no_counts;
  parity_cells = [];
  parity_blocks = no_counts;
  parity_available = [];
}

abbrev small_cid : ℕ → ℕ
small_cid p = 10 + p

abbrev small_rank : ℕ → ℕ
small_rank i = if i == 0 then 0 else 1

-- Links that are the CIDs of the children, for what the shell and the tree return.
links_at :
    (found : List ℕ) (at : EmptyTreeNode) {ls : List ℕ} {node : EmptyTreeNode}
    → some found ≡ some ls
    → some at ≡ some node
    → AreLinks small_cid found at.children
    → AreLinks small_cid ls node.children
links_at found at {ls} {node} e at_p h =
    subst (λ (n : EmptyTreeNode). AreLinks small_cid ls n.children) (some_inj at_p)
      (subst (λ (l : List ℕ). AreLinks small_cid l at.children) (some_inj e) h)

small_links :
    (p : ℕ) (ls : List ℕ) (node : EmptyTreeNode)
    → small_shell.object_get (small_cid p) ≡ some ls
    → get_elem? small_nodes p ≡ some node
    → AreLinks small_cid ls node.children
small_links zero ls node e at_p = links_at (11 ∷ 12 ∷ []) root_node e at_p (refl, (refl, tt))
small_links (suc zero) ls node e at_p = links_at [] (leaf_node 1) e at_p tt
small_links (suc (suc zero)) ls node e at_p = links_at [] (leaf_node 2) e at_p tt
small_links (suc (suc (suc p))) ls node e at_p = cc

small_below :
    (p c : ℕ) (node : EmptyTreeNode)
    → get_elem? small_nodes p ≡ some node
    → elem c node.children ≡ true
    → c < 3
unfolding elem
small_below zero c node at_p m =
    let m' = subst (λ (n : EmptyTreeNode). elem c n.children ≡ true) (sym (some_inj at_p)) m in
    ground arith
small_below (suc zero) c node at_p m =
    let m' = subst (λ (n : EmptyTreeNode). elem c n.children ≡ true) (sym (some_inj at_p)) m in
    ground arith
small_below (suc (suc zero)) c node at_p m =
    let m' = subst (λ (n : EmptyTreeNode). elem c n.children ≡ true) (sym (some_inj at_p)) m in
    ground arith
small_below (suc (suc (suc p))) c node at_p m = cc

small_parents :
    (i ptr : ℕ)
    → lookup i small_getter.node_map ≡ some ptr
    → (ptr ≡ 0)
      ⊎ ((j : ℕ) × (q : ℕ) × (node : EmptyTreeNode) × (lookup i small_getter.parent_map ≡ some j)
          × (lookup j small_getter.node_map ≡ some q)
          × (get_elem? small_nodes q ≡ some node)
          × (elem ptr node.children ≡ true)
          × (small_rank j < small_rank i))
unfolding lookup elem
small_parents zero ptr e = inl (sym (some_inj e))
small_parents (suc zero) ptr e = inr (0, 0, root_node, refl, refl, refl, ground arith, omega arith)
small_parents (suc (suc zero)) ptr e =
    inr (0, 0, root_node, refl, refl, refl, ground arith, omega arith)
small_parents (suc (suc (suc i))) ptr e = absurd (ground arith)

small_tree : IsTreeOf small_cid small_rank 0 small_getter
unfolding lookup elem
small_tree = record {
  mapped = λ i ptr e. ground arith;
  below = small_below;
  links = small_links;
  not_empty = λ p e. omega arith;
  parents = small_parents;
}

small_cids : (p : ℕ) → (cid_at start.data_cells p ≡ 0) ⊎ (cid_at start.data_cells p ≡ small_cid p)
small_cids zero = inr refl
small_cids (suc zero) = inl refl
small_cids (suc (suc zero)) = inl refl
small_cids (suc (suc (suc p))) = inl refl

no_data : (p : ℕ) → data_at start.data_cells p ≡ none
no_data zero = refl
no_data (suc zero) = refl
no_data (suc (suc zero)) = refl
no_data (suc (suc (suc p))) = refl

start-IsTrue : IsTrue small_cid 0 small_getter start.data_cells
start-IsTrue = record {
  size = refl;
  cids = small_cids;
  bytes = λ p d e. let free = no_data p in cc;
  linked = λ p c d node e at_p m. let free = no_data p in cc;
  root_known = λ e. omega arith;
}

-- The first leaf is found through the root.
get_data_right_example :
    (done : GetterState × Option (List ℕ)) × (get_data small_getter 2 1 start ≡ some done)
    × IsTrue small_cid 0 small_getter done.0.data_cells
    × ((d : List ℕ) → done.1 ≡ some d → small_shell.block_get 11 ≡ some d)
    × (Serves small_cid small_getter → (d : List ℕ) × (done.1 ≡ some d))
unfolding lookup
get_data_right_example =
    get_data_right small_cid small_rank 0 small_getter 2 1 1 start small_tree refl (omega arith)
      start-IsTrue

-- A root that is there already, but has given its second leaf no CID.
abbrev cut_short : GetterState
cut_short = record start {
  data_cells =
      record { data_of = some (10 ∷ []); cid = 10 }
      ∷ record { data_of = none; cid = 11 }
      ∷ empty_cell
      ∷ [];
}

get_data_stalls_example : get_data small_getter 9 2 cut_short ≡ none
unfolding lookup elem
get_data_stalls_example =
    get_data_stalls small_getter 2 2 0 0 (leaf_node 2) empty_cell
      (record { data_of = some (10 ∷ []); cid = 10 }) (10 ∷ []) cut_short 9 refl refl refl refl refl
      refl refl refl refl refl refl refl
