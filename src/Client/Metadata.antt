-- ===== src/Client/Metadata.antt =====
-- Upload of client/upload.go and PrepareRepair of client/repair.go, which meet in the metadata of a file.
-- IPFS is a parameter, as in Upload.
pub mod Leaves
pub mod Rebuilt
pub mod Trees
mod Tests
use ipfs_reliability.Prelude.{
  ℕ, zero, suc, ◌+◌, ◌*◌, ◌/◌, Bool, true, false, List, [], ◌∷◌, Option, none, some, ◌>>=◌, ◌==◌,
  if◌then◌else◌, get_elem?, length,
}
use ipfs_reliability.Entangler.State.{Bytes, EntangledBlock}
use ipfs_reliability.Lattice.{Lattice, new_lattice, init}
use ipfs_reliability.Connector.Getter.{Shell, EmptyTreeNode}
use ipfs_reliability.Connector.Tree.{Tree, construct_tree}
use ipfs_reliability.Connector.Tree.Parity.{create_parity_tree}
use ipfs_reliability.Connector.Tree.Swap.{number, is_leaf, get_flattened_tree, tree_maps}
use ipfs_reliability.Connector.Merkle.{Read, MerkleNode, get_merkle_tree}
use ipfs_reliability.Cluster.{Connector}
use ipfs_reliability.Client.Upload.{
  Posts, Pinning, Strands, generate_entanglement, pin_recursive, pin_alpha_entanglements,
}

-- The fields that Upload sets.
pub record Metadata : Type 0 where
  pub alpha : ℕ
  pub s : ℕ
  pub p : ℕ
  pub original_file_cid : ℕ
  pub tree_cids : List ℕ
  pub num_blocks : ℕ
  pub max_children : ℕ
  pub leaves : ℕ
  pub depth : ℕ
  pub max_parity_children : ℕ

pub record ForwardMonitoringRequest : Type 0 where
  pub file_cid : ℕ
  pub metadata_cid : ℕ
  pub strand_root_cids : List ℕ

-- AddFile, AddFileFromMem for bytes and for metadata, and what the network holds afterwards.
pub record Ipfs : Type 0 where
  pub file_cid : Option ℕ
  pub add_file : Bytes → Option ℕ
  pub add_metadata : Metadata → Option ℕ
  pub shell : Shell

-- What Upload returns: without entanglement only the CID of the file, or an error, or also the CID of
-- the metadata, whether its pin succeeds, and what is sent to the community node.
pub data UploadAnswer : Type 0 where
  only_file : (root_cid : ℕ) → UploadAnswer
  upload_failed : (root_cid : ℕ) → UploadAnswer
  uploaded :
      (root_cid meta_cid : ℕ) (meta_data : Metadata) (pinned : Bool)
      (forwarded : Option ForwardMonitoringRequest)
      → UploadAnswer

-- The parameters of Upload.
pub record Settings : Type 0 where
  pub alpha : ℕ
  pub s : ℕ
  pub p : ℕ
  pub replication_factor : ℕ
  pub has_community_node : Bool

-- node.Data() of the nodes in the order of the array; an error ends the program.
unfoldable pub read_nodes : Shell → List ℕ → List ℕ → Option (List Bytes)
read_nodes shell cids [] = some []
read_nodes shell cids (index ∷ rest) = do
  cid ← get_elem? cids index
  bytes ← shell.block_get cid
  later ← read_nodes shell cids rest
  some (bytes ∷ later)

-- Whether this node has no children.
unfoldable pub is_leaf_at : List EmptyTreeNode → ℕ → Bool
unfolding is_leaf
is_leaf_at nodes index = elim (get_elem? nodes index) [ none ↦ false | some n ↦ is_leaf n ]

-- leaves++ in the loop over the nodes
unfoldable pub count_leaves : List EmptyTreeNode → List ℕ → ℕ
unfolding is_leaf_at
count_leaves nodes [] = 0
count_leaves nodes (index ∷ rest) =
    (if is_leaf_at nodes index then 1 else 0) + count_leaves nodes rest

unfoldable pub new_metadata : Settings → ℕ → Read → MerkleNode → List ℕ → Strands → Metadata
unfolding count_leaves number
new_metadata set root_cid r found order strands = record {
  alpha = set.alpha;
  s = set.s;
  p = set.p;
  original_file_cid = root_cid;
  tree_cids = strands.tree_cids;
  num_blocks = length order;
  max_children = r.max_children;
  leaves = count_leaves (number 0 found.tree) order;
  depth = found.max_depth;
  max_parity_children = strands.max_parity_children;
}

unfoldable pub forward_request : Bool → ℕ → ℕ → List ℕ → Option ForwardMonitoringRequest
forward_request has_community_node root_cid meta_cid tree_cids =
    if has_community_node
    then some
        (record { file_cid = root_cid; metadata_cid = meta_cid; strand_root_cids = tree_cids })
    else none

-- From json.Marshal on.
unfoldable pub upload_metadata :
    Ipfs → Posts → Settings → Metadata → Pinning → Option (Pinning × UploadAnswer)
unfolding forward_request pin_recursive
upload_metadata ipfs posts set meta st = elim (ipfs.add_metadata meta) [
  | none ↦ some (st, upload_failed meta.original_file_cid)
  | some meta_cid ↦ do
    (st', pinned) ← pin_recursive posts meta_cid 0 st
    some (
      st',
      uploaded meta.original_file_cid meta_cid meta pinned
          (forward_request set.has_community_node meta.original_file_cid meta_cid meta.tree_cids),
    )
]

-- After pinAlphaEntanglements.
unfoldable pub after_strands :
    Ipfs
    → Posts
    → Settings
    → ℕ
    → (Strands → Metadata)
    → Pinning × Option Strands
    → Option (Pinning × UploadAnswer)
unfolding upload_metadata
after_strands ipfs posts set root_cid meta (st, none) = some (st, upload_failed root_cid)
after_strands ipfs posts set root_cid meta (st, some strands) =
    upload_metadata ipfs posts set (meta strands) st

-- After GetMerkleTree.
unfoldable pub after_tree :
    Ipfs
    → ℕ
    → Posts
    → (List EntangledBlock → List EntangledBlock)
    → Settings
    → ℕ
    → Connector
    → Read × Option MerkleNode
    → Option (Pinning × UploadAnswer)
unfolding read_nodes new_metadata after_strands
after_tree ipfs fuel posts run set root_cid c (r, none) =
    some (record { connector = c; requests = []; max_children = 0 }, upload_failed root_cid)
after_tree ipfs fuel posts run set root_cid c (r, some found) = do
  order ← get_flattened_tree set.s set.p true found.tree
  data_blocks ← read_nodes ipfs.shell r.cids order
  parity_blocks ← generate_entanglement run set.alpha set.s set.p data_blocks
  pinned ←
      pin_alpha_entanglements ipfs.add_file ipfs.shell fuel posts set.replication_factor
        parity_blocks c
  after_strands ipfs posts set root_cid (new_metadata set root_cid r found order) pinned

-- Upload; `none` is a panic or the end of the program.
unfoldable pub upload :
    Ipfs
    → ℕ
    → Posts
    → (List EntangledBlock → List EntangledBlock)
    → Settings
    → Connector
    → Option (Pinning × UploadAnswer)
unfolding after_tree
upload ipfs fuel posts run set c = do
  root_cid ← ipfs.file_cid
  let with_strands =
      get_merkle_tree ipfs.shell fuel root_cid >>= after_tree ipfs fuel posts run set root_cid c
  if set.alpha == 0
      then some (record { connector = c; requests = []; max_children = 0 }, only_file root_cid)
      else with_strands

-- L_parity
unfoldable pub parity_leaves : ℕ → ℕ
parity_leaves num_blocks = (num_blocks * 262158 + 262143) / 262144

-- One parity tree for each strand, with the CID of its root.
unfoldable pub parity_trees : ℕ → ℕ → ℕ → List ℕ → Option (List (ℕ × Tree))
parity_trees fuel l k [] = some []
parity_trees fuel l k (cid ∷ rest) = do
  t ← create_parity_tree fuel l k
  later ← parity_trees fuel l k rest
  some ((cid, t) ∷ later)

-- The trees that the getter is created with: the tree of the file, child_parent_index_map and
-- index_node_map, and the parity trees.
pub record Prepared : Type 0 where
  pub root_cid : ℕ
  pub tree : Tree
  pub maps : List (ℕ × ℕ) × List (ℕ × ℕ)
  pub strands : List (ℕ × Tree)

unfoldable pub prepare_trees : ℕ → Metadata → Option Prepared
unfolding parity_leaves parity_trees
prepare_trees fuel meta = do
  t ← construct_tree meta.leaves meta.max_children meta.depth meta.num_blocks
  maps ← tree_maps meta.s meta.p t
  strands ←
      parity_trees fuel (parity_leaves meta.num_blocks) meta.max_parity_children meta.tree_cids
  some (record { root_cid = meta.original_file_cid; tree = t; maps = maps; strands = strands })

-- PrepareRepair after GetMetaData.
unfoldable pub prepare_repair : ℕ → ℕ → Metadata → Option (Prepared × Lattice)
unfolding prepare_trees
prepare_repair fuel depth meta = do
  prepared ← prepare_trees fuel meta
  lattice ← init (new_lattice meta.alpha meta.s meta.p meta.num_blocks depth)
  some (prepared, lattice)
