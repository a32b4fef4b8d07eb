-- ===== src/Client/Upload.antt =====
-- client/upload.go: how the parity blocks of a file are collected, stored as one file for each strand,
-- and pinned block by block. IPFS is a parameter: the CID that it gives to bytes that are added, and
-- the shell that reads what the network holds afterwards; `none` is a request that fails.
pub mod Collect
pub mod Stored
pub mod Pins
pub mod Files
mod Tests
use ipfs_reliability.Prelude.{
  ℕ, zero, suc, ◌+◌, Bool, true, false, not, List, [], ◌∷◌, ◌++◌, Option, none, some, ◌>>=◌, ◌==◌,
  ltb, if◌then◌else◌, get_elem?, length, replicate, pos, ◌-ℤ◌,
}
use ipfs_reliability.Entangler.State.{Bytes, EntangledBlock, Entangler, new_entangler}
use ipfs_reliability.Entangler.Encode.{set_slot, entangle}
use ipfs_reliability.Connector.Getter.{Shell}
use ipfs_reliability.Connector.Tree.{Tree, Trees, node, no_trees, tree_then, count, tree_size}
use ipfs_reliability.Connector.Merkle.{Read, MerkleNode, larger, get_merkle_tree}
use ipfs_reliability.Cluster.{Connector, add_pin}

-- parityBlocks[block.Strand][block.LeftBlockIndex-1] = block.Data; out of range is a panic.
unfoldable pub store_block : EntangledBlock → List (List Bytes) → Option (List (List Bytes))
unfolding set_slot
store_block block table = set_slot table block.strand (block.left_block_index -ℤ pos 1) block.chunk

-- The goroutines that store the blocks, in the order in which they run.
unfoldable pub store_blocks : List EntangledBlock → List (List Bytes) → Option (List (List Bytes))
unfolding store_block
store_blocks [] table = some table
store_blocks (block ∷ rest) table = do table' ← store_block block table; store_blocks rest table'

abbrev pub no_blocks : ℕ → ℕ → List (List Bytes)
no_blocks alpha block_num = replicate alpha (replicate block_num [])

-- generateEntanglementAndUpload for nodes whose data is there; `run` gives the order in which the
-- goroutines for the blocks of parityChan run.
unfoldable pub generate_entanglement :
    (List EntangledBlock → List EntangledBlock)
    → ℕ
    → ℕ
    → ℕ
    → List Bytes
    → Option (List (List Bytes))
unfolding store_blocks
generate_entanglement run alpha s p nodes = do
  tangler ← new_entangler alpha s p []
  done ← entangle nodes tangler
  store_blocks (run done.sent) (no_blocks alpha (length nodes))

-- The loop that merges the blocks of a strand.
unfoldable pub merge_blocks : Bytes → List Bytes → Bytes
merge_blocks merged [] = merged
merge_blocks merged (block ∷ rest) = merge_blocks (merged ++ block) rest

-- A pin that the cluster is asked for, by its mode, with its CID and replication factor.
pub data Pin : Type 0 where
  direct recursive : (cid replication : ℕ) → Pin

-- What the walk of pinEntanglementTree changes: the connector of the cluster, the pins that it asked
-- for, and currentMaxChildren.
pub record Pinning : Type 0 where
  pub connector : Connector
  pub requests : List Pin
  pub max_children : ℕ

-- Whether http.PostForm gets an answer from the API of the cluster, for the URL with this peer, CID and
-- replication factor. The status of the answer is not looked at: a refusal is an answer, too.
abbrev pub Posts : Type 0
Posts = ℕ → ℕ → ℕ → Bool

unfoldable pub ask_pin : (ℕ → ℕ → Pin) → Posts → ℕ → ℕ → Pinning → Option (Pinning × Bool)
ask_pin mode posts cid replication st = do
  (c, ok) ← add_pin (λ peer. posts peer cid replication) st.connector
  some (record st { connector = c; requests = st.requests ++ mode cid replication ∷ [] }, ok)

-- AddPinDirect
unfoldable pub pin_direct : Posts → ℕ → ℕ → Pinning → Option (Pinning × Bool)
unfolding ask_pin
pin_direct posts cid replication st = ask_pin direct posts cid replication st

-- AddPin
unfoldable pub pin_recursive : Posts → ℕ → ℕ → Pinning → Option (Pinning × Bool)
unfolding ask_pin
pin_recursive posts cid replication st = ask_pin recursive posts cid replication st

unfoldable pub note_children : ℕ → Pinning → Pinning
unfolding larger
note_children children st = record st { max_children = larger children st.max_children }

-- A leaf is pinned once.
unfoldable pub replication_for : ℕ → ℕ → ℕ
replication_for replication children = if children == 0 then 1 else replication

-- The walker of pinEntanglementTree; the CIDs of the nodes are listed by PreOrderIdx.
unfoldable mutual
  unfolding pin_direct note_children replication_for

  pub pin_node : Posts → List ℕ → ℕ → ℕ → Tree → Pinning → Option Pinning
  pin_node posts cids replication i (node ts) st = do
    cid ← get_elem? cids i
    (st', ok) ← pin_direct posts cid (replication_for replication (count ts)) st
    if not ok
        then some st'
        else pin_nodes posts cids replication (suc i) ts (note_children (count ts) st')

  pub pin_nodes : Posts → List ℕ → ℕ → ℕ → Trees → Pinning → Option Pinning
  pin_nodes posts cids replication i no_trees st = some st
  pin_nodes posts cids replication i (tree_then t ts) st = do
    st' ← pin_node posts cids replication i t st
    pin_nodes posts cids replication (i + tree_size t) ts st'

-- pinEntanglementTree after GetMerkleTree. The answer is the number of children; `none` in the pair
-- is an error.
unfoldable pub pin_tree :
    Posts → ℕ → Pinning → Read × Option MerkleNode → Option (Pinning × Option ℕ)
unfolding pin_node
pin_tree posts replication st (r, none) = some (st, none)
pin_tree posts replication st (r, some found) = do
  st' ← pin_node posts r.cids replication 0 found.tree (record st { max_children = 0 })
  some (st', some st'.max_children)

unfoldable pub pin_entanglement_tree :
    Shell → ℕ → Posts → ℕ → ℕ → Pinning → Option (Pinning × Option ℕ)
unfolding pin_tree
pin_entanglement_tree shell fuel posts cid replication st = do
  found ← get_merkle_tree shell fuel cid
  pin_tree posts replication st found

-- What pinAlphaEntanglements returns: treeCids and maxParityChildren.
pub record Strands : Type 0 where
  pub tree_cids : List ℕ
  pub max_parity_children : ℕ

-- The rest of the round of pinAlphaEntanglements after AddFileFromMem, and after the pins.
unfoldable pub next_strand :
    ℕ
    → Strands
    → (Strands → Pinning → Option (Pinning × Option Strands))
    → Pinning × Option ℕ
    → Option (Pinning × Option Strands)
unfolding larger
next_strand cid acc go_on (st, none) = some (st, none)
next_strand cid acc go_on (st, some children) =
    go_on
      (record {
        tree_cids = acc.tree_cids ++ cid ∷ [];
        max_parity_children = larger children acc.max_parity_children;
      })
      st

-- The loop of pinAlphaEntanglements over the strands.
unfoldable pub pin_strands :
    (Bytes → Option ℕ)
    → Shell
    → ℕ
    → Posts
    → ℕ
    → List (List Bytes)
    → Strands
    → Pinning
    → Option (Pinning × Option Strands)
unfolding merge_blocks next_strand
pin_strands add_file shell fuel posts replication [] acc st = some (st, some acc)
pin_strands add_file shell fuel posts replication (blocks ∷ rest) acc st =
    let go_on = pin_strands add_file shell fuel posts replication rest in
    elim (add_file (merge_blocks [] blocks)) [
      | none ↦ some (st, none)
      | some cid ↦ do
        answer ← pin_entanglement_tree shell fuel posts cid replication st
        next_strand cid acc go_on answer
    ]

unfoldable pub pin_alpha_entanglements :
    (Bytes → Option ℕ)
    → Shell
    → ℕ
    → Posts
    → ℕ
    → List (List Bytes)
    → Connector
    → Option (Pinning × Option Strands)
unfolding pin_strands
pin_alpha_entanglements add_file shell fuel posts replication parity_blocks c =
    pin_strands add_file shell fuel posts replication parity_blocks
      (record { tree_cids = []; max_parity_children = 0 })
      (record { connector = c; requests = []; max_children = 0 })
