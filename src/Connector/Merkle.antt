-- ===== src/Connector/Merkle.antt =====
-- GetMerkleTree of ipfs-connector/ipfsconnector.go, which an upload reads the tree of a file with.

pub mod Reads
pub mod Metadata
mod Tests
use ipfs_reliability.Prelude.{
  ℕ, zero, suc, ◌+◌, Bool, true, false, List, [], ◌∷◌, ◌++◌, Option, none, some, ◌>>=◌, ltb, ◌==◌,
  if◌then◌else◌, length,
}
use ipfs_reliability.Connector.Getter.{Shell}
use ipfs_reliability.Connector.Tree.{Tree, Trees, node, no_trees, tree_then, leaf_level, count}

-- What the walk has so far: maxChildren, and the CIDs of the nodes in the order of PreOrderIdx, whose
-- number is currIdx.
pub record Read : Type 0 where
  pub max_children : ℕ
  pub cids : List ℕ

-- What getMerkleNode returns: the node and the largest depth below it.
pub record MerkleNode : Type 0 where
  pub tree : Tree
  pub max_depth : ℕ

-- `none` is a walk that is not at its end; an answer without a node is an error.
abbrev pub NodeAnswer : Type 0
NodeAnswer = Option (Read × Option MerkleNode)

unfoldable pub larger : ℕ → ℕ → ℕ
larger new old = if ltb old new then new else old

unfoldable pub note_node : ℕ → ℕ → Read → Read
unfolding larger
note_node cid links r = record {
  max_children = larger links r.max_children;
  cids = r.cids ++ cid ∷ [];
}

-- rootNode.AddChild(childNode), once the rest of the loop has its children
unfoldable pub add_child : Tree → Read × Option (Trees × ℕ) → Read × Option (Trees × ℕ)
add_child child (r, none) = (r, none)
add_child child (r, some (children, depth)) = (r, some (tree_then child children, depth))

-- After the answer for a child: an error ends the loop.
unfoldable pub next_child :
    (ℕ → Read → Option (Read × Option (Trees × ℕ)))
    → ℕ
    → Read × Option MerkleNode
    → Option (Read × Option (Trees × ℕ))
unfolding larger add_child
next_child go_on max_depth (r, none) = some (r, none)
next_child go_on max_depth (r, some child) = do
  rest ← go_on (larger child.max_depth max_depth) r
  some (add_child child.tree rest)

-- The loop over the links; `recur` is getMerkleNode for a child.
unfoldable pub get_children :
    (ℕ → Read → NodeAnswer) → List ℕ → ℕ → Read → Option (Read × Option (Trees × ℕ))
unfolding next_child
get_children recur [] max_depth r = some (r, some (no_trees, max_depth))
get_children recur (link ∷ links) max_depth r = do
  found ← recur link r
  next_child (get_children recur links) max_depth found

unfoldable pub make_node : Read × Option (Trees × ℕ) → Read × Option MerkleNode
make_node (r, none) = (r, none)
make_node (r, some (children, depth)) =
    (r, some (record { tree = node children; max_depth = depth }))

-- getMerkleNode; the fuel has to exceed the height of the tree.
unfoldable pub get_merkle_node : Shell → ℕ → ℕ → ℕ → Read → NodeAnswer
unfolding note_node get_children make_node
get_merkle_node shell zero current_depth cid r = none
get_merkle_node shell (suc n) current_depth cid r = elim (shell.object_get cid) [
  | none ↦ some (r, none)
  | some links ↦ do
    found ←
        get_children (get_merkle_node shell n (suc current_depth)) links current_depth
          (note_node cid (length links) r)
    some (make_node found)
]

unfoldable pub get_merkle_tree : Shell → ℕ → ℕ → NodeAnswer
unfolding get_merkle_node
get_merkle_tree shell fuel cid =
    get_merkle_node shell fuel 1 cid (record { max_children = 0; cids = [] })
