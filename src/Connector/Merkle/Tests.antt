-- ===== src/Connector/Merkle/Tests.antt =====
-- The tree of three leaves in groups of two, stored under the CIDs 100, 101 and so on.
use ipfs_reliability.Prelude.{◌≡◌, refl, ◌==◌, if◌then◌else◌, [], ◌∷◌, some}
use ipfs_reliability.Connector.Getter.{Shell}
use ipfs_reliability.Connector.Tree.{Tree, node, no_trees, tree_then, leaf}
use ipfs_reliability.Connector.Merkle.{get_merkle_tree}

abbrev pair : Tree
pair = node (tree_then leaf (tree_then leaf no_trees))

abbrev three : Tree
three = node (tree_then pair (tree_then (node (tree_then leaf no_trees)) no_trees))

abbrev store : Shell
store = record {
  object_get = λ c.
      if c == 100
      then some (101 ∷ 104 ∷ [])
      else (if c == 101
          then some (102 ∷ 103 ∷ [])
          else (if c == 104 then some (105 ∷ []) else some []));
  block_get = λ c. some [];
  decode_protobuf = λ bytes. some bytes;
  fs_node_data = λ bytes. some (some bytes);
}

three_test :
    get_merkle_tree store 5 100
    ≡ some (
      record { max_children = 2; cids = 100 ∷ 101 ∷ 102 ∷ 103 ∷ 104 ∷ 105 ∷ [] },
      some (record { tree = three; max_depth = 3 }),
    )
unfolding get_merkle_tree
three_test = refl
