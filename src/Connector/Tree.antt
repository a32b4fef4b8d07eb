-- ===== src/Connector/Tree.antt =====
-- ConstructTree and CreateParityTree of ipfs-connector/treenode.go, which rebuild the shape of the
-- tree of a file from a few numbers. A tree stands for the nodes with their Children; parents, and
-- the indexes of nodes, follow from it.
pub mod Shape
pub mod Ends
pub mod Swap
pub mod Parity
mod Tests
use ipfs_reliability.Prelude.{ℕ, zero, suc, ◌+◌, ◌-◌, Bool, true, false, not, List, [], ◌∷◌}
use ipfs_reliability.Prelude.{Option, none, some, ◌>>=◌, ltb, ◌==◌, ◌||◌, ◌&&◌, if◌then◌else◌}

mutual
  pub data Tree : Type 0 where
    node : Trees → Tree

  -- The children of a node, or a level of the tree.
  pub data Trees : Type 0 where
    no_trees : Trees
    tree_then : Tree → Trees → Trees

abbrev pub leaf : Tree
leaf = node no_trees

unfoldable pub count : Trees → ℕ
count no_trees = 0
count (tree_then t ts) = suc (count ts)

unfoldable pub leaf_level : ℕ → Trees
leaf_level zero = no_trees
leaf_level (suc n) = tree_then leaf (leaf_level n)

unfoldable pub first_trees : ℕ → Trees → Trees
first_trees zero ts = no_trees
first_trees (suc n) no_trees = no_trees
first_trees (suc n) (tree_then t ts) = tree_then t (first_trees n ts)

unfoldable pub rest_trees : ℕ → Trees → Trees
rest_trees zero ts = ts
rest_trees (suc n) no_trees = no_trees
rest_trees (suc n) (tree_then t ts) = rest_trees n ts

-- The parents of a level: one for each K nodes. The fuel is the number of nodes of the level.
unfoldable pub group : ℕ → ℕ → Trees → Trees
unfolding first_trees rest_trees
group zero k ts = no_trees
group (suc n) k no_trees = no_trees
group (suc n) k (tree_then t ts) =
    tree_then (node (first_trees k (tree_then t ts))) (group n k (rest_trees k (tree_then t ts)))

unfoldable pub parents : ℕ → Trees → Trees
unfolding group count
parents k ts = group (count ts) k ts

-- TreeSize and LeafSize, as AddChild and GetMerkleTree sum them up.
unfoldable mutual
  pub tree_size : Tree → ℕ
  tree_size (node ts) = suc (trees_size ts)

  pub trees_size : Trees → ℕ
  trees_size no_trees = 0
  trees_size (tree_then t ts) = tree_size t + trees_size ts

unfoldable mutual
  pub leaf_nodes : Tree → ℕ
  leaf_nodes (node no_trees) = 1
  leaf_nodes (node (tree_then t ts)) = leaf_nodes t + trees_leaf_nodes ts

  pub trees_leaf_nodes : Trees → ℕ
  trees_leaf_nodes no_trees = 0
  trees_leaf_nodes (tree_then t ts) = leaf_nodes t + trees_leaf_nodes ts

-- What the loop that goes up the levels leaves: the last level, currentDepth and totalNodes.
pub record Built : Type 0 where
  pub level : Trees
  pub depth : ℕ
  pub total : ℕ

-- The loop of ConstructTree, with `rounds` left before currentDepth is over D.
unfoldable pub build : ℕ → ℕ → Built → Built
unfolding parents count
build zero k b = b
build (suc rounds) k b =
    let up = parents k b.level in
    let more =
      build rounds k (record { level = up; depth = suc b.depth; total = b.total + count up }) in
    if ltb 1 (count b.level) then more else b

-- nodes[0], when it is the only one
unfoldable pub only_tree : Trees → Option Tree
only_tree no_trees = none
only_tree (tree_then t no_trees) = some t
only_tree (tree_then t (tree_then t' ts)) = none

-- The checks after the loop.
unfoldable pub checked_root : ℕ → ℕ → Built → Option Tree
unfolding only_tree
checked_root d n b = do
  root ← only_tree b.level
  if not (b.depth == d) || not (b.total == n) then none else some root

-- ConstructTree up to the check of the depth and of the number of nodes; the indexes are those of
-- Swap. `none` is an error, or the loop that does not end when K is 0 and there are several leaves.
unfoldable pub construct_tree : ℕ → ℕ → ℕ → ℕ → Option Tree
unfolding leaf_level build checked_root
construct_tree l k d n =
    if (k == 0) && ltb 1 l
    then none
    else checked_root d n (build d k (record { level = leaf_level l; depth = 1; total = l }))
