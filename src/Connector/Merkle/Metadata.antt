-- ===== src/Connector/Merkle/Metadata.antt =====
-- The tree that a download builds from the numbers that an upload stores.
use ipfs_reliability.Prelude.{ℕ, zero, suc, ◌≡◌, ◌<◌, refl, ◌∙◌, ap, arith, some, length}
use ipfs_reliability.Connector.Getter.{Shell}
use ipfs_reliability.Connector.Tree.{
  Tree, Trees, node, no_trees, tree_then, count, tree_size, leaf_nodes, construct_tree,
}
use ipfs_reliability.Connector.Tree.Shape.{All, Balanced, construct_tree_right}
use ipfs_reliability.Connector.Merkle.{Read, MerkleNode, get_merkle_tree}
use ipfs_reliability.Connector.Merkle.Reads.{
  height, height_in, arity, cids_from, IsStored, get_merkle_tree_right,
}

All-height :
    (k d : ℕ) (ts : Trees)
    → ((t : Tree) → Balanced k (suc d) t → height t ≡ d)
    → 0 < count ts
    → All (Balanced k (suc d)) ts
    → height_in ts ≡ suc d
unfolding height count
All-height k d no_trees each there all = absurd (omega arith)
All-height k d (tree_then t no_trees) each there all = omega (arith, each t all.0)
All-height k d (tree_then t (tree_then t' ts)) each there all =
    let rest = All-height k d (tree_then t' ts) each (omega arith) all.1 in
    omega (arith, each t all.0)

pub Balanced-height : (k d : ℕ) (t : Tree) → Balanced k (suc d) t → height t ≡ d
unfolding height
Balanced-height k zero (node no_trees) h = refl
Balanced-height k zero (node (tree_then t ts)) h = elim h [ ]
Balanced-height k (suc d) (node ts) h = All-height k d ts (λ t b. Balanced-height k d t b) h.0 h.2

pub length-cids_from : (cid_of : ℕ → ℕ) (i n : ℕ) → length (cids_from cid_of i n) ≡ n
length-cids_from cid_of i zero = refl
length-cids_from cid_of i (suc n) = ap suc (length-cids_from cid_of (suc i) n)

-- When a file has a tree as ConstructTree makes it with at most k children at a node, k positive and
-- reached by some node, and the network has all its links: GetMerkleTree returns this tree, and
-- ConstructTree makes the same tree again from the numbers that an upload stores: the leaves of the
-- tree, its largest number of children, its largest depth and the number of its nodes.
pub metadata_rebuilds :
    (shell : Shell) (cid_of : ℕ → ℕ) (l k d n fuel : ℕ) (t : Tree)
    → construct_tree l k d n ≡ some t
    → 0 < k
    → arity t ≡ k
    → IsStored shell cid_of 0 t
    → d < fuel
    → (r : Read) × (found : MerkleNode) × (get_merkle_tree shell fuel (cid_of 0)
        ≡ some (r, some found))
      × (found.tree ≡ t)
      × (construct_tree (leaf_nodes found.tree) r.max_children found.max_depth (length r.cids)
          ≡ some t)
metadata_rebuilds shell cid_of l k zero n fuel t e pos full stored low =
    let (shape, _, _) = construct_tree_right l k zero n t e pos in elim shape [ ]
metadata_rebuilds shell cid_of l k (suc d) n fuel t e pos full stored low =
    let (shape, leaves, nodes) = construct_tree_right l k (suc d) n t e pos in
    let high = Balanced-height k d t shape in
    let cids = length-cids_from cid_of 0 (tree_size t) ∙ nodes in
    (
      record { max_children = arity t; cids = cids_from cid_of 0 (tree_size t) },
      record { tree = t; max_depth = suc (height t) },
      get_merkle_tree_right shell cid_of t fuel stored (omega arith),
      refl,
      rw (leaves, full, high, cids) e,
    )
