-- ===== src/Connector/Tree/Tests.antt =====
-- Trees of a few leaves, and a tree whose lattice indexes differ between upload and download.
use ipfs_reliability.Prelude.{ℕ, suc, ◌≡◌, ◌<◌, refl, arith, true, List, [], ◌∷◌, some}
use ipfs_reliability.Connector.Tree.{
  Tree, node, no_trees, tree_then, leaf, construct_tree, tree_size, leaf_nodes,
}
use ipfs_reliability.Connector.Tree.Parity.{create_parity_tree}
use ipfs_reliability.Connector.Tree.Parity.Ends.{create_parity_tree-eq-construct_tree}
use ipfs_reliability.Connector.Tree.Shape.{Balanced, construct_tree_right}
use ipfs_reliability.Connector.Tree.Swap.{
  get_flattened_tree, lattice_indexes, internals_after_in, internals_before_in,
}
use ipfs_reliability.Connector.Tree.Swap.Distinct.{occurrences}
use ipfs_reliability.Connector.Tree.Swap.Numbers.{flattened_tree_right}

abbrev pair : Tree
pair = node (tree_then leaf (tree_then leaf no_trees))

-- Five leaves in groups of two.
abbrev five : Tree
five = node (
    tree_then (node (tree_then pair (tree_then pair no_trees)))
      (tree_then (node (tree_then (node (tree_then leaf no_trees)) no_trees)) no_trees))

five_test : construct_tree 5 2 4 11 ≡ some five
unfolding construct_tree
five_test = refl

parity_test : create_parity_tree 4 5 2 ≡ some five
unfolding create_parity_tree
parity_test = refl

construct_tree_right_example : Balanced 2 4 five × (leaf_nodes five ≡ 5) × (tree_size five ≡ 11)
construct_tree_right_example = construct_tree_right 5 2 4 11 five five_test (omega arith)

create_parity_tree-eq-construct_tree_example :
    (r : ℕ) × (n : ℕ) × (t : Tree) × (construct_tree 5 2 (suc r) n ≡ some t)
    × ((fuel : ℕ) → r < fuel → create_parity_tree fuel 5 2 ≡ some t)
create_parity_tree-eq-construct_tree_example =
    create_parity_tree-eq-construct_tree 5 2 (omega arith) (omega arith)

-- A root with four children of two leaves each.
abbrev four_pairs : Tree
four_pairs = node (tree_then pair (tree_then pair (tree_then pair (tree_then pair no_trees))))

flattened_tree_right_example :
    (order : List ℕ) × (get_flattened_tree 1 1 true four_pairs ≡ some order)
    × (lattice : List ℕ) × (lattice_indexes 1 1 four_pairs ≡ some lattice)
    × ((v : ℕ) → v < tree_size four_pairs → (occurrences v order ≡ 1) × (occurrences v lattice ≡ 1))
flattened_tree_right_example = flattened_tree_right 1 1 four_pairs (omega arith)

-- The upload puts node 9 at place 2 of the lattice, the download takes it for place 6.
flattened_test :
    get_flattened_tree 1 1 true four_pairs
    ≡ some (5 ∷ 1 ∷ 9 ∷ 2 ∷ 4 ∷ 0 ∷ 3 ∷ 7 ∷ 8 ∷ 6 ∷ 10 ∷ 11 ∷ 12 ∷ [])
unfolding get_flattened_tree internals_after_in tree_size
flattened_test = refl

lattice_test :
    lattice_indexes 1 1 four_pairs
    ≡ some (5 ∷ 1 ∷ 9 ∷ 2 ∷ 4 ∷ 0 ∷ 3 ∷ 7 ∷ 8 ∷ 6 ∷ 10 ∷ 11 ∷ 12 ∷ [])
unfolding lattice_indexes internals_before_in tree_size
lattice_test = refl
