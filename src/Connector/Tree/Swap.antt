-- ===== src/Connector/Tree/Swap.antt =====
-- The indexes of the nodes of a tree, of ipfs-connector/treenode.go: pre-order indexes, and the swaps
-- that move a node away from its children in the lattice. A node is named by its PreOrderIdx, so
-- nodes[i] of swapUnflattenedTree is node i, and the array of GetFlattenedTree is a list of such names.
pub mod Distinct
pub mod Numbers
pub mod Maps
use ipfs_reliability.Prelude.{
  ℕ, zero, suc, ◌+◌, ◌-◌, ◌*◌, Bool, true, false, not, List, [], ◌∷◌, ◌++◌, Option, none, some,
}
use ipfs_reliability.Prelude.{◌>>=◌, ltb, ◌&&◌, if◌then◌else◌, length, get_elem?, set, put}
use ipfs_reliability.Connector.Getter.{EmptyTreeNode}
use ipfs_reliability.Connector.Tree.{Tree, Trees, node, no_trees, tree_then, tree_size, trees_size}

-- The PreOrderIdx of the children, the first of them being i.
unfoldable pub child_indexes : ℕ → Trees → List ℕ
child_indexes i no_trees = []
child_indexes i (tree_then t ts) = i ∷ child_indexes (i + tree_size t) ts

-- The nodes in pre-order, from index i on.
unfoldable mutual
  unfolding child_indexes

  pub number : ℕ → Tree → List EmptyTreeNode
  number i (node ts) =
      record { children = child_indexes (suc i) ts; pre_order_idx = i; lattice_idx = i }
      ∷ numbers (suc i) ts

  pub numbers : ℕ → Trees → List EmptyTreeNode
  numbers i no_trees = []
  numbers i (tree_then t ts) = number i t ++ numbers (i + tree_size t) ts

-- The internal nodes as the walker of swapUnflattenedTree meets them, each one before its children.
unfoldable mutual
  pub internals_before : ℕ → Tree → List ℕ
  internals_before i (node no_trees) = []
  internals_before i (node (tree_then t ts)) =
      i ∷ internals_before (suc i) t ++ internals_before_in (suc i + tree_size t) ts

  pub internals_before_in : ℕ → Trees → List ℕ
  internals_before_in i no_trees = []
  internals_before_in i (tree_then t ts) =
      internals_before i t ++ internals_before_in (i + tree_size t) ts

-- As the walker of GetFlattenedTree meets them, each one after its children.
unfoldable mutual
  pub internals_after : ℕ → Tree → List ℕ
  internals_after i (node no_trees) = []
  internals_after i (node (tree_then t ts)) =
      (internals_after (suc i) t ++ internals_after_in (suc i + tree_size t) ts) ++ i ∷ []

  pub internals_after_in : ℕ → Trees → List ℕ
  internals_after_in i no_trees = []
  internals_after_in i (tree_then t ts) =
      internals_after i t ++ internals_after_in (i + tree_size t) ts

-- The internal nodes without the root.
unfoldable pub inner_before : Tree → List ℕ
inner_before (node ts) = internals_before_in 1 ts

unfoldable pub inner_after : Tree → List ℕ
inner_after (node ts) = internals_after_in 1 ts

-- 0, 1, and so on: each node at its own place.
unfoldable pub from : ℕ → ℕ → List ℕ
from i zero = []
from i (suc n) = i ∷ from (suc i) n

unfoldable pub last_child : List ℕ → Option ℕ
last_child [] = none
last_child (c ∷ []) = some c
last_child (c ∷ c' ∷ cs) = last_child (c' ∷ cs)

-- xs[i], xs[j] = xs[j], xs[i]
unfoldable pub swap_entries : ℕ → ℕ → List ℕ → Option (List ℕ)
swap_entries i j xs = do a ← get_elem? xs i; b ← get_elem? xs j; some (set (set xs i b) j a)

-- PreOrderIdx > low - windowSize && PreOrderIdx < high + windowSize, over integers
unfoldable pub in_window : ℕ → ℕ → ℕ → ℕ → Bool
in_window window low high i = ltb low (i + window) && ltb i (high + window)

unfoldable pub is_leaf : EmptyTreeNode → Bool
is_leaf n = ltb (length n.children) 1

-- The loop over j = windowSize, windowSize + s, ... below `size`: the first place with a leaf that is
-- not in the window. For a positive s the fuel `size` is enough; without fuel the loop goes on, which
-- is `none`, as a panic is.
unfoldable pub search : List EmptyTreeNode → List ℕ → ℕ → ℕ → ℕ → ℕ → ℕ → ℕ → Option (Option ℕ)
unfolding in_window is_leaf
search nodes order window low high s zero j = if ltb j (length order) then none else some none
search nodes order window low high s (suc fuel) j =
    let rest = search nodes order window low high s fuel (j + s) in
    if not (ltb j (length order)) then some none else do
      ptr ← get_elem? order j
      n ← get_elem? nodes ptr
      if not (in_window window low high n.pre_order_idx) && is_leaf n then some (some j) else rest

-- The swap for one internal node: `order` says which node is at a place, and the entries of `xs` at
-- the place that is found and at the one before the internal node are swapped.
unfoldable pub swap_internal : List EmptyTreeNode → ℕ → ℕ → List ℕ → ℕ → List ℕ → Option (List ℕ)
unfolding search swap_entries last_child
swap_internal nodes s p order internal xs = do
  n ← get_elem? nodes internal
  low ← get_elem? n.children 0
  high ← last_child n.children
  found ← search nodes order (s * p) low high s (length order) (s * p)
  elim found [ none ↦ some xs | some j ↦ swap_entries j (internal - 1) xs ]

-- swapFlattenedTree: which node is at which place of the array.
unfoldable pub swap_flattened_tree : List EmptyTreeNode → ℕ → ℕ → List ℕ → List ℕ → Option (List ℕ)
unfolding swap_internal
swap_flattened_tree nodes s p [] order = some order
swap_flattened_tree nodes s p (internal ∷ rest) order = do
  order' ← swap_internal nodes s p order internal order
  swap_flattened_tree nodes s p rest order'

-- swapUnflattenedTree: the LatticeIdx of each node; the array of nodes itself stays.
unfoldable pub swap_unflattened_tree :
    List EmptyTreeNode → ℕ → ℕ → List ℕ → List ℕ → Option (List ℕ)
unfolding swap_internal from
swap_unflattened_tree nodes s p [] lattice = some lattice
swap_unflattened_tree nodes s p (internal ∷ rest) lattice = do
  lattice' ← swap_internal nodes s p (from 0 (length nodes)) internal lattice
  swap_unflattened_tree nodes s p rest lattice'

-- GetFlattenedTree: the nodes, and their places in the array.
unfoldable pub get_flattened_tree : ℕ → ℕ → Bool → Tree → Option (List ℕ)
unfolding number inner_after from swap_flattened_tree
get_flattened_tree s p swap t =
    let order = from 0 (tree_size t) in
    if swap then swap_flattened_tree (number 0 t) s p (inner_after t) order else some order

-- The rest of ConstructTree: the LatticeIdx of each node.
unfoldable pub lattice_indexes : ℕ → ℕ → Tree → Option (List ℕ)
unfolding number inner_before from swap_unflattened_tree
lattice_indexes s p t =
    swap_unflattened_tree (number 0 t) s p (inner_before t) (from 0 (tree_size t))

-- The parts of map_nodes that write child_parent, for one node and for the nodes in pre-order.
unfoldable pub put_children : List ℕ → ℕ → List ℕ → List (ℕ × ℕ) → Option (List (ℕ × ℕ))
put_children lattice parent [] child_parent = some child_parent
put_children lattice parent (c ∷ cs) child_parent = do
  index ← get_elem? lattice c
  put_children lattice parent cs (put index parent child_parent)

unfoldable pub map_nodes :
    List ℕ → List EmptyTreeNode → List (ℕ × ℕ) → List (ℕ × ℕ) → Option (List (ℕ × ℕ) × List (ℕ × ℕ))
unfolding put_children
map_nodes lattice [] child_parent index_map = some (child_parent, index_map)
map_nodes lattice (n ∷ ns) child_parent index_map = do
  index ← get_elem? lattice n.pre_order_idx
  child_parent' ← put_children lattice index n.children child_parent
  map_nodes lattice ns child_parent' (put index n.pre_order_idx index_map)

-- child_parent and index_map of ConstructTree.
unfoldable pub tree_maps : ℕ → ℕ → Tree → Option (List (ℕ × ℕ) × List (ℕ × ℕ))
unfolding lattice_indexes map_nodes number
tree_maps s p t = do
  lattice ← lattice_indexes s p t
  root ← get_elem? lattice 0
  map_nodes lattice (number 0 t) (put root root []) []
