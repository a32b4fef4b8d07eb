-- ===== src/Connector/Tree/Swap/Maps.antt =====
-- The maps of nodes and of parents that ConstructTree returns.
use ipfs_reliability.Prelude.{
  ℕ, suc, ◌+◌, ◌≡◌, ◌≤◌, ◌<◌, refl, arith, subst, List, [], ◌∷◌, ◌++◌, some, length,
  get_elem?-of_lt, put,
}
use ipfs_reliability.Connector.Getter.{EmptyTreeNode}
use ipfs_reliability.Connector.Tree.{Tree, Trees, node, no_trees, tree_then, tree_size, trees_size}
use ipfs_reliability.Connector.Tree.Swap.{
  child_indexes, number, numbers, from, inner_before, swap_unflattened_tree, lattice_indexes,
  put_children, map_nodes, tree_maps,
}
use ipfs_reliability.Connector.Tree.Swap.Distinct.{Fits, from-Fits, unflattened-Permutes}
use ipfs_reliability.Connector.Tree.Swap.Numbers.{length-number, all_inner}

abbrev AllBelow : ℕ → List ℕ → Type 0
AllBelow n [] = Unit {0}
AllBelow n (x ∷ xs) = (x < n) × AllBelow n xs

-- The indexes of the nodes and of their children are below n.
abbrev AllIn : ℕ → List EmptyTreeNode → Type 0
AllIn n [] = Unit {0}
AllIn n (x ∷ xs) = (x.pre_order_idx < n) × AllBelow n x.children × AllIn n xs

AllIn-append : (n : ℕ) (xs ys : List EmptyTreeNode) → AllIn n xs → AllIn n ys → AllIn n (xs ++ ys)
AllIn-append n [] ys h k = k
AllIn-append n (x ∷ xs) ys h k = (h.0, h.1, AllIn-append n xs ys h.2 k)

tree_size-positive : (t : Tree) → 0 < tree_size t
unfolding tree_size
tree_size-positive (node ts) = omega arith

child_indexes-AllBelow :
    (n i : ℕ) (ts : Trees) → i + trees_size ts ≤ n → AllBelow n (child_indexes i ts)
unfolding child_indexes trees_size
child_indexes-AllBelow n i no_trees h = tt
child_indexes-AllBelow n i (tree_then t ts) h =
    let some_node = tree_size-positive t in
    (omega arith, child_indexes-AllBelow n (i + tree_size t) ts (omega arith))

mutual
  unfolding number tree_size

  number-AllIn : (n i : ℕ) (t : Tree) → i + tree_size t ≤ n → AllIn n (number i t)
  number-AllIn n i (node ts) h = (
    omega arith,
    child_indexes-AllBelow n (suc i) ts (omega arith),
    numbers-AllIn n (suc i) ts (omega arith),
  )

  numbers-AllIn : (n i : ℕ) (ts : Trees) → i + trees_size ts ≤ n → AllIn n (numbers i ts)
  numbers-AllIn n i no_trees h = tt
  numbers-AllIn n i (tree_then t ts) h =
      AllIn-append n (number i t) (numbers (i + tree_size t) ts) (number-AllIn n i t (omega arith))
        (numbers-AllIn n (i + tree_size t) ts (omega arith))

put_children-returns :
    (n parent : ℕ) (lattice cs : List ℕ) (child_parent : List (ℕ × ℕ))
    → length lattice ≡ n
    → AllBelow n cs
    → (out : List (ℕ × ℕ)) × (put_children lattice parent cs child_parent ≡ some out)
unfolding put_children
put_children-returns n parent lattice [] child_parent size below = (child_parent, refl)
put_children-returns n parent lattice (c ∷ cs) child_parent size below =
    let (index, at) = get_elem?-of_lt lattice c (omega (arith, below.0)) in
    let (out, e) =
      put_children-returns n parent lattice cs (put index parent child_parent) size below.1 in
    (out, rw (at) e)

map_nodes-returns :
    (n : ℕ) (lattice : List ℕ) (nodes : List EmptyTreeNode) (child_parent index_map : List (ℕ × ℕ))
    → length lattice ≡ n
    → AllIn n nodes
    → (out : List (ℕ × ℕ) × List (ℕ × ℕ)) × (map_nodes lattice nodes child_parent index_map
        ≡ some out)
unfolding map_nodes
map_nodes-returns n lattice [] child_parent index_map size inside =
    ((child_parent, index_map), refl)
map_nodes-returns n lattice (x ∷ xs) child_parent index_map size inside =
    let (index, at) = get_elem?-of_lt lattice x.pre_order_idx (omega (arith, inside.0)) in
    let (child_parent', e) =
      put_children-returns n index lattice x.children child_parent size inside.1 in
    let (out, e') =
      map_nodes-returns n lattice xs child_parent' (put index x.pre_order_idx index_map) size
        inside.2 in
    (out, rw (at, e) e')

lattice_order :
    (s p : ℕ) (t : Tree)
    → 0 < s
    → (lattice : List ℕ) × (lattice_indexes s p t ≡ some lattice) × Fits (tree_size t) lattice
unfolding lattice_indexes
lattice_order s p t step =
    let nodes = number 0 t in
    let start = from-Fits (length nodes) in
    let (order, e, fits, _) =
      unflattened-Permutes nodes s p (inner_before t) (from 0 (length nodes)) step (all_inner t).0
        start start in
    subst
      (λ (m : ℕ).
        (lattice : List ℕ) × (swap_unflattened_tree nodes s p (inner_before t) (from 0 m)
          ≡ some lattice)
        × Fits m lattice)
      (length-number 0 t) (order, e, fits)

-- For every tree, p and positive s the maps of ConstructTree are made without a panic.
pub tree_maps-returns :
    (s p : ℕ) (t : Tree)
    → 0 < s
    → (maps : List (ℕ × ℕ) × List (ℕ × ℕ)) × (tree_maps s p t ≡ some maps)
unfolding tree_maps
tree_maps-returns s p t step =
    let (lattice, e, fits) = lattice_order s p t step in
    let (root, at) = get_elem?-of_lt lattice 0 (omega (arith, fits.size, tree_size-positive t)) in
    let (maps, e') =
      map_nodes-returns (tree_size t) lattice (number 0 t) (put root root []) [] fits.size
        (number-AllIn (tree_size t) 0 t (omega arith)) in
    (maps, rw (e, at) e')
