-- ===== src/Connector/Tree/Swap/Numbers.antt =====
-- The pre-order numbering of a tree, and that the swaps of any tree are permutations.
use ipfs_reliability.Prelude.{
  ℕ, suc, ◌+◌, ◌≡◌, ◌<◌, refl, ◌∙◌, sym, ap, subst, arith, true, List, [], ◌∷◌, ◌++◌, some, length,
  get_elem?, length-append, append_assoc, append_nil, lt-length_of_get_elem?,
}
use ipfs_reliability.Connector.Getter.{EmptyTreeNode}
use ipfs_reliability.Connector.Tree.{Tree, Trees, node, no_trees, tree_then, tree_size, trees_size}
use ipfs_reliability.Connector.Tree.Swap.{
  child_indexes, number, numbers, internals_before, internals_before_in, internals_after,
  internals_after_in, inner_before, inner_after, from, last_child, swap_flattened_tree,
  swap_unflattened_tree, get_flattened_tree, lattice_indexes,
}
use ipfs_reliability.Connector.Tree.Swap.Distinct.{
  occurrences, IsInner, AllInner, Fits, Permutes, from-Fits, returned-Permutes, swaps_right,
}

abbrev numbered : ℕ → Trees → EmptyTreeNode
numbered i ts = record { children = child_indexes (suc i) ts; pre_order_idx = i; lattice_idx = i }

mutual
  unfolding number tree_size

  pub length-number : (i : ℕ) (t : Tree) → length (number i t) ≡ tree_size t
  length-number i (node ts) = omega (arith, length-numbers (suc i) ts)

  length-numbers : (i : ℕ) (ts : Trees) → length (numbers i ts) ≡ trees_size ts
  length-numbers i no_trees = refl
  length-numbers i (tree_then t ts) =
      length-append (number i t) (numbers (i + tree_size t) ts)
      ∙ omega (arith, length-number i t, length-numbers (i + tree_size t) ts)

pub get_elem?-middle :
    (before after : List EmptyTreeNode) (n : EmptyTreeNode)
    → get_elem? (before ++ n ∷ after) (length before) ≡ some n
get_elem?-middle [] after n = refl
get_elem?-middle (x ∷ xs) after n = get_elem?-middle xs after n

first_child :
    (i : ℕ) (t : Tree) (ts : Trees) → get_elem? (child_indexes i (tree_then t ts)) 0 ≡ some i
unfolding child_indexes
first_child i t ts = refl

final_child :
    (i : ℕ) (t : Tree) (ts : Trees)
    → (high : ℕ) × (last_child (child_indexes i (tree_then t ts)) ≡ some high)
unfolding child_indexes last_child
final_child i t no_trees = (i, refl)
final_child i t (tree_then t' ts) = final_child (i + tree_size t) t' ts

-- An internal node in the list is one with children.
numbered-IsInner :
    (nodes before after : List EmptyTreeNode) (i : ℕ) (t : Tree) (ts : Trees)
    → 0 < i
    → length before ≡ i
    → nodes ≡ before ++ numbered i (tree_then t ts) ∷ after
    → IsInner nodes i
numbered-IsInner nodes before after i t ts pos size e =
    let n = numbered i (tree_then t ts) in
    let at : get_elem? nodes i ≡ some n =
      ap (λ (l : List EmptyTreeNode). get_elem? l i) e
      ∙ ap (get_elem? (before ++ n ∷ after)) (sym size)
      ∙ get_elem?-middle before after n in
    let (high, last) = final_child (suc i) t ts in
    (pos, lt-length_of_get_elem? nodes i n at, n, at, suc i, first_child (suc i) t ts, high, last)

AllInner-append :
    (nodes : List EmptyTreeNode) (xs ys : List ℕ)
    → AllInner nodes xs
    → AllInner nodes ys
    → AllInner nodes (xs ++ ys)
AllInner-append nodes [] ys a b = b
AllInner-append nodes (x ∷ xs) ys a b = (a.0, AllInner-append nodes xs ys a.1 b)

module _ (nodes : List EmptyTreeNode) where
  after_node :
      (before after : List EmptyTreeNode) (n : EmptyTreeNode) (inside : List EmptyTreeNode)
      → nodes ≡ before ++ ((n ∷ inside) ++ after)
      → nodes ≡ (before ++ n ∷ []) ++ (inside ++ after)
  after_node before after n inside e = e ∙ sym (append_assoc before (n ∷ []) (inside ++ after))

  one_more :
      (before : List EmptyTreeNode) (n : EmptyTreeNode) (i : ℕ)
      → length before ≡ i
      → length (before ++ n ∷ []) ≡ suc i
  one_more before n i size = omega (arith, length-append before (n ∷ []))

  at_node :
      (i : ℕ) (ts : Trees) (before after : List EmptyTreeNode)
      → 0 < i
      → length before ≡ i
      → nodes ≡ before ++ (number i (node ts) ++ after)
      → AllInner nodes (internals_before_in (suc i) ts)
        × AllInner nodes (internals_after_in (suc i) ts)
      → AllInner nodes (internals_before i (node ts)) × AllInner nodes (internals_after i (node ts))
  unfolding number internals_before internals_after
  at_node i no_trees before after pos size e h = (tt, tt)
  at_node i (tree_then t ts) before after pos size e h =
      let here =
        numbered-IsInner nodes before (numbers (suc i) (tree_then t ts) ++ after) i t ts pos size
          e in
      (
        (here, h.0),
        AllInner-append nodes (internals_after_in (suc i) (tree_then t ts)) (i ∷ []) h.1 (here, tt),
      )

  mutual
    unfolding number internals_before internals_after tree_size

    inner-tree :
        (i : ℕ) (t : Tree) (before after : List EmptyTreeNode)
        → 0 < i
        → length before ≡ i
        → nodes ≡ before ++ (number i t ++ after)
        → AllInner nodes (internals_before i t) × AllInner nodes (internals_after i t)
    inner-tree i (node ts) before after pos size e = at_node i ts before after pos size e (
        inner-trees (suc i) ts (before ++ numbered i ts ∷ []) after (omega arith)
          (one_more before (numbered i ts) i size)
          (after_node before after (numbered i ts) (numbers (suc i) ts) e))

    inner-trees :
        (i : ℕ) (ts : Trees) (before after : List EmptyTreeNode)
        → 0 < i
        → length before ≡ i
        → nodes ≡ before ++ (numbers i ts ++ after)
        → AllInner nodes (internals_before_in i ts) × AllInner nodes (internals_after_in i ts)
    inner-trees i no_trees before after pos size e = (tt, tt)
    inner-trees i (tree_then t ts) before after pos size e =
        let mine = number i t in
        let rest = numbers (i + tree_size t) ts in
        let e' : nodes ≡ before ++ (mine ++ (rest ++ after)) =
          e ∙ ap (λ (l : List EmptyTreeNode). before ++ l) (append_assoc mine rest after) in
        let here = inner-tree i t before (rest ++ after) pos size e' in
        let there =
          inner-trees (i + tree_size t) ts (before ++ mine) after (omega arith)
            (length-append before mine ∙ omega (arith, length-number i t))
            (e' ∙ sym (append_assoc before mine (rest ++ after))) in
        (
          AllInner-append nodes (internals_before i t) (internals_before_in (i + tree_size t) ts)
              here.0 there.0,
          AllInner-append nodes (internals_after i t) (internals_after_in (i + tree_size t) ts)
              here.1 there.1,
        )

pub all_inner :
    (t : Tree) → AllInner (number 0 t) (inner_before t) × AllInner (number 0 t) (inner_after t)
unfolding number inner_before inner_after
all_inner (node ts) =
    inner-trees (number 0 (node ts)) 1 ts (numbered 0 ts ∷ []) [] (omega arith) refl
      (ap (λ (l : List EmptyTreeNode). numbered 0 ts ∷ l) (sym (append_nil (numbers 1 ts))))

-- For every tree, p and positive s: GetFlattenedTree and the swaps of ConstructTree return. In the array of
-- GetFlattenedTree each node has exactly one place, and with the lattice indexes that ConstructTree
-- gives each index belongs to exactly one node.
pub flattened_tree_right :
    (s p : ℕ) (t : Tree)
    → 0 < s
    → (order : List ℕ) × (get_flattened_tree s p true t ≡ some order)
      × (lattice : List ℕ) × (lattice_indexes s p t ≡ some lattice)
      × ((v : ℕ) → v < tree_size t → (occurrences v order ≡ 1) × (occurrences v lattice ≡ 1))
unfolding get_flattened_tree lattice_indexes
flattened_tree_right s p t step =
    let n = length-number 0 t in
    let inner = all_inner t in
    subst
      (λ (m : ℕ).
        (order : List ℕ) × (swap_flattened_tree (number 0 t) s p (inner_after t) (from 0 m)
          ≡ some order)
        × (lattice : List ℕ) × (swap_unflattened_tree (number 0 t) s p (inner_before t) (from 0 m)
            ≡ some lattice)
        × ((v : ℕ) → v < m → (occurrences v order ≡ 1) × (occurrences v lattice ≡ 1)))
      n (swaps_right (number 0 t) s p (inner_before t) (inner_after t) step inner.0 inner.1)

-- An array that GetFlattenedTree returns has all nodes, each one once.
pub flattened_order :
    (s p : ℕ) (t : Tree) (order : List ℕ)
    → get_flattened_tree s p true t ≡ some order
    → Fits (tree_size t) order × Permutes (from 0 (tree_size t)) order
unfolding get_flattened_tree
flattened_order s p t order e =
    let nodes = number 0 t in
    let size = length-number 0 t in
    subst (λ (m : ℕ). Fits m order × Permutes (from 0 m) order) size
      (returned-Permutes nodes s p (inner_after t) (from 0 (length nodes)) order
        (subst (λ (m : ℕ). swap_flattened_tree nodes s p (inner_after t) (from 0 m) ≡ some order)
          (sym size) e)
        (from-Fits (length nodes)))
