-- ===== src/Client/Metadata/Leaves.antt =====
-- The number of leaves that an upload counts in the array of GetFlattenedTree.
use ipfs_reliability.Prelude.{
  ℕ, zero, suc, ◌+◌, ◌≡◌, ◌<◌, refl, sym, ap, ◌∙◌, arith, Bool, List, [], ◌∷◌, ◌++◌, some, ◌==◌,
  ltb, if◌then◌else◌, get_elem?, length, length-append, append_assoc, Bool-cases, inl, inr,
}
use ipfs_reliability.Connector.Getter.{EmptyTreeNode}
use ipfs_reliability.Connector.Tree.{
  Tree, Trees, node, no_trees, tree_then, tree_size, leaf_nodes, trees_leaf_nodes,
}
use ipfs_reliability.Connector.Tree.Swap.{number, numbers, child_indexes, is_leaf, from}
use ipfs_reliability.Connector.Tree.Swap.Distinct.{occurrences, Fits, Permutes, from-Fits}
use ipfs_reliability.Connector.Tree.Swap.Numbers.{get_elem?-middle, length-number}
use ipfs_reliability.Client.Metadata.{is_leaf_at, count_leaves}

-- The sum of g v over all v below n.
abbrev sum_below : ℕ → (ℕ → ℕ) → ℕ
sum_below zero g = 0
sum_below (suc n) g = g n + sum_below n g

sum_below-congr : (n : ℕ) (g h : ℕ → ℕ) → ((v : ℕ) → g v ≡ h v) → sum_below n g ≡ sum_below n h
sum_below-congr zero g h same = refl
sum_below-congr (suc n) g h same = omega (arith, same n, sum_below-congr n g h same)

-- What the occurrences of v in a list count for.
abbrev weight : (ℕ → Bool) → List ℕ → ℕ → ℕ
weight f xs v = if f v then occurrences v xs else 0

sum_below-zero : (n : ℕ) (f : ℕ → Bool) → sum_below n (weight f []) ≡ 0
sum_below-zero zero f = refl
sum_below-zero (suc n) f = ground (arith, sum_below-zero n f)

sum_below-cons :
    (n x : ℕ) (f : ℕ → Bool) (xs : List ℕ)
    → sum_below n (weight f (x ∷ xs))
      ≡ (if ltb x n then (if f x then 1 else 0) else 0) + sum_below n (weight f xs)
sum_below-cons zero x f xs = ground arith
sum_below-cons (suc n) x f xs =
    let below = sum_below-cons n x f xs in
    elim (Bool-cases (x == n)) [
      | inl here ↦ let same : f x ≡ f n = ap f (ground arith) in ground arith
      | inr apart ↦ ground arith
    ]

abbrev count_if : (ℕ → Bool) → List ℕ → ℕ
count_if f [] = 0
count_if f (x ∷ xs) = (if f x then 1 else 0) + count_if f xs

count_if-sum :
    (n : ℕ) (f : ℕ → Bool) (xs : List ℕ)
    → ((i x : ℕ) → get_elem? xs i ≡ some x → x < n)
    → count_if f xs ≡ sum_below n (weight f xs)
count_if-sum n f [] below = sym (sum_below-zero n f)
count_if-sum n f (x ∷ xs) below =
    let later = count_if-sum n f xs (λ i y e. below (suc i) y e) in
    let inside = below 0 x refl in ground (arith, sum_below-cons n x f xs)

-- A list of numbers below n at other places has as many that pass a test.
count_if-Permutes :
    (n : ℕ) (f : ℕ → Bool) (xs ys : List ℕ)
    → Fits n xs
    → Fits n ys
    → Permutes xs ys
    → count_if f ys ≡ count_if f xs
count_if-Permutes n f xs ys fits fits' same =
    count_if-sum n f ys fits'.below
    ∙ sum_below-congr n (weight f ys) (weight f xs)
        (λ v. ap (λ (m : ℕ). if f v then m else 0) (same v))
    ∙ sym (count_if-sum n f xs fits.below)

count_leaves-eq-count_if :
    (nodes : List EmptyTreeNode) (xs : List ℕ)
    → count_leaves nodes xs ≡ count_if (is_leaf_at nodes) xs
unfolding count_leaves
count_leaves-eq-count_if nodes [] = refl
count_leaves-eq-count_if nodes (x ∷ xs) = omega (arith, count_leaves-eq-count_if nodes xs)

abbrev leaves_of : List EmptyTreeNode → ℕ
leaves_of [] = 0
leaves_of (n ∷ ns) = (if is_leaf n then 1 else 0) + leaves_of ns

leaves_of-append : (xs ys : List EmptyTreeNode) → leaves_of (xs ++ ys) ≡ leaves_of xs + leaves_of ys
leaves_of-append [] ys = omega arith
leaves_of-append (x ∷ xs) ys = omega (arith, leaves_of-append xs ys)

mutual
  unfolding number leaf_nodes child_indexes is_leaf

  leaves_of-number : (i : ℕ) (t : Tree) → leaves_of (number i t) ≡ leaf_nodes t
  leaves_of-number i (node no_trees) = refl
  leaves_of-number i (node (tree_then t ts)) =
      let below = leaves_of-numbers (suc i) (tree_then t ts) in ground arith

  leaves_of-numbers : (i : ℕ) (ts : Trees) → leaves_of (numbers i ts) ≡ trees_leaf_nodes ts
  leaves_of-numbers i no_trees = refl
  leaves_of-numbers i (tree_then t ts) =
      leaves_of-append (number i t) (numbers (i + tree_size t) ts)
      ∙ omega (arith, leaves_of-number i t, leaves_of-numbers (i + tree_size t) ts)

is_leaf_at-middle :
    (before ns : List EmptyTreeNode) (n : EmptyTreeNode)
    → is_leaf_at (before ++ n ∷ ns) (length before) ≡ is_leaf n
unfolding is_leaf_at
is_leaf_at-middle before ns n = rw (get_elem?-middle before ns n, is_leaf_at) refl

count_leaves-congr :
    {nodes nodes' : List EmptyTreeNode} {i j : ℕ} (k : ℕ)
    → nodes ≡ nodes'
    → i ≡ j
    → count_leaves nodes (from i k) ≡ count_leaves nodes' (from j k)
count_leaves-congr k e f = cc

count_leaves-from :
    (before ns : List EmptyTreeNode)
    → count_leaves (before ++ ns) (from (length before) (length ns)) ≡ leaves_of ns
unfolding count_leaves from
count_leaves-from before [] = refl
count_leaves-from before (n ∷ ns) =
    let here = is_leaf_at-middle before ns n in
    let longer = length-append before (n ∷ []) in
    let later = count_leaves-from (before ++ n ∷ []) ns in
    let moved =
      count_leaves-congr {i = suc (length before)} {j = length (before ++ n ∷ [])} (length ns)
        (sym (append_assoc before (n ∷ []) ns)) (omega (arith, longer)) in
    rw (here, moved ∙ later) refl

-- Counted in an array that has each node of a tree once, the leaves are those of the tree.
pub count_leaves-number :
    (t : Tree) (order : List ℕ)
    → Fits (tree_size t) order
    → Permutes (from 0 (tree_size t)) order
    → count_leaves (number 0 t) order ≡ leaf_nodes t
count_leaves-number t order fits same =
    let n = tree_size t in
    let nodes = number 0 t in
    let start = count_leaves-from [] nodes in
    let all : count_leaves nodes (from 0 (length nodes)) ≡ leaves_of nodes = start in
    count_leaves-eq-count_if nodes order
    ∙ count_if-Permutes n (is_leaf_at nodes) (from 0 n) order (from-Fits n) fits same
    ∙ sym (count_leaves-eq-count_if nodes (from 0 n))
    ∙ ap (λ (m : ℕ). count_leaves nodes (from 0 m)) (sym (length-number 0 t))
    ∙ all
    ∙ leaves_of-number 0 t
