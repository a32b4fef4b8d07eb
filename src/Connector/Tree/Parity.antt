-- ===== src/Connector/Tree/Parity.antt =====
-- CreateParityTree of ipfs-connector/treenode.go: the shape of the tree of the file of a
-- strand. The fields Index and Parent of the nodes and the map of leaves are left out.
pub mod Ends
use ipfs_reliability.Prelude.{
  ℕ, zero, suc, ◌+◌, ◌≡◌, ◌≤◌, refl, ◌∙◌, ap, arith, Bool, true, false, Option, none, some, inl,
  inr, Bool-cases, ltb, ◌==◌, ◌||◌, if◌then◌else◌,
}
use ipfs_reliability.Connector.Tree.{
  Tree, Trees, node, no_trees, tree_then, leaf_level, count, first_trees, rest_trees, group,
  only_tree,
}
use ipfs_reliability.Connector.Tree.Shape.{count-rest_trees}

unfoldable pub push_tree : Trees → Tree → Trees
push_tree no_trees t = tree_then t no_trees
push_tree (tree_then t' ts) t = tree_then t' (push_tree ts t)

unfoldable pub no_more : Trees → Bool
no_more no_trees = true
no_more (tree_then t ts) = false

-- The loop over currentLevel, with tempNodes: a parent is made when there are K nodes, and at the last
-- node.
unfoldable pub group_nodes : ℕ → Trees → Trees → Trees
unfolding push_tree no_more count
group_nodes k temp_nodes no_trees = no_trees
group_nodes k temp_nodes (tree_then t ts) =
    let temp = push_tree temp_nodes t in
    let closed = group_nodes k no_trees ts in
    let rest = group_nodes k temp ts in
    if (count temp == k) || no_more ts then tree_then (node temp) closed else rest

-- The levels, for as many rounds as there is fuel; `none` is a loop that is not at its end.
unfoldable pub build_levels : ℕ → ℕ → Trees → Option Trees
unfolding group_nodes count
build_levels zero k level = none
build_levels (suc n) k level =
    let more = build_levels n k (group_nodes k no_trees level) in
    if ltb 1 (count level) then more else some level

unfoldable pub create_parity_tree : ℕ → ℕ → ℕ → Option Tree
unfolding build_levels leaf_level only_tree
create_parity_tree fuel l k = elim (build_levels fuel k (leaf_level l)) [
  | none ↦ none
  | some level ↦ only_tree level
]

append_trees : Trees → Trees → Trees
append_trees no_trees us = us
append_trees (tree_then t ts) us = tree_then t (append_trees ts us)

count-push_tree : (ts : Trees) (t : Tree) → count (push_tree ts t) ≡ suc (count ts)
unfolding push_tree count
count-push_tree no_trees t = refl
count-push_tree (tree_then t' ts) t = ap suc (count-push_tree ts t)

append_trees-push_tree :
    (ts us : Trees) (t : Tree) → append_trees (push_tree ts t) us ≡ append_trees ts (tree_then t us)
unfolding push_tree append_trees
append_trees-push_tree no_trees us t = refl
append_trees-push_tree (tree_then t' ts) us t = ap (tree_then t') (append_trees-push_tree ts us t)

first_trees-none : (n : ℕ) → first_trees n no_trees ≡ no_trees
unfolding first_trees
first_trees-none zero = refl
first_trees-none (suc n) = refl

rest_trees-none : (n : ℕ) → rest_trees n no_trees ≡ no_trees
unfolding rest_trees
rest_trees-none zero = refl
rest_trees-none (suc n) = refl

append_trees-none :
    (ts : Trees) (t : Tree) → append_trees ts (tree_then t no_trees) ≡ push_tree ts t
unfolding push_tree append_trees
append_trees-none no_trees t = refl
append_trees-none (tree_then t' ts) t = ap (tree_then t') (append_trees-none ts t)

group_none : (k : ℕ) → group_nodes k no_trees no_trees ≡ no_trees
unfolding group_nodes
group_none k = refl

-- The first nodes of a level go into tempNodes until it has k of them, or the level ends.
group_nodes-first :
    (k m : ℕ) (temp ts : Trees) (t : Tree)
    → count temp + suc m ≡ k
    → group_nodes k temp (tree_then t ts)
      ≡ tree_then
          (node (append_trees temp (tree_then t (first_trees m ts))))
          (group_nodes k no_trees (rest_trees m ts))
unfolding group_nodes no_more first_trees rest_trees
group_nodes-first k m temp no_trees t low = elim (Bool-cases (count (push_tree temp t) == k)) [
  | inl full ↦ rw (full, first_trees-none m, rest_trees-none m, append_trees-none temp t) refl
  | inr part ↦ rw (part, first_trees-none m, rest_trees-none m, append_trees-none temp t) refl
]
group_nodes-first k zero temp (tree_then t' ts) t low =
    let full : (count (push_tree temp t) == k) ≡ true = ground (arith, count-push_tree temp t) in
    rw (full, append_trees-none temp t) refl
group_nodes-first k (suc m) temp (tree_then t' ts) t low =
    let part : (count (push_tree temp t) == k) ≡ false = ground (arith, count-push_tree temp t) in
    let more =
      group_nodes-first k m (push_tree temp t) ts t' (omega (arith, count-push_tree temp t)) in
    let moved = append_trees-push_tree temp (tree_then t' (first_trees m ts)) t in
    rw (part) (more ∙ rw (moved) refl)

-- The groups of CreateParityTree are those of ConstructTree.
pub group_nodes-eq-group :
    (n k : ℕ) (ts : Trees) → count ts ≤ n → group_nodes (suc k) no_trees ts ≡ group n (suc k) ts
unfolding group first_trees rest_trees count append_trees
group_nodes-eq-group zero k no_trees h = group_none (suc k)
group_nodes-eq-group zero k (tree_then t ts) h = absurd (omega arith)
group_nodes-eq-group (suc n) k no_trees h = group_none (suc k)
group_nodes-eq-group (suc n) k (tree_then t ts) h =
    let later = group_nodes-eq-group n k (rest_trees k ts) (omega (arith, count-rest_trees k ts)) in
    group_nodes-first (suc k) k no_trees ts t (omega arith)
    ∙ ap (tree_then (node (tree_then t (first_trees k ts)))) later
