-- ===== src/Connector/Tree/Shape.antt =====
-- The tree that ConstructTree makes: its leaves, its nodes, and that all leaves are at one depth.
use ipfs_reliability.Prelude.{
  ℕ, zero, suc, ◌+◌, ◌-◌, ◌*◌, ◌≡◌, ◌≤◌, ◌<◌, refl, ◌∙◌, sym, ap, subst, arith, Option, none, some,
  min, inl, inr, false, Bool-cases, ltb, ◌==◌, if◌then◌else◌, ◌>>=◌, not, ◌||◌, ◌&&◌,
}
use ipfs_reliability.Connector.Tree.{
  Tree, Trees, node, no_trees, tree_then, count, leaf_level, first_trees, rest_trees, group,
  parents, tree_size, trees_size, leaf_nodes, trees_leaf_nodes, Built, build, only_tree,
  checked_root, construct_tree,
}

abbrev pub All : (Tree → Type 0) → Trees → Type 0
All P no_trees = Unit {0}
All P (tree_then t ts) = P t × All P ts

-- All leaves are at depth d, the root being at depth 1, and each other node has 1 to k children.
abbrev pub Balanced : ℕ → ℕ → Tree → Type 0
Balanced k zero t = ⊥
Balanced k (suc zero) (node no_trees) = Unit {0}
Balanced k (suc zero) (node (tree_then t ts)) = ⊥
Balanced k (suc (suc d)) (node ts) = (0 < count ts) × (count ts ≤ k) × All (Balanced k (suc d)) ts

All-first_trees : (P : Tree → Type 0) (n : ℕ) (ts : Trees) → All P ts → All P (first_trees n ts)
unfolding first_trees
All-first_trees P zero ts h = tt
All-first_trees P (suc n) no_trees h = tt
All-first_trees P (suc n) (tree_then t ts) h = (h.0, All-first_trees P n ts h.1)

All-rest_trees : (P : Tree → Type 0) (n : ℕ) (ts : Trees) → All P ts → All P (rest_trees n ts)
unfolding rest_trees
All-rest_trees P zero ts h = h
All-rest_trees P (suc n) no_trees h = tt
All-rest_trees P (suc n) (tree_then t ts) h = All-rest_trees P n ts h.1

count-first_trees : (n : ℕ) (ts : Trees) → count (first_trees n ts) ≡ min n (count ts)
unfolding first_trees count
count-first_trees zero ts = omega arith
count-first_trees (suc n) no_trees = omega arith
count-first_trees (suc n) (tree_then t ts) = omega (arith, count-first_trees n ts)

pub count-rest_trees : (n : ℕ) (ts : Trees) → count (rest_trees n ts) ≡ count ts - n
unfolding rest_trees count
count-rest_trees zero ts = omega arith
count-rest_trees (suc n) no_trees = omega arith
count-rest_trees (suc n) (tree_then t ts) = omega (arith, count-rest_trees n ts)

trees_size-split :
    (n : ℕ) (ts : Trees)
    → trees_size (first_trees n ts) + trees_size (rest_trees n ts) ≡ trees_size ts
unfolding first_trees rest_trees trees_size
trees_size-split zero ts = omega arith
trees_size-split (suc n) no_trees = omega arith
trees_size-split (suc n) (tree_then t ts) = omega (arith, trees_size-split n ts)

trees_leaf_nodes-split :
    (n : ℕ) (ts : Trees)
    → trees_leaf_nodes (first_trees n ts) + trees_leaf_nodes (rest_trees n ts) ≡ trees_leaf_nodes ts
unfolding first_trees rest_trees trees_leaf_nodes
trees_leaf_nodes-split zero ts = omega arith
trees_leaf_nodes-split (suc n) no_trees = omega arith
trees_leaf_nodes-split (suc n) (tree_then t ts) = omega (arith, trees_leaf_nodes-split n ts)

-- The parents of a level of balanced trees are balanced.
group-Balanced :
    (n k d : ℕ) (ts : Trees)
    → All (Balanced (suc k) (suc d)) ts
    → All (Balanced (suc k) (suc (suc d))) (group n (suc k) ts)
unfolding group count
group-Balanced zero k d ts h = tt
group-Balanced (suc n) k d no_trees h = tt
group-Balanced (suc n) k d (tree_then t ts) h =
    let size = count-first_trees (suc k) (tree_then t ts) in
    (
      (
        omega arith,
        omega arith,
        All-first_trees (Balanced (suc k) (suc d)) (suc k) (tree_then t ts) h,
      ),
      group-Balanced n k d (rest_trees (suc k) (tree_then t ts))
          (All-rest_trees (Balanced (suc k) (suc d)) (suc k) (tree_then t ts) h),
    )

group-trees_leaf_nodes :
    (n k : ℕ) (ts : Trees)
    → count ts ≤ n
    → trees_leaf_nodes (group n (suc k) ts) ≡ trees_leaf_nodes ts
unfolding group trees_leaf_nodes count rest_trees first_trees
group-trees_leaf_nodes zero k no_trees h = refl
group-trees_leaf_nodes zero k (tree_then t ts) h = absurd (omega arith)
group-trees_leaf_nodes (suc n) k no_trees h = refl
group-trees_leaf_nodes (suc n) k (tree_then t ts) h =
    let rest =
      group-trees_leaf_nodes n k (rest_trees k ts) (omega (arith, count-rest_trees k ts)) in
    omega (arith, trees_leaf_nodes-split k ts)

group-trees_size :
    (n k : ℕ) (ts : Trees)
    → count ts ≤ n
    → trees_size (group n (suc k) ts) ≡ trees_size ts + count (group n (suc k) ts)
unfolding group trees_size count rest_trees first_trees
group-trees_size zero k no_trees h = refl
group-trees_size zero k (tree_then t ts) h = absurd (omega arith)
group-trees_size (suc n) k no_trees h = refl
group-trees_size (suc n) k (tree_then t ts) h =
    let rest = group-trees_size n k (rest_trees k ts) (omega (arith, count-rest_trees k ts)) in
    omega (arith, trees_size-split k ts)

-- With K at least 2 a level has about half as many parents, or fewer.
pub group-count :
    (n k : ℕ) (ts : Trees) → count ts ≤ n → 2 * count (group n (suc (suc k)) ts) ≤ count ts + 1
unfolding group count rest_trees
group-count zero k no_trees h = omega arith
group-count zero k (tree_then t ts) h = absurd (omega arith)
group-count (suc n) k no_trees h = omega arith
group-count (suc n) k (tree_then t ts) h =
    let size = count-rest_trees (suc k) ts in
    let rest = group-count n k (rest_trees (suc k) ts) (omega arith) in omega arith

module _ (k l : ℕ) where
  -- A level that the loop makes over l leaves.
  record IsOver (level : Trees) (depth total : ℕ) : Type 0 where
    deep : 0 < depth
    balanced : All (Balanced (suc k) depth) level
    over : trees_leaf_nodes level ≡ l
    size : trees_size level ≡ total

  parents-IsOver :
      (level : Trees) (depth total : ℕ)
      → IsOver level depth total
      → IsOver (parents (suc k) level) (suc depth) (total + count (parents (suc k) level))
  unfolding parents
  parents-IsOver level zero total h = absurd (omega (arith, h.deep))
  parents-IsOver level (suc d) total h = record {
    deep = omega arith;
    balanced = group-Balanced (count level) k d level h.balanced;
    over = group-trees_leaf_nodes (count level) k level (omega arith) ∙ h.over;
    size = omega (arith, group-trees_size (count level) k level (omega arith), h.size);
  }

  build-IsOver :
      (rounds : ℕ) (b : Built)
      → IsOver b.level b.depth b.total
      → IsOver
          (build rounds (suc k) b).level
          (build rounds (suc k) b).depth
          (build rounds (suc k) b).total
  unfolding build
  build-IsOver zero b h = h
  build-IsOver (suc rounds) b h =
      let up : Built = record {
        level = parents (suc k) b.level;
        depth = suc b.depth;
        total = b.total + count (parents (suc k) b.level);
      } in
      let more = build-IsOver rounds up (parents-IsOver b.level b.depth b.total h) in
      elim (Bool-cases (ltb 1 (count b.level))) [
        | inl several ↦ rw (several) more
        | inr done ↦ rw (done) h
      ]

leaf_level-All : (k l : ℕ) → All (Balanced k 1) (leaf_level l)
unfolding leaf_level
leaf_level-All k zero = tt
leaf_level-All k (suc l) = (tt, leaf_level-All k l)

leaf_level-leaf_nodes : (l : ℕ) → trees_leaf_nodes (leaf_level l) ≡ l
unfolding leaf_level trees_leaf_nodes
leaf_level-leaf_nodes zero = refl
leaf_level-leaf_nodes (suc l) = omega (arith, leaf_level-leaf_nodes l)

leaf_level-size : (l : ℕ) → trees_size (leaf_level l) ≡ l
unfolding leaf_level trees_size
leaf_level-size zero = refl
leaf_level-size (suc l) = omega (arith, leaf_level-size l)

pub leaf_level-count : (l : ℕ) → count (leaf_level l) ≡ l
unfolding leaf_level count
leaf_level-count zero = refl
leaf_level-count (suc l) = ap suc (leaf_level-count l)

abbrev pub leaves : ℕ → Built
leaves l = record { level = leaf_level l; depth = 1; total = l }

leaves-IsOver : (k l : ℕ) → IsOver k l (leaf_level l) 1 l
leaves-IsOver k l = record {
  deep = omega arith;
  balanced = leaf_level-All (suc k) l;
  over = leaf_level-leaf_nodes l;
  size = leaf_level-size l;
}

abbrev checks : ℕ → ℕ → Built → Tree → Option Tree
checks d n b root = if not (b.depth == d) || not (b.total == n) then none else some root

checks-passed :
    (d n depth total : ℕ) (t t' : Tree)
    → (if not (depth == d) || not (total == n) then none else some t') ≡ some t
    → (depth ≡ d) × (total ≡ n) × (t' ≡ t)
checks-passed d n depth total t t' e = ground arith

-- A tree that passes the checks.
root-right :
    (k l d n : ℕ) (b : Built) (level : Trees) (t : Tree)
    → b.level ≡ level
    → IsOver k l level b.depth b.total
    → checked_root d n b ≡ some t
    → Balanced (suc k) d t × (leaf_nodes t ≡ l) × (tree_size t ≡ n)
unfolding checked_root only_tree trees_leaf_nodes trees_size
root-right k l d n b no_trees t at h e =
    absurd (let e' = subst (λ (ts : Trees). (only_tree ts >>= checks d n b) ≡ some t) at e in cc)
root-right k l d n b (tree_then t' (tree_then t'' ts)) t at h e =
    absurd (let e' = subst (λ (ts : Trees). (only_tree ts >>= checks d n b) ≡ some t) at e in cc)
root-right k l d n b (tree_then t' no_trees) t at h e =
    let e' : checks d n b t' ≡ some t =
      subst (λ (ts : Trees). (only_tree ts >>= checks d n b) ≡ some t) at e in
    let (deep, all, same) = checks-passed d n b.depth b.total t t' e' in
    (
      subst (λ (x : Tree). Balanced (suc k) d x) same
          (subst (λ (x : ℕ). Balanced (suc k) x t') deep h.balanced.0),
      ap leaf_nodes (sym same) ∙ omega (arith, h.over),
      ap tree_size (sym same) ∙ omega (arith, h.size, all),
    )

-- What ConstructTree returns has the number of leaves and of nodes that it was asked for, all leaves
-- at the depth that it was asked for, and from 1 to K children at each other node.
pub construct_tree_right :
    (l k d n : ℕ) (t : Tree)
    → construct_tree l k d n ≡ some t
    → 0 < k
    → Balanced k d t × (leaf_nodes t ≡ l) × (tree_size t ≡ n)
unfolding construct_tree
construct_tree_right l zero d n t e pos = absurd (omega arith)
construct_tree_right l (suc k) d n t e pos =
    let b = build d (suc k) (leaves l) in
    let no_stop : ((suc k == 0) && ltb 1 l) ≡ false = ground arith in
    let e' : checked_root d n b ≡ some t = ground (arith, no_stop) in
    root-right k l d n b b.level t refl (build-IsOver k l d (leaves l) (leaves-IsOver k l)) e'
