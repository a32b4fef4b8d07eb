-- ===== src/Connector/Tree/Ends.antt =====
-- ConstructTree finds a tree for each number of leaves.
use ipfs_reliability.Prelude.{
  ℕ, zero, suc, ◌+◌, ◌≡◌, ◌≤◌, ◌<◌, refl, ◌∙◌, arith, some, inl, inr, true, false, Bool-cases, ltb,
  ◌==◌, ◌&&◌,
}
use ipfs_reliability.Connector.Tree.{
  Tree, Trees, no_trees, tree_then, count, group, parents, tree_size, leaf_nodes, Built, build,
  only_tree, checked_root, construct_tree,
}
use ipfs_reliability.Connector.Tree.Shape.{
  Balanced, group-count, leaves, leaf_level-count, construct_tree_right,
}

group-positive : (n k : ℕ) (ts : Trees) → 0 < n → 0 < count ts → 0 < count (group n k ts)
unfolding group count
group-positive zero k ts a b = absurd (omega arith)
group-positive (suc n) k no_trees a b = absurd (omega arith)
group-positive (suc n) k (tree_then t ts) a b = omega arith

build-one : (rounds k : ℕ) (b : Built) → count b.level ≤ 1 → build rounds k b ≡ b
unfolding build
build-one zero k b few = refl
build-one (suc rounds) k b few =
    let stop : ltb 1 (count b.level) ≡ false = ground arith in rw (stop) refl

abbrev pub next_level : ℕ → Built → Built
next_level k b = record {
  level = parents k b.level;
  depth = suc b.depth;
  total = b.total + count (parents k b.level);
}

pub build-more :
    (rounds k : ℕ) (b : Built)
    → 1 < count b.level
    → build (suc rounds) k b ≡ build rounds k (next_level k b)
unfolding build
build-more rounds k b several = let go : ltb 1 (count b.level) ≡ true = ground arith in rw (go) refl

build-step :
    (r k : ℕ) (b end : Built)
    → 1 < count b.level
    → ((rounds : ℕ) → r ≤ rounds → build rounds (suc (suc k)) (next_level (suc (suc k)) b) ≡ end)
    → (rounds : ℕ) → suc r ≤ rounds
    → build rounds (suc (suc k)) b ≡ end
build-step r k b end go same zero le = absurd (omega arith)
build-step r k b end go same (suc rounds) le =
    build-more rounds (suc (suc k)) b go ∙ same rounds (omega arith)

-- The loop with enough rounds ends with one node, and more rounds change nothing.
pub build-ends :
    (fuel k : ℕ) (b : Built)
    → count b.level ≤ suc fuel
    → 0 < count b.level
    → (r : ℕ) × (end : Built) × (count end.level ≡ 1)
      × (end.depth ≡ b.depth + r)
      × ((rounds : ℕ) → r ≤ rounds → build rounds (suc (suc k)) b ≡ end)
unfolding parents
build-ends zero k b few there =
    (0, b, omega arith, omega arith, λ rounds le. build-one rounds (suc (suc k)) b (omega arith))
build-ends (suc fuel) k b few there = elim (Bool-cases (ltb 1 (count b.level))) [
  | inr done ↦
      let one : count b.level ≡ 1 = ground arith in
      (0, b, one, omega arith, λ rounds le. build-one rounds (suc (suc k)) b (omega arith))
  | inl several ↦
      let half = group-count (count b.level) k b.level (omega arith) in
      let go : 1 < count b.level = ground arith in
      let (r, end, one, deep, same) =
        build-ends fuel k (next_level (suc (suc k)) b) (omega arith)
          (group-positive (count b.level) (suc (suc k)) b.level there there) in
      let again : (rounds : ℕ) → suc r ≤ rounds → build rounds (suc (suc k)) b ≡ end =
        build-step r k b end go same in
      (suc r, end, one, omega arith, again)
]

pub the_tree : (ts : Trees) → count ts ≡ 1 → (t : Tree) × (only_tree ts ≡ some t)
unfolding count only_tree
the_tree no_trees e = absurd (omega arith)
the_tree (tree_then t no_trees) e = (t, refl)
the_tree (tree_then t (tree_then t' ts)) e = absurd (omega arith)

-- For one or more leaves and at least two children at a node there are a depth and a number of
-- nodes that ConstructTree accepts, and with them it returns a tree with these leaves, all of them at
-- that depth.
pub construct_tree_ends :
    (l k : ℕ)
    → 0 < l
    → 1 < k
    → (d : ℕ) × (n : ℕ) × (t : Tree) × (construct_tree l k d n ≡ some t)
      × Balanced k d t
      × (leaf_nodes t ≡ l)
      × (tree_size t ≡ n)
unfolding construct_tree checked_root
construct_tree_ends l zero a b = absurd (omega arith)
construct_tree_ends l (suc zero) a b = absurd (omega arith)
construct_tree_ends l (suc (suc k)) a b =
    let size = leaf_level-count l in
    let (r, end, one, deep, same) = build-ends l k (leaves l) (omega arith) (omega arith) in
    let (t, only) = the_tree end.level one in
    let stop : ((suc (suc k) == 0) && ltb 1 l) ≡ false = ground arith in
    let depth_right : (end.depth == suc r) ≡ true = ground arith in
    let total_right : (end.total == end.total) ≡ true = ground arith in
    let returns : construct_tree l (suc (suc k)) (suc r) end.total ≡ some t =
      rw (stop, same (suc r) (omega arith), only, depth_right, total_right) refl in
    let (balanced, leaves', nodes) =
      construct_tree_right l (suc (suc k)) (suc r) end.total t returns (omega arith) in
    (suc r, end.total, t, returns, balanced, leaves', nodes)
