-- ===== src/Connector/Tree/Parity/Ends.antt =====
-- CreateParityTree beside ConstructTree, both of ipfs-connector/treenode.go.
use ipfs_reliability.Prelude.{
  ℕ, zero, suc, ◌≡◌, ◌≤◌, ◌<◌, refl, sym, subst, arith, some, inl, inr, true, false, Bool-cases,
  ltb, ◌==◌, ◌&&◌,
}
use ipfs_reliability.Connector.Tree.{
  Tree, count, parents, Built, build, construct_tree, checked_root, only_tree,
}
use ipfs_reliability.Connector.Tree.Shape.{leaves, leaf_level-count}
use ipfs_reliability.Connector.Tree.Ends.{build-ends, build-more, next_level, the_tree}
use ipfs_reliability.Connector.Tree.Parity.{build_levels, create_parity_tree, group_nodes-eq-group}

-- Round by round, the two loops make the same levels.
build_levels-build :
    (rounds k : ℕ) (b : Built)
    → count (build rounds (suc k) b).level ≤ 1
    → build_levels (suc rounds) (suc k) b.level ≡ some (build rounds (suc k) b).level
unfolding build_levels build parents
build_levels-build zero k b few =
    let stop : ltb 1 (count b.level) ≡ false = ground arith in rw (stop) refl
build_levels-build (suc rounds) k b few = elim (Bool-cases (ltb 1 (count b.level))) [
  | inr stop ↦ rw (stop) refl
  | inl go ↦
      let several : 1 < count b.level = ground arith in
      let up = build-more rounds (suc k) b several in
      let less = subst (λ (x : Built). count x.level ≤ 1) up few in
      let groups = group_nodes-eq-group (count b.level) k b.level (omega arith) in
      let later = build_levels-build rounds k (next_level (suc k) b) less in rw (go, groups) later
]

create_parity_tree-build :
    (fuel l k : ℕ) (end : Built) (t : Tree)
    → build fuel (suc k) (leaves l) ≡ end
    → count end.level ≡ 1
    → only_tree end.level ≡ some t
    → create_parity_tree (suc fuel) l (suc k) ≡ some t
unfolding create_parity_tree
create_parity_tree-build fuel l k end t ends one only =
    let few : count (build fuel (suc k) (leaves l)).level ≤ 1 =
      subst (λ (x : Built). count x.level ≤ 1) (sym ends) (omega arith) in
    rw (build_levels-build fuel k (leaves l) few, ends, only, create_parity_tree) refl

create_parity_tree-after :
    (r l k : ℕ) (end : Built) (t : Tree)
    → ((rounds : ℕ) → r ≤ rounds → build rounds (suc k) (leaves l) ≡ end)
    → count end.level ≡ 1
    → only_tree end.level ≡ some t
    → (fuel : ℕ) → r < fuel
    → create_parity_tree fuel l (suc k) ≡ some t
create_parity_tree-after r l k end t same one only zero le = absurd (omega arith)
create_parity_tree-after r l k end t same one only (suc fuel) le =
    create_parity_tree-build fuel l k end t (same fuel (omega arith)) one only

-- For one or more leaves and at least two children at a node, CreateParityTree ends, and the tree it
-- makes is the one ConstructTree makes of the same number of leaves with the right depth and number of
-- nodes; more rounds change nothing.
pub create_parity_tree-eq-construct_tree :
    (l k : ℕ)
    → 0 < l
    → 1 < k
    → (r : ℕ) × (n : ℕ) × (t : Tree) × (construct_tree l k (suc r) n ≡ some t)
      × ((fuel : ℕ) → r < fuel → create_parity_tree fuel l k ≡ some t)
unfolding construct_tree checked_root
create_parity_tree-eq-construct_tree l zero a b = absurd (omega arith)
create_parity_tree-eq-construct_tree l (suc zero) a b = absurd (omega arith)
create_parity_tree-eq-construct_tree l (suc (suc k)) a b =
    let size = leaf_level-count l in
    let (r, end, one, deep, same) = build-ends l k (leaves l) (omega arith) (omega arith) in
    let (t, only) = the_tree end.level one in
    let stop : ((suc (suc k) == 0) && ltb 1 l) ≡ false = ground arith in
    let depth_right : (end.depth == suc r) ≡ true = ground arith in
    let total_right : (end.total == end.total) ≡ true = ground arith in
    let returns : construct_tree l (suc (suc k)) (suc r) end.total ≡ some t =
      rw (stop, same (suc r) (omega arith), only, depth_right, total_right) refl in
    (r, end.total, t, returns, create_parity_tree-after r l (suc k) end t same one only)
