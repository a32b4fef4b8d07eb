-- ===== src/Connector/Merkle/Reads.antt =====
-- GetMerkleTree reads back the tree that the network stores.
use ipfs_reliability.Prelude.{
  ℕ, zero, suc, ◌+◌, ◌≡◌, ◌<◌, ◌≤◌, refl, ◌∙◌, sym, ap, arith, List, [], ◌∷◌, ◌++◌, Option, some,
  length, max, append_assoc, append_nil,
}
use ipfs_reliability.Connector.Getter.{Shell}
use ipfs_reliability.Connector.Tree.{
  Tree, Trees, node, no_trees, tree_then, count, tree_size, trees_size,
}
use ipfs_reliability.Connector.Merkle.{
  Read, MerkleNode, NodeAnswer, larger, note_node, add_child, next_child, get_children, make_node,
  get_merkle_node, get_merkle_tree,
}

-- The number of levels below the root.
unfoldable mutual
  pub height : Tree → ℕ
  height (node ts) = height_in ts

  pub height_in : Trees → ℕ
  height_in no_trees = 0
  height_in (tree_then t ts) = max (suc (height t)) (height_in ts)

-- The largest number of children of a node.
unfoldable mutual
  unfolding count

  pub arity : Tree → ℕ
  arity (node ts) = max (count ts) (arity_in ts)

  pub arity_in : Trees → ℕ
  arity_in no_trees = 0
  arity_in (tree_then t ts) = max (arity t) (arity_in ts)

-- The CIDs of n nodes from index i on.
abbrev pub cids_from : (ℕ → ℕ) → ℕ → ℕ → List ℕ
cids_from cid_of i zero = []
cids_from cid_of i (suc n) = cid_of i ∷ cids_from cid_of (suc i) n

cids_congr :
    (cid_of : ℕ → ℕ) {i j n m : ℕ} → i ≡ j → n ≡ m → cids_from cid_of i n ≡ cids_from cid_of j m
cids_congr cid_of a b = cc

cids_from-add :
    (cid_of : ℕ → ℕ) (i n m : ℕ)
    → cids_from cid_of i n ++ cids_from cid_of (i + n) m ≡ cids_from cid_of i (n + m)
cids_from-add cid_of i zero m =
    cids_congr cid_of {i = i + 0} {j = i} {n = m} {m = 0 + m} (omega arith) (omega arith)
cids_from-add cid_of i (suc n) m =
    ap (λ (l : List ℕ). cid_of i ∷ (cids_from cid_of (suc i) n ++ l))
      (cids_congr cid_of {i = i + suc n} {j = suc i + n} {n = m} {m = m} (omega arith) refl)
    ∙ ap (λ (l : List ℕ). cid_of i ∷ l) (cids_from-add cid_of (suc i) n m)
    ∙ cids_congr cid_of {i = i} {j = i} {n = suc (n + m)} {m = suc n + m} refl (omega arith)

-- The CIDs of the children, the first of them being node i.
unfoldable pub child_cids : (ℕ → ℕ) → ℕ → Trees → List ℕ
child_cids cid_of i no_trees = []
child_cids cid_of i (tree_then t ts) = cid_of i ∷ child_cids cid_of (i + tree_size t) ts

-- The network has the links of all nodes of the tree, node i of it under cid_of i.
unfoldable mutual
  unfolding child_cids tree_size

  pub IsStored : Shell → (ℕ → ℕ) → ℕ → Tree → Type 0
  IsStored shell cid_of i (node ts) =
      (shell.object_get (cid_of i) ≡ some (child_cids cid_of (suc i) ts))
      × AreStored shell cid_of (suc i) ts

  pub AreStored : Shell → (ℕ → ℕ) → ℕ → Trees → Type 0
  AreStored shell cid_of i no_trees = Unit {0}
  AreStored shell cid_of i (tree_then t ts) =
      IsStored shell cid_of i t × AreStored shell cid_of (i + tree_size t) ts

abbrev read : ℕ → List ℕ → Read
read most cids = record { max_children = most; cids = cids }

abbrev found : Tree → ℕ → MerkleNode
found t depth = record { tree = t; max_depth = depth }

larger-max : (a b : ℕ) → larger a b ≡ max b a
unfolding larger
larger-max a b = ground arith

child_cids-length :
    (cid_of : ℕ → ℕ) (i : ℕ) (ts : Trees) → length (child_cids cid_of i ts) ≡ count ts
unfolding child_cids count
child_cids-length cid_of i no_trees = refl
child_cids-length cid_of i (tree_then t ts) = ap suc (child_cids-length cid_of (i + tree_size t) ts)

-- The answers of the loop and of a node.
abbrev level : ℕ → List ℕ → Trees → ℕ → Option (Read × Option (Trees × ℕ))
level most cids ts depth = some (read most cids, some (ts, depth))

abbrev answer : ℕ → List ℕ → Tree → ℕ → NodeAnswer
answer most cids t depth = some (read most cids, some (found t depth))

level_congr :
    {a a' : ℕ} {b b' : List ℕ} {m m' : ℕ} (ts : Trees)
    → a ≡ a'
    → b ≡ b'
    → m ≡ m'
    → level a b ts m ≡ level a' b' ts m'
level_congr ts x y z = cc

answer_congr :
    {a a' : ℕ} {b b' : List ℕ} {m m' : ℕ} (t : Tree)
    → a ≡ a'
    → b ≡ b'
    → m ≡ m'
    → answer a b t m ≡ answer a' b' t m'
answer_congr t x y z = cc

node-step :
    (shell : Shell) (n d cid : ℕ) (links : List ℕ) (r : Read) (x : Read × Option (Trees × ℕ))
    → shell.object_get cid ≡ some links
    → get_children (get_merkle_node shell n (suc d)) links d (note_node cid (length links) r)
      ≡ some x
    → get_merkle_node shell (suc n) d cid r ≡ some (make_node x)
unfolding get_merkle_node
node-step shell n d cid links r x stored e = rw (get_merkle_node, stored, e) refl

child-step :
    (recur : ℕ → Read → NodeAnswer) (link : ℕ) (links : List ℕ) (m : ℕ) (r r' : Read)
    (child : MerkleNode) (x : Read × Option (Trees × ℕ))
    → recur link r ≡ some (r', some child)
    → get_children recur links (larger child.max_depth m) r' ≡ some x
    → get_children recur (link ∷ links) m r ≡ some (add_child child.tree x)
unfolding get_children next_child
child-step recur link links m r r' child x first rest = rw (get_children, first, rest) refl

module _ (shell : Shell) (cid_of : ℕ → ℕ) where
  mutual
    unfolding height arity tree_size IsStored child_cids get_merkle_node get_children note_node
        make_node add_child

    node-Reads :
        (n d i : ℕ) (t : Tree) (most : ℕ) (cids : List ℕ)
        → IsStored shell cid_of i t
        → height t < n
        → get_merkle_node shell n d (cid_of i) (read most cids)
          ≡ answer (max most (arity t)) (cids ++ cids_from cid_of i (tree_size t)) t (d + height t)
    node-Reads zero d i t most cids h low = absurd (omega arith)
    node-Reads (suc n) d i (node ts) most cids h low =
        let links = child_cids cid_of (suc i) ts in
        let size = child_cids-length cid_of (suc i) ts in
        let below =
          children-Reads n d (suc i) ts d (larger (length links) most) (cids ++ cid_of i ∷ []) h.1
            (omega arith) (omega arith) in
        let wide = larger-max (length links) most in
        let all : (cids ++ cid_of i ∷ []) ++ cids_from cid_of (suc i) (trees_size ts)
            ≡ cids ++ cids_from cid_of i (suc (trees_size ts)) =
          append_assoc cids (cid_of i ∷ []) (cids_from cid_of (suc i) (trees_size ts)) in
        node-step shell n d (cid_of i) links (read most cids)
          (
            read (max (larger (length links) most) (arity_in ts))
                ((cids ++ cid_of i ∷ []) ++ cids_from cid_of (suc i) (trees_size ts)),
            some (ts, max d (d + height_in ts)),
          )
          h.0 below
        ∙ (answer_congr (node ts) (omega (arith, wide, size)) all (omega arith))

    children-Reads :
        (n d i : ℕ) (ts : Trees) (m most : ℕ) (cids : List ℕ)
        → AreStored shell cid_of i ts
        → height_in ts ≤ n
        → d ≤ m
        → get_children (get_merkle_node shell n (suc d)) (child_cids cid_of i ts) m (read most cids)
          ≡ level
              (max most (arity_in ts))
              (cids ++ cids_from cid_of i (trees_size ts))
              ts
              (max m (d + height_in ts))
    children-Reads n d i no_trees m most cids h low deep =
        level_congr no_trees (omega arith) (sym (append_nil cids)) (omega arith)
    children-Reads n d i (tree_then t ts) m most cids h low deep =
        let first = node-Reads n (suc d) i t most cids h.0 (omega arith) in
        let deeper = larger-max (suc d + height t) m in
        let rest =
          children-Reads n d (i + tree_size t) ts (larger (suc d + height t) m) (max most (arity t))
            (cids ++ cids_from cid_of i (tree_size t)) h.1 (omega arith) (omega (arith, deeper)) in
        let all : (cids ++ cids_from cid_of i (tree_size t))
              ++ cids_from cid_of (i + tree_size t) (trees_size ts)
            ≡ cids ++ cids_from cid_of i (tree_size t + trees_size ts) =
          append_assoc cids (cids_from cid_of i (tree_size t))
            (cids_from cid_of (i + tree_size t) (trees_size ts))
          ∙ ap (λ (l : List ℕ). cids ++ l) (cids_from-add cid_of i (tree_size t) (trees_size ts)) in
        child-step (get_merkle_node shell n (suc d)) (cid_of i)
          (child_cids cid_of (i + tree_size t) ts) m (read most cids)
          (read (max most (arity t)) (cids ++ cids_from cid_of i (tree_size t)))
          (found t (suc d + height t))
          (
            read (max (max most (arity t)) (arity_in ts)) (
                (cids ++ cids_from cid_of i (tree_size t))
                ++ cids_from cid_of (i + tree_size t) (trees_size ts)),
            some (ts, max (larger (suc d + height t) m) (d + height_in ts)),
          )
          first rest
        ∙ (level_congr (tree_then t ts) (omega arith) all (omega (arith, deeper)))

-- When the network has the links of all nodes of a tree, and the fuel exceeds its height:
-- GetMerkleTree returns that tree with its number of levels and its largest number of children, and
-- gives the node with PreOrderIdx i the CID of that node.
pub get_merkle_tree_right :
    (shell : Shell) (cid_of : ℕ → ℕ) (t : Tree) (fuel : ℕ)
    → IsStored shell cid_of 0 t
    → height t < fuel
    → get_merkle_tree shell fuel (cid_of 0)
      ≡ some (
        record { max_children = arity t; cids = cids_from cid_of 0 (tree_size t) },
        some (record { tree = t; max_depth = suc (height t) }),
      )
unfolding get_merkle_tree
get_merkle_tree_right shell cid_of t fuel h low =
    node-Reads shell cid_of fuel 1 0 t 0 [] h low ∙ answer_congr t (omega arith) refl (omega arith)
