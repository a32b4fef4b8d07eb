-- ===== src/Connector/Getter/Truth.antt =====
-- What it means that a tree of nodes is that of a file, and that what is known of its nodes is true.
use ipfs_reliability.Prelude.{
  ℕ, ◌≡◌, ◌≢◌, ◌<◌, ◌⊎◌, refl, ◌∙◌, arith, true, false, List, [], ◌∷◌, Option, none, some,
}
use ipfs_reliability.Prelude.{
  length, get_elem?, set, get_elem?-set, length-set, get_elem?-of_lt, lookup, if◌then◌else◌,
}
use ipfs_reliability.Connector.Getter.{EmptyTreeNode, TreeCell, IpfsGetter, elem, populate}

-- The links are the true CIDs of the children, in their order.
abbrev pub AreLinks : (ℕ → ℕ) → List ℕ → List ℕ → Type 0
AreLinks true_cid [] [] = Unit {0}
AreLinks true_cid [] (c ∷ cs) = ⊥
AreLinks true_cid (l ∷ ls) [] = ⊥
AreLinks true_cid (l ∷ ls) (c ∷ cs) = (l ≡ true_cid c) × AreLinks true_cid ls cs

-- The CID and the data of a node, if it is there.
abbrev pub cid_at : List TreeCell → ℕ → ℕ
cid_at cells p = elim (get_elem? cells p) [ none ↦ 0 | some cell ↦ cell.cid ]

abbrev pub data_at : List TreeCell → ℕ → Option (List ℕ)
data_at cells p = elim (get_elem? cells p) [ none ↦ none | some cell ↦ cell.data_of ]

-- A tree that is that of the file: each index but that of the root has a parent of lower rank, the
-- links that the shell returns for a node are the CIDs of its children, and no CID is empty.
pub record IsTreeOf (true_cid rank : ℕ → ℕ) (root : ℕ) (g : IpfsGetter) : Type 0 where
  pub mapped : (i ptr : ℕ) → lookup i g.node_map ≡ some ptr → ptr < length g.nodes
  pub below :
      (p c : ℕ) (node : EmptyTreeNode)
      → get_elem? g.nodes p ≡ some node
      → elem c node.children ≡ true
      → c < length g.nodes
  pub links :
      (p : ℕ) (ls : List ℕ) (node : EmptyTreeNode)
      → g.shell.object_get (true_cid p) ≡ some ls
      → get_elem? g.nodes p ≡ some node
      → AreLinks true_cid ls node.children
  pub not_empty : (p : ℕ) → true_cid p ≢ 0
  pub parents :
      (i ptr : ℕ)
      → lookup i g.node_map ≡ some ptr
      → (ptr ≡ root)
        ⊎ ((j : ℕ) × (q : ℕ) × (node : EmptyTreeNode) × (lookup i g.parent_map ≡ some j)
            × (lookup j g.node_map ≡ some q)
            × (get_elem? g.nodes q ≡ some node)
            × (elem ptr node.children ≡ true)
            × (rank j < rank i))

-- What is known of the nodes is true, the CID of the root is known, and those of the children of a
-- node that has data.
pub record IsTrue (true_cid : ℕ → ℕ) (root : ℕ) (g : IpfsGetter) (cells : List TreeCell)
    : Type 0 where
  pub size : length cells ≡ length g.nodes
  pub cids : (p : ℕ) → (cid_at cells p ≡ 0) ⊎ (cid_at cells p ≡ true_cid p)
  pub bytes :
      (p : ℕ) (d : List ℕ) → data_at cells p ≡ some d → g.shell.block_get (true_cid p) ≡ some d
  pub linked :
      (p c : ℕ) (d : List ℕ) (node : EmptyTreeNode)
      → data_at cells p ≡ some d
      → get_elem? g.nodes p ≡ some node
      → elem c node.children ≡ true
      → cid_at cells c ≢ 0
  pub root_known : cid_at cells root ≢ 0

pub populate-links :
    (true_cid : ℕ → ℕ) (ls children : List ℕ) (cells : List TreeCell)
    → AreLinks true_cid ls children
    → ((c : ℕ) → elem c children ≡ true → c < length cells)
    → (cells' : List TreeCell) × (populate ls children cells ≡ some cells')
      × (length cells' ≡ length cells)
      × ((p : ℕ) → data_at cells' p ≡ data_at cells p)
      × ((p : ℕ) → cid_at cells' p ≡ (if elem p children then true_cid p else cid_at cells p))
unfolding populate elem
populate-links true_cid [] [] cells h below = (cells, refl, refl, λ p. refl, λ p. refl)
populate-links true_cid [] (c ∷ cs) cells h below = elim h [ ]
populate-links true_cid (l ∷ ls) [] cells h below = elim h [ ]
populate-links true_cid (l ∷ ls) (c ∷ cs) cells h below =
    let (cell, at_c) = get_elem?-of_lt cells c (below c (ground arith)) in
    let after = set cells c (record cell { cid = l }) in
    let size = length-set cells c (record cell { cid = l }) in
    let (cells', e, size', d, k) =
      populate-links true_cid ls cs after h.1
        (λ x m. omega (arith, size, below x (ground arith))) in
    (
      cells',
      rw (at_c) e,
      omega (arith, size, size'),
      λ p. d p ∙ ground (arith, get_elem?-set cells c p (record cell { cid = l }) cell at_c),
      λ p. k p ∙ ground (arith, h.0, get_elem?-set cells c p (record cell { cid = l }) cell at_c),
    )

-- The shell has each block of the file, and no index is filtered.
pub record Serves (true_cid : ℕ → ℕ) (g : IpfsGetter) : Type 0 where
  pub objects :
      (p : ℕ) → p < length g.nodes → (ls : List ℕ) × (g.shell.object_get (true_cid p) ≡ some ls)
  pub blocks :
      (p : ℕ) → p < length g.nodes → (d : List ℕ) × (g.shell.block_get (true_cid p) ≡ some d)
  pub unfiltered : (i : ℕ) → elem i g.data_filter ≡ false
