-- ===== src/Client/Repair.antt =====
-- client/repair.go: RetrieveFailedLeaves walks the tree, repairs its internal nodes and lists the
-- leaves that are not there; RepairFailedLeaves repairs listed leaves, at a community node.
use ipfs_reliability.Prelude.{
  ℕ, suc, ◌+◌, Bool, true, false, List, [], ◌∷◌, ◌++◌, Option, none, some, ◌>>=◌, ◌==◌,
  if◌then◌else◌, put,
}
use ipfs_reliability.Lattice.Request.{Answer}
use ipfs_reliability.Connector.Tree.{Tree, Trees, node, no_trees, tree_then, count, tree_size}
use ipfs_reliability.Client.{
  DagNode, Network, trim, data_reupload_no_check, upload_repaired, open_chunk,
}

-- result[index] = false for all indexes
unfoldable pub no_results : List ℕ → List (ℕ × Bool) → List (ℕ × Bool)
no_results [] result = result
no_results (index ∷ rest) result = no_results rest (put index false result)

-- The walk of RetrieveFailedLeaves: the state, and leafIndices.
pub record Walked (L : Type 0) : Type 0 where
  pub blocks : L
  pub leaf_indices : List ℕ

module _ {L : Type 0} (net : Network L) where
  -- The result for one leaf once GetChunk has answered.
  unfoldable pub report_leaf :
      ℕ → Answer → Option (List ℕ) → L → List (ℕ × Bool) → L × List (ℕ × Bool)
  unfolding data_reupload_no_check
  report_leaf index answer none l result =
      if answer.repaired
      then (let (l', _) = data_reupload_no_check net [] true l in
          (l', put index false (put index false result)))
      else (l, put index false result)
  report_leaf index answer (some chunk) l result =
      if answer.repaired
      then (let (l', sent) = data_reupload_no_check net (trim chunk) true l in
          (l', put index sent (put index true result)))
      else (l, put index true result)

  -- The loop of RepairFailedLeaves.
  unfoldable pub repair_leaves : List ℕ → L → List (ℕ × Bool) → Option (L × List (ℕ × Bool))
  unfolding report_leaf
  repair_leaves [] l result = some (l, result)
  repair_leaves (index ∷ rest) l result = do
    (l', answer) ← net.get_chunk (index + 1) l
    let (l'', result') = report_leaf index answer answer.data_of l' result
    repair_leaves rest l'' result'

  -- RepairFailedLeaves; `prepared` is none after an error of PrepareRepair.
  unfoldable pub repair_failed_leaves :
      Option L → List ℕ → Option (Option L × List (ℕ × Bool) × Bool)
  unfolding no_results repair_leaves
  repair_failed_leaves none leaf_indices = some (none, no_results leaf_indices [], false)
  repair_failed_leaves (some l) leaf_indices = do
    (l', result) ← repair_leaves leaf_indices l (no_results leaf_indices [])
    some (some l', result, true)

  -- An internal node of the walk: its chunk is repaired, sent back and unmarshalled.
  unfoldable pub repair_node : ℕ → ℕ → Answer → Option (List ℕ) → L → L × Option DagNode
  unfolding upload_repaired open_chunk
  repair_node i children answer none l = (l, none)
  repair_node i children answer (some chunk) l =
      let (l', chunk', ok) = upload_repaired net i true answer chunk l in
      if ok then (l', open_chunk net chunk' children) else (l', none)

  unfoldable pub check_leaf : ℕ → Option (List ℕ) → Walked L → Walked L
  check_leaf index none w = record w { leaf_indices = w.leaf_indices ++ index ∷ [] }
  check_leaf index (some chunk) w = w

  unfoldable pub after_repair :
      List ℕ
      → (Walked L → List ℕ → Option (Walked L × Bool))
      → L × Option DagNode
      → Option (Walked L × Bool)
  after_repair failed loop (l, none) = some (record { blocks = l; leaf_indices = failed }, false)
  after_repair failed loop (l, some dag) =
      loop (record { blocks = l; leaf_indices = failed }) dag.links

  -- The walker at a leaf.
  unfoldable pub walk_leaf : ℕ → Walked L → Option (Walked L × Bool)
  unfolding check_leaf
  walk_leaf index w = do
    (l, answer) ← net.get_chunk_depth (index + 1) 1 w.blocks
    some (check_leaf index answer.data_of (record w { blocks = l }), true)

  -- The walker at an internal node; `loop` goes over its children.
  unfoldable pub walk_internal :
      ℕ
      → ℕ
      → ℕ
      → (Walked L → List ℕ → Option (Walked L × Bool))
      → Walked L
      → Option (Walked L × Bool)
  unfolding repair_node after_repair
  walk_internal i index children loop w = do
    (l, answer) ← net.get_chunk (index + 1) w.blocks
    after_repair w.leaf_indices loop (repair_node i children answer answer.data_of l)

  -- The walker of RetrieveFailedLeaves; the Boolean is false for an error.
  unfoldable mutual
    unfolding walk_leaf walk_internal

    pub walk : (ℕ → ℕ) → ℕ → Tree → Walked L → Option (Walked L × Bool)
    walk lattice i (node ts) w =
        if count ts == 0
        then walk_leaf (lattice i) w
        else walk_internal i (lattice i) (count ts) (walk_children lattice (suc i) ts) w

    pub walk_children : (ℕ → ℕ) → ℕ → Trees → Walked L → List ℕ → Option (Walked L × Bool)
    walk_children lattice i no_trees w links = some (w, true)
    walk_children lattice i (tree_then t ts) w [] = some (w, true)
    walk_children lattice i (tree_then t ts) w (link ∷ links) = do
      (w', ok) ← walk lattice i t (record w { blocks = net.set_cid i link w.blocks })
      if ok then walk_children lattice (i + tree_size t) ts w' links else some (w', false)

  -- RetrieveFailedLeaves after a PrepareRepair without an error.
  unfoldable pub retrieve_failed_leaves : (ℕ → ℕ) → Tree → L → Option (Walked L × Bool)
  unfolding walk
  retrieve_failed_leaves lattice t l = walk lattice 0 t (record { blocks = l; leaf_indices = [] })
