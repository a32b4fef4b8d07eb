-- ===== src/Client.antt =====
-- client/download.go and client/repair.go: the walks over the tree of a file that download it, and
-- that look for the leaves to repair. A node is named by its PreOrderIdx.
pub mod Download
pub mod Trim
pub mod Repair
pub mod Upload
pub mod Metadata
mod Tests
use ipfs_reliability.Prelude.{
  ℕ, zero, suc, ◌+◌, Bool, true, false, not, List, [], ◌∷◌, ◌++◌, Option, none, some, length, ◌==◌,
  ◌>>=◌, ◌||◌, ◌&&◌, if◌then◌else◌, put,
}
use ipfs_reliability.Lattice.Request.{Answer}
use ipfs_reliability.Connector.Tree.{Tree, Trees, node, no_trees, tree_then, count, tree_size}

-- What a DAG node has: the CIDs that it links to, and its file data, if it parses.
pub record DagNode : Type 0 where
  pub links : List ℕ
  pub file_data : Option (List ℕ)

-- What a walk uses: GetChunk and GetChunkDepth of the lattice and the CID field of a tree node, both on the shared state
-- of lattice, getter and network; AddRawData, which gives a CID or an error; GetDagNodeFromRawBytes.
pub record Network (L : Type 0) : Type 1 where
  pub get_chunk : ℕ → L → Option (L × Answer)
  pub get_chunk_depth : ℕ → ℕ → L → Option (L × Answer)
  pub cid_of : ℕ → L → ℕ
  pub set_cid : ℕ → ℕ → L → L
  pub add_raw_data : List ℕ → L → L × Option ℕ
  pub get_dag_node : List ℕ → Option DagNode

unfoldable pub trim_left : List ℕ → List ℕ
trim_left [] = []
trim_left (zero ∷ bs) = trim_left bs
trim_left (suc b ∷ bs) = suc b ∷ bs

unfoldable pub reverse_onto : List ℕ → List ℕ → List ℕ
reverse_onto [] acc = acc
reverse_onto (b ∷ bs) acc = reverse_onto bs (b ∷ acc)

-- bytes.Trim(chunk, "\x00"): zero bytes at both ends are cut off.
unfoldable pub trim : List ℕ → List ℕ
unfolding trim_left reverse_onto
trim chunk = reverse_onto (trim_left (reverse_onto (trim_left chunk) [])) []

module _ {L : Type 0} (net : Network L) where
  -- Whether the upload went well, and gave this CID.
  unfoldable pub data_reupload : List ℕ → ℕ → Bool → L → L × Bool
  data_reupload chunk cid allow l =
      if not allow
      then (l, true)
      else let (l', uploaded) = net.add_raw_data chunk l in
        (l', elim uploaded [ none ↦ false | some cid' ↦ cid' == cid ])

  unfoldable pub data_reupload_no_check : List ℕ → Bool → L → L × Bool
  data_reupload_no_check chunk allow l =
      if not allow
      then (l, true)
      else let (l', uploaded) = net.add_raw_data chunk l in
        (l', elim uploaded [ none ↦ false | some cid ↦ true ])

  -- A chunk that is repaired is trimmed and uploaded; the Boolean is false after an error.
  unfoldable pub upload_repaired : ℕ → Bool → Answer → List ℕ → L → L × List ℕ × Bool
  unfolding data_reupload trim
  upload_repaired i allow answer chunk l =
      if answer.repaired
      then (let (l', ok) = data_reupload (trim chunk) (net.cid_of i l) allow l in
          (l', trim chunk, ok))
      else (l, chunk, true)

  -- The state of downloadAndRecover.
  pub record Progress : Type 0 where
    pub blocks : L
    pub data_so_far : List ℕ
    pub repaired : Bool
    pub downloaded : ℕ

  -- Unmarshalling the chunk of a node with `children` children; `none` in the pair is an error.
  unfoldable pub open_chunk : List ℕ → ℕ → Option DagNode
  open_chunk chunk children = elim (net.get_dag_node chunk) [
    | none ↦ none
    | some dag ↦ if length dag.links == children then some dag else none
  ]

  unfoldable pub with_chunk :
      ℕ → ℕ → Bool → Answer → Progress → Option (List ℕ) → Progress × Option DagNode
  unfolding upload_repaired open_chunk
  with_chunk i children allow answer st none = (st, none)
  with_chunk i children allow answer st (some chunk) =
      let (l, chunk', ok) = upload_repaired i allow answer chunk st.blocks in
      let st' = record st { blocks = l; downloaded = st.downloaded + 1 } in
      if not ok
      then (st', none)
      else (record st' { repaired = st.repaired || answer.repaired }, open_chunk chunk' children)

  -- The walker of downloadAndRecover up to its loop; `lattice` gives the LatticeIdx of a node.
  unfoldable pub download_chunk :
      (ℕ → ℕ) → ℕ → ℕ → Bool → Progress → Option (Progress × Option DagNode)
  unfolding with_chunk
  download_chunk lattice i children allow st = do
    (l, answer) ← net.get_chunk (lattice i + 1) st.blocks
    some (with_chunk i children allow answer (record st { blocks = l }) answer.data_of)

  -- The end of the walker: the file data of a leaf. `err` is what the loop left, true for no error.
  unfoldable pub append_leaf : DagNode → Bool → Progress → Progress × Bool
  append_leaf dag err st =
      if length dag.links == 0
      then elim dag.file_data [
        | none ↦ (st, false)
        | some bytes ↦ (record st { data_so_far = st.data_so_far ++ bytes }, true)
      ]
      else (st, err)

  unfoldable pub finish_node :
      (Progress → List ℕ → Option (Progress × Bool × Bool))
      → Progress × Option DagNode
      → Option (Progress × Bool)
  unfolding append_leaf
  finish_node loop (st, none) = some (st, false)
  finish_node loop (st, some dag) = do
    (st', err, stopped) ← loop st dag.links
    some (if stopped then (st', false) else append_leaf dag err st')

  -- The walker of downloadAndRecover; the Boolean is false for an error. The loop over the children
  -- also says whether failOnError made it return: then its error is not that of the last child.
  unfoldable mutual
    unfolding download_chunk finish_node

    pub download_node : (ℕ → ℕ) → Bool → Bool → ℕ → Tree → Progress → Option (Progress × Bool)
    download_node lattice allow fail_on_error i (node ts) st =
        download_chunk lattice i (count ts) allow st
        >>= finish_node (download_children lattice allow fail_on_error (suc i) ts true)

    pub download_children :
        (ℕ → ℕ)
        → Bool
        → Bool
        → ℕ
        → Trees
        → Bool
        → Progress
        → List ℕ
        → Option (Progress × Bool × Bool)
    download_children lattice allow fail_on_error i no_trees err st links = some (st, err, false)
    download_children lattice allow fail_on_error i (tree_then t ts) err st [] =
        some (st, err, false)
    download_children lattice allow fail_on_error i (tree_then t ts) err st (link ∷ links) = do
      (st', ok) ←
          download_node lattice allow fail_on_error i t
            (record st { blocks = net.set_cid i link st.blocks })
      if not ok && fail_on_error
          then some (st', false, true)
          else download_children lattice allow fail_on_error (i + tree_size t) ts ok st' links

  abbrev pub start_download : L → Progress
  start_download l = record { blocks = l; data_so_far = []; repaired = false; downloaded = 0 }

  unfoldable pub download_and_recover : (ℕ → ℕ) → Bool → Bool → Tree → L → Option (Progress × Bool)
  unfolding download_node
  download_and_recover lattice allow fail_on_error t l =
      download_node lattice allow fail_on_error 0 t (start_download l)
