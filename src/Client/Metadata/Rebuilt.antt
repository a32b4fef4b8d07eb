-- ===== src/Client/Metadata/Rebuilt.antt =====
-- What Upload returns and stores, and the tree that a later download builds from it.
use ipfs_reliability.Prelude.{
  ℕ, zero, suc, ◌≡◌, ◌<◌, refl, ap, ◌∙◌, arith, true, false, List, [], ◌∷◌, ◌++◌, Option, some,
  get_elem?, map, ◌==◌,
}
use ipfs_reliability.Entangler.State.{Bytes, EntangledBlock}
use ipfs_reliability.Connector.Getter.{Shell}
use ipfs_reliability.Connector.Tree.{Tree, construct_tree, tree_size}
use ipfs_reliability.Connector.Tree.Shape.{construct_tree_right}
use ipfs_reliability.Connector.Tree.Swap.{from, get_flattened_tree}
use ipfs_reliability.Connector.Tree.Swap.Distinct.{Fits, Permutes}
use ipfs_reliability.Connector.Tree.Swap.Numbers.{flattened_order}
use ipfs_reliability.Connector.Merkle.{Read, MerkleNode, get_merkle_tree}
use ipfs_reliability.Connector.Merkle.Reads.{
  arity, height, cids_from, IsStored, get_merkle_tree_right,
}
use ipfs_reliability.Connector.Merkle.Metadata.{Balanced-height}
use ipfs_reliability.Cluster.{Connector}
use ipfs_reliability.Client.Upload.{
  Posts, Pin, recursive, Pinning, pin_recursive, generate_entanglement,
}
use ipfs_reliability.Client.Upload.Pins.{HasTurn, ask_pin_lem}
use ipfs_reliability.Client.Upload.Files.{
  StrandFile, AreFiles, roots, widest, all_pins, cids_from-reads_0, pin_alpha_entanglements_right,
}
use ipfs_reliability.Client.Metadata.{
  Metadata, Ipfs, Settings, UploadAnswer, uploaded, read_nodes, new_metadata, forward_request,
  upload_metadata, after_strands, after_tree, upload,
}
use ipfs_reliability.Client.Metadata.Leaves.{count_leaves-number}

read_nodes_lem :
    (shell : Shell) (cids : List ℕ) (cid_of : ℕ → ℕ) (block_of : ℕ → Bytes) (n : ℕ) (order : List ℕ)
    → ((i x : ℕ) → get_elem? order i ≡ some x → x < n)
    → ((i : ℕ) → i < n → get_elem? cids i ≡ some (cid_of i))
    → ((i : ℕ) → i < n → shell.block_get (cid_of i) ≡ some (block_of i))
    → read_nodes shell cids order ≡ some (map block_of order)
unfolding read_nodes
read_nodes_lem shell cids cid_of block_of n [] below reads blocks = refl
read_nodes_lem shell cids cid_of block_of n (x ∷ xs) below reads blocks =
    let inside = below 0 x refl in
    let later =
      read_nodes_lem shell cids cid_of block_of n xs (λ i y e. below (suc i) y e) reads blocks in
    rw (reads x inside, blocks x inside, later) refl

-- The metadata of a file with tree t, whose strands have these files.
abbrev pub metadata_of : Settings → ℕ → ℕ → ℕ → ℕ → ℕ → List StrandFile → Metadata
metadata_of set root_cid l k d n files = record {
  alpha = set.alpha;
  s = set.s;
  p = set.p;
  original_file_cid = root_cid;
  tree_cids = roots files;
  num_blocks = n;
  max_children = k;
  leaves = l;
  depth = d;
  max_parity_children = widest files;
}

-- The answer of an upload that ends well.
abbrev answer_of : Settings → ℕ → Metadata → UploadAnswer
answer_of set meta_cid meta =
    uploaded meta.original_file_cid meta_cid meta true
      (forward_request set.has_community_node meta.original_file_cid meta_cid meta.tree_cids)

upload_metadata_lem :
    (ipfs : Ipfs) (posts : Posts) (set : Settings) (meta : Metadata) (meta_cid : ℕ) (st : Pinning)
    → ipfs.add_metadata meta ≡ some meta_cid
    → ((peer cid r : ℕ) → posts peer cid r ≡ true)
    → HasTurn st.connector
    → (st' : Pinning) × (upload_metadata ipfs posts set meta st
        ≡ some (
          st',
          uploaded meta.original_file_cid meta_cid meta true (
              forward_request set.has_community_node meta.original_file_cid meta_cid
                meta.tree_cids),
        ))
      × (st'.requests ≡ st.requests ++ recursive meta_cid 0 ∷ [])
unfolding upload_metadata pin_recursive
upload_metadata_lem ipfs posts set meta meta_cid st added all_post turn =
    let (peer, st', at, e, turn', asked, same) = ask_pin_lem recursive posts meta_cid 0 st turn in
    (st', rw (added, e, all_post peer meta_cid 0, upload_metadata) refl, asked)

metadata_congr :
    (set : Settings) (root_cid : ℕ) (files : List StrandFile) {l l' k k' d d' n n' : ℕ}
    → l ≡ l'
    → k ≡ k'
    → d ≡ d'
    → n ≡ n'
    → metadata_of set root_cid l k d n files ≡ metadata_of set root_cid l' k' d' n' files
metadata_congr set root_cid files a b c e = cc

-- The metadata that the upload makes of the tree that it read.
new_metadata_lem :
    (set : Settings) (root_cid l k d n : ℕ) (t : Tree) (order cids : List ℕ)
    (files : List StrandFile)
    → construct_tree l k d n ≡ some t
    → 0 < k
    → arity t ≡ k
    → Fits (tree_size t) order
    → Permutes (from 0 (tree_size t)) order
    → new_metadata set root_cid
        (record { max_children = arity t; cids = cids })
        (record { tree = t; max_depth = suc (height t) })
        order
        (record { tree_cids = roots files; max_parity_children = widest files })
      ≡ metadata_of set root_cid l k d n files
unfolding new_metadata
new_metadata_lem set root_cid l k zero n t order cids files e pos full fits same =
    let (shape, _, _) = construct_tree_right l k zero n t e pos in elim shape [ ]
new_metadata_lem set root_cid l k (suc d) n t order cids files e pos full fits same =
    let (shape, leaves, nodes) = construct_tree_right l k (suc d) n t e pos in
    metadata_congr set root_cid files (count_leaves-number t order fits same ∙ leaves) full
      (ap suc (Balanced-height k d t shape)) (fits.size ∙ nodes)

module _ (ipfs : Ipfs) (posts : Posts) (run : List EntangledBlock → List EntangledBlock)
    (set : Settings) (c : Connector) (fuel : ℕ) where
  upload-eq-after_tree :
      (root_cid : ℕ) (answer : Read × Option MerkleNode)
      → ipfs.file_cid ≡ some root_cid
      → 0 < set.alpha
      → get_merkle_tree ipfs.shell fuel root_cid ≡ some answer
      → upload ipfs fuel posts run set c ≡ after_tree ipfs fuel posts run set root_cid c answer
  unfolding upload
  upload-eq-after_tree root_cid answer is_file some_strands read =
      let go_on : (set.alpha == 0) ≡ false = ground arith in simp (is_file, go_on, read)

  after_tree_lem :
      (root_cid meta_cid : ℕ) (r : Read) (found : MerkleNode) (order : List ℕ)
      (data_blocks : List Bytes) (parity_blocks : List (List Bytes)) (files : List StrandFile)
      (meta : Metadata)
      → get_flattened_tree set.s set.p true found.tree ≡ some order
      → read_nodes ipfs.shell r.cids order ≡ some data_blocks
      → generate_entanglement run set.alpha set.s set.p data_blocks ≡ some parity_blocks
      → AreFiles ipfs.add_file ipfs.shell fuel parity_blocks files
      → ((peer cid r : ℕ) → posts peer cid r ≡ true)
      → HasTurn c
      → new_metadata set root_cid r found order
          (record { tree_cids = roots files; max_parity_children = widest files })
        ≡ meta
      → ipfs.add_metadata meta ≡ some meta_cid
      → (st : Pinning) × (after_tree ipfs fuel posts run set root_cid c (r, some found)
          ≡ some (st, answer_of set meta_cid meta))
        × (st.requests ≡ all_pins set.replication_factor files ++ recursive meta_cid 0 ∷ [])
  unfolding after_tree after_strands
  after_tree_lem root_cid meta_cid r found order data_blocks parity_blocks files meta flat read
        entangled stored all_post turn made added =
      let (st, pinned, asked, next) =
        pin_alpha_entanglements_right ipfs.add_file ipfs.shell fuel posts set.replication_factor
          parity_blocks files c all_post stored turn in
      let made_meta =
        new_metadata set root_cid r found order
          (record { tree_cids = roots files; max_parity_children = widest files }) in
      let (st', done, asked') =
        upload_metadata_lem ipfs posts set made_meta meta_cid st (ap ipfs.add_metadata made ∙ added)
          all_post next in
      (
        st',
        rw (flat, read, entangled, pinned) done
            ∙ ap (λ (m : Metadata). some (st', answer_of set meta_cid m)) made,
        asked' ∙ ap (λ (xs : List Pin). xs ++ recursive meta_cid 0 ∷ []) asked,
      )

-- Upload of a file whose tree ConstructTree makes of l, k, d and n, with k positive and reached by some
-- node; when the network has this tree with its blocks, and the files of the strands that the entangler's
-- blocks make, all posts of pins are answered, and there is a peer whose turn it is. Upload returns without an
-- error; the metadata that it stores has just these numbers l, k, d and n, from which ConstructTree makes
-- the tree again, and the roots of the strands with the largest number of children in their trees; the
-- pins that it asked for are those of all nodes of the strands' trees, each one direct, and of the metadata, recursive; and the
-- community node, if there is one, is told the CIDs of the file, of the metadata and of the strands.
pub upload_right :
    (ipfs : Ipfs) (posts : Posts) (run : List EntangledBlock → List EntangledBlock) (set : Settings)
    (c : Connector) (cid_of : ℕ → ℕ) (block_of : ℕ → Bytes) (l k d n fuel : ℕ) (t : Tree)
    (order : List ℕ) (parity_blocks : List (List Bytes)) (files : List StrandFile) (meta_cid : ℕ)
    → 0 < set.alpha
    → ipfs.file_cid ≡ some (cid_of 0)
    → construct_tree l k d n ≡ some t
    → 0 < k
    → arity t ≡ k
    → IsStored ipfs.shell cid_of 0 t
    → height t < fuel
    → ((i : ℕ) → i < tree_size t → ipfs.shell.block_get (cid_of i) ≡ some (block_of i))
    → get_flattened_tree set.s set.p true t ≡ some order
    → generate_entanglement run set.alpha set.s set.p (map block_of order) ≡ some parity_blocks
    → AreFiles ipfs.add_file ipfs.shell fuel parity_blocks files
    → ((peer cid r : ℕ) → posts peer cid r ≡ true)
    → HasTurn c
    → ipfs.add_metadata (metadata_of set (cid_of 0) l k d n files) ≡ some meta_cid
    → (st : Pinning) × (upload ipfs fuel posts run set c
        ≡ some (
          st,
          uploaded
              (cid_of 0)
              meta_cid
              (metadata_of set (cid_of 0) l k d n files)
              true
              (forward_request set.has_community_node (cid_of 0) meta_cid (roots files)),
        ))
      × (st.requests ≡ all_pins set.replication_factor files ++ recursive meta_cid 0 ∷ [])
upload_right ipfs posts run set c cid_of block_of l k d n fuel t order parity_blocks files meta_cid
      some_strands is_file made pos full stored low blocks flat entangled stored_files all_post turn
      added =
    let (fits, same) = flattened_order set.s set.p t order flat in
    let cids = cids_from cid_of 0 (tree_size t) in
    let read =
      read_nodes_lem ipfs.shell cids cid_of block_of (tree_size t) order fits.below
        (cids_from-reads_0 cid_of (tree_size t)) blocks in
    let meta = new_metadata_lem set (cid_of 0) l k d n t order cids files made pos full fits same in
    let (st, done, asked) =
      after_tree_lem ipfs posts run set c fuel (cid_of 0) meta_cid
        (record { max_children = arity t; cids = cids })
        (record { tree = t; max_depth = suc (height t) }) order (map block_of order) parity_blocks
        files (metadata_of set (cid_of 0) l k d n files) flat read entangled stored_files all_post
        turn meta added in
    let tree_read = get_merkle_tree_right ipfs.shell cid_of t fuel stored low in
    (
      st,
      upload-eq-after_tree ipfs posts run set c fuel (cid_of 0) _ is_file some_strands tree_read
          ∙ done,
      asked,
    )
