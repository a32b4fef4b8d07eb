-- ===== src/Client/Metadata/Trees.antt =====
-- The trees that PrepareRepair builds from the metadata of an upload.
use ipfs_reliability.Prelude.{ℕ, suc, ◌≡◌, ◌<◌, refl, arith, List, [], ◌∷◌, some}
use ipfs_reliability.Connector.Tree.{Tree, construct_tree}
use ipfs_reliability.Connector.Tree.Parity.{create_parity_tree}
use ipfs_reliability.Connector.Tree.Parity.Ends.{create_parity_tree-eq-construct_tree}
use ipfs_reliability.Connector.Tree.Swap.{tree_maps}
use ipfs_reliability.Connector.Tree.Swap.Maps.{tree_maps-returns}
use ipfs_reliability.Client.Upload.Files.{StrandFile, roots, widest}
use ipfs_reliability.Client.Metadata.{Settings, parity_leaves, parity_trees, prepare_trees}
use ipfs_reliability.Client.Metadata.Rebuilt.{metadata_of}

-- The same tree for each strand, with the strand's CID.
abbrev pub with_tree : Tree → List ℕ → List (ℕ × Tree)
with_tree t [] = []
with_tree t (cid ∷ rest) = (cid, t) ∷ with_tree t rest

parity_trees_lem :
    (fuel l k : ℕ) (t : Tree) (cids : List ℕ)
    → create_parity_tree fuel l k ≡ some t
    → parity_trees fuel l k cids ≡ some (with_tree t cids)
unfolding parity_trees
parity_trees_lem fuel l k t [] e = refl
parity_trees_lem fuel l k t (cid ∷ rest) e = rw (e, parity_trees_lem fuel l k t rest e) refl

parity_leaves-positive : (n : ℕ) → 0 < n → 0 < parity_leaves n
unfolding parity_leaves
parity_leaves-positive n h = omega arith

-- From the metadata that an upload with a positive s stores for a tree of a file with at least one node,
-- some strand of which has a node with two children or more: the trees that PrepareRepair builds are the
-- tree of the file, with its maps, and for each strand a tree under the CID of its root, which is the
-- tree that ConstructTree makes of as many leaves as the strand's full parity blocks fill, and of the
-- largest number of children.
prepare_trees_right :
    (set : Settings) (root_cid l k d n : ℕ) (t : Tree) (files : List StrandFile)
    → construct_tree l k d n ≡ some t
    → 0 < set.s
    → 0 < n
    → 1 < widest files
    → (r m : ℕ) × (strand : Tree) × (maps : List (ℕ × ℕ) × List (ℕ × ℕ)) × (construct_tree
          (parity_leaves n)
          (widest files)
          (suc r)
          m
        ≡ some strand)
      × (tree_maps set.s set.p t ≡ some maps)
      × ((fuel : ℕ)
          → r < fuel
          → prepare_trees fuel (metadata_of set root_cid l k d n files)
            ≡ some (record {
              root_cid = root_cid;
              tree = t;
              maps = maps;
              strands = with_tree strand (roots files);
            }))
unfolding prepare_trees
prepare_trees_right set root_cid l k d n t files e step some_node wide =
    let (r, m, strand, made, ends) =
      create_parity_tree-eq-construct_tree (parity_leaves n) (widest files)
        (parity_leaves-positive n some_node) wide in
    let (maps, e') = tree_maps-returns set.s set.p t step in
    (
      r,
      m,
      strand,
      maps,
      made,
      e',
      λ fuel enough.
          rw
            (
              e,
              e',
              parity_trees_lem fuel (parity_leaves n) (widest files) strand (roots files)
                  (ends fuel enough),
            )
            refl,
    )
