-- ===== src/Client/Download.antt =====
-- A download that ends without an error has the data of all leaves, in their order.
use ipfs_reliability.Prelude.{
  ℕ, suc, ◌+◌, ◌≡◌, refl, ◌∙◌, sym, ap, ap₂, arith, Bool, true, false, List, [], ◌∷◌, ◌++◌, Option,
  none, some, inl, inr, Bool-cases, Option-cases, length, ◌==◌, if◌then◌else◌, append_assoc,
  append_nil,
}
use ipfs_reliability.Lattice.Request.{Answer}
use ipfs_reliability.Connector.Tree.{
  Tree, Trees, node, no_trees, tree_then, count, tree_size, trees_size,
}
use ipfs_reliability.Client.{
  DagNode, Network, trim, data_reupload, upload_repaired, Progress, open_chunk, with_chunk,
  download_chunk, append_leaf, finish_node, download_node, download_children, start_download,
  download_and_recover,
}

abbrev pub or_empty : Option (List ℕ) → List ℕ
or_empty none = []
or_empty (some bytes) = bytes

-- The file data of the leaves of the nodes from index i on.
unfoldable mutual
  unfolding tree_size

  pub leaves_data : (ℕ → DagNode) → ℕ → Tree → List ℕ
  leaves_data dag i (node ts) =
      if count ts == 0 then or_empty (dag i).file_data else leaves_data_in dag (suc i) ts

  pub leaves_data_in : (ℕ → DagNode) → ℕ → Trees → List ℕ
  leaves_data_in dag i no_trees = []
  leaves_data_in dag i (tree_then t ts) =
      leaves_data dag i t ++ leaves_data_in dag (i + tree_size t) ts

module _ {L : Type 0} (net : Network L) (lattice : ℕ → ℕ) (dag : ℕ → DagNode)
    (Holds : L → Type 0) where
  -- In each state that can come up: a call of GetChunk returns, and without an error its chunk,
  -- trimmed if it is repaired, unmarshals to the DAG node of that index, if it unmarshals at all.
  pub record IsFaithful : Type 0 where
    pub chunk_right :
        (i : ℕ) (l : L)
        → Holds l
        → (l' : L) × (answer : Answer) × (net.get_chunk (lattice i + 1) l ≡ some (l', answer))
          × Holds l'
          × ((chunk : List ℕ) (d : DagNode)
              → answer.data_of ≡ some chunk
              → net.get_dag_node (if answer.repaired then trim chunk else chunk) ≡ some d
              → d ≡ dag i)
    pub set_holds : (c cid : ℕ) (l : L) → Holds l → Holds (net.set_cid c cid l)
    pub add_holds : (chunk : List ℕ) (l : L) → Holds l → Holds (net.add_raw_data chunk l).0

  module _ (faithful : IsFaithful) (allow : Bool) where
    data_reupload-Holds :
        (chunk : List ℕ) (cid : ℕ) (l : L) → Holds l → Holds (data_reupload net chunk cid allow l).0
    unfolding data_reupload
    data_reupload-Holds chunk cid l h = elim (Bool-cases allow) [
      | inl yes' ↦ rw (yes') (faithful.add_holds chunk l h)
      | inr no' ↦ rw (no') h
    ]

    upload_repaired-Holds :
        (i : ℕ) (answer : Answer) (chunk : List ℕ) (l : L)
        → Holds l
        → Holds (upload_repaired net i allow answer chunk l).0
          × ((upload_repaired net i allow answer chunk l).1
              ≡ (if answer.repaired then trim chunk else chunk))
    unfolding upload_repaired
    upload_repaired-Holds i answer chunk l h = elim (Bool-cases answer.repaired) [
      | inl again ↦ rw (again) (data_reupload-Holds (trim chunk) (net.cid_of i l) l h, refl)
      | inr fresh ↦ rw (fresh) (h, refl)
    ]

    -- What the walker has of a node before its loop.
    abbrev Opens : ℕ → ℕ → Progress net → Progress net × Option DagNode → Type 0
    Opens i children st (st', found) =
        Holds st'.blocks
        × (st'.data_so_far ≡ st.data_so_far)
        × ((d : DagNode)
            → found ≡ some d
            → (d ≡ dag i) × (length d.links ≡ children) × (st'.downloaded ≡ st.downloaded + 1))

    open_chunk-right :
        (chunk : List ℕ) (children : ℕ) (d : DagNode)
        → open_chunk net chunk children ≡ some d
        → (net.get_dag_node chunk ≡ some d) × (length d.links ≡ children)
    unfolding open_chunk
    open_chunk-right chunk children d e = ground arith

    with_chunk-Opens :
        (i children : ℕ) (answer : Answer) (st : Progress net)
        → Holds st.blocks
        → ((chunk : List ℕ) (d : DagNode)
            → answer.data_of ≡ some chunk
            → net.get_dag_node (if answer.repaired then trim chunk else chunk) ≡ some d
            → d ≡ dag i)
        → Opens i children st (with_chunk net i children allow answer st answer.data_of)
    unfolding with_chunk
    with_chunk-Opens i children answer st h right = elim (Option-cases answer.data_of) [
      | inl missing ↦ rw (missing) (h, refl, λ d e. cc)
      | inr (chunk, there) ↦
          let (h', same) = upload_repaired-Holds i answer chunk st.blocks h in
          elim (Bool-cases (upload_repaired net i allow answer chunk st.blocks).2) [
            | inr failed ↦ rw (there, failed) (h', refl, λ d e. cc)
            | inl fine ↦
                rw (there, fine)
                  (
                    h',
                    refl,
                    λ d e.
                        let (opens, size) =
                          open_chunk-right (upload_repaired net i allow answer chunk st.blocks).1
                            children d e in
                        (right chunk d there (ap net.get_dag_node (sym same) ∙ opens), size, refl),
                  )
          ]
    ]

    download_chunk-Opens :
        (i children : ℕ) (st : Progress net)
        → Holds st.blocks
        → (done : Progress net × Option DagNode) × (download_chunk net lattice i children allow st
            ≡ some done)
          × Opens i children st done
    unfolding download_chunk
    download_chunk-Opens i children st h =
        let (l, answer, e, h', right) = faithful.chunk_right i st.blocks h in
        (
          with_chunk net i children allow answer (record st { blocks = l }) answer.data_of,
          rw (e) refl,
          with_chunk-Opens i children answer (record st { blocks = l }) h' right,
        )

    -- The walk over a tree gives.
    abbrev Gives : List ℕ → ℕ → Progress net → Progress net × Bool → Type 0
    Gives bytes nodes st (st', ok) =
        Holds st'.blocks
        × (ok ≡ true
            → (st'.data_so_far ≡ st.data_so_far ++ bytes)
              × (st'.downloaded ≡ st.downloaded + nodes))

    -- The loop over the children gives; with failOnError it goes to its end only without an error.
    abbrev LoopGives : List ℕ → ℕ → Progress net → Progress net × Bool × Bool → Type 0
    LoopGives bytes nodes st (st', err, stopped) =
        Holds st'.blocks
        × (stopped ≡ false
            → (st'.data_so_far ≡ st.data_so_far ++ bytes)
              × (st'.downloaded ≡ st.downloaded + nodes))

    -- The end of the walker, when the loop has gone over all children.
    append_leaf-Gives :
        (i : ℕ) (ts : Trees) (d : DagNode) (err : Bool) (st st' : Progress net)
        → d ≡ dag i
        → length d.links ≡ count ts
        → Holds st'.blocks
        → st'.data_so_far ≡ st.data_so_far ++ leaves_data_in dag (suc i) ts
        → st'.downloaded ≡ st.downloaded + suc (trees_size ts)
        → Gives (leaves_data dag i (node ts)) (suc (trees_size ts)) st (append_leaf net d err st')
    unfolding append_leaf leaves_data count
    append_leaf-Gives i (tree_then t ts) d err st st' is_true size h same num =
        let inner : (length d.links == 0) ≡ false = ground arith in
        rw (inner) (h, λ ok. (same ∙ ap (λ (l : List ℕ). st.data_so_far ++ l) (ground arith), num))
    append_leaf-Gives i no_trees d err st st' is_true size h same num =
        let outer : (length d.links == 0) ≡ true = ground arith in
        let mine : or_empty d.file_data ≡ or_empty (dag i).file_data =
          ap (λ (x : DagNode). or_empty x.file_data) is_true in
        elim (Option-cases d.file_data) [
          | inl missing ↦ rw (outer, missing) (h, λ ok. absurd (ground arith))
          | inr (bytes, there) ↦
              rw (outer, there)
                (
                  h,
                  λ ok. (
                    ap₂ (λ (a b : List ℕ). a ++ b) (same ∙ append_nil st.data_so_far)
                        (sym (ap or_empty there) ∙ mine),
                    num,
                  ),
                )
        ]

    finish_node-Gives :
        (i : ℕ) (ts : Trees) (st : Progress net) (done : Progress net × Option DagNode)
        (loop : Progress net → List ℕ → Option (Progress net × Bool × Bool))
        → Opens i (count ts) st done
        → ((st' : Progress net) (links : List ℕ)
            → Holds st'.blocks
            → length links ≡ count ts
            → (r : Progress net × Bool × Bool) × (loop st' links ≡ some r)
              × LoopGives (leaves_data_in dag (suc i) ts) (trees_size ts) st' r)
        → (r : Progress net × Bool) × (finish_node net loop done ≡ some r)
          × Gives (leaves_data dag i (node ts)) (suc (trees_size ts)) st r
    unfolding finish_node
    finish_node-Gives i ts st (st', none) loop opens go = ((st', false), refl, (opens.0, λ ok. cc))
    finish_node-Gives i ts st (st', some d) loop opens go =
        let (is_true, size, num) = opens.2 d refl in
        let ((st'', err, stopped), e, (h, gives)) = go st' d.links opens.0 size in
        elim (Bool-cases stopped) [
          | inl stop ↦ ((st'', false), rw (e, stop) refl, (h, λ ok. cc))
          | inr all ↦
              let (same, num') = gives all in
              (
                append_leaf net d err st'',
                rw (e, all) refl,
                append_leaf-Gives i ts d err st st'' is_true size h
                    (same ∙ ap (λ (l : List ℕ). l ++ leaves_data_in dag (suc i) ts) opens.1)
                    (omega (arith, num, num')),
              )
        ]

    mutual
      unfolding download_node download_children tree_size leaves_data count

      download_node-Gives :
          (i : ℕ) (t : Tree) (st : Progress net)
          → Holds st.blocks
          → (done : Progress net × Bool) × (download_node net lattice allow true i t st ≡ some done)
            × Gives (leaves_data dag i t) (tree_size t) st done
      download_node-Gives i (node ts) st h =
          let (done, e, opens) = download_chunk-Opens i (count ts) st h in
          let (r, e', gives) =
            finish_node-Gives i ts st done
              (download_children net lattice allow true (suc i) ts true) opens
              (λ st' links h' size. download_children-Gives (suc i) ts true st' links h' size) in
          (r, rw (e) e', gives)

      download_children-Gives :
          (i : ℕ) (ts : Trees) (err : Bool) (st : Progress net) (links : List ℕ)
          → Holds st.blocks
          → length links ≡ count ts
          → (done : Progress net × Bool × Bool) × (download_children net lattice allow true i ts err
                st links
              ≡ some done)
            × LoopGives (leaves_data_in dag i ts) (trees_size ts) st done
      download_children-Gives i no_trees err st links h size =
          ((st, err, false), refl, (h, λ s. (sym (append_nil st.data_so_far), omega arith)))
      download_children-Gives i (tree_then t ts) err st [] h size = absurd (omega arith)
      download_children-Gives i (tree_then t ts) err st (link ∷ links) h size =
          let st₁ : Progress net = record st { blocks = net.set_cid i link st.blocks } in
          let ((st₂, ok), e, (h₂, gives)) =
            download_node-Gives i t st₁ (faithful.set_holds i link st.blocks h) in
          elim (Bool-cases ok) [
            | inr failed ↦ ((st₂, false, true), rw (e, failed) refl, (h₂, λ s. cc))
            | inl fine ↦
                let (same, num) = gives fine in
                let (done, e', (h₃, rest)) =
                  download_children-Gives (i + tree_size t) ts true st₂ links h₂ (omega arith) in
                let all : done.2 ≡ false
                    → (done.0.data_so_far
                        ≡ st.data_so_far
                          ++ (leaves_data dag i t ++ leaves_data_in dag (i + tree_size t) ts))
                      × (done.0.downloaded ≡ st.downloaded + (tree_size t + trees_size ts)) =
                  λ s.
                    let (same', num') = rest s in
                    (
                      same'
                          ∙ ap (λ (l : List ℕ). l ++ leaves_data_in dag (i + tree_size t) ts) same
                          ∙ append_assoc st.data_so_far (leaves_data dag i t)
                              (leaves_data_in dag (i + tree_size t) ts),
                      omega (arith, num, num'),
                    ) in
                (done, rw (e, fine) e', (h₃, all))
          ]

-- With failOnError, and chunks that unmarshal to the DAG nodes of their indexes whenever GetChunk has
-- no error: downloadAndRecover returns; if it has no error, then the data is the file data of all
-- leaves of the tree in their order, and the count is the number of nodes of the tree.
pub download_right :
    {L : Type 0} (net : Network L) (lattice : ℕ → ℕ) (dag : ℕ → DagNode) (Holds : L → Type 0)
    (allow : Bool) (t : Tree) (l : L)
    → IsFaithful net lattice dag Holds
    → Holds l
    → (done : Progress net × Bool) × (download_and_recover net lattice allow true t l ≡ some done)
      × (done.1 ≡ true
          → (done.0.data_so_far ≡ leaves_data dag 0 t) × (done.0.downloaded ≡ tree_size t))
unfolding download_and_recover
download_right net lattice dag Holds allow t l faithful h =
    let (done, e, (_, gives)) =
      download_node-Gives net lattice dag Holds faithful allow 0 t (start_download net l) h in
    (done, e, λ ok. let (same, num) = gives ok in (same, omega (arith, num)))
