-- ===== src/Client/Upload/Files.antt =====
-- pinEntanglementTree and pinAlphaEntanglements, from the files of the strands to the answer.
use ipfs_reliability.Prelude.{
  ℕ, zero, suc, ◌+◌, ◌≡◌, ◌<◌, refl, sym, ap, ◌∙◌, arith, true, false, List, [], ◌∷◌, ◌++◌, Option,
  some, get_elem?, max, append_assoc, append_nil, some_inj,
}
use ipfs_reliability.Entangler.State.{Bytes}
use ipfs_reliability.Connector.Getter.{Shell}
use ipfs_reliability.Connector.Tree.{Tree, Trees, node, count, tree_size}
use ipfs_reliability.Connector.Merkle.{larger}
use ipfs_reliability.Connector.Merkle.Reads.{
  arity, height, IsStored, cids_from, get_merkle_tree_right,
}
use ipfs_reliability.Cluster.{Connector}
use ipfs_reliability.Client.Upload.{
  Posts, Pin, direct, Pinning, pin_direct, Strands, merge_blocks, replication_for, pin_node,
  pin_tree, pin_entanglement_tree, pin_strands, pin_alpha_entanglements,
}
use ipfs_reliability.Client.Upload.Pins.{
  HasTurn, factor_of, replication_for-count, pins, ask_pin_lem, pin_node_lem, larger-eq-max,
}

cids_from-reads :
    (cid_of : ℕ → ℕ) (i n j : ℕ)
    → j < n
    → get_elem? (cids_from cid_of i n) j ≡ some (cid_of (i + j))
cids_from-reads cid_of i zero j low = elim low [ ]
cids_from-reads cid_of i (suc n) zero low = ap (λ (x : ℕ). some (cid_of x)) (omega arith)
cids_from-reads cid_of i (suc n) (suc j) low =
    cids_from-reads cid_of (suc i) n j (omega arith) ∙ ap (λ (x : ℕ). some (cid_of x)) (omega arith)

pub cids_from-reads_0 :
    (cid_of : ℕ → ℕ) (n j : ℕ) → j < n → get_elem? (cids_from cid_of 0 n) j ≡ some (cid_of j)
cids_from-reads_0 cid_of n j low =
    cids_from-reads cid_of 0 n j low ∙ ap (λ (x : ℕ). some (cid_of x)) (omega arith)

pin_entanglement_tree_lem :
    (shell : Shell) (fuel : ℕ) (posts : Posts) (replication : ℕ) (cid_of : ℕ → ℕ) (t : Tree)
    (st : Pinning)
    → ((peer cid r : ℕ) → posts peer cid r ≡ true)
    → IsStored shell cid_of 0 t
    → height t < fuel
    → HasTurn st.connector
    → (st' : Pinning) × (pin_entanglement_tree shell fuel posts (cid_of 0) replication st
        ≡ some (st', some (arity t)))
      × HasTurn st'.connector
      × (st'.requests ≡ st.requests ++ pins cid_of replication 0 t)
unfolding pin_entanglement_tree
pin_entanglement_tree_lem shell fuel posts replication cid_of t st all_post stored low turn =
    let n = tree_size t in
    let (st', e, (turn', asked, most)) =
      pin_node_lem posts cid_of (cids_from cid_of 0 n) n replication all_post
        (cids_from-reads_0 cid_of n) 0 t (record st { max_children = 0 }) (omega arith) turn in
    let children : st'.max_children ≡ arity t = omega (arith, most) in
    (st', rw (get_merkle_tree_right shell cid_of t fuel stored low, e, children) refl, turn', asked)

-- The file of a strand: its tree, and the CIDs of the nodes.
pub record StrandFile : Type 0 where
  pub cid_of : ℕ → ℕ
  pub tree : Tree

-- The network has the files of these strands.
abbrev pub AreFiles : (Bytes → Option ℕ) → Shell → ℕ → List (List Bytes) → List StrandFile → Type 0
AreFiles add_file shell fuel [] [] = Unit {0}
AreFiles add_file shell fuel [] (f ∷ fs) = ⊥
AreFiles add_file shell fuel (blocks ∷ rest) [] = ⊥
AreFiles add_file shell fuel (blocks ∷ rest) (f ∷ fs) =
    (add_file (merge_blocks [] blocks) ≡ some (f.cid_of 0))
    × IsStored shell f.cid_of 0 f.tree
    × (height f.tree < fuel)
    × AreFiles add_file shell fuel rest fs

abbrev pub roots : List StrandFile → List ℕ
roots [] = []
roots (f ∷ fs) = f.cid_of 0 ∷ roots fs

abbrev pub widest : List StrandFile → ℕ
widest [] = 0
widest (f ∷ fs) = max (arity f.tree) (widest fs)

abbrev pub all_pins : ℕ → List StrandFile → List Pin
all_pins replication [] = []
all_pins replication (f ∷ fs) = pins f.cid_of replication 0 f.tree ++ all_pins replication fs

abbrev strands : List ℕ → ℕ → Strands
strands cids n = record { tree_cids = cids; max_parity_children = n }

strands_congr :
    {cids cids' : List ℕ} {n n' : ℕ} → cids ≡ cids' → n ≡ n' → strands cids n ≡ strands cids' n'
strands_congr e f = cc

pin_strands_lem :
    (add_file : Bytes → Option ℕ) (shell : Shell) (fuel : ℕ) (posts : Posts) (replication : ℕ)
    (parity_blocks : List (List Bytes)) (files : List StrandFile) (acc : Strands) (st : Pinning)
    → ((peer cid r : ℕ) → posts peer cid r ≡ true)
    → AreFiles add_file shell fuel parity_blocks files
    → HasTurn st.connector
    → (st' : Pinning) × (pin_strands add_file shell fuel posts replication parity_blocks acc st
        ≡ some (
          st',
          some
              (strands (acc.tree_cids ++ roots files) (max acc.max_parity_children (widest files))),
        ))
      × (st'.requests ≡ st.requests ++ all_pins replication files)
      × HasTurn st'.connector
unfolding pin_strands
pin_strands_lem add_file shell fuel posts replication [] [] acc st all_post h turn =
    let same =
      strands_congr {n = acc.max_parity_children} {n' = max acc.max_parity_children 0}
        (sym (append_nil acc.tree_cids)) (omega arith) in
    (st, ap (λ (x : Strands). some (st, some x)) same, sym (append_nil st.requests), turn)
pin_strands_lem add_file shell fuel posts replication [] (f ∷ fs) acc st all_post h turn =
    elim h [ ]
pin_strands_lem add_file shell fuel posts replication (blocks ∷ rest) [] acc st all_post h turn =
    elim h [ ]
pin_strands_lem add_file shell fuel posts replication (blocks ∷ rest) (f ∷ fs) acc st all_post h
      turn =
    let (st', e, turn', asked) =
      pin_entanglement_tree_lem shell fuel posts replication f.cid_of f.tree st all_post h.1 h.2
        turn in
    let wide = larger (arity f.tree) acc.max_parity_children in
    let cids = acc.tree_cids ++ f.cid_of 0 ∷ [] in
    let (end, e', asked', turn'') =
      pin_strands_lem add_file shell fuel posts replication rest fs (strands cids wide) st' all_post
        h.3 turn' in
    let most = larger-eq-max (arity f.tree) acc.max_parity_children in
    let same =
      strands_congr {n = max wide (widest fs)}
        {n' = max acc.max_parity_children (max (arity f.tree) (widest fs))}
        (append_assoc acc.tree_cids (f.cid_of 0 ∷ []) (roots fs)) (omega (arith, most)) in
    (
      end,
      rw (h.0, e, pin_strands) e' ∙ ap (λ (x : Strands). some (end, some x)) same,
      asked'
          ∙ ap (λ (l : List Pin). l ++ all_pins replication fs) asked
          ∙ append_assoc st.requests (pins f.cid_of replication 0 f.tree) (all_pins replication fs),
      turn'',
    )

-- When the network has the files that the parity blocks of the strands are merged into, there is a peer
-- whose turn it is, and all posts are answered: pinAlphaEntanglements returns the CIDs of these files
-- in the order of the strands and the largest number of children of a node in their trees; it has asked
-- for a pin of each node of each tree once, with factor 1 for a leaf and the replication factor for the
-- others, and for no other pin. There is a peer then whose turn is next.
pub pin_alpha_entanglements_right :
    (add_file : Bytes → Option ℕ) (shell : Shell) (fuel : ℕ) (posts : Posts) (replication : ℕ)
    (parity_blocks : List (List Bytes)) (files : List StrandFile) (c : Connector)
    → ((peer cid r : ℕ) → posts peer cid r ≡ true)
    → AreFiles add_file shell fuel parity_blocks files
    → HasTurn c
    → (st : Pinning) × (pin_alpha_entanglements add_file shell fuel posts replication parity_blocks
          c
        ≡ some (st, some (record { tree_cids = roots files; max_parity_children = widest files })))
      × (st.requests ≡ all_pins replication files)
      × HasTurn st.connector
unfolding pin_alpha_entanglements
pin_alpha_entanglements_right add_file shell fuel posts replication parity_blocks files c all_post
      stored turn =
    let start : Pinning = record { connector = c; requests = []; max_children = 0 } in
    let (st, e, asked, next) =
      pin_strands_lem add_file shell fuel posts replication parity_blocks files (strands [] 0) start
        all_post stored turn in
    let same = strands_congr {cids = roots files} {n = max 0 (widest files)} refl (omega arith) in
    (st, e ∙ ap (λ (x : Strands). some (st, some x)) same, asked, next)

-- When the network has the file of a strand, there is a peer whose turn it is, and the post of the pin of
-- the root of the file fails: pinEntanglementTree asks for no other pin, and returns without an error, with
-- 0 for the largest number of children.
pub failed_root_hidden :
    (shell : Shell) (fuel : ℕ) (posts : Posts) (replication peer : ℕ) (cid_of : ℕ → ℕ) (ts : Trees)
    (st : Pinning)
    → IsStored shell cid_of 0 (node ts)
    → height (node ts) < fuel
    → HasTurn st.connector
    → get_elem? st.connector.peer_ids st.connector.current_idx ≡ some peer
    → posts peer (cid_of 0) (factor_of replication ts) ≡ false
    → (st' : Pinning) × (pin_entanglement_tree shell fuel posts (cid_of 0) replication st
        ≡ some (st', some 0))
      × (st'.requests ≡ st.requests ++ direct (cid_of 0) (factor_of replication ts) ∷ [])
unfolding pin_entanglement_tree pin_tree pin_node pin_direct tree_size count
failed_root_hidden shell fuel posts replication peer cid_of ts st stored low turn at fails =
    let factor = replication_for replication (count ts) in
    let same_factor = replication_for-count replication ts in
    let start = record st { max_children = 0 } in
    let (peer', st', at', e, turn', asked, same) =
      ask_pin_lem direct posts (cid_of 0) factor start turn in
    let it : peer' ≡ peer = some_inj (sym at' ∙ at) in
    let failed : posts peer' (cid_of 0) factor ≡ false =
      ap (λ (x : ℕ). posts x (cid_of 0) factor) it
      ∙ ap (posts peer (cid_of 0)) same_factor
      ∙ fails in
    (
      st',
      rw (get_merkle_tree_right shell cid_of (node ts) fuel stored low, e, failed, same) refl,
      asked ∙ ap (λ (r : ℕ). st.requests ++ direct (cid_of 0) r ∷ []) same_factor,
    )
