-- ===== src/Client/Upload/Pins.antt =====
-- What pinEntanglementTree and pinAlphaEntanglements ask the cluster to pin.
use ipfs_reliability.Prelude.{
  ℕ, suc, ◌+◌, ◌≡◌, ◌≤◌, ◌<◌, ◌%◌, refl, sym, ap, ◌∙◌, arith, true, List, [], ◌∷◌, ◌++◌, some,
  get_elem?, get_elem?-of_lt, length, max, append_assoc, append_nil,
}
use native.Mathlib.Nat.{mod-lt}
use ipfs_reliability.Connector.Tree.{
  Tree, Trees, node, no_trees, tree_then, count, tree_size, trees_size,
}
use ipfs_reliability.Connector.Merkle.{larger}
use ipfs_reliability.Connector.Merkle.Reads.{arity, arity_in}
use ipfs_reliability.Cluster.{Connector, take_turn, add_pin}
use ipfs_reliability.Client.Upload.{
  Posts, Pin, direct, Pinning, ask_pin, pin_direct, note_children, replication_for, pin_node,
  pin_nodes,
}

-- There is a peer whose turn it is.
abbrev pub HasTurn : Connector → Type 0
HasTurn c = c.current_idx < length c.peer_ids

-- The replication factor of a node with these children.
abbrev pub factor_of : ℕ → Trees → ℕ
factor_of replication no_trees = 1
factor_of replication (tree_then t ts) = replication

pub replication_for-count :
    (replication : ℕ) (ts : Trees)
    → replication_for replication (count ts) ≡ factor_of replication ts
unfolding replication_for count
replication_for-count replication no_trees = refl
replication_for-count replication (tree_then t ts) = ground arith

-- A tree's nodes in their order, each with the replication factor of its pin.
unfoldable mutual
  pub pins : (ℕ → ℕ) → ℕ → ℕ → Tree → List Pin
  pins cid_of replication i (node ts) =
      direct (cid_of i) (factor_of replication ts) ∷ pins_in cid_of replication (suc i) ts

  pub pins_in : (ℕ → ℕ) → ℕ → ℕ → Trees → List Pin
  pins_in cid_of replication i no_trees = []
  pins_in cid_of replication i (tree_then t ts) =
      pins cid_of replication i t ++ pins_in cid_of replication (i + tree_size t) ts

-- A pin takes a turn, and is allocated to the peer whose turn it is.
pub ask_pin_lem :
    (mode : ℕ → ℕ → Pin) (posts : Posts) (cid replication : ℕ) (st : Pinning)
    → HasTurn st.connector
    → (peer : ℕ) × (st' : Pinning) × (get_elem? st.connector.peer_ids st.connector.current_idx
        ≡ some peer)
      × (ask_pin mode posts cid replication st ≡ some (st', posts peer cid replication))
      × HasTurn st'.connector
      × (st'.requests ≡ st.requests ++ mode cid replication ∷ [])
      × (st'.max_children ≡ st.max_children)
unfolding ask_pin add_pin take_turn
ask_pin_lem mode posts cid replication st turn =
    let c = st.connector in
    let (peer, at) = get_elem?-of_lt c.peer_ids c.current_idx turn in
    (
      peer,
      record st {
        connector = record c { current_idx = (c.current_idx + 1) % length c.peer_ids };
        requests = st.requests ++ mode cid replication ∷ [];
      },
      at,
      rw (at) refl,
      mod-lt (c.current_idx + 1) (omega arith),
      refl,
      refl,
    )

pub larger-eq-max : (new old : ℕ) → larger new old ≡ max old new
unfolding larger
larger-eq-max new old = ground arith

-- From a state to one in which these pins have been asked for.
abbrev pub Asked : Pinning → List Pin → ℕ → Pinning → Type 0
Asked st wanted children st' =
    HasTurn st'.connector
    × (st'.requests ≡ st.requests ++ wanted)
    × (st'.max_children ≡ max st.max_children children)

Asked-trans :
    (st mid end : Pinning) (wanted more : List Pin) (children children' : ℕ)
    → Asked st wanted children mid
    → Asked mid more children' end
    → Asked st (wanted ++ more) (max children children') end
Asked-trans st mid end wanted more children children' (_, asked, most) (turn, asked', most') = (
  turn,
  asked' ∙ ap (λ (l : List Pin). l ++ more) asked ∙ append_assoc st.requests wanted more,
  omega (arith, most, most'),
)

module _ (posts : Posts) (cid_of : ℕ → ℕ) (cids : List ℕ) (total replication : ℕ)
    (all_post : (peer cid r : ℕ) → posts peer cid r ≡ true)
    (reads : (j : ℕ) → j < total → get_elem? cids j ≡ some (cid_of j)) where
  pin_self :
      (i : ℕ) (ts : Trees) (st : Pinning)
      → i < total
      → HasTurn st.connector
      → (st' : Pinning) × (pin_node posts cids replication i (node ts) st
          ≡ pin_nodes posts cids replication (suc i) ts st')
        × Asked st (direct (cid_of i) (factor_of replication ts) ∷ []) (count ts) st'
  unfolding pin_node pin_direct note_children
  pin_self i ts st low turn =
      let (peer, st', at, e, turn', asked, same) =
        ask_pin_lem direct posts (cid_of i) (replication_for replication (count ts)) st turn in
      let yes_all = all_post peer (cid_of i) (replication_for replication (count ts)) in
      (
        note_children (count ts) st',
        rw (reads i low, e, yes_all) refl,
        (
          turn',
          asked
              ∙ ap (λ (r : ℕ). st.requests ++ direct (cid_of i) r ∷ [])
                  (replication_for-count replication ts),
          larger-eq-max (count ts) st'.max_children ∙ ap (λ (x : ℕ). max x (count ts)) same,
        ),
      )

  mutual
    unfolding pin_nodes pins arity tree_size

    pub pin_node_lem :
        (i : ℕ) (t : Tree) (st : Pinning)
        → i + tree_size t ≤ total
        → HasTurn st.connector
        → (st' : Pinning) × (pin_node posts cids replication i t st ≡ some st')
          × Asked st (pins cid_of replication i t) (arity t) st'
    pin_node_lem i (node ts) st low turn =
        let (st', e, self) = pin_self i ts st (omega arith) turn in
        let (end, e', below) = pin_nodes_lem (suc i) ts st' (omega arith) self.0 in
        let here : Pin = direct (cid_of i) (factor_of replication ts) in
        (
          end,
          e ∙ e',
          Asked-trans st st' end (here ∷ []) (pins_in cid_of replication (suc i) ts) (count ts)
              (arity_in ts) self below,
        )

    pin_nodes_lem :
        (i : ℕ) (ts : Trees) (st : Pinning)
        → i + trees_size ts ≤ total
        → HasTurn st.connector
        → (st' : Pinning) × (pin_nodes posts cids replication i ts st ≡ some st')
          × Asked st (pins_in cid_of replication i ts) (arity_in ts) st'
    pin_nodes_lem i no_trees st low turn =
        (st, refl, (turn, sym (append_nil st.requests), omega arith))
    pin_nodes_lem i (tree_then t ts) st low turn =
        let (st', e, first) = pin_node_lem i t st (omega arith) turn in
        let (end, e', others) = pin_nodes_lem (i + tree_size t) ts st' (omega arith) first.0 in
        (
          end,
          rw (e) e',
          Asked-trans st st' end (pins cid_of replication i t)
              (pins_in cid_of replication (i + tree_size t) ts) (arity t) (arity_in ts) first
              others,
        )
