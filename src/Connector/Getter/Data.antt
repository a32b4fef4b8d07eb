-- ===== src/Connector/Getter/Data.antt =====
-- GetData over a tree whose CIDs and links agree with those of the file: it returns, and what it
-- returns is the block of that node.
use ipfs_reliability.Prelude.{
  ℕ, zero, suc, ◌≡◌, ◌≢◌, ◌<◌, inl, inr, refl, ◌∙◌, sym, arith, subst, false, List, Option, none,
  some, Bool-cases, Option-cases,
}
use ipfs_reliability.Prelude.{
  length, get_elem?, set, get_elem?-set, length-set, get_elem?-of_lt, lookup, ◌==◌, if◌then◌else◌,
  lt-length_of_get_elem?,
}
use ipfs_reliability.Connector.Getter.{
  EmptyTreeNode, TreeCell, IpfsGetter, GetterState, Outcome, elem, populate, keep_data,
  data_unavailable, data_cached, data_fetched, fetch_data, after_parent, ask_parent, get_data_round,
  get_data_loop, get_node_data, cached_or, get_data,
}
use ipfs_reliability.Connector.Getter.Truth.{
  AreLinks, cid_at, data_at, IsTreeOf, IsTrue, populate-links, Serves,
}

module _ (true_cid rank : ℕ → ℕ) (root : ℕ) (g : IpfsGetter)
    (tree : IsTreeOf true_cid rank root g) where
  -- What a call for the node at ptr gives.
  pub record IsAnswer (ptr : ℕ) (st : GetterState) (answer : Option (List ℕ)) : Type 0 where
    pub holds : IsTrue true_cid root g st.data_cells
    pub right : (d : List ℕ) → answer ≡ some d → g.shell.block_get (true_cid ptr) ≡ some d
    pub kept : (d : List ℕ) → answer ≡ some d → data_at st.data_cells ptr ≡ some d
    pub complete : Serves true_cid g → (d : List ℕ) × (answer ≡ some d)

  keep_data-IsTrue :
      (ptr : ℕ) (node : EmptyTreeNode) (ls bytes : List ℕ) (cells : List TreeCell)
      → get_elem? g.nodes ptr ≡ some node
      → AreLinks true_cid ls node.children
      → g.shell.block_get (true_cid ptr) ≡ some bytes
      → IsTrue true_cid root g cells
      → (cells' : List TreeCell) × (populate ls node.children cells ≡ some cells')
        × (cells'' : List TreeCell) × (keep_data ptr bytes cells' ≡ some cells'')
        × IsTrue true_cid root g cells''
        × (data_at cells'' ptr ≡ some bytes)
  unfolding keep_data
  keep_data-IsTrue ptr node ls bytes cells at_ptr aligned is_block h =
      let (cells', e, size, same, cids) =
        populate-links true_cid ls node.children cells aligned
          (λ c m. omega (arith, h.size, tree.below ptr c node at_ptr m)) in
      let in_range : ptr < length cells' =
        omega (arith, size, h.size, lt-length_of_get_elem? g.nodes ptr node at_ptr) in
      let (cell, at') = get_elem?-of_lt cells' ptr in_range in
      let after = set cells' ptr (record cell { data_of = some bytes }) in
      let look =
        λ (q : ℕ). get_elem?-set cells' ptr q (record cell { data_of = some bytes }) cell at' in
      let cids' : (q : ℕ)
          → cid_at after q ≡ (if elem q node.children then true_cid q else cid_at cells q) =
        λ q. ground (arith, look q, at') ∙ cids q in
      let data' : (q : ℕ) → data_at after q ≡ (if ptr == q then some bytes else data_at cells q) =
        λ q. ground (arith, look q, same q) in
      (
        cells',
        e,
        after,
        rw (at') refl,
        record {
          size = length-set cells' ptr (record cell { data_of = some bytes }) ∙ size ∙ h.size;
          cids = λ q. ground (arith, cids' q, h.cids q);
          bytes = λ q d p. ground (arith, data' q, h.bytes q d, is_block);
          linked = λ q c d node' p at_q m.
              ground
                (arith, data' q, cids' c, tree.not_empty c, h.linked q c d node', at_q, at_ptr, m);
          root_known = ground (arith, cids' root, tree.not_empty root, h.root_known);
        },
        data' ptr ∙ ground arith,
      )

  abbrev Returns : ℕ → Outcome → Type 0
  Returns ptr outcome =
      (done : GetterState × Option (List ℕ)) × (outcome ≡ some done) × IsAnswer ptr done.0 done.1

  -- An error that the call reports, when the shell or the filter is at fault.
  fails :
      (ptr : ℕ) (st st' : GetterState)
      → st'.data_cells ≡ st.data_cells
      → IsTrue true_cid root g st.data_cells
      → ¬ Serves true_cid g
      → Returns ptr (some (st', none))
  fails ptr st st' same h why = (
    (st', none),
    refl,
    record {
      holds = subst (λ (cells : List TreeCell). IsTrue true_cid root g cells) (sym same) h;
      right = λ d e. cc;
      kept = λ d e. cc;
      complete = λ serves. absurd (why serves);
    },
  )

  fetch_data-Returns :
      (ptr : ℕ) (node : EmptyTreeNode) (st : GetterState)
      → get_elem? g.nodes ptr ≡ some node
      → IsTrue true_cid root g st.data_cells
      → Returns ptr (fetch_data g.shell (true_cid ptr) ptr node.children st)
  unfolding fetch_data data_unavailable data_fetched
  fetch_data-Returns ptr node st at_ptr h =
      let below = lt-length_of_get_elem? g.nodes ptr node at_ptr in
      elim (Option-cases (g.shell.object_get (true_cid ptr))) [
        | inl e ↦
            let why : ¬ Serves true_cid g =
              λ serves. let (ls, e') = serves.objects ptr below in cc in
            rw (fetch_data, e) (fails ptr st (data_unavailable st) refl h why)
        | inr (ls, e) ↦ elim (Option-cases (g.shell.block_get (true_cid ptr))) [
          | inl f ↦
              let why : ¬ Serves true_cid g =
                λ serves. let (d, f') = serves.blocks ptr below in cc in
              rw (fetch_data, e, f) (fails ptr st (data_unavailable st) refl h why)
          | inr (d, f) ↦
              let (cells', p, cells'', k, h', there) =
                keep_data-IsTrue ptr node ls d st.data_cells at_ptr
                  (tree.links ptr ls node e at_ptr) f h in
              (
                (data_fetched cells'' st, some d),
                rw (fetch_data, e, f, p, k) refl,
                record {
                  holds = h';
                  right = λ d' q. f ∙ q;
                  kept = λ d' q. there ∙ q;
                  complete = λ serves. (d, refl);
                },
              )
        ]
      ]

  -- A round that knows the CID of the node.
  round-Returns_known :
      (recur : ℕ → GetterState → Outcome) (go_on : GetterState → Outcome) (index ptr : ℕ)
      (st : GetterState)
      → ptr < length g.nodes
      → cid_at st.data_cells ptr ≢ 0
      → IsTrue true_cid root g st.data_cells
      → Returns ptr (get_data_round g recur go_on index ptr st)
  unfolding get_data_round
  round-Returns_known recur go_on index ptr st below known h =
      let (node, at_ptr) = get_elem?-of_lt g.nodes ptr below in
      let (cell, at_cell) = get_elem?-of_lt st.data_cells ptr (omega (arith, h.size)) in
      let is_true : cell.cid ≡ true_cid ptr = ground (arith, h.cids ptr) in
      let test : (cell.cid == 0) ≡ false = ground arith in
      rw (at_ptr, at_cell, test, is_true) (fetch_data-Returns ptr node st at_ptr h)

  -- GetData of indexes of rank below n.
  abbrev RecursReturning : ℕ → (ℕ → GetterState → Outcome) → Type 0
  RecursReturning n recur =
      (j q : ℕ) (st : GetterState)
      → rank j < n
      → lookup j g.node_map ≡ some q
      → IsTrue true_cid root g st.data_cells
      → Returns q (recur j st)

  ask_parent-Returns :
      (recur : ℕ → GetterState → Outcome) (go_on : GetterState → Outcome) (n index ptr : ℕ)
      (st : GetterState)
      → RecursReturning n recur
      → rank index < suc n
      → lookup index g.node_map ≡ some ptr
      → ptr ≢ root
      → IsTrue true_cid root g st.data_cells
      → (0 < n
          → (st' : GetterState) → cid_at st'.data_cells ptr ≢ 0
          → IsTrue true_cid root g st'.data_cells
          → Returns ptr (go_on st'))
      → Returns ptr (ask_parent g recur go_on index st)
  unfolding ask_parent after_parent data_unavailable
  ask_parent-Returns recur go_on n index ptr st returns low at_index inner h next =
      elim (tree.parents index ptr at_index) [
        | inl is_root ↦ absurd (inner is_root)
        | inr (j, q, parent, up, at_j, at_q, child, lower) ↦
            let test : (j == index) ≡ false = ground arith in
            let ((st', o), e, answer) = returns j q st (omega arith) at_j h in
            elim (Option-cases o) [
              | inl nothing ↦
                  let why : ¬ Serves true_cid g =
                    λ serves. let (d, got) = answer.complete serves in cc in
                  rw (ask_parent, up, test, e, nothing)
                    (fails ptr st' (data_unavailable st') refl answer.holds why)
              | inr (d, got) ↦
                  rw (ask_parent, up, test, e, got)
                    (next (omega arith) st'
                      (answer.holds.linked q ptr d parent (answer.kept d got) at_q child)
                      answer.holds)
            ]
      ]

  round-Returns :
      (recur : ℕ → GetterState → Outcome) (go_on : GetterState → Outcome) (n index ptr : ℕ)
      (st : GetterState)
      → RecursReturning n recur
      → rank index < suc n
      → lookup index g.node_map ≡ some ptr
      → IsTrue true_cid root g st.data_cells
      → (0 < n
          → (st' : GetterState) → cid_at st'.data_cells ptr ≢ 0
          → IsTrue true_cid root g st'.data_cells
          → Returns ptr (go_on st'))
      → Returns ptr (get_data_round g recur go_on index ptr st)
  unfolding get_data_round
  round-Returns recur go_on n index ptr st returns low at_index h next =
      let below = tree.mapped index ptr at_index in
      let (node, at_ptr) = get_elem?-of_lt g.nodes ptr below in
      let (cell, at_cell) = get_elem?-of_lt st.data_cells ptr (omega (arith, h.size)) in
      elim (Bool-cases (cell.cid == 0)) [
        | inl unknown ↦
            let inner : ptr ≢ root = λ is_root. ground (arith, h.root_known) in
            rw (at_ptr, at_cell, unknown)
              (ask_parent-Returns recur go_on n index ptr st returns low at_index inner h next)
        | inr known ↦ round-Returns_known recur go_on index ptr st below (ground arith) h
      ]

  loop-Returns :
      (recur : ℕ → GetterState → Outcome) (n index ptr : ℕ) (st : GetterState)
      → RecursReturning n recur
      → rank index < suc n
      → lookup index g.node_map ≡ some ptr
      → IsTrue true_cid root g st.data_cells
      → Returns ptr (get_data_loop g recur (suc n) index ptr st)
  unfolding get_data_loop
  loop-Returns recur zero index ptr st returns low at_index h =
      round-Returns recur (get_data_loop g recur 0 index ptr) 0 index ptr st returns low at_index h
        (λ p. absurd (omega arith))
  loop-Returns recur (suc n) index ptr st returns low at_index h =
      round-Returns recur (get_data_loop g recur (suc n) index ptr) (suc n) index ptr st returns low
        at_index h
        (λ p st' known h'.
          round-Returns_known recur (get_data_loop g recur n index ptr) index ptr st'
            (tree.mapped index ptr at_index) known h')

  get_node_data-Returns :
      (loop : GetterState → Outcome) (ptr : ℕ) (st : GetterState)
      → ptr < length g.nodes
      → IsTrue true_cid root g st.data_cells
      → Returns ptr (loop st)
      → Returns ptr (get_node_data loop ptr st)
  unfolding get_node_data cached_or data_cached
  get_node_data-Returns loop ptr st below h again =
      let (cell, at_cell) = get_elem?-of_lt st.data_cells ptr (omega (arith, h.size)) in
      elim (Option-cases cell.data_of) [
        | inl nothing ↦ rw (at_cell, nothing) again
        | inr (d, there) ↦
            let is_there : data_at st.data_cells ptr ≡ some d = rw (data_at, at_cell) there in
            (
              (data_cached st, some d),
              rw (at_cell, there) refl,
              record {
                holds = h;
                right = λ d' q. h.bytes ptr d' (is_there ∙ q);
                kept = λ d' q. is_there ∙ q;
                complete = λ serves. (d, refl);
              },
            )
      ]

  get_data-Returns : (n : ℕ) → RecursReturning n (get_data g n)
  unfolding get_data
  get_data-Returns zero j q st low at_j h = absurd (omega arith)
  get_data-Returns (suc n) j q st low at_j h = elim (Bool-cases (elem j g.data_filter)) [
    | inl out ↦
        let why : ¬ Serves true_cid g = λ serves. let free = serves.unfiltered j in cc in
        rw (out) (fails q st (data_unavailable st) refl h why)
    | inr fine ↦
        rw (fine, at_j)
          (get_node_data-Returns (get_data_loop g (get_data g n) (suc n) j q) q st
            (tree.mapped j q at_j) h
            (loop-Returns (get_data g n) n j q st (get_data-Returns n) low at_j h))
  ]

-- With a tree that is that of the file, an index of the tree, and fuel above its rank: GetData
-- returns. Afterwards all CIDs and data in the tree are still true ones; data that it returns is the
-- block of the true CID of that node; and if the shell has all blocks of the file and nothing is
-- filtered, it does return data.
pub get_data_right :
    (true_cid rank : ℕ → ℕ) (root : ℕ) (g : IpfsGetter) (n index ptr : ℕ) (st : GetterState)
    → IsTreeOf true_cid rank root g
    → lookup index g.node_map ≡ some ptr
    → rank index < n
    → IsTrue true_cid root g st.data_cells
    → (done : GetterState × Option (List ℕ)) × (get_data g n index st ≡ some done)
      × IsTrue true_cid root g done.0.data_cells
      × ((d : List ℕ) → done.1 ≡ some d → g.shell.block_get (true_cid ptr) ≡ some d)
      × (Serves true_cid g → (d : List ℕ) × (done.1 ≡ some d))
get_data_right true_cid rank root g n index ptr st tree at_index fuel h =
    let (done, e, answer) =
      get_data-Returns true_cid rank root g tree n index ptr st fuel at_index h in
    (done, e, answer.holds, answer.right, answer.complete)
