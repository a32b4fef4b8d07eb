-- ===== src/Lattice/Recover/Total.antt =====
-- A recovery always returns: it ends, meets no nil link, and never sleeps on a block of its own.
use ipfs_reliability.Prelude.{
  ℕ, zero, suc, ◌≡◌, ◌≢◌, ◌<◌, refl, ◌∙◌, arith, Bool, true, false, List, [], ◌∷◌, Option, none,
  some,
}
use ipfs_reliability.Prelude.{length, get_elem?, set, get_elem?-set, length-set, get_elem?-of_lt}
use ipfs_reliability.Block.{
  Cell, Start, started, refused, waits, start_repair, get_data, recover, set_data, finish_repair,
  is_repair_pending,
}
use ipfs_reliability.Block.Effects.{recover-Adds, set_data-Adds}
use ipfs_reliability.Lattice.{Node}
use ipfs_reliability.Lattice.Recover.{
  BlockPair, BlockGetter, Returned, get_recover_pairs, fetch, get_data_from, if_ok, if_recovered,
  rebuild_from, try_right, try_pair, try_pairs, sequential_repair, finish_at, download_or_repair,
  if_started, sequential_recover_helper, get_data_from_block,
}
use ipfs_reliability.Lattice.Recover.Evolves.{pending_at, request_at}

-- There are n blocks, and no request but `rid` is busy with one.
pub record Ready (n rid : ℕ) (cells : List Cell) : Type 0 where
  pub size : length cells ≡ n
  pub mine : (q : ℕ) → pending_at cells q ≡ true → request_at cells q ≡ rid

abbrev pub AreBelow : ℕ → List BlockPair → Type 0
AreBelow n [] = Unit {0}
AreBelow n (pair ∷ rest) = (pair.left < n) × (pair.right < n) × AreBelow n rest

finish_repair_ended :
    (success : Bool) (b : Cell) → is_repair_pending (finish_repair success b).status ≡ false
unfolding finish_repair
finish_repair_ended success b = ground arith

-- A request that comes to a block that it is itself busy with is refused, it does not sleep.
never_waits :
    (rid : ℕ) (b : Cell)
    → (is_repair_pending b.status ≡ true → b.curr_request ≡ rid)
    → start_repair false rid b ≢ waits
unfolding start_repair
never_waits rid b mine = ground arith

started_as : (rid : ℕ) (b b' : Cell) → start_repair false rid b ≡ started b' → b'.curr_request ≡ rid
unfolding start_repair
started_as rid b b' s = ground arith

module _ (n rid : ℕ) where
  Ready-set :
      (cells : List Cell) (x : ℕ) (b b' : Cell)
      → Ready n rid cells
      → get_elem? cells x ≡ some b
      → (is_repair_pending b'.status ≡ true → b'.curr_request ≡ rid)
      → Ready n rid (set cells x b')
  Ready-set cells x b b' h at_x own = record {
    size = length-set cells x b' ∙ h.size;
    mine = λ q p. ground (arith, get_elem?-set cells x q b' b at_x, h.mine q);
  }

  abbrev VisitReturns : (ℕ → List Cell → Option (List Cell)) → Type 0
  VisitReturns visit =
      (x : ℕ) (cells : List Cell)
      → x < n
      → Ready n rid cells
      → (cells' : List Cell) × (visit x cells ≡ some cells') × Ready n rid cells'

  abbrev Returns : {A : Type 0} → (List Cell → Returned A) → Type 0
  Returns {A} f =
      (cells : List Cell)
      → Ready n rid cells
      → (done : List Cell × A) × (f cells ≡ some done) × Ready n rid done.0

  get_data_from-Returns :
      (visit : ℕ → List Cell → Option (List Cell))
      → VisitReturns visit
      → (x : ℕ) → x < n
      → Returns (get_data_from visit x)
  unfolding get_data_from
  get_data_from-Returns visit ok x below cells h =
      let (cells', e, h') = ok x cells below h in
      let (b, at_x) = get_elem?-of_lt cells' x (omega (arith, h'.size)) in
      ((cells', get_data b), rw (e, at_x) refl, h')

  if_recovered-Returns :
      (ptr : ℕ) (b : Cell) (o : Option Cell) (go_on : List Cell → Returned Bool)
      → ((b' : Cell) → o ≡ some b' → is_repair_pending b'.status ≡ false)
      → Returns go_on
      → (cells : List Cell) → get_elem? cells ptr ≡ some b
      → Ready n rid cells
      → (done : List Cell × Bool) × (if_recovered o ptr go_on cells ≡ some done)
        × Ready n rid done.0
  unfolding if_recovered
  if_recovered-Returns ptr b none go_on new ok cells at_ptr h = ok cells h
  if_recovered-Returns ptr b (some b') go_on new ok cells at_ptr h =
      ((set cells ptr b', true), refl, Ready-set cells ptr b b' h at_ptr (λ p. cc (new b' refl)))

  rebuild_from-Returns :
      (ptr : ℕ) (v w : List ℕ) (go_on : List Cell → Returned Bool)
      → ptr < n
      → Returns go_on
      → Returns (rebuild_from ptr v go_on w)
  unfolding rebuild_from
  rebuild_from-Returns ptr v w go_on below ok cells h =
      let (b, at_ptr) = get_elem?-of_lt cells ptr (omega (arith, h.size)) in
      let (done, e, h') =
        if_recovered-Returns ptr b (recover v w b) go_on (λ b' r. (recover-Adds v w b b' r).1) ok
          cells at_ptr h in
      (done, rw at_ptr e, h')

  if_ok-Returns :
      (o : Option (List ℕ)) (go_on : List Cell → Returned Bool)
      (use_chunk : List ℕ → List Cell → Returned Bool)
      → Returns go_on
      → ((v : List ℕ) → Returns (use_chunk v))
      → Returns (if_ok o go_on use_chunk)
  unfolding if_ok
  if_ok-Returns none go_on use_chunk ok uses cells h = ok cells h
  if_ok-Returns (some v) go_on use_chunk ok uses cells h = uses v cells h

  module _ (visit : ℕ → List Cell → Option (List Cell)) (visit_ok : VisitReturns visit) (ptr : ℕ)
      (below : ptr < n) where
    try_right-Returns :
        (right : ℕ) (v : List ℕ) (go_on : List Cell → Returned Bool)
        → right < n
        → Returns go_on
        → Returns (try_right visit ptr right go_on v)
    unfolding try_right
    try_right-Returns right v go_on low ok cells h =
        let (got, e, h') = get_data_from-Returns visit visit_ok right low cells h in
        let (done, e', h'') =
          if_ok-Returns got.1 go_on (rebuild_from ptr v go_on) ok
            (λ w. rebuild_from-Returns ptr v w go_on below ok) got.0 h' in
        (done, rw e e', h'')

    try_pair-Returns :
        (pair : BlockPair) (go_on : List Cell → Returned Bool)
        → pair.left < n
        → pair.right < n
        → Returns go_on
        → Returns (try_pair visit ptr pair go_on)
    unfolding try_pair
    try_pair-Returns pair go_on low low' ok cells h =
        let (got, e, h') = get_data_from-Returns visit visit_ok pair.left low cells h in
        let (done, e', h'') =
          if_ok-Returns got.1 go_on (try_right visit ptr pair.right go_on) ok
            (λ v. try_right-Returns pair.right v go_on low' ok) got.0 h' in
        (done, rw e e', h'')

    try_pairs-Returns :
        (pairs : List BlockPair) → AreBelow n pairs → Returns (try_pairs visit ptr pairs)
    unfolding try_pairs
    try_pairs-Returns [] low cells h = ((cells, false), refl, h)
    try_pairs-Returns (pair ∷ rest) low cells h =
        try_pair-Returns pair (try_pairs visit ptr rest) low.0 low.1 (try_pairs-Returns rest low.2)
          cells h

module _ (getter : BlockGetter) (nodes : List Node)
    (linked : (ptr : ℕ)
      → ptr < length nodes
      → (pairs : List BlockPair) × (get_recover_pairs nodes ptr ≡ some pairs)
        × AreBelow (length nodes) pairs) where
  module _ (rid : ℕ) where
    finish_at_returns :
        (ptr : ℕ) (success : Bool) (cells : List Cell)
        → ptr < length nodes
        → Ready (length nodes) rid cells
        → (cells' : List Cell) × (finish_at getter nodes ptr success cells ≡ some cells')
          × Ready (length nodes) rid cells'
    unfolding finish_at
    finish_at_returns ptr success cells below h =
        let (b, at_ptr) = get_elem?-of_lt cells ptr (omega (arith, h.size)) in
        (
          set cells ptr (finish_repair success b),
          rw at_ptr refl,
          Ready-set (length nodes) rid cells ptr b (finish_repair success b) h at_ptr
              (λ p. cc (finish_repair_ended success b)),
        )

    module _ (depth : ℕ) (visit : ℕ → List Cell → Option (List Cell))
        (visit_ok : 0 < depth → VisitReturns (length nodes) rid visit) (ptr : ℕ)
        (below : ptr < length nodes) where
      sequential_repair-Returns :
          (d : ℕ)
          → (0 < d → VisitReturns (length nodes) rid visit)
          → Returns (length nodes) rid (sequential_repair getter nodes d visit ptr)
      unfolding sequential_repair
      sequential_repair-Returns zero ok cells h = ((cells, false), refl, h)
      sequential_repair-Returns (suc d) ok cells h =
          let (pairs, is_pairs, low) = linked ptr below in
          let (done, e, h') =
            try_pairs-Returns (length nodes) rid visit (ok (omega arith)) ptr below pairs low cells
              h in
          (done, rw is_pairs e, h')

      download_or_repair_returns :
          (o : Option (List ℕ)) (b : Cell) (cells : List Cell)
          → Ready (length nodes) rid cells
          → get_elem? cells ptr ≡ some b
          → (cells' : List Cell) × (download_or_repair getter nodes o depth visit ptr b cells
              ≡ some cells')
            × Ready (length nodes) rid cells'
      unfolding download_or_repair
      download_or_repair_returns (some v) b cells h at_ptr =
          finish_at_returns ptr true (set cells ptr (set_data v false b)) below (
            Ready-set (length nodes) rid cells ptr b (set_data v false b) h at_ptr
              (λ p. cc ((set_data-Adds v false b).1)))
      download_or_repair_returns none b cells h at_ptr =
          let (done, e, h') = sequential_repair-Returns depth visit_ok cells h in
          let (cells', e', h'') = finish_at_returns ptr done.1 done.0 below h' in
          (cells', rw e e', h'')

      if_started_returns :
          (b : Cell) (o : Start) (cells : List Cell)
          → start_repair false rid b ≡ o
          → get_elem? cells ptr ≡ some b
          → Ready (length nodes) rid cells
          → (cells' : List Cell) × (if_started getter nodes o depth visit ptr cells ≡ some cells')
            × Ready (length nodes) rid cells'
      unfolding if_started
      if_started_returns b refused cells s at_ptr h = (cells, refl, h)
      if_started_returns b waits cells s at_ptr h =
          ground (arith, never_waits rid b (λ p. ground (arith, h.mine ptr)) s)
      if_started_returns b (started b') cells s at_ptr h =
          let (node, at_node) = get_elem?-of_lt nodes ptr below in
          let mid =
            Ready-set (length nodes) rid cells ptr b b' h at_ptr (λ p. started_as rid b b' s) in
          let (cells', e, h') =
            download_or_repair_returns (fetch getter node) b' (set cells ptr b') mid
              (get_elem?-set cells ptr ptr b' b at_ptr ∙ ground arith) in
          (cells', rw at_node e, h')

    sequential_recover_helper_returns :
        (depth : ℕ)
        → 0 < depth
        → VisitReturns (length nodes) rid (sequential_recover_helper getter nodes depth rid)
    unfolding sequential_recover_helper
    sequential_recover_helper_returns zero p ptr cells below h = ground arith
    sequential_recover_helper_returns (suc depth) p ptr cells below h =
        let (b, at_ptr) = get_elem?-of_lt cells ptr (omega (arith, h.size)) in
        let (cells', e, h') =
          if_started_returns depth (sequential_recover_helper getter nodes depth rid)
            (sequential_recover_helper_returns depth) ptr below b (start_repair false rid b) cells
            refl at_ptr h in
        (cells', rw at_ptr e, h')

  -- With links that stay within the lattice, and no other request that is busy with a block: a
  -- recovery returns, at any depth, and afterwards no other request is busy with a block either.
  pub get_data_from_block_returns :
      (depth rid ptr : ℕ) (cells : List Cell)
      → ptr < length nodes
      → Ready (length nodes) rid cells
      → (done : List Cell × Option (List ℕ)) × (get_data_from_block getter nodes depth rid ptr cells
          ≡ some done)
        × Ready (length nodes) rid done.0
  unfolding get_data_from_block
  get_data_from_block_returns zero rid ptr cells below h = ((cells, none), refl, h)
  get_data_from_block_returns (suc depth) rid ptr cells below h =
      let (done, e, h') =
        get_data_from-Returns (length nodes) rid
          (sequential_recover_helper getter nodes (suc depth) rid)
          (sequential_recover_helper_returns rid (suc depth) (omega arith)) ptr below cells h in
      (done, ground arith, h')
