-- ===== src/Lattice/Recover/Sound.antt =====
-- A recovery returns only true data, and leaves no block behind in repair.
use ipfs_reliability.Prelude.{
  ℕ, zero, suc, ◌≡◌, refl, ◌∙◌, arith, ap, subst, ◌⊎◌, Bool, true, false, List, [], ◌∷◌, Option,
  none, some,
}
use ipfs_reliability.Prelude.{get_elem?, set, get_elem?-set, ◌>>=◌, >>=-eq-some, some_inj}
use ipfs_reliability.Bytes.{xor_chunk_data}
use ipfs_reliability.Block.{
  Cell, Start, started, refused, waits, start_repair, get_data, recover, set_data, finish_repair,
  is_repair_pending,
}
use ipfs_reliability.Block.Effects.{
  Adds, recover-Adds, set_data-Adds, start_repair-Adds, finish_repair-Adds,
}
use ipfs_reliability.Lattice.{Node}
use ipfs_reliability.Lattice.Recover.{
  BlockPair, BlockGetter, Returned, get_recover_pairs, fetch, get_data_from, if_ok, if_recovered,
  rebuild_from, try_right, try_pair, try_pairs, sequential_repair, finish_at, download_or_repair,
  if_started, sequential_recover_helper, get_data_from_block,
}
use ipfs_reliability.Lattice.Recover.Evolves.{
  Evolves, Evolves-refl, Evolves-trans, Evolves-weaken, Evolves-set, Evolves-close, IsTrue,
  available_at, pending_at, nothing, only,
}

-- The two parts of each pair have the block as their XOR.
abbrev pub PairsMake : (ℕ → List ℕ) → ℕ → List BlockPair → Type 0
PairsMake truth ptr [] = Unit {0}
PairsMake truth ptr (pair ∷ rest) =
    (xor_chunk_data (truth pair.left) (truth pair.right) ≡ truth ptr) × PairsMake truth ptr rest

module _ (truth : ℕ → List ℕ) where
  abbrev VisitIsSound : (ℕ → List Cell → Option (List Cell)) → Type 0
  VisitIsSound visit =
      (x : ℕ) (cells cells' : List Cell)
      → IsTrue truth cells
      → visit x cells ≡ some cells'
      → Evolves truth nothing cells cells'

  -- What an attempt at the block at ptr may do; after a success the block is out of repair.
  record Attempt (ptr : ℕ) (cells : List Cell) (done : List Cell × Bool) : Type 0 where
    evolves : Evolves truth (only ptr) cells done.0
    released : done.1 ≡ true → pending_at done.0 ptr ≡ false

  abbrev IsAttempt : ℕ → (List Cell → Returned Bool) → Type 0
  IsAttempt ptr f =
      (cells : List Cell) (done : List Cell × Bool)
      → IsTrue truth cells
      → f cells ≡ some done
      → Attempt ptr cells done

  Attempt-after :
      {ptr : ℕ} {cells mid : List Cell} {done : List Cell × Bool}
      → Evolves truth (only ptr) cells mid
      → Attempt ptr mid done
      → Attempt ptr cells done
  Attempt-after {ptr} h k = record {
    evolves = Evolves-trans truth (only ptr) h k.evolves;
    released = k.released;
  }

  get_data_from_sound :
      (visit : ℕ → List Cell → Option (List Cell))
      → VisitIsSound visit
      → (x : ℕ) (cells : List Cell) (done : List Cell × Option (List ℕ)) → IsTrue truth cells
      → get_data_from visit x cells ≡ some done
      → Evolves truth nothing cells done.0 × (available_at done.0 x ≡ done.1)
  unfolding get_data_from
  get_data_from_sound visit ok x cells done t h =
      let (cells', visited, h') = >>=-eq-some (visit x cells) _ h in
      let (b, at_x, h'') = >>=-eq-some (get_elem? cells' x) _ h' in
      subst
        (λ (d : List Cell × Option (List ℕ)).
          Evolves truth nothing cells d.0 × (available_at d.0 x ≡ d.1))
        (some_inj h'') (ok x cells cells' t visited, ap (λ (o : Option Cell). o >>= get_data) at_x)

  if_recovered_sound :
      (ptr : ℕ) (b : Cell) (o : Option Cell) (go_on : List Cell → Returned Bool)
      → ((b' : Cell) → o ≡ some b' → Adds (truth ptr) b b' × (is_repair_pending b'.status ≡ false))
      → IsAttempt ptr go_on
      → (cells : List Cell) (done : List Cell × Bool) → IsTrue truth cells
      → get_elem? cells ptr ≡ some b
      → if_recovered o ptr go_on cells ≡ some done
      → Attempt ptr cells done
  unfolding if_recovered
  if_recovered_sound ptr b none go_on new ok cells done t at_ptr h = ok cells done t h
  if_recovered_sound ptr b (some b') go_on new ok cells done t at_ptr h =
      let (adds, ended) = new b' refl in
      subst (λ (d : List Cell × Bool). Attempt ptr cells d) (some_inj h)
        (record {
          evolves = Evolves-set truth cells ptr b b' at_ptr adds.keeps adds.adds;
          released = λ _. rw (get_elem?-set cells ptr ptr b' b at_ptr) (ground arith);
        })

  rebuild_from_sound :
      (ptr : ℕ) (v w : List ℕ) (go_on : List Cell → Returned Bool)
      → xor_chunk_data v w ≡ truth ptr
      → IsAttempt ptr go_on
      → IsAttempt ptr (rebuild_from ptr v go_on w)
  unfolding rebuild_from
  rebuild_from_sound ptr v w go_on made ok cells done t h =
      let (b, at_ptr, h') = >>=-eq-some (get_elem? cells ptr) _ h in
      if_recovered_sound ptr b (recover v w b) go_on (λ b' e. rw made at (recover-Adds v w b b' e))
        ok cells done t at_ptr h'

  if_ok_sound :
      (ptr : ℕ) (o : Option (List ℕ)) (go_on : List Cell → Returned Bool)
      (use_chunk : List ℕ → List Cell → Returned Bool)
      → IsAttempt ptr go_on
      → ((v : List ℕ) → o ≡ some v → IsAttempt ptr (use_chunk v))
      → IsAttempt ptr (if_ok o go_on use_chunk)
  unfolding if_ok
  if_ok_sound ptr none go_on use_chunk ok uses = ok
  if_ok_sound ptr (some v) go_on use_chunk ok uses = uses v refl

  module _ (visit : ℕ → List Cell → Option (List Cell)) (visit_ok : VisitIsSound visit)
      (ptr : ℕ) where
    try_right_sound :
        (right : ℕ) (v : List ℕ) (go_on : List Cell → Returned Bool)
        → xor_chunk_data v (truth right) ≡ truth ptr
        → IsAttempt ptr go_on
        → IsAttempt ptr (try_right visit ptr right go_on v)
    unfolding try_right
    try_right_sound right v go_on made ok cells done t h =
        let (got, e, h') = >>=-eq-some (get_data_from visit right cells) _ h in
        let (step, read) = get_data_from_sound visit visit_ok right cells got t e in
        let t' = step.sound t in
        Attempt-after (Evolves-weaken truth (only ptr) step) (
          if_ok_sound ptr got.1 go_on (rebuild_from ptr v go_on) ok
            (λ w is_w.
              rebuild_from_sound ptr v w go_on
                (ap (xor_chunk_data v) (t' right w (read ∙ is_w)) ∙ made) ok)
            got.0 done t' h')

    try_pair_sound :
        (pair : BlockPair) (go_on : List Cell → Returned Bool)
        → xor_chunk_data (truth pair.left) (truth pair.right) ≡ truth ptr
        → IsAttempt ptr go_on
        → IsAttempt ptr (try_pair visit ptr pair go_on)
    unfolding try_pair
    try_pair_sound pair go_on made ok cells done t h =
        let (got, e, h') = >>=-eq-some (get_data_from visit pair.left cells) _ h in
        let (step, read) = get_data_from_sound visit visit_ok pair.left cells got t e in
        let t' = step.sound t in
        Attempt-after (Evolves-weaken truth (only ptr) step) (
          if_ok_sound ptr got.1 go_on (try_right visit ptr pair.right go_on) ok
            (λ v is_v.
              try_right_sound pair.right v go_on
                (ap (λ (c : List ℕ). xor_chunk_data c (truth pair.right))
                    (t' pair.left v (read ∙ is_v))
                  ∙ made)
                ok)
            got.0 done t' h')

    try_pairs_sound :
        (pairs : List BlockPair)
        → PairsMake truth ptr pairs
        → IsAttempt ptr (try_pairs visit ptr pairs)
    unfolding try_pairs
    try_pairs_sound [] made cells done t h =
        subst (λ (d : List Cell × Bool). Attempt ptr cells d) (some_inj h)
          (record { evolves = Evolves-refl truth (only ptr) cells; released = λ e. cc })
    try_pairs_sound (pair ∷ rest) made cells done t h =
        try_pair_sound pair (try_pairs visit ptr rest) made.0 (try_pairs_sound rest made.1) cells
          done t h

module _ (getter : BlockGetter) (nodes : List Node) (truth : ℕ → List ℕ)
    (honest : (ptr : ℕ) (node : Node) (v : List ℕ)
      → get_elem? nodes ptr ≡ some node
      → fetch getter node ≡ some v
      → v ≡ truth ptr)
    (entangled : (ptr : ℕ) (pairs : List BlockPair)
      → get_recover_pairs nodes ptr ≡ some pairs
      → PairsMake truth ptr pairs) where
  -- The end of a visit: the block is out of repair, as it was before.
  finish_at_sound :
      (ptr : ℕ) (success : Bool) (cells mid cells' : List Cell)
      → Evolves truth (only ptr) cells mid
      → pending_at cells ptr ≡ false
      → (success ≡ true → pending_at mid ptr ≡ false)
      → finish_at getter nodes ptr success mid ≡ some cells'
      → Evolves truth nothing cells cells'
  unfolding finish_at
  finish_at_sound ptr success cells mid cells' h idle released e =
      let (b, at_ptr, e') = >>=-eq-some (get_elem? mid ptr) _ e in
      let (adds, ended) =
        finish_repair-Adds (truth ptr) success b (λ ok. rw at_ptr at (released ok)) in
      let last =
        Evolves-set truth mid ptr b (finish_repair success b) at_ptr adds.keeps adds.adds in
      let closed =
        Evolves-close truth ptr cells (set mid ptr (finish_repair success b))
          (Evolves-trans truth (only ptr) h last) idle
          (rw (get_elem?-set mid ptr ptr (finish_repair success b) b at_ptr) (ground arith)) in
      subst (λ (c : List Cell). Evolves truth nothing cells c) (some_inj e') closed

  sequential_repair_sound :
      (depth : ℕ) (visit : ℕ → List Cell → Option (List Cell))
      → VisitIsSound truth visit
      → (ptr : ℕ) → IsAttempt truth ptr (sequential_repair getter nodes depth visit ptr)
  unfolding sequential_repair
  sequential_repair_sound zero visit ok ptr cells done t h =
      subst (λ (d : List Cell × Bool). Attempt truth ptr cells d) (some_inj h)
        (record { evolves = Evolves-refl truth (only ptr) cells; released = λ e. cc })
  sequential_repair_sound (suc depth) visit ok ptr cells done t h =
      let (pairs, e, h') = >>=-eq-some (get_recover_pairs nodes ptr) _ h in
      try_pairs_sound truth visit ok ptr pairs (entangled ptr pairs e) cells done t h'

  module _ (depth : ℕ) (visit : ℕ → List Cell → Option (List Cell))
      (ok : VisitIsSound truth visit) where
    download_or_repair_sound :
        (o : Option (List ℕ)) (ptr : ℕ) (b : Cell) (cells mid cells' : List Cell)
        → ((v : List ℕ) → o ≡ some v → v ≡ truth ptr)
        → IsTrue truth mid
        → get_elem? mid ptr ≡ some b
        → Evolves truth (only ptr) cells mid
        → pending_at cells ptr ≡ false
        → download_or_repair getter nodes o depth visit ptr b mid ≡ some cells'
        → Evolves truth nothing cells cells'
    unfolding download_or_repair
    download_or_repair_sound (some v) ptr b cells mid cells' right t at_ptr h idle e =
        let (adds, ended) = set_data-Adds v false b in
        let adds' : (u : List ℕ)
            → get_data (set_data v false b) ≡ some u
            → (get_data b ≡ some u) ⊎ (u ≡ truth ptr) =
          λ u g.
            subst (λ (w : List ℕ). (get_data b ≡ some u) ⊎ (u ≡ w)) (right v refl)
              (adds.adds u g) in
        let got = set_data v false b in
        finish_at_sound ptr true cells (set mid ptr got) cells'
          (Evolves-trans truth (only ptr) h
            (Evolves-set truth mid ptr b got at_ptr adds.keeps adds'))
          idle (λ _. rw (get_elem?-set mid ptr ptr got b at_ptr) (ground arith)) e
    download_or_repair_sound none ptr b cells mid cells' right t at_ptr h idle e =
        let (done, repaired, e') =
          >>=-eq-some (sequential_repair getter nodes depth visit ptr mid) _ e in
        let attempt = sequential_repair_sound depth visit ok ptr mid done t repaired in
        finish_at_sound ptr done.1 cells done.0 cells'
          (Evolves-trans truth (only ptr) h attempt.evolves) idle attempt.released e'

    if_started_sound :
        (rid ptr : ℕ) (b : Cell) (o : Start) (cells cells' : List Cell)
        → start_repair false rid b ≡ o
        → get_elem? cells ptr ≡ some b
        → IsTrue truth cells
        → if_started getter nodes o depth visit ptr cells ≡ some cells'
        → Evolves truth nothing cells cells'
    unfolding if_started
    if_started_sound rid ptr b refused cells cells' s at_ptr t e =
        subst (λ (c : List Cell). Evolves truth nothing cells c) (some_inj e)
          (Evolves-refl truth nothing cells)
    if_started_sound rid ptr b waits cells cells' s at_ptr t e = cc
    if_started_sound rid ptr b (started b') cells cells' s at_ptr t e =
        let (node, at_node, e') = >>=-eq-some (get_elem? nodes ptr) _ e in
        let (adds, idle, _, _) = start_repair-Adds (truth ptr) rid b b' s in
        let mid = set cells ptr b' in
        let step = Evolves-set truth cells ptr b b' at_ptr adds.keeps adds.adds in
        download_or_repair_sound (fetch getter node) ptr b' cells mid cells'
          (λ v f. honest ptr node v at_node f) (step.sound t)
          (rw (get_elem?-set cells ptr ptr b' b at_ptr) (ground arith)) step (rw at_ptr idle) e'

  pub sequential_recover_helper_sound :
      (depth rid : ℕ) → VisitIsSound truth (sequential_recover_helper getter nodes depth rid)
  unfolding sequential_recover_helper
  sequential_recover_helper_sound zero rid ptr cells cells' t e = cc
  sequential_recover_helper_sound (suc depth) rid ptr cells cells' t e =
      let (b, at_ptr, e') = >>=-eq-some (get_elem? cells ptr) _ e in
      if_started_sound depth (sequential_recover_helper getter nodes depth rid)
        (sequential_recover_helper_sound depth rid) rid ptr b (start_repair false rid b) cells
        cells' refl at_ptr t e'

  -- When getDataFromBlock returns, for a getter that returns only true data and blocks that are the
  -- XOR of the parts of each of their recover pairs: a block that it returns has the true data; no
  -- block lost data, no available block has other than the true data, and the blocks that requests
  -- were busy with are the same as before.
  pub get_data_from_block_sound :
      (depth rid ptr : ℕ) (cells : List Cell) (done : List Cell × Option (List ℕ))
      → IsTrue truth cells
      → get_data_from_block getter nodes depth rid ptr cells ≡ some done
      → Evolves truth nothing cells done.0 × ((v : List ℕ) → done.1 ≡ some v → v ≡ truth ptr)
  unfolding get_data_from_block
  get_data_from_block_sound zero rid ptr cells done t h =
      subst
        (λ (d : List Cell × Option (List ℕ)).
          Evolves truth nothing cells d.0 × ((v : List ℕ) → d.1 ≡ some v → v ≡ truth ptr))
        (some_inj h) (Evolves-refl truth nothing cells, λ v e. cc)
  get_data_from_block_sound (suc depth) rid ptr cells done t h =
      let visit = sequential_recover_helper getter nodes (suc depth) rid in
      let (step, read) =
        get_data_from_sound truth visit (sequential_recover_helper_sound (suc depth) rid) ptr cells
          done t (ground arith) in
      (step, λ v e. step.sound t ptr v (read ∙ e))
