-- ===== src/Monitor/Inspector/Rounds.antt =====
-- The inspection of one block, and of a sample of blocks, of Server/inspector.go.
use ipfs_reliability.Prelude.{
  ℕ, ◌+◌, Bool, true, false, List, [], ◌∷◌, ◌++◌, Option, none, some, ◌>>=◌, ◌==◌, ltb, ◌||◌,
  if◌then◌else◌, length, take, lookup, put, remove,
}
use ipfs_reliability.Lattice.{Node}
use ipfs_reliability.Server.Types.{Str}
use ipfs_reliability.Monitor.{Floats, ClusterPeer, WatchedBlock, FileStats}
use ipfs_reliability.Monitor.Inspector.{
  Regions, Inspection, Estimates, Answers, Repair, of_file, of_strand, health_sample_size,
  health_depth, clamp_number, pick_neighbour, pick_retry, choose_pick,
}

module _ (f : Floats) (e : Estimates f) (a : Answers) where
  -- pickInFailedRegion for parity blocks; for data blocks it finds nothing.
  unfoldable pub pick_in_failed_region : Regions → List (ℕ × WatchedBlock f) → Option ℕ
  pick_in_failed_region regions [] = none
  pick_in_failed_region regions ((i, block) ∷ rest) =
      let later = pick_in_failed_region regions rest in
      elim (lookup block.peer.region regions) [ none ↦ later | some names ↦ some i ]

  unfoldable pub update_block_prob : f.float → Bool → FileStats f → FileStats f
  update_block_prob tested from_insights stats = record stats {
    estimated_block_prob = e.blend from_insights stats.estimated_block_prob tested;
  }

  unfoldable pub missing_of : Bool → FileStats f → List (ℕ × WatchedBlock f)
  missing_of is_data stats =
      if is_data then stats.data_blocks_missing else stats.parity_blocks_missing

  -- selectBlockHeuristic for the kind of block that the first coin chose; `n` is the number below 8,
  -- `tries`, `at` and `random` are the later random numbers, `row` has the blocks of this kind. The answer
  -- is the number and fromInsights; `none` is a panic.
  unfoldable pub select_block_heuristic :
      Bool → ℕ → List (ℕ × ℕ) → ℕ → ℕ → List ℕ → List Node → Inspection f → Option (ℕ × Bool)
  unfolding missing_of pick_in_failed_region
  select_block_heuristic is_data n tries at random row nodes st = do
    let blocks = missing_of is_data st.stats
    neighbour ← if ltb n 2 then pick_neighbour tries blocks row nodes else some none
    let region =
        if is_data
        then none
        else pick_in_failed_region st.regions st.stats.valid_parity_blocks_history
    some (choose_pick n neighbour region (pick_retry at blocks) random)

  unfoldable pub set_missing : Bool → List (ℕ × WatchedBlock f) → FileStats f → FileStats f
  set_missing is_data blocks stats =
      if is_data
      then record stats { data_blocks_missing = blocks }
      else record stats { parity_blocks_missing = blocks }

  -- The peer of the first allocation, with its region if it has a name.
  unfoldable pub allocated_peer : List Str → Option ClusterPeer
  allocated_peer [] = none
  allocated_peer (name ∷ rest) =
      some (record { name = name; region = if name == 0 then 0 else a.region_of name })

  unfoldable pub names_in : Option (List Str) → List Str
  names_in none = []
  names_in (some names) = names

  -- The region of a peer that lost a block, when it has a name and a region.
  unfoldable pub note_region : ClusterPeer → Regions → Regions
  unfolding names_in
  note_region peer regions =
      if peer.name == 0 || peer.region == 0
      then regions
      else put peer.region (names_in (lookup peer.region regions) ++ peer.name ∷ []) regions

  unfoldable pub note_missing : Bool → ℕ → Bool → WatchedBlock f → Inspection f → Inspection f
  unfolding missing_of set_missing update_block_prob
  note_missing is_data number from_insights block st = record st {
    stats =
        update_block_prob block.probability from_insights
          (set_missing is_data (put number block (missing_of is_data st.stats)) st.stats);
  }

  unfoldable pub new_watched : Str → ClusterPeer → WatchedBlock f
  new_watched cid peer = record { cid = cid; peer = peer; probability = e.third }

  -- handleMissingBlock for a parity block that was not missing: the peer that the pin is allocated to.
  unfoldable pub new_missing_parity :
      ℕ → Str → Bool → Option ClusterPeer → Inspection f → Inspection f × Bool
  unfolding note_region note_missing new_watched
  new_missing_parity number cid from_insights none st = (st, true)
  new_missing_parity number cid from_insights (some peer) st = (
    note_missing false number from_insights (new_watched cid peer)
        (record st { regions = note_region peer st.regions }),
    false,
  )

  unfoldable pub peer_of_pin : Str → Option ClusterPeer
  unfolding allocated_peer
  peer_of_pin cid = a.allocations cid >>= allocated_peer

  -- handleMissingBlock at the time `now`; the Boolean is what it returns.
  unfoldable pub new_missing : ℕ → Bool → ℕ → Str → Bool → Inspection f → Inspection f × Bool
  unfolding note_missing new_watched new_missing_parity peer_of_pin
  new_missing now is_data number cid from_insights st =
      let noted = record st { timestamps = st.timestamps ++ now ∷ [] } in
      if is_data
      then (
        note_missing true number from_insights (new_watched cid (record { name = 0; region = 0 }))
            noted,
        false,
      )
      else new_missing_parity number cid from_insights (peer_of_pin cid) noted

  unfoldable pub handle_missing_block :
      ℕ → Bool → ℕ → Str → Bool → Inspection f → Inspection f × Bool
  unfolding missing_of note_missing new_missing
  handle_missing_block now is_data number cid from_insights st =
      elim (lookup number (missing_of is_data st.stats)) [
        | none ↦ new_missing now is_data number cid from_insights st
        | some block ↦ (
          note_missing is_data number from_insights
              (record block { probability = e.divide_by_three block.probability }) st,
          false,
        )
      ]

  -- The loop of ComputeHealth over the sample, with the valid blocks so far.
  unfoldable pub sample_blocks : ℕ → List ℕ → ℕ → Inspection f → Inspection f × ℕ
  unfolding handle_missing_block update_block_prob
  sample_blocks now [] valid st = (st, valid)
  sample_blocks now (number ∷ rest) valid st =
      let there = record st {
        stats = record (update_block_prob f.one false st.stats) {
          data_blocks_missing = remove number st.stats.data_blocks_missing;
        };
      } in
      let cid = a.data_cid number in
      let lost = if cid == 0 then st else (handle_missing_block now true number cid false st).0 in
      let ok = a.data_there number health_depth in
      sample_blocks now rest (if ok then valid + 1 else valid) (if ok then there else lost)

  -- ComputeHealth; `perm` is the random permutation of the data blocks, whose slice panics if it is
  -- shorter than the sample.
  unfoldable pub compute_health : ℕ → List ℕ → Inspection f → Option (Inspection f × f.float)
  unfolding sample_blocks
  compute_health now perm st =
      if ltb (length perm) health_sample_size
      then none
      else let (st', valid) = sample_blocks now (take health_sample_size perm) 0 st in
        some (st', e.sample_share valid)

  -- A parity block that is there: its peer is noted when it is not known with its region.
  unfoldable pub note_valid : ℕ → Str → FileStats f → FileStats f
  unfolding peer_of_pin
  note_valid number cid stats =
      let peer : ClusterPeer = elim (peer_of_pin cid) [
        | none ↦ record { name = 0; region = 0 }
        | some p ↦ p
      ] in
      record stats {
        valid_parity_blocks_history =
            put number (record { cid = cid; peer = peer; probability = f.one })
              stats.valid_parity_blocks_history;
      }

  -- InspectFile where the block is there.
  unfoldable pub block_found : Bool → ℕ → Str → Inspection f → Inspection f
  unfolding update_block_prob note_valid missing_of set_missing
  block_found is_data number cid st =
      let stats = update_block_prob f.one false st.stats in
      let cleared = set_missing is_data (remove number (missing_of is_data stats)) stats in
      record st { stats = if is_data then cleared else note_valid number cid cleared }

  unfoldable pub set_health : Inspection f × f.float → Option (Inspection f × List Repair)
  set_health (st, health) = some (
    record st { stats = record (st.stats) { health = health } },
    if e.under_repair_threshold health then of_file ∷ [] else [],
  )

  -- After handleMissingBlock: ComputeHealth when the estimate is low.
  unfoldable pub check_health : ℕ → List ℕ → Inspection f → Option (Inspection f × List Repair)
  check_health now perm st =
      let checked = compute_health now perm st >>= set_health in
      if e.under_block_threshold st.stats.estimated_block_prob then checked else some (st, [])

  unfoldable pub block_missing :
      ℕ → List ℕ → Bool → ℕ → Str → Bool → Inspection f → Option (Inspection f × List Repair)
  block_missing now perm is_data number cid from_insights st =
      let (st', stop) = handle_missing_block now is_data number cid from_insights st in
      if stop then some (st', []) else check_health now perm st'

  unfoldable pub cid_of : Bool → ℕ → Str
  cid_of is_data number = if is_data then a.data_cid number else a.parity_cid number

  unfoldable pub is_there : Bool → ℕ → Bool
  is_there is_data number = if is_data then a.data_there number 1 else a.parity_there number

  -- InspectFile for the selected block, `blocks` being the number of blocks of its kind; `none` is a
  -- panic.
  unfoldable pub inspect_block :
      ℕ → List ℕ → ℕ → Bool → ℕ → Bool → Inspection f → Option (Inspection f × List Repair)
  inspect_block now perm blocks is_data selected from_insights st =
      let number = clamp_number selected blocks in
      let cid = cid_of is_data number in
      if cid == 0
      then some (st, (if is_data then of_file else of_strand st.stats.strand_number) ∷ [])
      else if is_there is_data number
      then some (block_found is_data number cid st, [])
      else block_missing now perm is_data number cid from_insights st
