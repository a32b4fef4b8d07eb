-- ===== src/Monitor/Inspector/Outcome.antt =====
-- What an inspection notes of a block, and when it fails.
use ipfs_reliability.Prelude.{
  ℕ, ◌≡◌, refl, sym, ap, ◌∙◌, arith, Bool, true, false, not, ◌&&◌, List, [], ◌∷◌, ◌++◌, Option,
  none, some, ◌>>=◌, inl, inr, Bool-cases, ◌==◌, if◌then◌else◌, length, lookup, put, lookup-put,
  append_nil,
}
use mathlib.Core.Option
use ipfs_reliability.Server.Types.{Str}
use ipfs_reliability.Lattice.{Node}
use ipfs_reliability.Monitor.{Floats, ClusterPeer, WatchedBlock, FileStats}
use ipfs_reliability.Monitor.Inspector.{pick_neighbour, Regions, Inspection, Estimates, Answers}
use ipfs_reliability.Monitor.Inspector.Rounds.{
  missing_of, set_missing, update_block_prob, new_watched, note_missing, names_in, note_region,
  new_missing_parity, allocated_peer, peer_of_pin, new_missing, handle_missing_block,
}

-- pickNeighbour does not look at which blocks are missing: with as many missing blocks it picks, for the
-- same random numbers, the same block.
pick_neighbour_blind {ℓ} :
    {B : Type ℓ} (draws : List (ℕ × ℕ)) (missing missing' : List (ℕ × B)) (row : List ℕ)
    (nodes : List Node)
    → length missing ≡ length missing'
    → pick_neighbour draws missing row nodes ≡ pick_neighbour draws missing' row nodes
unfolding pick_neighbour
pick_neighbour_blind draws missing missing' row nodes same = rw (same) refl

module _ (f : Floats) (e : Estimates f) (a : Answers) where
  -- Whether a map is the old one, but for this entry.
  abbrev pub IsOneMore :
      ℕ → Option (WatchedBlock f) → List (ℕ × WatchedBlock f) → List (ℕ × WatchedBlock f) → Type 0
  IsOneMore number entry old new =
      (other : ℕ) → lookup other new ≡ (if number == other then entry else lookup other old)

  put-IsOneMore :
      (number : ℕ) (block : WatchedBlock f) (old : List (ℕ × WatchedBlock f))
      → IsOneMore number (some block) old (put number block old)
  put-IsOneMore number block old other = lookup-put number other block old

  same-IsOneMore :
      (number : ℕ) (old : List (ℕ × WatchedBlock f))
      → lookup number old ≡ none
      → IsOneMore number none old old
  same-IsOneMore number old h other = elim (Bool-cases (number == other)) [
    | inl here ↦
        let same : lookup other old ≡ lookup number old =
          ap (λ (x : ℕ). lookup x old) (ground arith) in
        rw (here) (same ∙ h)
    | inr apart ↦ rw (apart) refl
  ]

  -- Nothing of the file's stats has changed but the two maps of missing blocks and the estimate.
  abbrev pub SameFile : FileStats f → FileStats f → Type 0
  SameFile old new =
      (new.file_cid ≡ old.file_cid)
      × (new.metadata_cid ≡ old.metadata_cid)
      × (new.strand_root_cid ≡ old.strand_root_cid)
      × (new.strand_number ≡ old.strand_number)
      × (new.valid_parity_blocks_history ≡ old.valid_parity_blocks_history)
      × (new.health ≡ old.health)

  abbrev or_none : Option (List Str) → List Str
  or_none none = []
  or_none (some names) = names

  -- The names of the peers that failed in a region.
  abbrev pub failed_in : Str → Regions → List Str
  failed_in region regions = or_none (lookup region regions)

  -- The failed peers after `lost` lost a block: it is one more in its region, if it has a name and one.
  abbrev pub AreFailed : Option ClusterPeer → Regions → Regions → Type 0
  AreFailed none old new = new ≡ old
  AreFailed (some peer) old new =
      (region : Str)
      → failed_in region new
        ≡ failed_in region old
          ++ (if not (peer.name == 0) && not (peer.region == 0) && (peer.region == region)
              then peer.name ∷ []
              else [])

  -- What there is to note of a new parity block.
  abbrev pub parity_noted : Str → Option (List Str) → Option (WatchedBlock f)
  parity_noted cid none = none
  parity_noted cid (some []) = none
  parity_noted cid (some (name ∷ names)) = some (record {
    cid = cid;
    peer = record { name = name; region = if name == 0 then 0 else a.region_of name };
    probability = e.third;
  })

  -- What is noted of a block that is not there, if anything: a chance divided by three if it was known to
  -- be missing, else 0.33; a new parity block with the first peer that its pin is allocated to.
  abbrev pub watched : Bool → Str → Option (WatchedBlock f) → Option (WatchedBlock f)
  watched is_data cid (some block) = some (record {
    cid = block.cid;
    peer = block.peer;
    probability = e.divide_by_three block.probability;
  })
  watched true cid none =
      some (record { cid = cid; peer = record { name = 0; region = 0 }; probability = e.third })
  watched false cid none = parity_noted cid (a.allocations cid)

  -- The peer that is taken to have failed: that of a parity block that was not known to be missing.
  abbrev pub lost_by : Bool → Option (WatchedBlock f) → Option (WatchedBlock f) → Option ClusterPeer
  lost_by true known noted = none
  lost_by false (some block) noted = none
  lost_by false none noted = Option.map (λ (b : WatchedBlock f). b.peer) noted

  abbrev pub estimate : Bool → FileStats f → Option (WatchedBlock f) → f.float
  estimate from_insights stats none = stats.estimated_block_prob
  estimate from_insights stats (some block) =
      e.blend from_insights stats.estimated_block_prob block.probability

  abbrev pub times_after : ℕ → List ℕ → Option (WatchedBlock f) → List ℕ
  times_after now times (some block) = times
  times_after now times none = times ++ now ∷ []

  -- What a call for this block has done: `noted` is what there is to note, `lost` the peer that failed,
  -- `times` the timestamps.
  pub record HasNoted (is_data : Bool) (number : ℕ) (from_insights : Bool)
      (noted : Option (WatchedBlock f)) (lost : Option ClusterPeer) (times : List ℕ)
      (st after : Inspection f) (stops : Bool) : Type 0 where
    pub one_more :
        IsOneMore number noted
          (missing_of f e a is_data st.stats)
          (missing_of f e a is_data after.stats)
    pub others :
        missing_of f e a (not is_data) after.stats ≡ missing_of f e a (not is_data) st.stats
    pub same_file : SameFile st.stats after.stats
    pub new_estimate : after.stats.estimated_block_prob ≡ estimate from_insights st.stats noted
    pub failed : AreFailed lost st.regions after.regions
    pub new_times : after.timestamps ≡ times
    pub stops_without : stops ≡ elim noted as (λ _. Bool) [ none ↦ true | some b ↦ false ]

  note_missing-HasNoted :
      (is_data : Bool) (number : ℕ) (from_insights : Bool) (block : WatchedBlock f)
      (lost : Option ClusterPeer) (old : Regions) (times : List ℕ) (st : Inspection f)
      → AreFailed lost old st.regions
      → HasNoted is_data number from_insights
          (some block)
          lost
          st.timestamps
          (record st { regions = old; timestamps = times })
          (note_missing f e a is_data number from_insights block st)
          false
  unfolding note_missing missing_of set_missing update_block_prob
  note_missing-HasNoted true number from_insights block lost old times st failed = record {
    one_more = put-IsOneMore number block st.stats.data_blocks_missing;
    others = refl;
    same_file = (refl, refl, refl, refl, refl, refl);
    new_estimate = refl;
    failed = failed;
    new_times = refl;
    stops_without = refl;
  }
  note_missing-HasNoted false number from_insights block lost old times st failed = record {
    one_more = put-IsOneMore number block st.stats.parity_blocks_missing;
    others = refl;
    same_file = (refl, refl, refl, refl, refl, refl);
    new_estimate = refl;
    failed = failed;
    new_times = refl;
    stops_without = refl;
  }

  or_none-if :
      (b : Bool) (names : List Str) (other : Option (List Str))
      → or_none (if b then some names else other) ≡ (if b then names else or_none other)
  or_none-if true names other = refl
  or_none-if false names other = refl

  failed_in-put :
      (region at : Str) (names : List Str) (regions : Regions)
      → failed_in region (put at names regions)
        ≡ (if at == region then names else failed_in region regions)
  failed_in-put region at names regions =
      ap or_none (lookup-put at region names regions)
      ∙ or_none-if (at == region) names (lookup region regions)

  names_in-failed : (found : Option (List Str)) → names_in f e a found ≡ or_none found
  unfolding names_in
  names_in-failed none = refl
  names_in-failed (some names) = refl

  note_region-AreFailed :
      (peer : ClusterPeer) (regions : Regions)
      → AreFailed (some peer) regions (note_region f e a peer regions)
  unfolding note_region
  note_region-AreFailed peer regions region = elim (Bool-cases (peer.name == 0)) [
    | inl nameless ↦ rw (nameless) (sym (append_nil (failed_in region regions)))
    | inr named ↦ elim (Bool-cases (peer.region == 0)) [
      | inl nowhere ↦ rw (named, nowhere) (sym (append_nil (failed_in region regions)))
      | inr somewhere ↦
          let names = names_in f e a (lookup peer.region regions) ++ peer.name ∷ [] in
          let after = failed_in-put region peer.region names regions in
          elim (Bool-cases (peer.region == region)) [
            | inl here ↦
                let same : peer.region ≡ region = ground arith in
                let names_same : names_in f e a (lookup peer.region regions)
                    ≡ failed_in region regions =
                  names_in-failed (lookup peer.region regions)
                  ∙ ap (λ (r : Str). failed_in r regions) same in
                rw (named, somewhere, here)
                  (after ∙ rw (here) (ap (λ (l : List Str). l ++ peer.name ∷ []) names_same))
            | inr apart ↦
                rw (named, somewhere, apart)
                  (after ∙ rw (apart) (sym (append_nil (failed_in region regions))))
          ]
    ]
  ]

  parity-HasNoted :
      (now number : ℕ) (cid : Str) (from_insights : Bool) (st : Inspection f)
      (found : Option (List Str))
      → lookup number (missing_of f e a false st.stats) ≡ none
      → let noted = parity_noted cid found in
        let done =
          new_missing_parity f e a number cid from_insights
            (found >>= allocated_peer f e a)
            (record st { timestamps = st.timestamps ++ now ∷ [] }) in
        HasNoted false number from_insights noted
          (lost_by false none noted)
          (st.timestamps ++ now ∷ [])
          st
          done.0
          done.1
  unfolding new_missing_parity allocated_peer new_watched missing_of
  parity-HasNoted now number cid from_insights st none new = record {
    one_more = same-IsOneMore number st.stats.parity_blocks_missing new;
    others = refl;
    same_file = (refl, refl, refl, refl, refl, refl);
    new_estimate = refl;
    failed = refl;
    new_times = refl;
    stops_without = refl;
  }
  parity-HasNoted now number cid from_insights st (some []) new = record {
    one_more = same-IsOneMore number st.stats.parity_blocks_missing new;
    others = refl;
    same_file = (refl, refl, refl, refl, refl, refl);
    new_estimate = refl;
    failed = refl;
    new_times = refl;
    stops_without = refl;
  }
  parity-HasNoted now number cid from_insights st (some (name ∷ names)) new =
      let peer : ClusterPeer = record {
        name = name;
        region = if name == 0 then 0 else a.region_of name;
      } in
      note_missing-HasNoted false number from_insights
        (record { cid = cid; peer = peer; probability = e.third }) (some peer) st.regions
        st.timestamps
        (record st {
          timestamps = st.timestamps ++ now ∷ [];
          regions = note_region f e a peer st.regions;
        })
        (note_region-AreFailed peer st.regions)

  by_lookup :
      (now : ℕ) (is_data : Bool) (number : ℕ) (cid : Str) (from_insights : Bool) (st : Inspection f)
      (known : Option (WatchedBlock f))
      → lookup number (missing_of f e a is_data st.stats) ≡ known
      → let noted = watched is_data cid known in
        let done = elim known as (λ _. Inspection f × Bool) [
          | none ↦ new_missing f e a now is_data number cid from_insights st
          | some block ↦ (
            note_missing f e a is_data number from_insights
                (record block { probability = e.divide_by_three block.probability })
                st,
            false,
          )
        ] in
        HasNoted is_data number from_insights noted
          (lost_by is_data known noted)
          (times_after now st.timestamps known)
          st
          done.0
          done.1
  unfolding new_missing peer_of_pin new_watched
  by_lookup now true number cid from_insights st (some block) h =
      note_missing-HasNoted true number from_insights
        (record block { probability = e.divide_by_three block.probability }) none st.regions
        st.timestamps st refl
  by_lookup now false number cid from_insights st (some block) h =
      note_missing-HasNoted false number from_insights
        (record block { probability = e.divide_by_three block.probability }) none st.regions
        st.timestamps st refl
  by_lookup now true number cid from_insights st none h =
      note_missing-HasNoted true number from_insights
        (record { cid = cid; peer = record { name = 0; region = 0 }; probability = e.third }) none
        st.regions st.timestamps (record st { timestamps = st.timestamps ++ now ∷ [] }) refl
  by_lookup now false number cid from_insights st none h =
      parity-HasNoted now number cid from_insights st (a.allocations cid) h

  -- handleMissingBlock changes only the entry of this block in the map of its kind, to what there is to
  -- note, the estimate, which what is noted is blended into, the failed peers and the timestamps; all else
  -- of the file's stats stays. It stops the inspection just when there is nothing to note, which is when
  -- the block is a parity block that was not known to be missing and whose pin has no allocation. It
  -- appends the time just when the block was not known to be missing; and the peer of a parity block that
  -- was not known to be missing is added to the failed peers of its region.
  pub handle_missing_block_right :
      (now : ℕ) (is_data : Bool) (number : ℕ) (cid : Str) (from_insights : Bool) (st : Inspection f)
      → let known = lookup number (missing_of f e a is_data st.stats) in
        let noted = watched is_data cid known in
        let done = handle_missing_block f e a now is_data number cid from_insights st in
        HasNoted is_data number from_insights noted
          (lost_by is_data known noted)
          (times_after now st.timestamps known)
          st
          done.0
          done.1
  unfolding handle_missing_block
  handle_missing_block_right now is_data number cid from_insights st =
      by_lookup now is_data number cid from_insights st
        (lookup number (missing_of f e a is_data st.stats)) refl
