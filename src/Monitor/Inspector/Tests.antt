-- ===== src/Monitor/Inspector/Tests.antt =====
-- Runs of the inspection of a file of three blocks, with numbers for the probabilities.
use ipfs_reliability.Prelude.{
  ℕ, ◌≡◌, ◌+◌, ◌*◌, ◌/◌, refl, if◌then◌else◌, true, false, [], ◌∷◌, none, some, ltb, lookup, put,
}
use ipfs_reliability.Lattice.{Node}
use ipfs_reliability.Monitor.{Floats, FileStats}
use ipfs_reliability.Monitor.Inspector.{Inspection, Estimates, Answers, pick_retry, choose_pick}
use ipfs_reliability.Monitor.Inspector.Rounds.{
  handle_missing_block, select_block_heuristic, missing_of,
}
use ipfs_reliability.Monitor.Inspector.Outcome.{
  handle_missing_block_right, HasNoted, watched, lost_by,
}

abbrev percents : Floats
percents = record { float = ℕ; one = 100; mean = λ a b. (a + b) / 2 }

abbrev estimates : Estimates percents
estimates = record {
  third = 33;
  divide_by_three = λ p. p / 3;
  blend = λ from_insights old tested.
      if from_insights then (old * 39 + tested) / 40 else (old * 19 + tested) / 20;
  sample_share = λ valid. valid * 10;
  under_block_threshold = λ p. ltb p 80;
  under_repair_threshold = λ p. ltb p 50;
}

abbrev answers : Answers
answers = record {
  data_there = λ number depth. false;
  data_cid = λ number. 20 + number;
  parity_there = λ number. false;
  parity_cid = λ number. 30 + number;
  allocations = λ cid. some (3 ∷ 4 ∷ []);
  region_of = λ name. 7;
}

abbrev low_file : FileStats percents
low_file = record {
  file_cid = 5;
  metadata_cid = 6;
  strand_root_cid = 7;
  strand_number = 0;
  data_blocks_missing = [];
  parity_blocks_missing = [];
  valid_parity_blocks_history = [];
  estimated_block_prob = 60;
  health = 100;
}

abbrev low : Inspection percents
low = record { stats = low_file; regions = []; timestamps = [] }

abbrev low_after : Inspection percents
low_after = record {
  stats = record low_file {
    data_blocks_missing =
        (1, record { cid = 21; peer = record { name = 0; region = 0 }; probability = 33 }) ∷ [];
    estimated_block_prob = 58;
  };
  regions = [];
  timestamps = 9 ∷ [];
}

abbrev middle : Node
middle = record {
  left_neighbors = some 0 ∷ [];
  right_neighbors = some 2 ∷ [];
  is_parity = false;
  index = 2;
  strand = 0;
  is_wrap_modified = false;
}

picks_retry : pick_retry {B = ℕ} 1 ((3, 0) ∷ (5, 0) ∷ []) ≡ some 5
unfolding pick_retry
picks_retry = refl

picks_region : choose_pick 3 (some 1) (some 2) none 6 ≡ (2, true)
unfolding choose_pick
picks_region = refl

low_handled :
    handle_missing_block percents estimates answers 9 true 1 21 false low ≡ (low_after, false)
unfolding handle_missing_block lookup put
low_handled = refl

selects_retry :
    select_block_heuristic percents estimates answers true 4 [] 0 2 (0 ∷ []) (middle ∷ []) low_after
    ≡ some (1, true)
unfolding select_block_heuristic missing_of pick_retry choose_pick
selects_retry = refl

handle_missing_block_right_example :
    let done = handle_missing_block percents estimates answers 9 false 1 31 true low in
    let noted = watched percents estimates answers false 31 none in
    HasNoted percents estimates answers false 1 true noted
      (lost_by percents estimates answers false none noted)
      (9 ∷ [])
      low
      done.0
      done.1
unfolding lookup missing_of
handle_missing_block_right_example =
    handle_missing_block_right percents estimates answers 9 false 1 31 true low
