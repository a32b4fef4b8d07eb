-- ===== src/Monitor/Tests.antt =====
-- Runs of the operations on the monitored files, with numbers for the probabilities.
use ipfs_reliability.Prelude.{
  ℕ, ◌≡◌, ◌+◌, ◌/◌, refl, false, List, [], ◌∷◌, Option, none, lookup, remove,
}
use ipfs_reliability.Server.Types.{Str}
use ipfs_reliability.Monitor.{
  Floats, FileStats, Monitor, Operation, StartMonitoringRequest, start_monitor_file,
  stop_monitor_file, goes_on, blocks, run_operation,
}
use ipfs_reliability.Monitor.Locks.{lost_metadata_blocks}
use ipfs_reliability.Monitor.Views.{prepare_update_view, unknown_view_blocks}

abbrev percents : Floats
percents = record { float = ℕ; one = 100; mean = λ a b. (a + b) / 2 }

abbrev one_file : FileStats percents
one_file = record {
  file_cid = 5;
  metadata_cid = 6;
  strand_root_cid = 7;
  strand_number = 0;
  data_blocks_missing = [];
  parity_blocks_missing = [];
  valid_parity_blocks_history = [];
  estimated_block_prob = 100;
  health = 100;
}

abbrev monitor : Monitor percents
monitor = record { files = (5, one_file) ∷ []; locked = false }

abbrev after_stop : Monitor percents
after_stop = record { files = (5, one_file) ∷ []; locked = false }

abbrev no_metadata : Str → Option (List Str)
no_metadata cid = none

abbrev a_request : StartMonitoringRequest
a_request = record { file_cid = 8; metadata_cid = 9; strand_root_cid = 10 }

stops : run_operation percents no_metadata (stop_monitor_file 8) monitor ≡ goes_on after_stop
unfolding run_operation remove
stops = refl

unknown_file : lookup 8 monitor.files ≡ none
unfolding lookup
unknown_file = refl

lost_metadata_blocks_example :
    (m' : Monitor percents) × (run_operation percents no_metadata
        (start_monitor_file a_request)
        monitor
      ≡ goes_on m')
    × (run_operation percents no_metadata (stop_monitor_file 5) m' ≡ blocks)
lost_metadata_blocks_example =
    lost_metadata_blocks percents no_metadata a_request monitor (stop_monitor_file 5) refl
      unknown_file refl

unknown_view_blocks_example :
    (op : Operation) × (prepare_update_view percents 8 one_file monitor ≡ (monitor, op ∷ []))
    × ((m' : Monitor percents) × (run_operation percents no_metadata op monitor ≡ goes_on m')
        × (run_operation percents no_metadata (stop_monitor_file 5) m' ≡ blocks))
unknown_view_blocks_example =
    unknown_view_blocks percents no_metadata 8 one_file monitor (stop_monitor_file 5) refl
      unknown_file refl
