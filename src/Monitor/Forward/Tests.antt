-- ===== src/Monitor/Forward/Tests.antt =====
-- Runs with the pin of every CID on two peers, of which only one has an address.
use ipfs_reliability.Prelude.{
  ℕ, true, ◌≡◌, ◌↔◌, ◌+◌, ◌/◌, ◌==◌, refl, if◌then◌else◌, Option, List, [], ◌∷◌, none, some, lookup,
}
use mathlib.Core.List
use mathlib.Core.List.{Memᴰ}
use ipfs_reliability.Server.Types.{Str}
use ipfs_reliability.Monitor.{Floats, FileStats, Monitor}
use ipfs_reliability.Client.Metadata.{ForwardMonitoringRequest}
use ipfs_reliability.Monitor.Forward.{
  Directory, Post, start_monitor, reset_monitor, forward_monitoring, reset_monitors,
}
use ipfs_reliability.Monitor.Forward.Sent.{IsForwarded, forward_monitoring_right}

abbrev percents : Floats
percents = record { float = ℕ; one = 100; mean = λ a b. (a + b) / 2 }

abbrev directory : Directory
directory = record {
  allocations = λ cid. some (3 ∷ 4 ∷ []);
  community_address = λ peer. if peer == 4 then none else some (50 + peer);
}

abbrev two_roots : ForwardMonitoringRequest
two_roots = record { file_cid = 5; metadata_cid = 6; strand_root_cids = 7 ∷ 8 ∷ [] }

abbrev first_post : Post percents
first_post = (53, start_monitor (record { file_cid = 5; metadata_cid = 6; strand_root_cid = 7 }))

abbrev second_post : Post percents
second_post = (53, start_monitor (record { file_cid = 5; metadata_cid = 6; strand_root_cid = 8 }))

forwards : forward_monitoring percents directory two_roots ≡ first_post ∷ second_post ∷ []
unfolding forward_monitoring List.flat_map
forwards = refl

abbrev shared_file : FileStats percents
shared_file = record {
  file_cid = 5;
  metadata_cid = 6;
  strand_root_cid = 7;
  strand_number = 0;
  data_blocks_missing = [];
  parity_blocks_missing = [];
  valid_parity_blocks_history = [];
  estimated_block_prob = 100;
  health = 100;
}

abbrev no_trees : Str → Option (List Str)
no_trees cid = some (7 ∷ [])

abbrev one_monitored : Monitor percents
one_monitored = record { files = (5, shared_file) ∷ []; locked = true }

resets :
    reset_monitors percents directory no_trees 5 true one_monitored
    ≡ some ((53, reset_monitor 5 true) ∷ [])
unfolding reset_monitors List.flat_map lookup
resets = refl

not_monitored : reset_monitors percents directory no_trees 9 true one_monitored ≡ none
unfolding reset_monitors lookup
not_monitored = refl

forward_monitoring_right_example :
    Memᴰ second_post (forward_monitoring percents directory two_roots)
    ↔ IsForwarded percents directory two_roots second_post
forward_monitoring_right_example = forward_monitoring_right percents directory two_roots second_post
