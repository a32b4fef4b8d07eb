-- ===== src/Server/Tests.antt =====
-- Runs of the repairs of a node, with the address 1: peers 2 and 3 repair the leaves 4, 5 and 6.
use ipfs_reliability.Prelude.{
  ℕ, ◌≡◌, ◌/◌, refl, arith, Bool, true, false, List, [], ◌∷◌, ◌++◌, none, some, length, lookup, put,
  if◌then◌else◌, ◌==◌, ◌>>=◌,
}
use mathlib.Core.Option
use ipfs_reliability.Server.Types.{
  Str, pending, failure, Metrics, no_metrics, CollabPeerInfo, CollaborativeRepairData,
  CollaborativeRepairOperation, CollaborativeRepairDone, UnitRepairDone, StrandRepairOperation,
  StrandRepairData, Server,
}
use ipfs_reliability.Server.Split.{shares, concat, peers_to_use}
use ipfs_reliability.Server.Split.Laws.{AllAtLeast, shares_right}
use ipfs_reliability.Server.Collab.{
  Answers, panicked, new_collab_data, new_peer, send_requests, report_unit_repair, report_peer,
  all_peers_done, all_repaired, start_collab_repair, returned,
}
use ipfs_reliability.Server.Collab.Settled.{AreSettled}
use ipfs_reliability.Server.Collab.Started.{Reachable, Reachable-AreSettled}
use ipfs_reliability.Server.Collab.Started
use ipfs_reliability.Server.Collab.Answer.{failed_peer_hidden, early_refusal_panics}
use ipfs_reliability.Server.Strand.{continue_strand_repair, strand_in_repair}
use ipfs_reliability.Server.Strand.Machine.{
  strand_status, next_status, continue_strand_repair_status,
}
use ipfs_reliability.Server.Node.{World, run, trigger_strand_repair, Request, Node, here}
use ipfs_reliability.Server.Node.Stalls.{is_sending, strand_repair_stalls}

abbrev leaves : List ℕ
leaves = 4 ∷ 5 ∷ 6 ∷ []

shares_right_example :
    (requests : List (List ℕ)) × (shares 2 leaves ≡ some requests)
    × (length requests ≡ 2)
    × (concat requests ≡ leaves)
    × AllAtLeast (length leaves / 2) requests
shares_right_example = shares_right 2 leaves (omega arith)

abbrev no_counts : Metrics
no_counts = record {
  parity_available = none;
  data_blocks_fetched = 0;
  data_blocks_cached = 0;
  data_blocks_unavailable = 0;
  data_blocks_error = 0;
  parity_blocks_fetched = 0;
  parity_blocks_cached = 0;
  parity_blocks_unavailable = 0;
  parity_blocks_error = 0;
}

abbrev operation : CollaborativeRepairOperation
operation = record { file_cid = 10; meta_cid = 11; depth = 1; origin = 9; num_peers = 2 }

abbrev from_peers : Answers
from_peers = record {
  leaves = some (4 ∷ 5 ∷ 6 ∷ []);
  getter = none;
  peers = some (2 ∷ 3 ∷ []);
  taken = true ∷ true ∷ [];
}

abbrev empty_server : Server
empty_server = record { address = 1; collab_data = []; strand_data = []; answers = [] }

unfoldable report_by : Str → Bool → UnitRepairDone
unfolding no_metrics
report_by peer ok = record {
  file_cid = 10;
  meta_cid = 11;
  origin = peer;
  repair_status = (4, ok) ∷ [];
  metrics = no_metrics;
}

unfoldable peer_of : Str → List (ℕ × Bool) → CollabPeerInfo
unfolding new_peer
peer_of name blocks = record (new_peer name 100) { allocated_blocks = blocks }

-- The node after it shared out the leaves.
unfoldable busy_file : CollaborativeRepairData
unfolding new_collab_data peer_of
busy_file = record (new_collab_data operation 100) {
  peers = (2, peer_of 2 ((4, false) ∷ [])) ∷ (3, peer_of 3 ((5, false) ∷ (6, false) ∷ [])) ∷ [];
}

unfoldable busy_server : Server
unfolding busy_file
busy_server = record empty_server { collab_data = (10, busy_file) ∷ [] }

starts_busy : start_collab_repair operation from_peers 100 empty_server ≡ returned busy_server
unfolding start_collab_repair busy_server lookup shares peers_to_use put
starts_busy = refl

Reachable-AreSettled_example : AreSettled (report_unit_repair (report_by 2 true) 200 busy_server)
Reachable-AreSettled_example = Reachable-AreSettled (
    Started.report (report_by 2 true) 200
      (Started.collab operation from_peers 100 Started.started starts_busy))

abbrev failed_peer : CollabPeerInfo
failed_peer = record {
  name = 2;
  start_time = 100;
  end_time = 200;
  status = failure;
  allocated_blocks = [];
  metrics = no_counts;
}

abbrev idle_peer : CollabPeerInfo
idle_peer = record failed_peer { name = 3; status = pending }

abbrev half_done : CollaborativeRepairData
half_done = record {
  file_cid = 10;
  meta_cid = 11;
  depth = 1;
  status = pending;
  start_time = 100;
  end_time = 0;
  peers = (2, failed_peer) ∷ (3, idle_peer) ∷ [];
  origin = 9;
  metrics = no_counts;
}

abbrev half_server : Server
half_server = record empty_server { collab_data = (10, half_done) ∷ [] }

abbrev good_report : UnitRepairDone
good_report = record {
  file_cid = 10;
  meta_cid = 11;
  origin = 3;
  repair_status = (5, true) ∷ [];
  metrics = no_counts;
}

finds_file : lookup 10 half_server.collab_data ≡ some half_done
unfolding lookup
finds_file = refl

finds_idle : lookup 3 half_done.peers ≡ some idle_peer
unfolding lookup
finds_idle = refl

finds_failed : lookup 2 half_done.peers ≡ some failed_peer
unfolding lookup
finds_failed = refl

all_then_done :
    all_peers_done (put 3 (report_peer good_report 300 idle_peer) half_done.peers) ≡ true
unfolding all_peers_done put report_peer
all_then_done = refl

good_leaves : all_repaired good_report.repair_status ≡ true
unfolding all_repaired
good_leaves = refl

failed_peer_hidden_example :
    let s' = report_unit_repair good_report 300 half_server in
    (Option.map (λ file. file.status) (lookup 10 s'.collab_data) ≡ some failure)
    × (s'.answers
        ≡ [] ++ record { file_cid = 10; meta_cid = 11; origin = 1; repair_status = true } ∷ [])
failed_peer_hidden_example =
    failed_peer_hidden good_report 300 half_server half_done idle_peer failed_peer 2 finds_file
      finds_idle finds_failed refl (omega arith) all_then_done good_leaves (omega arith)

early_refusal_panics_example :
    send_requests
      (2 ∷ 3 ∷ 4 ∷ [])
      ((5 ∷ []) ∷ (6 ∷ []) ∷ [])
      100
      (false ∷ true ∷ true ∷ [])
      0
      0
      half_done
    ≡ panicked
early_refusal_panics_example =
    early_refusal_panics (2 ∷ 3 ∷ 4 ∷ []) ((5 ∷ []) ∷ (6 ∷ []) ∷ []) 100 (omega arith) half_done
      (omega arith)

abbrev strand_entry : StrandRepairData
strand_entry = record {
  file_cid = 10;
  meta_cid = 11;
  strand = 1;
  depth = 1;
  status = pending;
  start_time = 100;
  end_time = 0;
}

abbrev strand_server : Server
strand_server = record empty_server { strand_data = (10, strand_entry) ∷ [] }

abbrev collab_done : CollaborativeRepairDone
collab_done = record { file_cid = 10; meta_cid = 11; origin = 1; repair_status = true }

abbrev always : Str → Str → ℕ → Bool
always file meta strand = true

continue_strand_repair_status_example :
    strand_status 10 ((continue_strand_repair collab_done always 200 strand_server).0) ≡ (
      if 10 == 10
      then (lookup 10 strand_server.strand_data >>= λ d.
          some (next_status true (always 10 11 d.strand) d.status))
      else strand_status 10 strand_server)
continue_strand_repair_status_example =
    continue_strand_repair_status collab_done always 200 strand_server 10

abbrev strand_operation : StrandRepairOperation
strand_operation = record { file_cid = 10; meta_cid = 11; strand = 1; depth = 1 }

abbrev world : World
world = record { now = 100; answers = from_peers; repair_strand = always; monitored = λ _. true }

abbrev stalled : Node
stalled = record {
  daemon = run world (trigger_strand_repair strand_operation) empty_server;
  handlers = [];
  buffered = [];
}

nothing_to_repair : strand_in_repair (lookup 10 empty_server.strand_data) ≡ false
unfolding lookup strand_in_repair
nothing_to_repair = refl

strand_repair_stalls_example :
    (is_sending stalled.daemon ≡ true) × ((later : List Request) × (stalled.handlers ≡ [] ++ later))
strand_repair_stalls_example =
    strand_repair_stalls world strand_operation empty_server [] stalled nothing_to_repair here
