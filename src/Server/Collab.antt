-- ===== src/Server/Collab.antt =====
-- StartCollabRepair and ReportUnitRepair of Server/repair.go, at the node that coordinates a repair.
-- What the client and other nodes answer are arguments: the failed leaves, the shuffled peers, and
-- the outcomes of the posts to /triggerUnitRepair. The clock stands still during a handler. Left out
-- are the log, the metrics posted to the discovery node, and errors of json.Marshal.
pub mod Settled
pub mod Started
pub mod Answer
use ipfs_reliability.Prelude.{
  ℕ, suc, Bool, true, false, not, ◌&&◌, List, [], ◌∷◌, ◌++◌, Option, none, some,
}
use ipfs_reliability.Prelude.{ltb, ◌==◌, if◌then◌else◌, length, get_elem?, lookup, put}
use ipfs_reliability.Server.Types.{
  Str, Time, RepairStatus, pending, success, failure, Metrics, no_metrics, CollabPeerInfo,
  CollaborativeRepairData, CollaborativeRepairOperation, CollaborativeRepairDone, UnitRepairDone,
  Server,
}
use ipfs_reliability.Server.Split.{peers_to_use, shares}

-- status == PENDING, and status == SUCCESS
abbrev pub is_pending : RepairStatus → Bool
is_pending pending = true
is_pending _ = false

abbrev pub is_success : RepairStatus → Bool
is_success success = true
is_success _ = false

unfoldable pub new_collab_data : CollaborativeRepairOperation → Time → CollaborativeRepairData
unfolding no_metrics
new_collab_data op now = record {
  file_cid = op.file_cid;
  meta_cid = op.meta_cid;
  depth = op.depth;
  status = pending;
  start_time = now;
  end_time = 0;
  peers = [];
  origin = op.origin;
  metrics = no_metrics;
}

unfoldable pub update_coordinator_metrics :
    Option Metrics → CollaborativeRepairData → CollaborativeRepairData
update_coordinator_metrics none d = d
update_coordinator_metrics (some m) d = record d { metrics = m }

unfoldable pub new_peer : Str → Time → CollabPeerInfo
unfolding no_metrics
new_peer name now = record {
  name = name;
  start_time = now;
  end_time = 0;
  status = pending;
  allocated_blocks = [];
  metrics = no_metrics;
}

-- The loop that sets AllocatedBlocks[leaf] to false.
unfoldable pub allocate : List ℕ → List (ℕ × Bool) → List (ℕ × Bool)
allocate [] blocks = blocks
allocate (leaf ∷ rest) blocks = allocate rest (put leaf false blocks)

unfoldable pub known_or_new : Option CollabPeerInfo → Str → Time → CollabPeerInfo
unfolding new_peer
known_or_new none name now = new_peer name now
known_or_new (some info) name now = info

-- What follows a request that a peer took.
unfoldable pub request_taken :
    Str → List ℕ → Time → CollaborativeRepairData → CollaborativeRepairData
unfolding known_or_new allocate
request_taken peer leaves now d =
    let info = known_or_new (lookup peer d.peers) peer now in
    record d {
      peers =
          put peer (record info { allocated_blocks = allocate leaves info.allocated_blocks })
            d.peers;
    }

-- Where the loop that sends the requests is after some answers.
pub data Sending : Type 0 where
  finished waiting : CollaborativeRepairData → Sending
  panicked : Sending

module _ (peers : List Str) (requests : List (List ℕ)) (now : Time) where
  -- i++, in circular fashion
  unfoldable pub next_peer : ℕ → ℕ
  next_peer i = if suc i == length peers then 0 else suc i

  -- The body of the loop, for peers[i] and jsonRequests[i]: an index out of range panics.
  unfoldable pub send_one :
      (ℕ → ℕ → CollaborativeRepairData → Sending)
      → Bool
      → ℕ
      → ℕ
      → Option Str
      → Option (List ℕ)
      → CollaborativeRepairData
      → Sending
  unfolding next_peer request_taken
  send_one go_on ok i sent (some peer) (some leaves) d =
      if ok
      then go_on (next_peer i) (suc sent) (request_taken peer leaves now d)
      else go_on (next_peer i) sent d
  send_one go_on ok i sent none leaves d = panicked
  send_one go_on ok i sent (some peer) none d = panicked

  -- The loop, with the answers to the posts in their order: true is status 200 without an error.
  unfoldable pub send_requests : List Bool → ℕ → ℕ → CollaborativeRepairData → Sending
  unfolding send_one
  send_requests [] i sent d = if ltb sent (length requests) then waiting d else finished d
  send_requests (ok ∷ answers) i sent d =
      let rest = send_requests answers in
      if ltb sent (length requests)
      then send_one rest ok i sent (get_elem? peers i) (get_elem? requests i) d
      else finished d

-- A handler of the daemon returns, panics, or still waits for an answer.
pub data Handled : Type 0 where
  returned unfinished : Server → Handled
  crashed : Handled

-- s.collabData[fileCID] = d
unfoldable pub put_collab : Str → CollaborativeRepairData → Server → Server
put_collab cid d s = record s { collab_data = put cid d s.collab_data }

unfoldable pub finish_collab : Str → RepairStatus → Time → CollaborativeRepairData → Server → Server
unfolding put_collab
finish_collab cid status now d s = put_collab cid (record d { status = status; end_time = now }) s

unfoldable pub handled_by : Str → Sending → Server → Handled
unfolding put_collab
handled_by cid (finished d) s = returned (put_collab cid d s)
handled_by cid (waiting d) s = unfinished (put_collab cid d s)
handled_by cid panicked s = crashed

-- From the division of the leaves on.
unfoldable pub hand_out :
    Str
    → Option (List (List ℕ))
    → List Str
    → List Bool
    → Time
    → CollaborativeRepairData
    → Server
    → Handled
unfolding handled_by send_requests
hand_out cid none peers answers now d s = crashed
hand_out cid (some requests) peers answers now d s =
    handled_by cid (send_requests peers requests now answers 0 0 d) s

unfoldable pub with_leaves :
    Str
    → ℕ
    → Option (List ℕ)
    → Option (List Str)
    → List Bool
    → Time
    → CollaborativeRepairData
    → Server
    → Handled
unfolding hand_out finish_collab
with_leaves cid num_peers none peers answers now d s = returned (finish_collab cid failure now d s)
with_leaves cid num_peers (some []) peers answers now d s =
    returned (finish_collab cid success now d s)
with_leaves cid num_peers (some (leaf ∷ leaves)) none answers now d s =
    returned (finish_collab cid failure now d s)
with_leaves cid num_peers (some (leaf ∷ leaves)) (some peers) answers now d s =
    hand_out cid
      (shares (peers_to_use num_peers (length peers) (length (leaf ∷ leaves))) (leaf ∷ leaves))
      peers answers now d s

-- Whether the file with this entry is in repair.
unfoldable pub in_repair : Option CollaborativeRepairData → Bool
in_repair none = false
in_repair (some d) = is_pending d.status

-- What the client and the cluster answer to one call of StartCollabRepair: the failed leaves and the
-- getter of RetrieveFailedLeaves, the shuffled list of getAllPeers, and the answers to the posts.
pub record Answers : Type 0 where
  pub leaves : Option (List ℕ)
  pub getter : Option Metrics
  pub peers : Option (List Str)
  pub taken : List Bool

unfoldable pub start_collab_repair :
    CollaborativeRepairOperation → Answers → Time → Server → Handled
unfolding in_repair new_collab_data update_coordinator_metrics with_leaves
start_collab_repair op from now s =
    if in_repair (lookup op.file_cid s.collab_data)
    then returned s
    else with_leaves op.file_cid op.num_peers from.leaves from.peers from.taken now
        (update_coordinator_metrics from.getter (new_collab_data op now)) s

-- The loop over RepairStatus: the leaves that are marked as repaired, and `success`.
unfoldable pub mark_leaves : List (ℕ × Bool) → List (ℕ × Bool) → List (ℕ × Bool)
mark_leaves [] blocks = blocks
mark_leaves ((leaf, ok) ∷ rest) blocks =
    mark_leaves rest (if ok then put leaf true blocks else blocks)

unfoldable pub all_repaired : List (ℕ × Bool) → Bool
all_repaired [] = true
all_repaired ((leaf, ok) ∷ rest) = ok && all_repaired rest

-- The metrics that a report changes: ParityBlocksError stays.
unfoldable pub report_metrics : Metrics → Metrics → Metrics
report_metrics old new = record new {
  parity_available = elim old.parity_available [ none ↦ none | some _ ↦ new.parity_available ];
  parity_blocks_error = old.parity_blocks_error;
}

unfoldable pub report_peer : UnitRepairDone → Time → CollabPeerInfo → CollabPeerInfo
unfolding report_metrics mark_leaves all_repaired
report_peer op now info = record info {
  end_time = now;
  metrics = report_metrics info.metrics op.metrics;
  allocated_blocks = mark_leaves op.repair_status info.allocated_blocks;
  status = if all_repaired op.repair_status then success else failure;
}

unfoldable pub all_peers_done : List (Str × CollabPeerInfo) → Bool
all_peers_done [] = true
all_peers_done ((name, peer) ∷ rest) = not (is_pending peer.status) && all_peers_done rest

unfoldable pub all_peers_succeeded : List (Str × CollabPeerInfo) → Bool
all_peers_succeeded [] = true
all_peers_succeeded ((name, peer) ∷ rest) = is_success peer.status && all_peers_succeeded rest

unfoldable pub answer_origin : UnitRepairDone → Str → Server → Server
unfolding all_repaired
answer_origin op origin s = if origin == 0 then s else record s {
  answers =
      s.answers
      ++ record {
        file_cid = op.file_cid;
        meta_cid = op.meta_cid;
        origin = s.address;
        repair_status = all_repaired op.repair_status;
      }
        ∷ [];
}

-- From the check whether all peers have finished on.
unfoldable pub settle : UnitRepairDone → Time → CollaborativeRepairData → Server → Server
unfolding all_peers_done all_peers_succeeded finish_collab answer_origin put_collab
settle op now d s =
    if all_peers_done d.peers
    then answer_origin op d.origin (
        finish_collab op.file_cid (if all_peers_succeeded d.peers then success else failure) now d
          s)
    else put_collab op.file_cid d s

unfoldable pub report_from :
    UnitRepairDone → Time → CollaborativeRepairData → Option CollabPeerInfo → Server → Server
unfolding report_peer settle
report_from op now d none s = s
report_from op now d (some info) s =
    settle op now (record d { peers = put op.origin (report_peer op now info) d.peers }) s

unfoldable pub report_on : UnitRepairDone → Time → Option CollaborativeRepairData → Server → Server
unfolding report_from
report_on op now none s = s
report_on op now (some d) s = report_from op now d (lookup op.origin d.peers) s

unfoldable pub report_unit_repair : UnitRepairDone → Time → Server → Server
unfolding report_on
report_unit_repair op now s = report_on op now (lookup op.file_cid s.collab_data) s
