-- ===== src/Server/Collab/Started.antt =====
-- A repair starts with the file and its peers in repair, and what holds at every moment follows.
use ipfs_reliability.Prelude.{
  ℕ, zero, suc, ◌≡◌, ◌<◌, refl, sym, subst, ap, ◌∙◌, inl, inr, some_inj, Bool-cases, arith, Bool,
  true, false, List, [], ◌∷◌, Option, none, some,
}
use ipfs_reliability.Prelude.{ltb, ◌==◌, length, get_elem?, lookup, lookup-put}
use ipfs_reliability.Server.Types.{
  Str, Time, RepairStatus, pending, success, failure, CollabPeerInfo, Metrics,
  CollaborativeRepairData, CollaborativeRepairOperation, UnitRepairDone, Server,
}
use ipfs_reliability.Server.Split.{shares, peers_to_use}
use ipfs_reliability.Server.Split.Laws.{shares_right}
use ipfs_reliability.Server.Collab.{
  is_pending, new_collab_data, update_coordinator_metrics, new_peer, known_or_new, request_taken,
  Sending, finished, waiting, panicked, send_one, send_requests, returned, put_collab,
  finish_collab, handled_by, hand_out, with_leaves, Answers, in_repair, start_collab_repair,
  all_peers_done, report_unit_repair,
}
use ipfs_reliability.Server.Collab.Settled.{
  IsSettled, AreSettled, AreSettled-put, not_done-put, found_in_put, report_unit_repair-AreSettled,
}

-- While the requests go out: the file is in repair, and so are all the peers that it has.
record IsSending (sent : ℕ) (d : CollaborativeRepairData) : Type 0 where
  status : d.status ≡ pending
  peers :
      (name : Str) (info : CollabPeerInfo) → lookup name d.peers ≡ some info → info.status ≡ pending
  busy : 0 < sent → all_peers_done d.peers ≡ false

known_or_new_pending :
    (o : Option CollabPeerInfo) (name : Str) (now : Time)
    → ((info : CollabPeerInfo) → o ≡ some info → info.status ≡ pending)
    → (known_or_new o name now).status ≡ pending
unfolding known_or_new new_peer
known_or_new_pending none name now h = refl
known_or_new_pending (some info) name now h = h info refl

request_taken-IsSending :
    (sent : ℕ) (peer : Str) (leaves : List ℕ) (now : Time) (d : CollaborativeRepairData)
    → IsSending sent d
    → IsSending (suc sent) (request_taken peer leaves now d)
unfolding request_taken
request_taken-IsSending sent peer leaves now d h =
    let same = known_or_new_pending (lookup peer d.peers) peer now (h.peers peer) in
    record {
      status = h.status;
      peers = λ name info e.
          elim (found_in_put (peer == name) _ info (lookup name d.peers)
            (sym (lookup-put peer name _ d.peers) ∙ e)) [
              | inl is ↦ ap (λ (x : CollabPeerInfo). x.status) (sym is) ∙ same
              | inr other ↦ h.peers name info other
            ];
      busy = λ _. not_done-put peer _ d.peers same;
    }

module _ (peers : List Str) (requests : List (List ℕ)) (now : Time) where
  -- The loop that sends the requests ends with the file and its peers in repair.
  abbrev EndsBusy : ℕ → ℕ → (ℕ → ℕ → CollaborativeRepairData → Sending) → Type 0
  EndsBusy i sent go_on =
      (d e : CollaborativeRepairData)
      → IsSending sent d
      → go_on i sent d ≡ finished e
      → (e.status ≡ pending) × (all_peers_done e.peers ≡ false)

  send_one-EndsBusy :
      (go_on : ℕ → ℕ → CollaborativeRepairData → Sending) (ok : Bool) (i sent : ℕ)
      (peer : Option Str) (leaves : Option (List ℕ)) (d e : CollaborativeRepairData)
      → ((i sent : ℕ) → EndsBusy i sent go_on)
      → IsSending sent d
      → send_one peers requests now go_on ok i sent peer leaves d ≡ finished e
      → (e.status ≡ pending) × (all_peers_done e.peers ≡ false)
  unfolding send_one
  send_one-EndsBusy go_on ok i sent none leaves d e rest h f = cc
  send_one-EndsBusy go_on ok i sent (some peer) none d e rest h f = cc
  send_one-EndsBusy go_on true i sent (some peer) (some leaves) d e rest h f =
      rest _ (suc sent) (request_taken peer leaves now d) e
        (request_taken-IsSending sent peer leaves now d h) f
  send_one-EndsBusy go_on false i sent (some peer) (some leaves) d e rest h f = rest _ sent d e h f

  ends_busy :
      (sent : ℕ) (d e : CollaborativeRepairData)
      → 0 < length requests
      → IsSending sent d
      → ltb sent (length requests) ≡ false
      → finished d ≡ finished e
      → (e.status ≡ pending) × (all_peers_done e.peers ≡ false)
  ends_busy sent d e some_requests h all_sent f =
      let same : d ≡ e = cc in
      subst
        (λ (x : CollaborativeRepairData). (x.status ≡ pending) × (all_peers_done x.peers ≡ false))
        same (h.status, h.busy (ground arith))

  send_requests-EndsBusy :
      0 < length requests
      → (answers : List Bool) (i sent : ℕ)
      → EndsBusy i sent (send_requests peers requests now answers)
  unfolding send_requests
  send_requests-EndsBusy some_requests [] i sent d e h f =
      elim (Bool-cases (ltb sent (length requests))) [
        | inl more ↦ cc
        | inr all_sent ↦ ends_busy sent d e some_requests h all_sent (rw all_sent at f)
      ]
  send_requests-EndsBusy some_requests (ok ∷ answers) i sent d e h f =
      elim (Bool-cases (ltb sent (length requests))) [
        | inl more ↦
            send_one-EndsBusy (send_requests peers requests now answers) ok i sent
              (get_elem? peers i) (get_elem? requests i) d e
              (send_requests-EndsBusy some_requests answers) h (rw more at f)
        | inr all_sent ↦ ends_busy sent d e some_requests h all_sent (rw all_sent at f)
      ]

-- An entry without peers can have any status.
IsSettled-no_peers :
    (d : CollaborativeRepairData) (status : RepairStatus) (now : Time)
    → d.peers ≡ []
    → IsSettled (record d { status = status; end_time = now })
unfolding all_peers_done
IsSettled-no_peers d status now none_yet = record {
  busy = λ b. ground arith;
  done = λ some_peer _. ground arith;
}

handled_by-AreSettled :
    (cid : Str) (sending : Sending) (s s' : Server)
    → ((e : CollaborativeRepairData)
        → sending ≡ finished e
        → (e.status ≡ pending) × (all_peers_done e.peers ≡ false))
    → AreSettled s
    → handled_by cid sending s ≡ returned s'
    → AreSettled s'
unfolding handled_by
handled_by-AreSettled cid (finished d) s s' busy all h =
    let same : put_collab cid d s ≡ s' = cc in
    let (is_pending, not_done) = busy d refl in
    subst AreSettled same
      (AreSettled-put cid d s (record { busy = λ _. is_pending; done = λ _ done. cc }) all)
handled_by-AreSettled cid (waiting d) s s' busy all h = cc
handled_by-AreSettled cid panicked s s' busy all h = cc

not_in_none :
    (name : Str) (info : CollabPeerInfo) (m : List (Str × CollabPeerInfo))
    → m ≡ []
    → lookup name m ≡ some info
    → info.status ≡ pending
unfolding lookup
not_in_none name info [] none_yet h = cc
not_in_none name info (_ ∷ _) none_yet h = cc

hand_out-AreSettled :
    (cid : Str) (o : Option (List (List ℕ))) (peers : List Str) (answers : List Bool) (now : Time)
    (d : CollaborativeRepairData) (s s' : Server)
    → ((requests : List (List ℕ)) → o ≡ some requests → 0 < length requests)
    → d.status ≡ pending
    → d.peers ≡ []
    → AreSettled s
    → hand_out cid o peers answers now d s ≡ returned s'
    → AreSettled s'
unfolding hand_out
hand_out-AreSettled cid none peers answers now d s s' some_requests is_new no_peers all h = cc
hand_out-AreSettled cid (some requests) peers answers now d s s' some_requests is_new no_peers all
      h =
    let start : IsSending 0 d = record {
      status = is_new;
      peers = λ name info e. not_in_none name info d.peers no_peers e;
      busy = λ p. elim p [ ];
    } in
    handled_by-AreSettled cid (send_requests peers requests now answers 0 0 d) s s'
      (λ e f.
        send_requests-EndsBusy peers requests now (some_requests requests refl) answers 0 0 d e
          start f)
      all h

positive-shares :
    (num : ℕ) (leaves : List ℕ) (requests : List (List ℕ))
    → shares num leaves ≡ some requests
    → 0 < length requests
unfolding shares
positive-shares zero leaves requests h = cc
positive-shares (suc n) leaves requests h =
    let (made, e, size, _, _) = shares_right (suc n) leaves (omega arith) in
    let same : requests ≡ made = some_inj (sym h ∙ e) in ground (arith, size, same)

finish_collab-AreSettled :
    (cid : Str) (status : RepairStatus) (now : Time) (d : CollaborativeRepairData) (s s' : Server)
    → d.peers ≡ []
    → AreSettled s
    → returned (finish_collab cid status now d s) ≡ returned s'
    → AreSettled s'
unfolding finish_collab
finish_collab-AreSettled cid status now d s s' no_peers all h =
    let same : put_collab cid (record d { status = status; end_time = now }) s ≡ s' = cc in
    subst AreSettled same (
      AreSettled-put cid (record d { status = status; end_time = now }) s
        (IsSettled-no_peers d status now no_peers) all)

with_leaves-AreSettled :
    (cid : Str) (num : ℕ) (leaves : Option (List ℕ)) (peers : Option (List Str))
    (answers : List Bool) (now : Time) (d : CollaborativeRepairData) (s s' : Server)
    → d.status ≡ pending
    → d.peers ≡ []
    → AreSettled s
    → with_leaves cid num leaves peers answers now d s ≡ returned s'
    → AreSettled s'
unfolding with_leaves
with_leaves-AreSettled cid num none peers answers now d s s' is_new no_peers all h =
    finish_collab-AreSettled cid failure now d s s' no_peers all h
with_leaves-AreSettled cid num (some []) peers answers now d s s' is_new no_peers all h =
    finish_collab-AreSettled cid success now d s s' no_peers all h
with_leaves-AreSettled cid num (some (leaf ∷ leaves)) none answers now d s s' is_new no_peers all
      h =
    finish_collab-AreSettled cid failure now d s s' no_peers all h
with_leaves-AreSettled cid num (some (leaf ∷ leaves)) (some peers) answers now d s s' is_new
      no_peers all h =
    let n = peers_to_use num (length peers) (length (leaf ∷ leaves)) in
    hand_out-AreSettled cid (shares n (leaf ∷ leaves)) peers answers now d s s'
      (positive-shares n (leaf ∷ leaves)) is_new no_peers all h

new_entry :
    (o : CollaborativeRepairOperation) (now : Time) (m : Option Metrics)
    → ((update_coordinator_metrics m (new_collab_data o now)).status ≡ pending)
      × ((update_coordinator_metrics m (new_collab_data o now)).peers ≡ [])
unfolding update_coordinator_metrics new_collab_data
new_entry o now none = (refl, refl)
new_entry o now (some m) = (refl, refl)

start_collab_repair-AreSettled :
    (op : CollaborativeRepairOperation) (from : Answers) (now : Time) (s s' : Server)
    → AreSettled s
    → start_collab_repair op from now s ≡ returned s'
    → AreSettled s'
unfolding start_collab_repair
start_collab_repair-AreSettled op from now s s' all h =
    let (is_new, no_peers) = new_entry op now from.getter in
    elim (Bool-cases (in_repair (lookup op.file_cid s.collab_data))) [
      | inl e ↦ let same : s ≡ s' = cc in subst AreSettled same all
      | inr e ↦
          with_leaves-AreSettled op.file_cid op.num_peers from.leaves from.peers from.taken now
            (update_coordinator_metrics from.getter (new_collab_data op now)) s s' is_new no_peers
            all (rw e at h)
    ]

-- The states that a node comes to by handlers that return, from the start of the node on.
pub data Reachable (address : Str) : Server → Type 0 where
  started :
      Reachable address
        (record { address = address; collab_data = []; strand_data = []; answers = [] })
  collab :
      {s s' : Server} (op : CollaborativeRepairOperation) (from : Answers) (now : Time)
      → Reachable address s
      → start_collab_repair op from now s ≡ returned s'
      → Reachable address s'
  report :
      {s : Server} (op : UnitRepairDone) (now : Time)
      → Reachable address s
      → Reachable address (report_unit_repair op now s)

-- In every state that a node comes to by repairs that it starts and reports that it gets, in any
-- order: a file with a peer that has not reported is in repair; and when all the peers of a file, at
-- least one, have reported, the file is repaired if each of them succeeded, and failed if not.
pub Reachable-AreSettled : {address : Str} {s : Server} → Reachable address s → AreSettled s
unfolding lookup
Reachable-AreSettled started = record { each = λ cid d h. cc }
Reachable-AreSettled (collab op from now path h) =
    start_collab_repair-AreSettled op from now _ _ (Reachable-AreSettled path) h
Reachable-AreSettled (report op now path) =
    report_unit_repair-AreSettled op now _ (Reachable-AreSettled path)
