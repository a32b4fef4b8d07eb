-- ===== src/Server/Collab/Answer.antt =====
-- Two cases in which a repair with several peers goes wrong.
use ipfs_reliability.Prelude.{
  ℕ, zero, suc, ◌+◌, ◌-◌, ◌≡◌, ◌≢◌, ◌<◌, ◌≤◌, refl, ◌∙◌, ap, arith, true, false, List, [], ◌∷◌,
  ◌++◌, none, some,
}
use ipfs_reliability.Prelude.{
  ltb, ◌==◌, length, get_elem?, get_elem?-of_lt, replicate, lookup, put, lookup-put,
  lookup-put_same,
}
use mathlib.Core.Option
use ipfs_reliability.Server.Types.{
  Str, Time, failure, CollabPeerInfo, CollaborativeRepairData, UnitRepairDone, Server,
}
use ipfs_reliability.Server.Collab.{
  panicked, send_one, next_peer, send_requests, put_collab, finish_collab, all_repaired,
  report_peer, all_peers_done, all_peers_succeeded, answer_origin, settle, report_from, report_on,
  report_unit_repair, request_taken,
}

not_succeeded :
    (name : Str) (bad : CollabPeerInfo) (m : List (Str × CollabPeerInfo))
    → bad.status ≡ failure
    → lookup name m ≡ some bad
    → all_peers_succeeded m ≡ false
unfolding lookup all_peers_succeeded
not_succeeded name bad [] failed h = cc
not_succeeded name bad ((k, peer) ∷ rest) failed h =
    ground (arith, not_succeeded name bad rest failed)

-- When the last peer to report repaired all of its leaves, and an earlier one failed: the file is
-- marked as failed, and yet the origin of the repair is told that it succeeded.
pub failed_peer_hidden :
    (op : UnitRepairDone) (now : Time) (s : Server) (d : CollaborativeRepairData)
    (info bad : CollabPeerInfo) (other : Str)
    → lookup op.file_cid s.collab_data ≡ some d
    → lookup op.origin d.peers ≡ some info
    → lookup other d.peers ≡ some bad
    → bad.status ≡ failure
    → op.origin ≢ other
    → all_peers_done (put op.origin (report_peer op now info) d.peers) ≡ true
    → all_repaired op.repair_status ≡ true
    → d.origin ≢ 0
    → let s' = report_unit_repair op now s in
      (Option.map (λ file. file.status) (lookup op.file_cid s'.collab_data) ≡ some failure)
      × (s'.answers
          ≡ s.answers
            ++ record {
              file_cid = op.file_cid;
              meta_cid = op.meta_cid;
              origin = s.address;
              repair_status = true;
            }
              ∷ [])
unfolding report_unit_repair report_on report_from settle answer_origin finish_collab put_collab
failed_peer_hidden op now s d info bad other at_file at_peer at_other failed distinct done repaired
      asked =
    let peers = put op.origin (report_peer op now info) d.peers in
    let still : lookup other peers ≡ some bad =
      lookup-put op.origin other (report_peer op now info) d.peers ∙ ground arith in
    let not_all = not_succeeded other bad peers failed still in
    let no_zero : (d.origin == 0) ≡ false = ground arith in
    rw (at_file, at_peer, done, not_all, no_zero, repaired)
      (
        ap (Option.map (λ (file : CollaborativeRepairData). file.status))
            (lookup-put_same op.file_cid _ s.collab_data),
        refl,
      )

get_elem?-out : (xs : List (List ℕ)) (i : ℕ) → length xs ≤ i → get_elem? xs i ≡ none
get_elem?-out [] i h = refl
get_elem?-out (x ∷ xs) zero h = elim h [ ]
get_elem?-out (x ∷ xs) (suc i) h = get_elem?-out xs i (omega arith)

module _ (peers : List Str) (requests : List (List ℕ)) (now : Time)
    (more : length requests < length peers) where
  runs_past_requests :
      (k j : ℕ) (d : CollaborativeRepairData)
      → j + suc k ≡ length requests
      → send_requests peers requests now (replicate (suc k) true) (suc j) j d ≡ panicked
  unfolding send_requests send_one next_peer
  runs_past_requests zero j d h =
      let (peer, at_peer) = get_elem?-of_lt peers (suc j) (omega arith) in
      let out : get_elem? requests (suc j) ≡ none = get_elem?-out requests (suc j) (omega arith) in
      let open_yet : ltb j (length requests) ≡ true = ground arith in
      rw (open_yet, at_peer, out) refl
  runs_past_requests (suc k) j d h =
      let (peer, at_peer) = get_elem?-of_lt peers (suc j) (omega arith) in
      let (leaves, at_leaves) = get_elem?-of_lt requests (suc j) (omega arith) in
      let open_yet : ltb j (length requests) ≡ true = ground arith in
      let go_right : (suc (suc j) == length peers) ≡ false = ground arith in
      rw (open_yet, at_peer, at_leaves, go_right)
        (runs_past_requests k (suc j) (request_taken peer leaves now d) (omega arith))

  refused_first :
      (m : ℕ) (d : CollaborativeRepairData)
      → length requests ≡ suc m
      → send_requests peers requests now (false ∷ replicate (suc m) true) 0 0 d ≡ panicked
  unfolding send_requests send_one next_peer
  refused_first m d size =
      let (peer, at_peer) = get_elem?-of_lt peers 0 (omega arith) in
      let (leaves, at_leaves) = get_elem?-of_lt requests 0 (omega arith) in
      let open_yet : ltb 0 (length requests) ≡ true = ground arith in
      let go_right : (1 == length peers) ≡ false = ground arith in
      rw (open_yet, at_peer, at_leaves, go_right) (runs_past_requests m 0 d (omega arith))

  -- When there are more peers than requests, the first peer refuses and all others accept, the loop
  -- that sends the requests does not finish: it reads past the end of the requests.
  pub early_refusal_panics :
      (d : CollaborativeRepairData)
      → 0 < length requests
      → send_requests peers requests now (false ∷ replicate (length requests) true) 0 0 d ≡ panicked
  early_refusal_panics d some_requests =
      let pred : length requests ≡ suc (length requests - 1) = omega arith in
      ap (λ (n : ℕ). send_requests peers requests now (false ∷ replicate n true) 0 0 d) pred
      ∙ refused_first (length requests - 1) d pred
