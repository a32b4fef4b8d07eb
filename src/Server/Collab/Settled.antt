-- ===== src/Server/Collab/Settled.antt =====
-- The status of a file in collabData against those of the peers that repair it.
use ipfs_reliability.Prelude.{
  ◌≡◌, refl, sym, subst, ◌∙◌, ◌⊎◌, inl, inr, some_inj, Bool-cases, arith, Bool, true, false, List,
  [], ◌∷◌, Option, none, some,
}
use ipfs_reliability.Prelude.{◌==◌, if◌then◌else◌, lookup, put, lookup-put}
use ipfs_reliability.Server.Types.{
  Str, Time, RepairStatus, pending, success, failure, CollabPeerInfo, CollaborativeRepairData,
  UnitRepairDone, Server,
}
use ipfs_reliability.Server.Collab.{
  is_pending, put_collab, finish_collab, report_peer, all_peers_done, all_peers_succeeded,
  answer_origin, settle, report_from, report_on, report_unit_repair,
}

abbrev pub is_nil {ℓ} : {A : Type ℓ} → List A → Bool
is_nil [] = true
is_nil (_ ∷ _) = false

-- A file is in repair as long as one of its peers is; when all of its peers have reported, it is
-- repaired if every one of them succeeded, and failed if not.
pub record IsSettled (d : CollaborativeRepairData) : Type 0 where
  pub busy : all_peers_done d.peers ≡ false → d.status ≡ pending
  pub done :
      is_nil d.peers ≡ false
      → all_peers_done d.peers ≡ true
      → d.status ≡ (if all_peers_succeeded d.peers then success else failure)

pub record AreSettled (s : Server) : Type 0 where
  pub each :
      (cid : Str) (d : CollaborativeRepairData) → lookup cid s.collab_data ≡ some d → IsSettled d

pub not_done-put :
    (name : Str) (peer : CollabPeerInfo) (m : List (Str × CollabPeerInfo))
    → peer.status ≡ pending
    → all_peers_done (put name peer m) ≡ false
unfolding all_peers_done put
not_done-put name peer [] h = ground arith
not_done-put name peer ((k, other) ∷ rest) h = ground (arith, not_done-put name peer rest h)

done-put :
    (name : Str) (peer : CollabPeerInfo) (m : List (Str × CollabPeerInfo))
    → is_pending peer.status ≡ false
    → all_peers_done m ≡ true
    → all_peers_done (put name peer m) ≡ true
unfolding all_peers_done put
done-put name peer [] h all = ground arith
done-put name peer ((k, other) ∷ rest) h all = ground (arith, done-put name peer rest h)

pub found_in_put :
    {A : Type 0} (b : Bool) (v w : A) (o : Option A)
    → (if b then some v else o) ≡ some w
    → (v ≡ w) ⊎ (o ≡ some w)
found_in_put true v w o h = inl (some_inj h)
found_in_put false v w o h = inr h

pub AreSettled-put :
    (cid : Str) (d : CollaborativeRepairData) (s : Server)
    → IsSettled d
    → AreSettled s
    → AreSettled (put_collab cid d s)
unfolding put_collab
AreSettled-put cid d s new old = record {
  each = λ c e h.
      elim (found_in_put (cid == c) d e (lookup c s.collab_data)
        (sym (lookup-put cid c d s.collab_data) ∙ h)) [
          | inl same ↦ subst IsSettled same new
          | inr other ↦ old.each c e other
        ];
}

IsSettled-report :
    (name : Str) (peer : CollabPeerInfo) (d : CollaborativeRepairData)
    → is_pending peer.status ≡ false
    → IsSettled d
    → all_peers_done (put name peer d.peers) ≡ false
    → IsSettled (record d { peers = put name peer d.peers })
IsSettled-report name peer d ended old busy = record {
  busy = λ _. ground (arith, old.busy, done-put name peer d.peers);
  done = λ _ all. cc;
}

answer_origin-AreSettled :
    (op : UnitRepairDone) (origin : Str) (s : Server)
    → AreSettled s
    → AreSettled (answer_origin op origin s)
unfolding answer_origin
answer_origin-AreSettled op origin s all = elim (Bool-cases (origin == 0)) [
  | inl e ↦ rw e all
  | inr e ↦ rw e (record { each = all.each })
]

settle-AreSettled :
    (op : UnitRepairDone) (now : Time) (name : Str) (peer : CollabPeerInfo)
    (d : CollaborativeRepairData) (s : Server)
    → is_pending peer.status ≡ false
    → IsSettled d
    → AreSettled s
    → AreSettled (settle op now (record d { peers = put name peer d.peers }) s)
unfolding settle finish_collab
settle-AreSettled op now name peer d s ended old all =
    let peers = put name peer d.peers in
    let result : RepairStatus = if all_peers_succeeded peers then success else failure in
    let d' : CollaborativeRepairData = record d {
      status = result;
      end_time = now;
      peers = peers;
    } in
    elim (Bool-cases (all_peers_done (put name peer d.peers))) [
      | inl e ↦ rw e (
          answer_origin-AreSettled op d.origin _
            (AreSettled-put op.file_cid d' s (record { busy = λ b. cc; done = λ _ _. refl }) all))
      | inr e ↦ rw e (AreSettled-put op.file_cid _ s (IsSettled-report name peer d ended old e) all)
    ]

report_peer-ended :
    (op : UnitRepairDone) (now : Time) (info : CollabPeerInfo)
    → is_pending (report_peer op now info).status ≡ false
unfolding report_peer
report_peer-ended op now info = ground arith

report_from-AreSettled :
    (op : UnitRepairDone) (now : Time) (d : CollaborativeRepairData) (o : Option CollabPeerInfo)
    (s : Server)
    → IsSettled d
    → AreSettled s
    → AreSettled (report_from op now d o s)
unfolding report_from
report_from-AreSettled op now d none s old all = all
report_from-AreSettled op now d (some info) s old all =
    settle-AreSettled op now op.origin (report_peer op now info) d s (report_peer-ended op now info)
      old all

report_on-AreSettled :
    (op : UnitRepairDone) (now : Time) (o : Option CollaborativeRepairData) (s : Server)
    → ((d : CollaborativeRepairData) → o ≡ some d → IsSettled d)
    → AreSettled s
    → AreSettled (report_on op now o s)
unfolding report_on
report_on-AreSettled op now none s old all = all
report_on-AreSettled op now (some d) s old all =
    report_from-AreSettled op now d (lookup op.origin d.peers) s (old d refl) all

pub report_unit_repair-AreSettled :
    (op : UnitRepairDone) (now : Time) (s : Server)
    → AreSettled s
    → AreSettled (report_unit_repair op now s)
unfolding report_unit_repair
report_unit_repair-AreSettled op now s all =
    report_on-AreSettled op now (lookup op.file_cid s.collab_data) s (all.each op.file_cid) all
