-- ===== src/Server/Strand.antt =====
-- StartStrandRepair and ContinueStrandRepair of Server/repair.go. What resetMonitorFile is called
-- with is a result; its posts to other nodes are not modelled.
pub mod Machine
use ipfs_reliability.Prelude.{
  ℕ, Bool, true, false, not, List, [], ◌∷◌, Option, none, some, if◌then◌else◌, lookup, put,
}
use ipfs_reliability.Server.Types.{
  Str, Time, RepairStatus, pending, success, failure, StrandRepairData, StrandRepairOperation,
  CollaborativeRepairOperation, CollaborativeRepairDone, Server,
}
use ipfs_reliability.Server.Collab.{is_pending}

-- A handler returns, or stands at `s.collabOps <- newOp`.
pub data StrandStart : Type 0 where
  returned : Server → StrandStart
  sends : CollaborativeRepairOperation → Server → StrandStart

unfoldable pub strand_in_repair : Option StrandRepairData → Bool
strand_in_repair none = false
strand_in_repair (some d) = is_pending d.status

unfoldable pub new_strand_data : StrandRepairOperation → Time → StrandRepairData
new_strand_data op now = record {
  file_cid = op.file_cid;
  meta_cid = op.meta_cid;
  strand = op.strand;
  depth = op.depth;
  status = pending;
  start_time = now;
  end_time = 0;
}

unfoldable pub put_strand : Str → StrandRepairData → Server → Server
put_strand cid d s = record s { strand_data = put cid d s.strand_data }

unfoldable pub start_strand_repair : StrandRepairOperation → Time → Server → StrandStart
unfolding strand_in_repair new_strand_data put_strand
start_strand_repair op now s =
    if strand_in_repair (lookup op.file_cid s.strand_data)
    then returned s
    else sends
        (record {
          file_cid = op.file_cid;
          meta_cid = op.meta_cid;
          depth = op.depth;
          origin = s.address;
          num_peers = 3;
        })
        (put_strand op.file_cid (new_strand_data op now) s)

-- strandData[fileCID].Status = status, and EndTime = time.Now()
unfoldable pub end_strand : Str → RepairStatus → Time → StrandRepairData → Server → Server
unfolding put_strand
end_strand cid status now d s = put_strand cid (record d { status = status; end_time = now }) s

-- ContinueStrandRepair from the entry on; `repair_strand` is whether client.RepairStrand has no error.
-- The list has the calls of resetMonitorFile for the file, each one the last thing that is done; Node has
-- what they do when the file is not monitored.
unfoldable pub continue_from :
    CollaborativeRepairDone
    → (Str → Str → ℕ → Bool)
    → Time
    → Option StrandRepairData
    → Server
    → Server × List Bool
unfolding end_strand
continue_from op repair_strand now none s = (s, true ∷ [])
continue_from op repair_strand now (some d) s =
    if not (is_pending d.status)
    then (s, false ∷ [])
    else if not op.repair_status
    then (end_strand op.file_cid failure now d s, [])
    else if not (repair_strand op.file_cid op.meta_cid d.strand)
    then (end_strand op.file_cid failure now d s, true ∷ [])
    else (end_strand op.file_cid success now d s, false ∷ [])

unfoldable pub continue_strand_repair :
    CollaborativeRepairDone → (Str → Str → ℕ → Bool) → Time → Server → Server × List Bool
unfolding continue_from
continue_strand_repair op repair_strand now s =
    continue_from op repair_strand now (lookup op.file_cid s.strand_data) s
