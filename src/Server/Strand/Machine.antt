-- ===== src/Server/Strand/Machine.antt =====
-- The repair of a strand as a state machine.
use ipfs_reliability.Prelude.{
  ℕ, ◌≡◌, refl, arith, Bool, ◌&&◌, Option, none, some, if◌then◌else◌, ◌==◌, lookup, lookup-put,
  ◌>>=◌,
}
use ipfs_reliability.Server.Types.{
  Str, Time, RepairStatus, pending, success, failure, StrandRepairData, CollaborativeRepairDone,
  Server,
}
use ipfs_reliability.Server.Collab.{is_pending}
use ipfs_reliability.Server.Strand.{put_strand, end_strand, continue_from, continue_strand_repair}

-- The status of the repair of a strand; `none` is a file with no entry.
abbrev pub strand_status : Str → Server → Option RepairStatus
strand_status cid s = lookup cid s.strand_data >>= λ d. some d.status

strand_status-put :
    (cid other : Str) (d : StrandRepairData) (s : Server)
    → strand_status other (put_strand cid d s)
      ≡ (if cid == other then some d.status else strand_status other s)
unfolding put_strand
strand_status-put cid other d s = ground (arith, lookup-put cid other d s.strand_data)

-- The status that a finished collaborative repair leaves to the strand of its file.
abbrev pub next_status : Bool → Bool → RepairStatus → RepairStatus
next_status repaired strand_repaired pending =
    if repaired && strand_repaired then success else failure
next_status repaired strand_repaired success = success
next_status repaired strand_repaired failure = failure

next_status_lem :
    (repaired strand_repaired : Bool) (status : RepairStatus)
    → next_status repaired strand_repaired status ≡ (
        if is_pending status
        then if repaired && strand_repaired then success else failure
        else status)
next_status_lem repaired strand_repaired pending = refl
next_status_lem repaired strand_repaired success = refl
next_status_lem repaired strand_repaired failure = refl

continue_from_status :
    (op : CollaborativeRepairDone) (repair_strand : Str → Str → ℕ → Bool) (now : Time)
    (o : Option StrandRepairData) (s : Server) (cid : Str)
    → lookup op.file_cid s.strand_data ≡ o
    → strand_status cid ((continue_from op repair_strand now o s).0) ≡ (
        if op.file_cid == cid
        then (o >>= λ d. some (
            next_status op.repair_status (repair_strand op.file_cid op.meta_cid d.strand) d.status))
        else strand_status cid s)
unfolding continue_from end_strand
continue_from_status op repair_strand now none s cid h = ground arith
continue_from_status op repair_strand now (some d) s cid h = ground (
  arith,
  next_status_lem op.repair_status (repair_strand op.file_cid op.meta_cid d.strand) d.status,
  strand_status-put op.file_cid cid (record d { status = failure; end_time = now }) s,
  strand_status-put op.file_cid cid (record d { status = success; end_time = now }) s,
)

-- What a finished collaborative repair does to the strand repairs. A strand that is in repair gets
-- success if the collaborative repair and the repair of the strand succeeded, and failure if not;
-- a strand that is not in repair stays as it is, and so do the strands of other files.
pub continue_strand_repair_status :
    (op : CollaborativeRepairDone) (repair_strand : Str → Str → ℕ → Bool) (now : Time) (s : Server)
    (cid : Str)
    → strand_status cid ((continue_strand_repair op repair_strand now s).0) ≡ (
        if op.file_cid == cid
        then (lookup op.file_cid s.strand_data >>= λ d. some (
            next_status op.repair_status (repair_strand op.file_cid op.meta_cid d.strand) d.status))
        else strand_status cid s)
unfolding continue_strand_repair
continue_strand_repair_status op repair_strand now s cid =
    continue_from_status op repair_strand now (lookup op.file_cid s.strand_data) s cid refl
