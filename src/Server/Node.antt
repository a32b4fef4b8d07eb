-- ===== src/Server/Node.antt =====
-- The daemon of Server/daemon.go and the HTTP handlers of Server/server.go that hand it repairs. Only the
-- daemon receives from their channels.
pub mod Stalls
use ipfs_reliability.Prelude.{
  ℕ, Bool, if◌then◌else◌, List, [], ◌∷◌, ◌++◌, Option, none, some, get_elem?, take, drop, suc,
  length, ◌<◌, ◌≡◌,
}
use ipfs_reliability.Server.Types.{
  Str, Time, CollaborativeRepairOperation, CollaborativeRepairDone, UnitRepairDone,
  UnitRepairOperationRequest, StrandRepairOperation, Server,
}
use ipfs_reliability.Server.Collab.{Answers, Handled, start_collab_repair, report_unit_repair}
use ipfs_reliability.Server.Collab
use ipfs_reliability.Server.Strand.{StrandStart, start_strand_repair, continue_strand_repair}
use ipfs_reliability.Server.Strand

-- What an HTTP handler is sending, and on which channel.
pub data Request : Type 0 where
  trigger_collab_repair : CollaborativeRepairOperation → Request
  trigger_unit_repair : UnitRepairOperationRequest → Request
  trigger_strand_repair : StrandRepairOperation → Request
  report_unit : UnitRepairDone → Request
  report_collab : CollaborativeRepairDone → Request

-- The size that setUpServer makes each channel with.
abbrev pub capacity : ℕ
capacity = 0

-- What the client and other nodes answer during one round of the daemon, and the files that the node
-- monitors.
pub record World : Type 0 where
  pub now : Time
  pub answers : Answers
  pub repair_strand : Str → Str → ℕ → Bool
  pub monitored : Str → Bool

-- The daemon waits in its select, stands at `s.collabOps <- newOp`, waits for an answer to a post that
-- the start of a collaborative repair made, or has panicked. While it waits, `Server` is the state in
-- which it received the operation, and the world has the answers so far.
pub data Daemon : Type 0 where
  selecting : Server → Daemon
  awaiting : World → CollaborativeRepairOperation → Server → Daemon
  sending : CollaborativeRepairOperation → Server → Daemon
  dead : Daemon

unfoldable pub after_collab : World → CollaborativeRepairOperation → Server → Handled → Daemon
after_collab w op s (Collab.returned s') = selecting s'
after_collab w op s (Collab.unfinished s') = awaiting w op s
after_collab w op s Collab.crashed = dead

-- The same world, with more answers to the posts.
abbrev pub with_more : List Bool → World → World
with_more more w = record w { answers = record (w.answers) { taken = w.answers.taken ++ more } }

unfoldable pub after_strand : StrandStart → Daemon
after_strand (Strand.returned s) = selecting s
after_strand (Strand.sends op s) = sending op s

-- After ContinueStrandRepair, with the calls of resetMonitorFile that it ends with: for a file that is not
-- monitored the call dereferences a nil pointer.
unfoldable pub after_continue : World → Str → Server × List Bool → Daemon
after_continue w file_cid (s, []) = selecting s
after_continue w file_cid (s, is_data ∷ rest) = if w.monitored file_cid then selecting s else dead

-- One round of the loop of Daemon for a repair that it received. StartUnitRepair changes no state.
unfoldable pub run : World → Request → Server → Daemon
unfolding after_collab after_strand after_continue start_collab_repair start_strand_repair
    report_unit_repair continue_strand_repair
run w (trigger_collab_repair op) s = after_collab w op s (start_collab_repair op w.answers w.now s)
run w (trigger_unit_repair op) s = selecting s
run w (trigger_strand_repair op) s = after_strand (start_strand_repair op w.now s)
run w (report_unit op) s = selecting (report_unit_repair op w.now s)
run w (report_collab op) s =
    after_continue w op.file_cid (continue_strand_repair op w.repair_strand w.now s)

-- The daemon, the HTTP handlers that have not yet handed over what they send, and what is in the buffers
-- of the channels.
pub record Node : Type 0 where
  pub daemon : Daemon
  pub handlers : List Request
  pub buffered : List Request

-- A send takes place together with a receive, or when the buffer has room. A daemon that waits for an
-- answer goes on when there are more answers: its start of the repair is run again with all of them.
pub data Step : Node → Node → Type 0 where
  arrives :
      (d : Daemon) (rs bs : List Request) (r : Request)
      → Step
          (record { daemon = d; handlers = rs; buffered = bs })
          (record { daemon = d; handlers = rs ++ r ∷ []; buffered = bs })
  receives :
      (w : World) (s : Server) (before after bs : List Request) (r : Request)
      → Step
          (record { daemon = selecting s; handlers = before ++ r ∷ after; buffered = bs })
          (record { daemon = run w r s; handlers = before ++ after; buffered = bs })
  takes :
      (w : World) (s : Server) (rs bs : List Request) (r : Request)
      → Step
          (record { daemon = selecting s; handlers = rs; buffered = r ∷ bs })
          (record { daemon = run w r s; handlers = rs; buffered = bs })
  puts :
      (d : Daemon) (before after bs : List Request) (r : Request)
      → length bs < capacity
      → Step
          (record { daemon = d; handlers = before ++ r ∷ after; buffered = bs })
          (record { daemon = d; handlers = before ++ after; buffered = bs ++ r ∷ [] })
  daemon_puts :
      (op : CollaborativeRepairOperation) (s : Server) (rs bs : List Request)
      → length bs < capacity
      → Step
          (record { daemon = sending op s; handlers = rs; buffered = bs })
          (record {
            daemon = selecting s;
            handlers = rs;
            buffered = bs ++ trigger_collab_repair op ∷ [];
          })
  answered :
      (more : List Bool) (w : World) (op : CollaborativeRepairOperation) (s : Server)
      (rs bs : List Request)
      → Step
          (record { daemon = awaiting w op s; handlers = rs; buffered = bs })
          (record {
            daemon = run (with_more more w) (trigger_collab_repair op) s;
            handlers = rs;
            buffered = bs;
          })

pub data Steps (n : Node) : Node → Type 0 where
  here : Steps n n
  next : {m k : Node} → Steps n m → Step m k → Steps n k
