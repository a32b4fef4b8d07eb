-- ===== src/Monitor.antt =====
-- The files that a node monitors: the operations of Server/daemon.go on them, their types in
-- Server/types.go, and UpdateView of Server/viewshare.go. A probability is a float32, whose type and
-- whose arithmetic are parameters. A string is a number, as in Server.
pub mod Locks
pub mod Inspector
pub mod Forward
pub mod Views
mod Tests
use ipfs_reliability.Prelude.{
  ℕ, suc, Bool, true, false, not, List, [], ◌∷◌, Option, none, some, if◌then◌else◌, ◌==◌, lookup,
  put, remove,
}
use ipfs_reliability.Server.Types.{Str}

pub record ClusterPeer : Type 0 where
  pub name : Str
  pub region : Str

-- The float32 values and what the code does with them: 1, and (a + b) / 2.
pub record Floats : Type 1 where
  pub float : Type 0
  pub one : float
  pub mean : float → float → float

pub record WatchedBlock (f : Floats) : Type 0 where
  pub cid : Str
  pub peer : ClusterPeer
  pub probability : f.float

pub record FileStats (f : Floats) : Type 0 where
  pub file_cid : Str
  pub metadata_cid : Str
  pub strand_root_cid : Str
  pub strand_number : ℕ
  pub data_blocks_missing : List (ℕ × WatchedBlock f)
  pub parity_blocks_missing : List (ℕ × WatchedBlock f)
  pub valid_parity_blocks_history : List (ℕ × WatchedBlock f)
  pub estimated_block_prob : f.float
  pub health : f.float

-- The files of State, and whether stateMux is locked.
pub record Monitor (f : Floats) : Type 0 where
  pub files : List (Str × FileStats f)
  pub locked : Bool

pub record StartMonitoringRequest : Type 0 where
  pub file_cid : Str
  pub metadata_cid : Str
  pub strand_root_cid : Str

pub data Operation : Type 0 where
  start_monitor_file : StartMonitoringRequest → Operation
  stop_monitor_file : (file_cid : Str) → Operation
  reset_monitor_file : (file_cid : Str) (is_data : Bool) → Operation

-- How the daemon gets on with an operation: it goes on to its next round, panics, or waits for
-- stateMux for ever.
pub data Outcome (f : Floats) : Type 0 where
  goes_on : Monitor f → Outcome f
  panics blocks : Outcome f

-- The index of the first tree whose root is the wanted one, and 0 if there is none.
unfoldable pub strand_number_from : ℕ → Str → List Str → ℕ
strand_number_from i wanted [] = 0
strand_number_from i wanted (root ∷ rest) =
    let later = strand_number_from (suc i) wanted rest in if root == wanted then i else later

module _ (f : Floats) where
  unfoldable pub new_file_stats : StartMonitoringRequest → List Str → FileStats f
  unfolding strand_number_from
  new_file_stats request tree_cids = record {
    file_cid = request.file_cid;
    metadata_cid = request.metadata_cid;
    strand_root_cid = request.strand_root_cid;
    strand_number = strand_number_from 0 request.strand_root_cid tree_cids;
    data_blocks_missing = [];
    parity_blocks_missing = [];
    valid_parity_blocks_history = [];
    estimated_block_prob = f.one;
    health = f.one;
  }

  -- From stateMux.Lock() on; `tree_cids` is what GetMetaData returns, `none` an error. The error
  -- goes to the next round without an Unlock.
  unfoldable pub start_locked :
      StartMonitoringRequest → Option (List Str) → Option (FileStats f) → Monitor f → Monitor f
  unfolding new_file_stats
  start_locked request tree_cids (some stats) m = m
  start_locked request none none m = record m { locked = true }
  start_locked request (some roots) none m = record m {
    files = put request.file_cid (new_file_stats request roots) m.files;
  }

  unfoldable pub reset_stats : Str → Bool → FileStats f → FileStats f
  reset_stats file_cid is_data stats = record {
    file_cid = file_cid;
    metadata_cid = stats.metadata_cid;
    strand_root_cid = stats.strand_root_cid;
    strand_number = stats.strand_number;
    data_blocks_missing = if is_data then [] else stats.data_blocks_missing;
    parity_blocks_missing = if is_data then stats.parity_blocks_missing else [];
    valid_parity_blocks_history = if is_data then stats.valid_parity_blocks_history else [];
    estimated_block_prob = f.mean stats.estimated_block_prob f.one;
    health = f.mean stats.health f.one;
  }

  -- A file that is not monitored is a nil dereference.
  unfoldable pub reset_locked : Str → Bool → Option (FileStats f) → Monitor f → Outcome f
  unfolding reset_stats
  reset_locked file_cid is_data none m = panics
  reset_locked file_cid is_data (some stats) m =
      goes_on (record m { files = put file_cid (reset_stats file_cid is_data stats) m.files })

  unfoldable pub run_locked : (Str → Option (List Str)) → Operation → Monitor f → Outcome f
  unfolding start_locked reset_locked
  run_locked get_meta_data (start_monitor_file request) m = goes_on (
      start_locked request (get_meta_data request.metadata_cid) (lookup request.file_cid m.files) m)
  run_locked get_meta_data (stop_monitor_file file_cid) m =
      goes_on (record m { files = remove file_cid m.files })
  run_locked get_meta_data (reset_monitor_file file_cid is_data) m =
      reset_locked file_cid is_data (lookup file_cid m.files) m

  -- One operation that the daemon received. Where run_locked goes on, the mutex is as it says.
  unfoldable pub run_operation : (Str → Option (List Str)) → Operation → Monitor f → Outcome f
  unfolding run_locked
  run_operation get_meta_data op m = if m.locked then blocks else run_locked get_meta_data op m

  -- for i, b := range missing { m[i] = b }
  unfoldable pub merge :
      List (ℕ × WatchedBlock f) → List (ℕ × WatchedBlock f) → List (ℕ × WatchedBlock f)
  merge [] m = m
  merge ((i, block) ∷ rest) m = merge rest (put i block m)

  unfoldable pub merge_view : FileStats f → FileStats f → FileStats f
  unfolding merge
  merge_view view stats = record stats {
    data_blocks_missing = merge view.data_blocks_missing stats.data_blocks_missing;
    parity_blocks_missing = merge view.parity_blocks_missing stats.parity_blocks_missing;
    estimated_block_prob = f.mean stats.estimated_block_prob view.estimated_block_prob;
  }

  unfoldable pub update_from :
      Str → FileStats f → Option (FileStats f) → Monitor f → Monitor f × List Operation
  unfolding merge_view
  update_from file_cid view none m = (
    m,
    start_monitor_file (record {
      file_cid = file_cid;
      metadata_cid = view.metadata_cid;
      strand_root_cid = view.strand_root_cid;
    })
        ∷ [],
  )
  update_from file_cid view (some stats) m =
      (record m { files = put file_cid (merge_view view stats) m.files }, [])

  -- UpdateView, when it gets stateMux: the files, and what it sends to the daemon.
  unfoldable pub update_view : Str → FileStats f → Monitor f → Monitor f × List Operation
  unfolding update_from
  update_view file_cid view m = update_from file_cid view (lookup file_cid m.files) m
