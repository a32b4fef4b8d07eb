-- ===== src/Monitor/Locks.antt =====
-- The operations on the monitored files: what they leave alone, and the mutex.
use ipfs_reliability.Prelude.{
  ◌≡◌, ◌≢◌, refl, sym, ap, ◌∙◌, arith, Bool, true, false, List, Option, none, some, lookup,
  lookup-put, lookup-remove,
}
use ipfs_reliability.Server.Types.{Str}
use ipfs_reliability.Monitor.{
  Floats, FileStats, Monitor, StartMonitoringRequest, Operation, start_monitor_file,
  stop_monitor_file, reset_monitor_file, goes_on, blocks, new_file_stats, reset_stats, start_locked,
  reset_locked, run_locked, run_operation,
}

-- The file that an operation is about.
abbrev pub file_of : Operation → Str
file_of (start_monitor_file request) = request.file_cid
file_of (stop_monitor_file file_cid) = file_cid
file_of (reset_monitor_file file_cid is_data) = file_cid

module _ (f : Floats) where
  goes_on_inj : {m m' : Monitor f} → goes_on m ≡ goes_on m' → m ≡ m'
  goes_on_inj h = cc

  start_locked_others :
      (request : StartMonitoringRequest) (roots : Option (List Str)) (known : Option (FileStats f))
      (m : Monitor f) (other : Str)
      → request.file_cid ≢ other
      → lookup other (start_locked f request roots known m).files ≡ lookup other m.files
  unfolding start_locked
  start_locked_others request roots (some stats) m other distinct = refl
  start_locked_others request none none m other distinct = refl
  start_locked_others request (some roots) none m other distinct =
      ground (arith, lookup-put request.file_cid other (new_file_stats f request roots) m.files)

  reset_locked_others :
      (file_cid : Str) (is_data : Bool) (known : Option (FileStats f)) (m m' : Monitor f)
      (other : Str)
      → file_cid ≢ other
      → reset_locked f file_cid is_data known m ≡ goes_on m'
      → lookup other m'.files ≡ lookup other m.files
  unfolding reset_locked
  reset_locked_others file_cid is_data none m m' other distinct h = cc
  reset_locked_others file_cid is_data (some stats) m m' other distinct h =
      ground (arith, lookup-put file_cid other (reset_stats f file_cid is_data stats) m.files)

  run_locked_others :
      (get_meta_data : Str → Option (List Str)) (op : Operation) (m m' : Monitor f) (other : Str)
      → file_of op ≢ other
      → run_locked f get_meta_data op m ≡ goes_on m'
      → lookup other m'.files ≡ lookup other m.files
  unfolding run_locked
  run_locked_others get_meta_data (start_monitor_file request) m m' other distinct h =
      let others =
        start_locked_others request (get_meta_data request.metadata_cid)
          (lookup request.file_cid m.files) m other distinct in
      ap (λ (x : Monitor f). lookup other x.files) (sym (goes_on_inj h)) ∙ others
  run_locked_others get_meta_data (stop_monitor_file file_cid) m m' other distinct h =
      ground (arith, lookup-remove file_cid other m.files)
  run_locked_others get_meta_data (reset_monitor_file file_cid is_data) m m' other distinct h =
      reset_locked_others file_cid is_data (lookup file_cid m.files) m m' other distinct h

  -- Starting, stopping or resetting the monitoring of a file leaves the statistics of every other
  -- file as they are.
  pub run_operation_others :
      (get_meta_data : Str → Option (List Str)) (op : Operation) (m m' : Monitor f) (other : Str)
      → file_of op ≢ other
      → run_operation f get_meta_data op m ≡ goes_on m'
      → lookup other m'.files ≡ lookup other m.files
  unfolding run_operation
  run_operation_others get_meta_data op m m' other distinct h =
      ground (arith, run_locked_others get_meta_data op m m' other distinct)

  -- When the metadata of a file that is not yet monitored cannot be fetched, the daemon goes on with
  -- its next round, and in it blocks on every operation.
  pub lost_metadata_blocks :
      (get_meta_data : Str → Option (List Str)) (request : StartMonitoringRequest) (m : Monitor f)
      (later : Operation)
      → m.locked ≡ false
      → lookup request.file_cid m.files ≡ none
      → get_meta_data request.metadata_cid ≡ none
      → (m' : Monitor f) × (run_operation f get_meta_data (start_monitor_file request) m
          ≡ goes_on m')
        × (run_operation f get_meta_data later m' ≡ blocks)
  unfolding run_operation run_locked start_locked
  lost_metadata_blocks get_meta_data request m later free unknown lost =
      (record m { locked = true }, rw (free, unknown, lost) refl, refl)
