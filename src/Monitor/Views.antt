-- ===== src/Monitor/Views.antt =====
-- prepareUpdateView of Server/server.go: a view of a file that another node sent.
use ipfs_reliability.Prelude.{◌≡◌, refl, false, List, [], ◌∷◌, Option, none, lookup}
use ipfs_reliability.Server.Types.{Str}
use ipfs_reliability.Monitor.{
  Floats, FileStats, Monitor, StartMonitoringRequest, Operation, start_monitor_file, goes_on,
  blocks, run_operation, update_view, update_from,
}
use ipfs_reliability.Monitor.Locks.{lost_metadata_blocks}

module _ (f : Floats) where
  -- The copy that prepareUpdateView makes of its arguments.
  unfoldable pub view_of : FileStats f → FileStats f
  view_of args = record {
    file_cid = 0;
    metadata_cid = 0;
    strand_root_cid = args.strand_root_cid;
    strand_number = 0;
    data_blocks_missing = args.data_blocks_missing;
    parity_blocks_missing = args.parity_blocks_missing;
    valid_parity_blocks_history = [];
    estimated_block_prob = args.estimated_block_prob;
    health = args.health;
  }

  -- prepareUpdateView, when it gets stateMux: the files, and what it sends to the daemon.
  unfoldable pub prepare_update_view : Str → FileStats f → Monitor f → Monitor f × List Operation
  unfolding view_of
  prepare_update_view file_cid args m = update_view f file_cid (view_of args) m

  -- A view of a file that the node does not monitor stops the daemon, whatever metadata the view names,
  -- when nothing has the empty CID: the operation that prepareUpdateView sends lets the daemon go on to
  -- its next round, and there it blocks on every operation.
  pub unknown_view_blocks :
      (get_meta_data : Str → Option (List Str)) (file_cid : Str) (args : FileStats f)
      (m : Monitor f) (later : Operation)
      → m.locked ≡ false
      → lookup file_cid m.files ≡ none
      → get_meta_data 0 ≡ none
      → (op : Operation) × (prepare_update_view file_cid args m ≡ (m, op ∷ []))
        × ((m' : Monitor f) × (run_operation f get_meta_data op m ≡ goes_on m')
            × (run_operation f get_meta_data later m' ≡ blocks))
  unfolding prepare_update_view update_view update_from
  unknown_view_blocks get_meta_data file_cid args m later free unknown lost =
      let request : StartMonitoringRequest = record {
        file_cid = file_cid;
        metadata_cid = 0;
        strand_root_cid = args.strand_root_cid;
      } in
      (
        start_monitor_file request,
        rw (unknown) refl,
        lost_metadata_blocks f get_meta_data request m later free unknown lost,
      )
