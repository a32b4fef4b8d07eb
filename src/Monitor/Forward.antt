-- ===== src/Monitor/Forward.antt =====
-- What a node tells the other nodes of a file: forwardMonitoring and the method resetMonitorFile of
-- Server/server.go, and ShareView of Server/viewshare.go. What PostJSON sends is listed in its order; an
-- error of a post is only logged.
pub mod Sent
mod Tests
use ipfs_reliability.Prelude.{
  ℕ, Bool, true, false, not, List, [], ◌∷◌, ◌++◌, Option, none, some, ◌>>=◌, ◌==◌, ◌||◌,
  if◌then◌else◌, lookup,
}
use mathlib.Core.List
use ipfs_reliability.Server.Types.{Str}
use ipfs_reliability.Monitor.{FileStats, Floats, Monitor, StartMonitoringRequest}
use ipfs_reliability.Client.Metadata.{ForwardMonitoringRequest}

-- GetPinAllocations, and getCommunityAddress: `none` is an error, and the string 0 is empty.
pub record Directory : Type 0 where
  pub allocations : Str → Option (List Str)
  pub community_address : Str → Option Str

pub data Message (f : Floats) : Type 0 where
  start_monitor : StartMonitoringRequest → Message f
  reset_monitor : (file_cid : Str) (is_data : Bool) → Message f

-- A post to an address.
abbrev pub Post : Floats → Type 0
Post f = Str × Message f

unfoldable pub names_of : Option (List Str) → List Str
names_of none = []
names_of (some names) = names

module _ (f : Floats) (d : Directory) where
  -- With an error the address is empty.
  unfoldable pub post_if_found : Message f → Option Str → List (Post f)
  post_if_found m none = []
  post_if_found m (some address) = if address == 0 then [] else (address, m) ∷ []

  -- The loop body over the peers of a root in forwardMonitoring.
  unfoldable pub forward_to_peer : Message f → Str → List (Post f)
  unfolding post_if_found
  forward_to_peer m peer = if peer == 0 then [] else post_if_found m (d.community_address peer)

  abbrev pub start_request : ForwardMonitoringRequest → Str → Message f
  start_request request root = start_monitor (record {
    file_cid = request.file_cid;
    metadata_cid = request.metadata_cid;
    strand_root_cid = root;
  })

  unfoldable pub forward_root : ForwardMonitoringRequest → Str → List (Post f)
  unfolding forward_to_peer names_of
  forward_root request root =
      List.flat_map (forward_to_peer (start_request request root)) (names_of (d.allocations root))

  -- forwardMonitoring
  unfoldable pub forward_monitoring : ForwardMonitoringRequest → List (Post f)
  unfolding forward_root
  forward_monitoring request = List.flat_map (forward_root request) request.strand_root_cids

  -- The method resetMonitorFile skips a peer after an error, but not one with an empty address.
  unfoldable pub post_unless_error : Message f → Option Str → List (Post f)
  post_unless_error m none = []
  post_unless_error m (some address) = (address, m) ∷ []

  unfoldable pub reset_peer : Message f → Str → List (Post f)
  unfolding post_unless_error
  reset_peer m peer = if peer == 0 then [] else post_unless_error m (d.community_address peer)

  unfoldable pub reset_root : Message f → Str → List (Post f)
  unfolding reset_peer names_of
  reset_root m root = List.flat_map (reset_peer m) (names_of (d.allocations root))

  -- resetMonitorFile of the file; `tree_cids` fetches the metadata. `none` is a panic: a file that is not
  -- monitored has a nil pointer.
  unfoldable pub reset_monitors :
      (Str → Option (List Str)) → Str → Bool → Monitor f → Option (List (Post f))
  unfolding reset_root names_of
  reset_monitors tree_cids file_cid is_data st = do
    stats ← lookup file_cid st.files
    some (
        List.flat_map (reset_root (reset_monitor file_cid is_data))
          (names_of (tree_cids stats.metadata_cid)))

-- The URLs that ShareView makes: an address and a path, without a scheme.
pub data BareUrl : Type 0 where
  update_view_at stop_monitor_at : (address : Str) → BareUrl

-- PostJSON for such a URL: `makes_request` says whether http.NewRequest returns a request. When it does
-- not, PostJSON sets a header of a nil request, which is a panic; the error of the request itself is only
-- logged by ShareView.
unfoldable pub post_json : (BareUrl → Bool) → BareUrl → List BareUrl → Option (List BareUrl)
post_json makes_request url posted = if makes_request url then some (posted ++ url ∷ []) else none

module _ (d : Directory) (makes_request : BareUrl → Bool) where
  unfoldable pub share_to :
      Str → Str → Option Str → Bool × List BareUrl → Option (Bool × List BareUrl)
  unfolding post_json
  share_to cluster_ip peer none st = some st
  share_to cluster_ip peer (some address) (still_in_peers, posted) = do
    posted' ← post_json makes_request (update_view_at address) posted
    some (still_in_peers || (peer == cluster_ip), posted')

  -- The loop of ShareView over the peers, with stillInPeers and what was posted so far.
  unfoldable pub share_with : Str → List Str → Bool × List BareUrl → Option (Bool × List BareUrl)
  unfolding share_to
  share_with cluster_ip [] st = some st
  share_with cluster_ip (peer ∷ peers) st = do
    st' ← share_to cluster_ip peer (d.community_address peer) st
    share_with cluster_ip peers st'

  unfoldable pub stop_unless : Str → Bool × List BareUrl → Option (List BareUrl)
  unfolding post_json
  stop_unless address (still_in_peers, posted) =
      if still_in_peers
      then some posted
      else post_json makes_request (stop_monitor_at address) posted

  -- ShareView on the node with this address and clusterIP, for the root of a strand; `none` is a panic.
  unfoldable pub share_view : Str → Str → Str → Option (List BareUrl)
  unfolding share_with stop_unless
  share_view address cluster_ip strand_root_cid = elim (d.allocations strand_root_cid) [
    | none ↦ some []
    | some peers ↦ share_with cluster_ip peers (false, []) >>= stop_unless address
  ]
