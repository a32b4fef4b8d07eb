-- ===== src/Cluster.antt =====
-- ipfs-cluster/ipfscluster.go: the peers of the cluster, and the peer that gets the next pin. The
-- answers of the HTTP API are parameters, well formed; `none` is a request that fails.
pub mod Turns
mod Tests
use ipfs_reliability.Prelude.{
  ℕ, zero, suc, ◌+◌, ◌%◌, Bool, true, false, List, [], ◌∷◌, ◌++◌, Option, none, some, ◌>>=◌, ◌==◌,
  if◌then◌else◌, get_elem?, length, lookup, put, min, max,
}

-- Connector; IDs and names are numbers, the empty name is 0. The URL is not read here.
pub record Connector : Type 0 where
  pub self_id : ℕ
  pub peer_ids : List ℕ
  pub current_idx : ℕ
  pub peers : List (ℕ × ℕ)

-- The answer of /id: the ID and the name of the connected peer.
unfoldable pub peer_info : Option (ℕ × ℕ) → Connector → Connector × Option ℕ
peer_info none c = (c, none)
peer_info (some (id, name)) c = (record c { self_id = id }, some name)

-- One peer of the answer of /peers.
unfoldable pub add_peer : ℕ × ℕ → Connector → Connector
add_peer (id, name) c =
    if id == c.self_id
    then c
    else record c { peers = put id name c.peers; peer_ids = c.peer_ids ++ id ∷ [] }

unfoldable pub add_peers : List (ℕ × ℕ) → Connector → Connector
unfolding add_peer
add_peers [] c = c
add_peers (peer ∷ rest) c = add_peers rest (add_peer peer c)

unfoldable pub peer_ls : Option (List (ℕ × ℕ)) → Connector → Connector × Option ℕ
unfolding add_peers
peer_ls none c = (c, none)
peer_ls (some found) c = (add_peers found c, some (length found))

-- GetLatestPeers: the error of PeerLs is dropped.
unfoldable pub get_latest_peers : Option (List (ℕ × ℕ)) → Connector → Connector × List (ℕ × ℕ)
unfolding peer_ls
get_latest_peers answer c = let (c', _) = peer_ls answer c in (c', c'.peers)

unfoldable pub name_or_empty : Option ℕ → ℕ
name_or_empty none = 0
name_or_empty (some name) = name

-- `id_answer` is the answer of /id, which is asked for the name of the connected peer itself.
unfoldable pub get_peer_name : Option (ℕ × ℕ) → ℕ → Connector → Connector × ℕ
unfolding peer_info name_or_empty
get_peer_name id_answer peer_id c =
    if peer_id == c.self_id
    then (let (c', name) = peer_info id_answer c in (c', name_or_empty name))
    else (c, name_or_empty (lookup peer_id c.peers))

-- CreateIPFSClusterConnector; `none` is an error.
unfoldable pub create_connector : Option (ℕ × ℕ) → Option (List (ℕ × ℕ)) → Option Connector
unfolding peer_info peer_ls
create_connector id_answer peers_answer =
    let (c, name) =
      peer_info id_answer (record { self_id = 0; peer_ids = []; current_idx = 0; peers = [] }) in
    let (c', num) = peer_ls peers_answer c in do _ ← name; _ ← num; some c'

-- The part of AddPin and AddPinDirect before the request: the peer that it names. `none` is a panic.
unfoldable pub take_turn : Connector → Option (Connector × ℕ)
take_turn c = do
  peer_id ← get_elem? c.peer_ids c.current_idx
  some (record c { current_idx = (c.current_idx + 1) % length c.peer_ids }, peer_id)

-- AddPin or AddPinDirect: `posts` says whether the post for a peer gets an answer, of any status; the
-- Boolean is false when it does not.
unfoldable pub add_pin : (ℕ → Bool) → Connector → Option (Connector × Bool)
unfolding take_turn
add_pin posts c = do (c', peer_id) ← take_turn c; some (c', posts peer_id)

-- GetPinAllocations: the names of the allocated peers.
unfoldable pub get_pin_allocations : (ℕ → Option (ℕ × ℕ)) → List ℕ → Connector → Connector × List ℕ
unfolding get_peer_name
get_pin_allocations id_answers [] c = (c, [])
get_pin_allocations id_answers (peer_id ∷ rest) c =
    let (c', name) = get_peer_name (id_answers peer_id) peer_id c in
    let (c'', names) = get_pin_allocations id_answers rest c' in (c'', name ∷ names)

-- GetPeerRegionTag: the value of the first metric of a peer with this name; 0 is the empty value.
unfoldable pub get_peer_region_tag :
    (ℕ → Option (ℕ × ℕ)) → ℕ → List (ℕ × ℕ) → Connector → Connector × ℕ
unfolding get_peer_name
get_peer_region_tag id_answers peer [] c = (c, 0)
get_peer_region_tag id_answers peer ((peer_id, value) ∷ rest) c =
    let (c', name) = get_peer_name (id_answers peer_id) peer_id c in
    let later = get_peer_region_tag id_answers peer rest c' in
    if name == peer then (c', value) else later

-- What PeerLoad counts over the statuses of all pins: the pinned blocks of each peer, and of all.
unfoldable pub count_pin : ℕ × Bool → List (ℕ × ℕ) × ℕ → List (ℕ × ℕ) × ℕ
unfolding name_or_empty
count_pin (peer, pinned) (loads, total) =
    if pinned
    then (put peer (name_or_empty (lookup peer loads) + 1) loads, total + 1)
    else (loads, total)

unfoldable pub count_pins : List (ℕ × Bool) → List (ℕ × ℕ) × ℕ → List (ℕ × ℕ) × ℕ
unfolding count_pin
count_pins [] acc = acc
count_pins (status ∷ rest) acc = count_pins rest (count_pin status acc)

unfoldable pub load_bounds : List (ℕ × ℕ) → ℕ × ℕ → ℕ × ℕ
load_bounds [] bounds = bounds
load_bounds ((peer, blocks) ∷ rest) (low, high) = load_bounds rest (min low blocks, max high blocks)

-- PeerLoad: the total, the smallest and the largest number, and the numbers of the peers.
unfoldable pub peer_load : List (ℕ × Bool) → ℕ × (ℕ × ℕ) × List (ℕ × ℕ)
unfolding count_pins load_bounds
peer_load statuses =
    let (loads, total) = count_pins statuses ([], 0) in (total, load_bounds loads (total, 0), loads)
