-- ===== src/Cluster/Tests.antt =====
-- Runs on a cluster of four peers, the connected one being 1.
use ipfs_reliability.Prelude.{
  ℕ, ◌+◌, ◌%◌, ◌≡◌, ◌<◌, refl, arith, Bool, true, false, List, [], ◌∷◌, some, get_elem?, length,
  lookup, put,
}
use ipfs_reliability.Cluster.{
  Connector, create_connector, peer_load, get_pin_allocations, get_peer_name,
}
use ipfs_reliability.Cluster.Turns.{turns, turns_right}

abbrev listed : List (ℕ × ℕ)
listed = (1, 10) ∷ (2, 20) ∷ (3, 30) ∷ (4, 40) ∷ []

abbrev cluster : Connector
cluster = record {
  self_id = 1;
  peer_ids = 2 ∷ 3 ∷ 4 ∷ [];
  current_idx = 0;
  peers = (2, 20) ∷ (3, 30) ∷ (4, 40) ∷ [];
}

create_test : create_connector (some (1, 10)) (some listed) ≡ some cluster
unfolding create_connector put
create_test = refl

allocations_test :
    (get_pin_allocations (λ _. some (1, 10)) (3 ∷ 1 ∷ 5 ∷ []) cluster).1 ≡ 30 ∷ 10 ∷ 0 ∷ []
unfolding get_pin_allocations get_peer_name lookup
allocations_test = refl

abbrev statuses : List (ℕ × Bool)
statuses = (2, true) ∷ (3, true) ∷ (4, false) ∷ (3, true) ∷ []

load_test : peer_load statuses ≡ (3, (1, 2), (2, 1) ∷ (3, 2) ∷ [])
unfolding peer_load put lookup
load_test = refl

turns_right_example :
    (peers : List ℕ) × (turns 5 cluster ≡ some peers)
    × (length peers ≡ 5)
    × ((i : ℕ) → i < 5 → get_elem? peers i ≡ get_elem? cluster.peer_ids ((0 + i) % 3))
turns_right_example = turns_right 5 cluster (omega arith)
