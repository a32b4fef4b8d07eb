-- ===== src/Server/Split.antt =====
-- How StartCollabRepair of Server/repair.go shares the failed leaves out to peers.
pub mod Laws
use ipfs_reliability.Prelude.{ℕ, zero, suc, ◌*◌, ◌-◌, ◌/◌, List, [], ◌∷◌, ◌++◌, Option, none, some}
use ipfs_reliability.Prelude.{length, take, drop, slice, ltb, ◌==◌, if◌then◌else◌}

-- The smallest of op.NumPeers, len(peers) and len(leaves).
unfoldable pub peers_to_use : ℕ → ℕ → ℕ → ℕ
peers_to_use num_peers peers leaves =
    let num = if ltb peers num_peers then peers else num_peers in
    if ltb leaves num then leaves else num

-- The leaves of request i.
unfoldable pub share : ℕ → ℕ → ℕ → List ℕ → List ℕ
share num per i leaves =
    if suc i == num then drop (i * per) leaves else slice (i * per) (suc i * per) leaves

-- The requests from number i on, `n` of them.
unfoldable pub shares_from : ℕ → ℕ → ℕ → ℕ → List ℕ → List (List ℕ)
unfolding share
shares_from zero i num per leaves = []
shares_from (suc n) i num per leaves = share num per i leaves ∷ shares_from n (suc i) num per leaves

-- All requests; `none` is the panic of a division by zero.
unfoldable pub shares : ℕ → List ℕ → Option (List (List ℕ))
unfolding shares_from
shares num leaves =
    if num == 0 then none else some (shares_from num 0 num (length leaves / num) leaves)

unfoldable pub concat : List (List ℕ) → List ℕ
concat [] = []
concat (xs ∷ rest) = xs ++ concat rest
