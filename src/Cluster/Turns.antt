-- ===== src/Cluster/Turns.antt =====
-- The pins go to the peers in turn, the load that PeerLoad reports adds up, and the list of peers
-- grows with each question for the latest peers.
use ipfs_reliability.Prelude.{
  ℕ, zero, suc, ◌+◌, ◌%◌, ◌≡◌, ◌≤◌, ◌<◌, refl, ◌∙◌, sym, ap, arith, Bool, true, false, List, [],
  ◌∷◌, Option, some, ◌>>=◌, ◌==◌, if◌then◌else◌, get_elem?, get_elem?-of_lt, length, lookup, put,
  min, max, inl, inr, Bool-cases,
}
use native.Mathlib.Nat.{mod-lt, mod-eq_of_lt, mod-add-mod}
use ipfs_reliability.Cluster.{
  Connector, get_latest_peers, take_turn, name_or_empty, count_pin, count_pins, peer_load,
  load_bounds,
}

-- The peers of `k` pins, one after the other.
unfoldable pub turns : ℕ → Connector → Option (List ℕ)
unfolding take_turn
turns zero c = some []
turns (suc k) c = do (c', peer) ← take_turn c; rest ← turns k c'; some (peer ∷ rest)

mod_congr : {x y : ℕ} (n : ℕ) → x ≡ y → x % n ≡ y % n
mod_congr n e = cc

turn_at :
    (cur k : ℕ) (ids : List ℕ) (peer : ℕ) (peers : List ℕ)
    → cur < length ids
    → get_elem? ids cur ≡ some peer
    → ((i : ℕ)
        → i < k
        → get_elem? peers i ≡ get_elem? ids (((cur + 1) % length ids + i) % length ids))
    → (i : ℕ) → i < suc k
    → get_elem? (peer ∷ peers) i ≡ get_elem? ids ((cur + i) % length ids)
turn_at cur k ids peer peers h at right zero lt =
    let here : (cur + 0) % length ids ≡ cur =
      mod_congr {x = cur + 0} {y = cur} (length ids) (omega arith) ∙ mod-eq_of_lt h in
    sym at ∙ ap (get_elem? ids) (sym here)
turn_at cur k ids peer peers h at right (suc i) lt =
    let there : ((cur + 1) % length ids + i) % length ids ≡ (cur + suc i) % length ids =
      mod-add-mod (cur + 1) (length ids) i
      ∙ mod_congr {x = cur + 1 + i} {y = cur + suc i} (length ids) (omega arith) in
    right i (omega arith) ∙ ap (get_elem? ids) there

-- From an index that is in range, any number of pins goes to the peers in their order, round and
-- round: pin number i to the peer at (currentIdx + i) % len(peerIDs).
pub turns_right :
    (k : ℕ) (c : Connector)
    → c.current_idx < length c.peer_ids
    → (peers : List ℕ) × (turns k c ≡ some peers)
      × (length peers ≡ k)
      × ((i : ℕ)
          → i < k
          → get_elem? peers i ≡ get_elem? c.peer_ids ((c.current_idx + i) % length c.peer_ids))
unfolding turns take_turn
turns_right zero c h = ([], refl, refl, λ i p. absurd (omega arith))
turns_right (suc k) c h =
    let n = length c.peer_ids in
    let (peer, at) = get_elem?-of_lt c.peer_ids c.current_idx h in
    let next = record c { current_idx = (c.current_idx + 1) % n } in
    let (peers, e, size, right) = turns_right k next (mod-lt (c.current_idx + 1) (omega arith)) in
    (
      peer ∷ peers,
      rw (at, e) refl,
      omega (arith, size),
      turn_at c.current_idx k c.peer_ids peer peers h at right,
    )

abbrev pub sum_loads : List (ℕ × ℕ) → ℕ
sum_loads [] = 0
sum_loads ((peer, blocks) ∷ rest) = blocks + sum_loads rest

abbrev pub count_pinned : List (ℕ × Bool) → ℕ
count_pinned [] = 0
count_pinned ((peer, pinned) ∷ rest) = (if pinned then 1 else 0) + count_pinned rest

sum_loads-put :
    (peer v : ℕ) (loads : List (ℕ × ℕ))
    → sum_loads (put peer v loads) + name_or_empty (lookup peer loads) ≡ sum_loads loads + v
unfolding put lookup name_or_empty
sum_loads-put peer v [] = omega arith
sum_loads-put peer v ((k, w) ∷ rest) =
    let later = sum_loads-put peer v rest in
    elim (Bool-cases (k == peer)) [
      | inl here ↦ rw (here) (omega arith)
      | inr apart ↦ rw (apart) (omega (arith, later))
    ]

count_pins-sum :
    (statuses : List (ℕ × Bool)) (loads : List (ℕ × ℕ)) (total : ℕ)
    → total ≡ sum_loads loads
    → ((count_pins statuses (loads, total)).1 ≡ sum_loads (count_pins statuses (loads, total)).0)
      × ((count_pins statuses (loads, total)).1 ≡ total + count_pinned statuses)
unfolding count_pins count_pin
count_pins-sum [] loads total e = (e, omega arith)
count_pins-sum ((peer, false) ∷ rest) loads total e =
    let (same, num) = count_pins-sum rest loads total e in (same, omega (arith, num))
count_pins-sum ((peer, true) ∷ rest) loads total e =
    let more = put peer (name_or_empty (lookup peer loads) + 1) loads in
    let (same, num) =
      count_pins-sum rest more (total + 1)
        (omega (arith, e, sum_loads-put peer (name_or_empty (lookup peer loads) + 1) loads)) in
    (same, omega (arith, num))

-- All numbers of blocks are within the bounds.
abbrev pub AreWithin : ℕ → ℕ → List (ℕ × ℕ) → Type 0
AreWithin low high [] = Unit {0}
AreWithin low high ((peer, blocks) ∷ rest) =
    (low ≤ blocks) × (blocks ≤ high) × AreWithin low high rest

load_bounds-AreWithin :
    (loads : List (ℕ × ℕ)) (low high : ℕ)
    → ((load_bounds loads (low, high)).0 ≤ low)
      × (high ≤ (load_bounds loads (low, high)).1)
      × AreWithin (load_bounds loads (low, high)).0 (load_bounds loads (low, high)).1 loads
unfolding load_bounds
load_bounds-AreWithin [] low high = (omega arith, omega arith, tt)
load_bounds-AreWithin ((peer, blocks) ∷ rest) low high =
    let (below, above, all) = load_bounds-AreWithin rest (min low blocks) (max high blocks) in
    (omega (arith, below), omega (arith, above), (omega (arith, below), omega (arith, above), all))

-- PeerLoad's total is the number of pinned statuses, and the sum of the numbers that it lists for the
-- peers; each of these is between the minimum and the maximum that it reports.
pub peer_load_right :
    (statuses : List (ℕ × Bool))
    → ((peer_load statuses).0 ≡ count_pinned statuses)
      × ((peer_load statuses).0 ≡ sum_loads (peer_load statuses).2)
      × AreWithin (peer_load statuses).1.0 (peer_load statuses).1.1 (peer_load statuses).2
unfolding peer_load
peer_load_right statuses =
    let (same, num) = count_pins-sum statuses [] 0 refl in
    let done = count_pins statuses ([], 0) in
    (omega (arith, num), same, (load_bounds-AreWithin done.0 done.1 0).2)

-- How many of the listed peers are not the connected one.
abbrev pub count_others : ℕ → List (ℕ × ℕ) → ℕ
count_others self [] = 0
count_others self ((id, name) ∷ rest) = (if id == self then 0 else 1) + count_others self rest

-- `k` calls of GetLatestPeers with the same answer.
unfoldable pub refreshed : ℕ → List (ℕ × ℕ) → Connector → Connector
unfolding get_latest_peers
refreshed zero found c = c
refreshed (suc k) found c = refreshed k found (get_latest_peers (some found) c).0
