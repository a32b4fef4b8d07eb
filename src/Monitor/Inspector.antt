-- ===== src/Monitor/Inspector.antt =====
-- Server/inspector.go: how a node chooses a block of a monitored file, looks whether it is there, and
-- notes the answer. Random numbers, the answers of the lattice and of the cluster, and the arithmetic of
-- float32 are parameters. A Go map is gone through in the order of its list.
pub mod Rounds
pub mod Outcome
mod Tests
use ipfs_reliability.Prelude.{
  ℕ, zero, suc, ◌+◌, ◌-◌, Bool, true, false, not, List, [], ◌∷◌, ◌++◌, Option, none, some, ◌>>=◌,
  ◌==◌, ltb, leb, ◌&&◌, ◌||◌, if◌then◌else◌, min, length, take, get_elem?, lookup, put, remove,
}
use mathlib.Core.Option
use ipfs_reliability.Lattice.{Node, Lattice}
use ipfs_reliability.Server.Types.{Str}
use ipfs_reliability.Monitor.{Floats, ClusterPeer, WatchedBlock, FileStats}

-- MaxNeighbourTries, HealthSampleSize, HealthDepth
abbrev pub max_neighbour_tries : ℕ
max_neighbour_tries = 4

abbrev pub health_sample_size : ℕ
health_sample_size = 10

abbrev pub health_depth : ℕ
health_depth = 2

-- *block.LeftNeighbors[0] or *block.RightNeighbors[0]: out of range and nil are panics.
unfoldable pub neighbour_index : List (Option ℕ) → List Node → Option ℕ
neighbour_index links nodes = do
  slot ← get_elem? links 0
  ptr ← slot
  node ← get_elem? nodes ptr
  some node.index

-- One try of pickNeighbour at a block, where `side` is the second random number; `none` is a panic, and an
-- answer without a number goes on with the next try.
unfoldable pub try_neighbour : ℕ → Node → List Node → Option (Option ℕ)
unfolding neighbour_index
try_neighbour side block nodes =
    let left = Option.map some (neighbour_index block.left_neighbors nodes) in
    let right = Option.map some (neighbour_index block.right_neighbors nodes) in
    let first_right =
      if length block.right_neighbors == 0
      then (if length block.left_neighbors == 0 then some none else left)
      else right in
    let first_left =
      if length block.left_neighbors == 0 && length block.right_neighbors == 0
      then some none
      else left in
    if side == 0 then first_right else first_left

-- The loop of pickNeighbour over the random numbers of its tries; `row` has the blocks of the lattice.
unfoldable pub pick_tries : List (ℕ × ℕ) → List ℕ → List Node → Option (Option ℕ)
unfolding try_neighbour
pick_tries [] row nodes = some none
pick_tries ((n, side) ∷ rest) row nodes = do
  ptr ← get_elem? row n
  block ← get_elem? nodes ptr
  found ← try_neighbour side block nodes
  elim found [ none ↦ pick_tries rest row nodes | some i ↦ some (some i) ]

-- pickNeighbour, for random numbers n below the number of missing blocks.
unfoldable pub pick_neighbour {ℓ} :
    {B : Type ℓ} → List (ℕ × ℕ) → List (ℕ × B) → List ℕ → List Node → Option (Option ℕ)
unfolding pick_tries
pick_neighbour draws missing row nodes =
    if length missing == 0 then some none else pick_tries (take max_neighbour_tries draws) row nodes

-- pickRetry: the key at place n.
unfoldable pub pick_retry {ℓ} : {B : Type ℓ} → ℕ → List (ℕ × B) → Option ℕ
pick_retry n [] = none
pick_retry zero ((i, block) ∷ rest) = some i
pick_retry (suc n) ((i, block) ∷ rest) = pick_retry n rest

unfoldable pub or_else : Option ℕ → Option ℕ → Option ℕ
or_else none other = other
or_else (some i) other = some i

-- selectBlockHeuristic after the choice between data and parity: `n` is the random number below 8, and
-- the picks are what the three methods find; `random` is the fallback. The Boolean is fromInsights.
unfoldable pub choose_pick : ℕ → Option ℕ → Option ℕ → Option ℕ → ℕ → ℕ × Bool
unfolding or_else
choose_pick n neighbour region retry random =
    let pick =
      or_else (if ltb n 2 then neighbour else none)
        (or_else (if ltb n 4 then region else none) (if ltb n 5 then retry else none)) in
    elim pick [ none ↦ (random, false) | some number ↦ (number, true) ]

-- The safeguard: at most the last index; there is at least one block.
unfoldable pub clamp_number : ℕ → ℕ → ℕ
clamp_number number blocks = min number (blocks - 1)

-- potentialFailedRegions: the names of peers for each region.
abbrev pub Regions : Type 0
Regions = List (Str × List Str)

-- s.state.unavailableBlocksTimestamps and potentialFailedRegions, and the stats of the file.
pub record Inspection (f : Floats) : Type 0 where
  pub stats : FileStats f
  pub regions : Regions
  pub timestamps : List ℕ

-- The arithmetic of the estimates: 0.33, x / 3, the new estimate after a test with the given probability
-- (and whether the block came from insights), the share of the sample, and the two thresholds.
pub record Estimates (f : Floats) : Type 0 where
  pub third : f.float
  pub divide_by_three : f.float → f.float
  pub blend : Bool → f.float → f.float → f.float
  pub sample_share : ℕ → f.float
  pub under_block_threshold : f.float → Bool
  pub under_repair_threshold : f.float → Bool

-- What the inspection asks: GetChunkDepth and GetParity, whether there is no error, and the CIDs in the
-- getter afterwards, for numbers from 0 on; the allocations of a pin, and the region of a peer. A string
-- is a number, 0 the empty one; `none` is an error.
pub record Answers : Type 0 where
  pub data_there : ℕ → ℕ → Bool
  pub data_cid : ℕ → Str
  pub parity_there : ℕ → Bool
  pub parity_cid : ℕ → Str
  pub allocations : Str → Option (List Str)
  pub region_of : Str → Str

-- The repairs that an inspection starts.
pub data Repair : Type 0 where
  of_file : Repair
  of_strand : ℕ → Repair
