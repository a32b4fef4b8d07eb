-- ===== src/Lattice/Recover.antt =====
-- The sequential recovery of entangler/lattice.go, and the recover pairs of entangler/block.go. The
-- links of the blocks do not change after Init, so these functions read `nodes` and change `cells`.
-- `none` is a nil dereference, or a request that sleeps for ever in StartRepair.
pub mod Evolves
pub mod Sound
pub mod Total
use ipfs_reliability.Prelude.{ℕ, zero, suc, ◌+◌, ◌-◌, Bool, true, false, not, List, [], ◌∷◌, ◌++◌}
use ipfs_reliability.Prelude.{Option, none, some, ◌>>=◌, ltb, if◌then◌else◌, get_elem?, set}
use ipfs_reliability.Block.{
  Cell, Start, started, refused, waits, start_repair, finish_repair, set_data, recover, get_data,
}
use ipfs_reliability.Lattice.{Node, left_of, right_of}

pub record BlockPair : Type 0 where
  pub left : ℕ
  pub right : ℕ

-- What the lattice asks of its Getter during a request; `none` is an error.
pub record BlockGetter : Type 0 where
  pub get_data_at : ℕ → Option (List ℕ)
  pub get_parity_at : ℕ → ℕ → Option (List ℕ)

-- The pairs of one strand in setRecoverPairsForData.
unfoldable pub data_pairs_on : List Node → ℕ → ℕ → Option (List BlockPair)
unfolding left_of right_of
data_pairs_on nodes ptr k = do
  l ← left_of ptr k nodes
  r ← right_of ptr k nodes
  left_node ← get_elem? nodes l
  l' ← if left_node.is_wrap_modified then left_of l 0 nodes else some l
  right_node ← get_elem? nodes r
  next ← if right_node.is_wrap_modified then right_of r 0 nodes else some ptr
  next_right ← if right_node.is_wrap_modified then right_of next k nodes else some r
  some (
      record { left = l'; right = r }
      ∷ (if right_node.is_wrap_modified
          then record { left = next; right = next_right } ∷ []
          else []))

unfoldable pub data_pairs : List Node → ℕ → ℕ → List (Option ℕ) → Option (List BlockPair)
unfolding data_pairs_on
data_pairs nodes ptr k [] = some []
data_pairs nodes ptr k (_ ∷ rest) = do
  here ← data_pairs_on nodes ptr k
  others ← data_pairs nodes ptr (suc k) rest
  some (here ++ others)

unfoldable pub parity_pairs : List Node → ℕ → Node → Option (List BlockPair)
unfolding left_of right_of
parity_pairs nodes ptr node = do
  r ← left_of ptr 0 nodes
  l ← left_of r node.strand nodes
  left_node ← get_elem? nodes l
  l' ← if left_node.is_wrap_modified then left_of l 0 nodes else some l
  next ← right_of ptr 0 nodes
  next_right ← right_of next node.strand nodes
  some (
      record { left = l'; right = r }
      ∷ (if not node.is_wrap_modified then record { left = next; right = next_right } ∷ [] else []))

-- GetRecoverPairs. The pairs are computed once; the links that they come from stay the same.
unfoldable pub get_recover_pairs : List Node → ℕ → Option (List BlockPair)
unfolding data_pairs parity_pairs
get_recover_pairs nodes ptr = do
  node ← get_elem? nodes ptr
  if node.is_parity then parity_pairs nodes ptr node else data_pairs nodes ptr 0 node.left_neighbors

-- The call of the Getter in downloadBlock.
unfoldable pub fetch : BlockGetter → Node → Option (List ℕ)
fetch getter block =
    if block.is_parity
    then getter.get_parity_at (block.index - 1) block.strand
    else getter.get_data_at (block.index - 1)

-- A recovery that returned: the cells after it, and what it returned.
abbrev pub Returned : Type 0 → Type 0
Returned A = Option (List Cell × A)

-- getDataFromBlockSequential, where `visit` is sequentialRecoverHelper.
unfoldable pub get_data_from :
    (ℕ → List Cell → Option (List Cell)) → ℕ → List Cell → Returned (Option (List ℕ))
get_data_from visit ptr cells = do
  cells' ← visit ptr cells
  b ← get_elem? cells' ptr
  some (cells', get_data b)

-- An error goes on with the next pair.
unfoldable pub if_ok :
    Option (List ℕ)
    → (List Cell → Returned Bool)
    → (List ℕ → List Cell → Returned Bool)
    → List Cell
    → Returned Bool
if_ok none go_on use_chunk cells = go_on cells
if_ok (some v) go_on use_chunk cells = use_chunk v cells

unfoldable pub if_recovered :
    Option Cell → ℕ → (List Cell → Returned Bool) → List Cell → Returned Bool
if_recovered none ptr go_on cells = go_on cells
if_recovered (some b) ptr go_on cells = some (set cells ptr b, true)

-- The last test of the loop body of sequentialRepair.
unfoldable pub rebuild_from :
    ℕ → List ℕ → (List Cell → Returned Bool) → List ℕ → List Cell → Returned Bool
unfolding if_recovered
rebuild_from ptr left_chunk go_on right_chunk cells = do
  b ← get_elem? cells ptr
  if_recovered (recover left_chunk right_chunk b) ptr go_on cells

unfoldable pub try_right :
    (ℕ → List Cell → Option (List Cell))
    → ℕ
    → ℕ
    → (List Cell → Returned Bool)
    → List ℕ
    → List Cell
    → Returned Bool
unfolding get_data_from rebuild_from if_ok
try_right visit ptr right go_on left_chunk cells = do
  (cells', right_chunk) ← get_data_from visit right cells
  if_ok right_chunk go_on (rebuild_from ptr left_chunk go_on) cells'

unfoldable pub try_pair :
    (ℕ → List Cell → Option (List Cell))
    → ℕ
    → BlockPair
    → (List Cell → Returned Bool)
    → List Cell
    → Returned Bool
unfolding get_data_from try_right if_ok
try_pair visit ptr pair go_on cells = do
  (cells', left_chunk) ← get_data_from visit pair.left cells
  if_ok left_chunk go_on (try_right visit ptr pair.right go_on) cells'

-- The loop of sequentialRepair.
unfoldable pub try_pairs :
    (ℕ → List Cell → Option (List Cell)) → ℕ → List BlockPair → List Cell → Returned Bool
unfolding try_pair
try_pairs visit ptr [] cells = some (cells, false)
try_pairs visit ptr (pair ∷ rest) cells = try_pair visit ptr pair (try_pairs visit ptr rest) cells

module _ (getter : BlockGetter) (nodes : List Node) where
  unfoldable pub sequential_repair :
      ℕ → (ℕ → List Cell → Option (List Cell)) → ℕ → List Cell → Returned Bool
  unfolding try_pairs
  sequential_repair zero visit ptr cells = some (cells, false)
  sequential_repair (suc depth) visit ptr cells = do
    pairs ← get_recover_pairs nodes ptr
    try_pairs visit ptr pairs cells

  -- The deferred FinishRepair.
  unfoldable pub finish_at : ℕ → Bool → List Cell → Option (List Cell)
  finish_at ptr success cells = do
    b ← get_elem? cells ptr
    some (set cells ptr (finish_repair success b))

  -- What sequentialRecoverHelper does with a block that it started to repair: StartRepair has set
  -- its status to RepairPending, so the test for DataAvailable that stands there never holds.
  unfoldable pub download_or_repair :
      Option (List ℕ)
      → ℕ
      → (ℕ → List Cell → Option (List Cell))
      → ℕ
      → Cell
      → List Cell
      → Option (List Cell)
  unfolding sequential_repair finish_at
  download_or_repair (some new_data) depth visit ptr b cells =
      finish_at ptr true (set cells ptr (set_data new_data false b))
  download_or_repair none depth visit ptr b cells = do
    (cells', success) ← sequential_repair depth visit ptr cells
    finish_at ptr success cells'

  unfoldable pub if_started :
      Start → ℕ → (ℕ → List Cell → Option (List Cell)) → ℕ → List Cell → Option (List Cell)
  unfolding download_or_repair
  if_started refused depth visit ptr cells = some cells
  if_started waits depth visit ptr cells = none
  if_started (started b) depth visit ptr cells = do
    node ← get_elem? nodes ptr
    download_or_repair (fetch getter node) depth visit ptr b (set cells ptr b)

  -- sequentialRecoverHelper. It is called with a positive depth only: at 0 the unsigned
  -- allowDepth - 1 would wrap around.
  unfoldable pub sequential_recover_helper : ℕ → ℕ → ℕ → List Cell → Option (List Cell)
  unfolding if_started
  sequential_recover_helper zero rid ptr cells = none
  sequential_recover_helper (suc depth) rid ptr cells = do
    b ← get_elem? cells ptr
    if_started (start_repair false rid b) depth (sequential_recover_helper depth rid) ptr cells

  -- getDataFromBlock with the request number `rid`, which getRequestID counts up.
  unfoldable pub get_data_from_block : ℕ → ℕ → ℕ → List Cell → Returned (Option (List ℕ))
  unfolding sequential_recover_helper get_data_from
  get_data_from_block allow_depth rid ptr cells =
      if ltb 0 allow_depth
      then get_data_from (sequential_recover_helper allow_depth rid) ptr cells
      else some (cells, none)
