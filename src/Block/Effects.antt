-- ===== src/Block/Effects.antt =====
-- What each method of a block does to its data and its status.
use ipfs_reliability.Prelude.{
  ◌<◌, ap, length, replicate, ℕ, ◌≡◌, ◌⊎◌, Bool, true, false, List, some, arith,
}
use ipfs_reliability.Bytes.{xor_chunk_data}
use ipfs_reliability.Bytes.Laws.{xor_chunk_data_self}
use ipfs_reliability.Block.{
  data_available, is_available, data_available, is_available, Cell, is_repair_pending, started,
  start_repair, finish_repair, set_data, recover, get_data,
}

-- `b'` has the data of `b`, and new data only if it is `v`.
pub record Adds (v : List ℕ) (b b' : Cell) : Type 0 where
  pub keeps : (u : List ℕ) → get_data b ≡ some u → get_data b' ≡ some u
  pub adds : (u : List ℕ) → get_data b' ≡ some u → (get_data b ≡ some u) ⊎ (u ≡ v)

pub recover-Adds :
    (v w : List ℕ) (b b' : Cell)
    → recover v w b ≡ some b'
    → Adds (xor_chunk_data v w) b b' × (is_repair_pending b'.status ≡ false)
unfolding recover get_data
recover-Adds v w b b' h =
    (record { keeps = λ u e. ground arith; adds = λ u e. ground arith }, ground arith)

pub set_data-Adds :
    (v : List ℕ) (r : Bool) (b : Cell)
    → Adds v b (set_data v r b) × (is_repair_pending (set_data v r b).status ≡ false)
unfolding set_data get_data
set_data-Adds v r b =
    (record { keeps = λ u e. ground arith; adds = λ u e. ground arith }, ground arith)

-- StartRepair starts on a block with no data that no request is busy with.
pub start_repair-Adds :
    (v : List ℕ) (rid : ℕ) (b b' : Cell)
    → start_repair false rid b ≡ started b'
    → Adds v b b'
      × (is_repair_pending b.status ≡ false)
      × (is_repair_pending b'.status ≡ true)
      × (b'.curr_request ≡ rid)
unfolding start_repair get_data
start_repair-Adds v rid b b' h = (
  record { keeps = λ u e. ground arith; adds = λ u e. ground arith },
  ground arith,
  ground arith,
  ground arith,
)

-- FinishRepair ends a repair; without one that succeeds on a block in repair it adds no data.
pub finish_repair-Adds :
    (v : List ℕ) (success : Bool) (b : Cell)
    → (success ≡ true → is_repair_pending b.status ≡ false)
    → Adds v b (finish_repair success b)
      × (is_repair_pending (finish_repair success b).status ≡ false)
unfolding finish_repair get_data
finish_repair-Adds v success b h =
    (record { keeps = λ u e. ground arith; adds = λ u e. ground arith }, ground arith)

-- Recovery from a pair whose two parts are one and the same block with a chunk that is not empty
-- succeeds, and makes the data zero bytes, whatever the chunk is.
pub recover_from_self :
    (v : List ℕ) (b : Cell)
    → 0 < length v
    → is_available b ≡ false
    → (b' : Cell) × (recover v v b ≡ some b') × (get_data b' ≡ some (replicate (length v) 0))
unfolding recover get_data is_available
recover_from_self v b some_bytes empty =
    let b' : Cell = record b {
      repaired = true;
      chunk = xor_chunk_data v v;
      status = data_available;
    } in
    (b', ground arith, ap some (xor_chunk_data_self v))
