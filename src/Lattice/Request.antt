-- ===== src/Lattice/Request.antt =====
-- The requests of a client to the lattice of entangler/lattice.go: GetChunk, GetParity, GetAllData
-- and the repaired parities. The counter of requests is a uint of 64 bits.
pub mod File
pub mod Check
mod Tests
use ipfs_reliability.Prelude.{ℕ, zero, suc, ◌+◌, ◌%◌, ◌^◌, Bool, true, false, List, [], ◌∷◌, ◌++◌}
use ipfs_reliability.Prelude.{
  Option, none, some, ◌>>=◌, if◌then◌else◌, get_elem?, set, at, ℤ, pos, ◌-ℤ◌,
}
use ipfs_reliability.Block.{Cell, set_data, is_repaired}
use ipfs_reliability.Lattice.{Lattice}
use ipfs_reliability.Lattice.Recover.{BlockGetter, get_data_from_block}

-- What GetChunk and GetParity return: the data or an error, and whether the block is repaired.
pub record Answer : Type 0 where
  pub data_of : Option (List ℕ)
  pub repaired : Bool

unfoldable pub get_block : ℕ → Lattice → Option ℕ
get_block index l = at l.data_blocks (pos index -ℤ pos 1)

-- getRequestID: the lattice after the call; the number is the counter before it.
unfoldable pub next_request_id : Lattice → Lattice
next_request_id l = record l { request_counter = (l.request_counter + 1) % 2 ^ 64 }

-- One round of GetAllData after the call of GetChunk: an error ends the loop.
unfoldable pub append_chunk :
    Option (List ℕ)
    → (Lattice → Option (Lattice × List (List ℕ) × Bool))
    → Lattice
    → Option (Lattice × List (List ℕ) × Bool)
append_chunk none go_on l = some (l, [], false)
append_chunk (some chunk) go_on l = do (l', chunks, ok) ← go_on l; some (l', chunk ∷ chunks, ok)

module _ (getter : BlockGetter) where
  -- getDataFromBlock with a new request number, and then IsRepaired.
  unfoldable pub request : ℕ → ℕ → Lattice → Option (Lattice × Answer)
  unfolding get_data_from_block next_request_id
  request allow_depth ptr l = do
    (cells, data_of) ← get_data_from_block getter l.nodes allow_depth l.request_counter ptr l.cells
    block ← get_elem? cells ptr
    some (
      record (next_request_id l) { cells = cells },
      record { data_of = data_of; repaired = is_repaired block },
    )

  unfoldable pub get_chunk_depth : ℕ → ℕ → Lattice → Option (Lattice × Answer)
  unfolding get_block request
  get_chunk_depth index depth l = do block ← get_block index l; request depth block l

  unfoldable pub get_chunk : ℕ → Lattice → Option (Lattice × Answer)
  unfolding get_block request
  get_chunk index l = do block ← get_block index l; request l.switch_depth block l

  unfoldable pub get_parity : ℕ → ℕ → Lattice → Option (Lattice × Answer)
  unfolding request
  get_parity index strand l = do
    row ← get_elem? l.parity_blocks strand
    block ← at row (pos index -ℤ pos 1)
    request l.switch_depth block l

  -- The rounds of GetAllData from i on, `n` of them; the last part of the result is `err == nil`.
  unfoldable pub get_chunks_from : ℕ → ℕ → Lattice → Option (Lattice × List (List ℕ) × Bool)
  unfolding get_chunk append_chunk
  get_chunks_from zero i l = some (l, [], true)
  get_chunks_from (suc n) i l = do
    (l', answer) ← get_chunk (suc i) l
    append_chunk answer.data_of (get_chunks_from n (suc i)) l'

  unfoldable pub get_all_data : Lattice → Option (Lattice × List (List ℕ) × Bool)
  unfolding get_chunks_from
  get_all_data l = get_chunks_from l.chunk_num 0 l

unfoldable pub update_parity : ℕ → ℕ → List ℕ → Lattice → Option Lattice
update_parity index strand new_data l = do
  row ← get_elem? l.parity_blocks strand
  ptr ← get_elem? row index
  b ← get_elem? l.cells ptr
  some (record l { cells = set l.cells ptr (set_data new_data true b) })

-- The inner loop of GetRepairedParities.
unfoldable pub repaired_in : List Cell → List ℕ → Option (List ℕ)
repaired_in cells [] = some []
repaired_in cells (ptr ∷ rest) = do
  b ← get_elem? cells ptr
  others ← repaired_in cells rest
  some (if is_repaired b then ptr ∷ others else others)

unfoldable pub repaired_in_rows : List Cell → List (List ℕ) → Option (List ℕ)
unfolding repaired_in
repaired_in_rows cells [] = some []
repaired_in_rows cells (row ∷ rest) = do
  here ← repaired_in cells row
  others ← repaired_in_rows cells rest
  some (here ++ others)

unfoldable pub get_repaired_parities : Lattice → Option (List ℕ)
unfolding repaired_in_rows
get_repaired_parities l = repaired_in_rows l.cells l.parity_blocks
