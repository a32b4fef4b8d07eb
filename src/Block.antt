-- ===== src/Block.antt =====
-- entangler/block.go, less the bytes. Of the struct Block, `Cell` has the fields that change while
-- blocks are fetched and repaired; the links are in Lattice. Each method holds the block's lock
-- from its first to its last line, so it is one step.
pub mod Steps
pub mod Effects
mod Tests
use ipfs_reliability.Prelude.{ℕ, Bool, true, false, not, ◌&&◌, List, [], ◌∷◌, Option, none, some}
use ipfs_reliability.Prelude.{◌==◌, if◌then◌else◌, length}
use ipfs_reliability.Bytes.{xor_chunk_data}

pub data BlockStatus : Type 0 where
  no_data data_available repair_pending : BlockStatus

-- b.Status == DataAvailable, and b.Status == RepairPending
abbrev pub is_data_available : BlockStatus → Bool
is_data_available data_available = true
is_data_available _ = false

abbrev pub is_repair_pending : BlockStatus → Bool
is_repair_pending repair_pending = true
is_repair_pending _ = false

-- The field Data is `chunk`.
pub record Cell : Type 0 where
  pub chunk : List ℕ
  pub repaired : Bool
  pub status : BlockStatus
  pub curr_request : ℕ

unfoldable pub new_cell : Cell
new_cell = record { chunk = []; repaired = false; status = no_data; curr_request = 0 }

unfoldable pub get_data : Cell → Option (List ℕ)
get_data b = if is_data_available b.status then some b.chunk else none

unfoldable pub is_available : Cell → Bool
is_available b = is_data_available b.status

unfoldable pub is_repaired : Cell → Bool
is_repaired b = b.repaired

-- One pass through the loop of StartRepair: it returns true with the new block, returns false, or
-- goes to sleep until another request finishes.
pub data Start : Type 0 where
  started : Cell → Start
  refused waits : Start

unfoldable pub start_repair : Bool → ℕ → Cell → Start
start_repair cancelled rid b =
    if cancelled
    then refused
    else if is_repair_pending b.status
    then if b.curr_request == rid then refused else waits
    else if is_data_available b.status
    then refused
    else started (record b { status = repair_pending; curr_request = rid })

unfoldable pub finish_repair : Bool → Cell → Cell
finish_repair success b =
    let should_update = is_repair_pending b.status in
    if success
    then if should_update then record b { status = data_available } else b
    else if should_update
    then record b { status = no_data }
    else b

unfoldable pub set_data : List ℕ → Bool → Cell → Cell
set_data new_data is_recover b =
    if not (is_data_available b.status)
    then record b { chunk = new_data; status = data_available; repaired = is_recover }
    else b

-- `none` is the error for an empty chunk.
unfoldable pub recover : List ℕ → List ℕ → Cell → Option Cell
recover v w b =
    if length v == 0
    then none
    else if length w == 0
    then none
    else some (
        if not (is_data_available b.status)
        then record b { repaired = true; chunk = xor_chunk_data v w; status = data_available }
        else b)
