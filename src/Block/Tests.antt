-- ===== src/Block/Tests.antt =====
-- Runs of the methods of a block.
use ipfs_reliability.Prelude.{ℕ, ◌≡◌, ◌≢◌, refl, [], ◌∷◌, some, false}
use ipfs_reliability.Block.{
  Cell, new_cell, repair_pending, started, refused, waits, start_repair, finish_repair, set_data,
  get_data, is_available,
}
use ipfs_reliability.Block.Steps.{here, next, finish, Steps-keep_data, start_repair_excludes}

abbrev busy_cell : Cell
busy_cell = record { chunk = []; repaired = false; status = repair_pending; curr_request = 7 }

new_cell_starts : start_repair false 7 new_cell ≡ started busy_cell
unfolding start_repair new_cell
new_cell_starts = refl

downloaded : get_data (set_data (1 ∷ 2 ∷ []) false busy_cell) ≡ some (1 ∷ 2 ∷ [])
unfolding get_data set_data
downloaded = refl

Steps-keep_data_example :
    get_data (finish_repair false (set_data (1 ∷ 2 ∷ []) false busy_cell)) ≡ some (1 ∷ 2 ∷ [])
Steps-keep_data_example =
    Steps-keep_data (next here (finish false (set_data (1 ∷ 2 ∷ []) false busy_cell))) (1 ∷ 2 ∷ [])
      downloaded

start_repair_excludes_example :
    (start_repair false 7 busy_cell ≡ refused)
    × (◌≢◌ {A = ℕ} 7 8 → start_repair false 8 busy_cell ≡ waits)
start_repair_excludes_example = start_repair_excludes 7 8 new_cell busy_cell new_cell_starts

is_empty : is_available busy_cell ≡ false
unfolding is_available
is_empty = refl
