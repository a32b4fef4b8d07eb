-- ===== src/Entangler/Index.antt =====
-- The index arithmetic of entangler/entangler.go. The result `none` is a panic: a division by
-- zero, or ThrowError.
pub mod Pos
pub mod Square
pub mod Forward
pub mod Chains
pub mod Starts
pub mod Oblong
use ipfs_reliability.Prelude.{ℕ, ◌*◌, Bool, true, false, ◌||◌, List, [], ◌∷◌}
use ipfs_reliability.Prelude.{Option, none, some, ◌>>=◌, ltb, if◌then◌else◌}
use ipfs_reliability.Prelude.{ℤ, pos, ◌+ℤ◌, ◌-ℤ◌, ◌*ℤ◌, ◌==ℤ◌, ltb_ℤ, rem, quot}

pub data PositionClass : Type 0 where
  top central bottom : PositionClass

-- e.S and e.P
module _ (s p : ℕ) where
  unfoldable pub get_position_category : ℤ → Option PositionClass
  get_position_category index = do
    node_pos ← rem index s
    some (
        if node_pos ==ℤ pos 1 || node_pos ==ℤ (pos 1 -ℤ pos s)
        then top
        else if node_pos ==ℤ pos 0
        then bottom
        else central)

  unfoldable pub get_chain_indexes : ℤ → Option (List ℤ)
  get_chain_indexes index = do
    h ← rem (index -ℤ pos 1) s
    index_in_window ← rem (index -ℤ pos 1) (s * p)
    x ← rem index_in_window p
    y ← quot index_in_window p
    rh ← rem (y -ℤ x +ℤ pos p) p
    lh ← rem (x +ℤ y) s
    some (h ∷ rh ∷ lh ∷ [])

  -- The three writes of getChainStartIndexes into the slice that getChainIndexes returned.
  pub to_start : List ℤ → Option (List ℤ)
  to_start (h ∷ rh ∷ lh ∷ []) = do
    r ← rem (pos p -ℤ rh) p
    some ((h +ℤ pos 1) ∷ (r +ℤ pos 1) ∷ (lh +ℤ pos 1) ∷ [])
  to_start indexes = none

  unfoldable pub get_chain_start_indexes : ℤ → Option (List ℤ)
  unfolding to_start
  get_chain_start_indexes index = do indexes ← get_chain_indexes index; to_start indexes

  pub forward_of : PositionClass → ℤ → List ℤ
  forward_of top index =
      (index +ℤ pos s)
      ∷ (index +ℤ pos s +ℤ pos 1)
      ∷ (index +ℤ pos (s * p) -ℤ (pos s -ℤ pos 1) *ℤ (pos s -ℤ pos 1))
      ∷ []
  forward_of central index =
      (index +ℤ pos s) ∷ (index +ℤ pos s +ℤ pos 1) ∷ (index +ℤ pos s -ℤ pos 1) ∷ []
  forward_of bottom index =
      (index +ℤ pos s)
      ∷ (index +ℤ pos (s * p) -ℤ (pos (s * s) -ℤ pos 1))
      ∷ (index +ℤ pos s -ℤ pos 1)
      ∷ []

  unfoldable pub get_forward_neighbor_indexes : ℕ → ℤ → Option (List ℤ)
  unfolding forward_of
  get_forward_neighbor_indexes alpha index = do
    pos_class ← if ltb 3 alpha then none else get_position_category index
    some (forward_of pos_class index)

unfoldable pub is_valid_index : ℕ → ℤ → Bool
is_valid_index chunk_num index =
    if ltb_ℤ index (pos 1) || ltb_ℤ (pos chunk_num) index then false else true
