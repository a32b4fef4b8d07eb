-- ===== src/Entangler/Index/Pos.antt =====
-- The index functions at a positive index: no panic, and the values without signs.
use ipfs_reliability.Prelude.{ℕ, suc, ◌+◌, ◌-◌, ◌*◌, ◌/◌, ◌%◌, ◌≤◌, ◌<◌, ◌≡◌, refl, arith, [], ◌∷◌}
use ipfs_reliability.Prelude.{some, pos, rem_pos, quot_pos, +ℤ_pos, -ℤ_one}
use ipfs_reliability.Prelude.{◌-ℤ◌, -ℤ-+ℤ_pos}
use ipfs_reliability.Entangler.Index.{
  get_chain_indexes, get_position_category, top, central, bottom,
}

module _ (s p w : ℕ) (hs : 0 < s) (hp : 0 < p) where
  pub get_chain_indexes_pos :
      get_chain_indexes s p (pos (suc w))
      ≡ some (
          pos (w % s)
          ∷ pos ((w % (s * p) / p + p - w % (s * p) % p) % p)
          ∷ pos ((w % (s * p) % p + w % (s * p) / p) % s)
          ∷ [])
  unfolding get_chain_indexes
  get_chain_indexes_pos =
      let area : 0 < s * p = grind arith in
      let small : w % (s * p) % p ≤ p = omega arith in
      rw
        (
          -ℤ_one w,
          rem_pos w s hs,
          rem_pos w (s * p) area,
          rem_pos (w % (s * p)) p hp,
          quot_pos (w % (s * p)) p hp,
        )
        (rw
          (
            -ℤ-+ℤ_pos (w % (s * p) / p) (w % (s * p) % p) p small,
            rem_pos (w % (s * p) / p + p - w % (s * p) % p) p hp,
            +ℤ_pos (w % (s * p) % p) (w % (s * p) / p),
            rem_pos (w % (s * p) % p + w % (s * p) / p) s hs,
          )
          refl)

-- The category of a position, by its row r in a column of s >= 2 rows.
module _ (s p w : ℕ) (big : 2 ≤ s) where
  pub get_position_category_top : suc w % s ≡ 1 → get_position_category s p (pos (suc w)) ≡ some top
  unfolding get_position_category ◌-ℤ◌
  get_position_category_top h = rw (rem_pos (suc w) s (omega arith), h) refl

  pub get_position_category_bottom :
      suc w % s ≡ 0 → get_position_category s p (pos (suc w)) ≡ some bottom
  unfolding get_position_category ◌-ℤ◌
  get_position_category_bottom h = rw (rem_pos (suc w) s (omega arith), h) (ground arith)

  pub get_position_category_central :
      2 ≤ suc w % s → get_position_category s p (pos (suc w)) ≡ some central
  unfolding get_position_category ◌-ℤ◌
  get_position_category_central h = rw (rem_pos (suc w) s (omega arith)) (ground arith)
