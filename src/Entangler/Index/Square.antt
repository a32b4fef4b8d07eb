-- ===== src/Entangler/Index/Square.antt =====
-- The position of a block in a square lattice (s = p): column c and row r, index c * s + r + 1.
use ipfs_reliability.Prelude.{ℕ, suc, ◌+◌, ◌-◌, ◌*◌, ◌/◌, ◌%◌, ◌≤◌, ◌<◌, ◌≡◌, refl, arith, [], ◌∷◌}
use ipfs_reliability.Prelude.{some, pos, ◌∙◌, ap, ◌⊎◌}
use native.Mathlib.Nat.{
  mod-lt, mod-eq_of_lt, mul-add-mod_self_right, mul-add-div_right, div-eq_of_lt, div-add-mod',
  mod_self, suc-mod,
}
use ipfs_reliability.Entangler.Index.{get_chain_indexes}
use ipfs_reliability.Entangler.Index.Pos.{get_chain_indexes_pos}

module _ (s c r : ℕ) (small : r < s) where
  pub row : (c * s + r) % s ≡ r
  row = mul-add-mod_self_right c s r ∙ mod-eq_of_lt small

  pub column : (c * s + r) / s ≡ c
  column = mul-add-div_right (omega arith) c r ∙ omega (arith, div-eq_of_lt small)

  -- s columns make a window of s * s blocks.
  pub window : (c * s + r) % (s * s) ≡ c % s * s + r
  window =
      let q = c / s in
      let m = c % s in
      let short : m < s = mod-lt c (omega arith) in
      let fits : m * s + r < s * s = grind arith in
      let split : c * s + r ≡ q * (s * s) + (m * s + r) =
        omega (arith, ap (λ (t : ℕ). t * s) (div-add-mod' c s)) in
      ap (λ (t : ℕ). t % (s * s)) split
      ∙ mul-add-mod_self_right q (s * s) (m * s + r)
      ∙ mod-eq_of_lt fits

module _ (s c r : ℕ) (small : r < s) where
  pub get_chain_indexes_square :
      get_chain_indexes s s (pos (suc (c * s + r)))
      ≡ some (pos r ∷ pos ((c % s + s - r) % s) ∷ pos ((r + c % s) % s) ∷ [])
  get_chain_indexes_square =
      rw
        (
          get_chain_indexes_pos s s (c * s + r) (omega arith) (omega arith),
          window s c r small,
          row s (c % s) r small,
          column s (c % s) r small,
          row s c r small,
        )
        refl

-- The column after c, modulo s.
pub column_suc :
    (s c : ℕ)
    → 2 ≤ s
    → (suc c % s ≡ suc (c % s)) × (suc (c % s) < s) ⊎ (suc c % s ≡ 0) × (suc (c % s) ≡ s)
column_suc s c big = grind (
  arith,
  suc-mod c s,
  mod_self s,
  mod-lt c {m = s} (omega arith),
  mod-eq_of_lt {n = suc (c % s)} {m = s},
)
