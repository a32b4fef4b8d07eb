-- ===== src/Entangler/Index/Forward.antt =====
-- The forward neighbours in a square lattice: one for each strand, in the next column.
use ipfs_reliability.Prelude.{
  ℕ, zero, suc, ◌+◌, ◌-◌, ◌*◌, ◌%◌, ◌≤◌, ◌<◌, ◌≡◌, refl, arith, List, [], ◌∷◌, ◌⊎◌, inl, inr, ◌==◌,
  if◌then◌else◌,
}
use ipfs_reliability.Prelude.{some, ℤ, pos, false, ◌∙◌, ap, ltb, +ℤ_pos, -ℤ_pos, *ℤ_pos}
use native.Mathlib.Nat.{mod-eq_of_lt, mod_self, suc-mod}
use ipfs_reliability.Entangler.Index.{
  forward_of, get_forward_neighbor_indexes, top, bottom, central,
}
use ipfs_reliability.Entangler.Index.Pos.{
  get_position_category_top, get_position_category_bottom, get_position_category_central,
}
use ipfs_reliability.Entangler.Index.Square.{row}

-- The row that the right-hand strand goes to from row r, and the left-hand strand.
abbrev pub row_below : ℕ → ℕ → ℕ
row_below s r = if suc r == s then 0 else suc r

abbrev pub row_above : ℕ → ℕ → ℕ
row_above s r = if r == 0 then s - 1 else r - 1

-- The index in row r of column c.
abbrev pub index_of : ℕ → ℕ → ℕ → ℕ
index_of s c r = suc (c * s + r)

square_pred : (s : ℕ) → 1 ≤ s → (s - 1) * (s - 1) + 2 * s ≡ s * s + 1
square_pred zero h = absurd (omega arith)
square_pred (suc t) h = let less : suc t - 1 ≡ t = omega arith in rw less (omega arith)

three :
    {a b c a' b' c' : ℕ}
    → a ≡ a'
    → b ≡ b'
    → c ≡ c'
    → (pos a ∷ pos b ∷ pos c ∷ []) ≡ (pos a' ∷ pos b' ∷ pos c' ∷ [])
three p q r = rw (p, q, r)

module _ (s c r : ℕ) (big : 2 ≤ s) (small : r < s) where
  abbrev neighbours : List ℤ
  neighbours =
      pos (index_of s (suc c) r)
      ∷ pos (index_of s (suc c) (row_below s r))
      ∷ pos (index_of s (suc c) (row_above s r))
      ∷ []

  forward_of_top : r ≡ 0 → forward_of s s top (pos (index_of s c r)) ≡ neighbours
  unfolding forward_of
  forward_of_top e =
      let sq = square_pred s (omega arith) in
      let less : (s - 1) * (s - 1) ≤ suc (c * s + r) + s * s = omega (arith, sq) in
      rw
        (
          +ℤ_pos (suc (c * s + r)) s,
          +ℤ_pos (suc (c * s + r) + s) 1,
          +ℤ_pos (suc (c * s + r)) (s * s),
          -ℤ_pos s 1 (omega arith),
          *ℤ_pos (s - 1) (s - 1),
          -ℤ_pos (suc (c * s + r) + s * s) ((s - 1) * (s - 1)) less,
        )
        (three (omega arith) (ground arith) (ground (arith, sq)))

  forward_of_bottom : suc r ≡ s → forward_of s s bottom (pos (index_of s c r)) ≡ neighbours
  unfolding forward_of
  forward_of_bottom e =
      let area : s ≤ s * s = grind arith in
      rw
        (
          +ℤ_pos (suc (c * s + r)) s,
          +ℤ_pos (suc (c * s + r)) (s * s),
          -ℤ_pos (s * s) 1 (omega arith),
          -ℤ_pos (suc (c * s + r) + s * s) (s * s - 1) (omega arith),
          -ℤ_pos (suc (c * s + r) + s) 1 (omega arith),
        )
        (three (omega arith) (ground arith) (ground arith))

  forward_of_central :
      1 ≤ r → suc r < s → forward_of s s central (pos (index_of s c r)) ≡ neighbours
  unfolding forward_of
  forward_of_central lo hi =
      rw
        (
          +ℤ_pos (suc (c * s + r)) s,
          +ℤ_pos (suc (c * s + r) + s) 1,
          -ℤ_pos (suc (c * s + r) + s) 1 (omega arith),
        )
        (three (omega arith) (ground arith) (ground arith))

  index-mod : suc (c * s + r) % s ≡ suc r % s
  index-mod = suc-mod (c * s + r) s ∙ ap (λ (t : ℕ). suc t % s) (row s c r small)

  Row-cases : (r ≡ 0) ⊎ (suc r ≡ s) ⊎ ((1 ≤ r) × (suc r < s))
  Row-cases = grind arith

  pub get_forward_neighbor_indexes_square :
      (alpha : ℕ)
      → alpha ≤ 3
      → get_forward_neighbor_indexes s s alpha (pos (index_of s c r)) ≡ some neighbours
  unfolding get_forward_neighbor_indexes
  get_forward_neighbor_indexes_square alpha few =
      let low : ltb 3 alpha ≡ false = ground arith in
      let at_row = index-mod in
      elim Row-cases [
        | inl e ↦
            let one : suc r % s ≡ 1 =
              omega (arith, mod-eq_of_lt {n = suc r} {m = s} (omega arith)) in
            rw (low, get_position_category_top s s (c * s + r) big (at_row ∙ one), forward_of_top e)
              refl
        | inr (inl e) ↦
            let wrap : suc r % s ≡ 0 = rw e (mod_self s) in
            rw
              (
                low,
                get_position_category_bottom s s (c * s + r) big (at_row ∙ wrap),
                forward_of_bottom e,
              )
              refl
        | inr (inr (lo, hi)) ↦
            let inner : 2 ≤ suc (c * s + r) % s =
              omega (arith, at_row, mod-eq_of_lt {n = suc r} {m = s} (omega arith)) in
            rw
              (
                low,
                get_position_category_central s s (c * s + r) big inner,
                forward_of_central lo hi,
              )
              refl
      ]
