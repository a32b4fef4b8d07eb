-- ===== src/Entangler/Index/Oblong.antt =====
-- Lattices that are not square, and the single strand.
use ipfs_reliability.Prelude.{
  ℕ, zero, suc, ◌+◌, ◌-◌, ◌*◌, ◌/◌, ◌%◌, ◌≤◌, ◌<◌, ◌≡◌, ◌≢◌, refl, arith, [], ◌∷◌, inl, inr,
}
use ipfs_reliability.Prelude.{some, none, ℤ, pos, ap, rem_zero, rem, ◌-ℤ◌, Option-cases, +ℤ_pos}
use native.Mathlib.Nat.{
  mod-eq_of_lt, mod_self, zero-mod, zero-div, mod-lt, div-eq_of_lt, add-mod_right, mul-zero,
  div_self,
}
use ipfs_reliability.Entangler.Index.{get_chain_indexes, get_forward_neighbor_indexes, forward_of}
use ipfs_reliability.Entangler.Index.Pos.{get_chain_indexes_pos, get_position_category_top}
use ipfs_reliability.Entangler.Index.Chains.{nth}

-- For 1 <= s <= p, the chain number of a block on strand 0 is below s, and those on the others below p.
pub chain_indexes_in_cache :
    (s p i : ℕ)
    → 1 ≤ s
    → s ≤ p
    → 1 ≤ i
    → (h rh lh : ℕ) × (get_chain_indexes s p (pos i) ≡ some (pos h ∷ pos rh ∷ pos lh ∷ []))
      × (h < s)
      × (rh < p)
      × (lh < p)
chain_indexes_in_cache s p zero hs hp hi = absurd (omega arith)
chain_indexes_in_cache s p (suc w) hs hp hi = (
  w % s,
  (w % (s * p) / p + p - w % (s * p) % p) % p,
  (w % (s * p) % p + w % (s * p) / p) % s,
  get_chain_indexes_pos s p w hs (omega arith),
  mod-lt w hs,
  mod-lt (w % (s * p) / p + p - w % (s * p) % p) (omega arith),
  omega (arith, mod-lt (w % (s * p) % p + w % (s * p) / p) hs),
)

-- With p = 0, which NewEntangler demands for alpha = 1, reading the chains panics at every index.
single_strand_panics : (s : ℕ) (i : ℤ) → get_chain_indexes s 0 i ≡ none
unfolding get_chain_indexes
single_strand_panics s i = elim (Option-cases (rem (i -ℤ pos 1) s)) [
  | inl e ↦ rw e refl
  | inr (h, e) ↦ rw (e, mul-zero s, rem_zero (i -ℤ pos 1)) refl
]

module _ (s p : ℕ) (big : 2 ≤ s) (wide : s < p) where
  first_chain : nth (get_chain_indexes s p (pos 1)) 1 ≡ some (pos 0)
  first_chain =
      rw
        (
          get_chain_indexes_pos s p 0 (omega arith) (omega arith),
          zero-mod (s * p),
          zero-mod p,
          zero-div p,
        )
        (ap (λ (t : ℕ). some (pos t))
          (let less : 0 + p - 0 ≡ p = omega arith in rw less (mod_self p)))

  first_forward : nth (get_forward_neighbor_indexes s p 3 (pos 1)) 1 ≡ some (pos (s + 2))
  unfolding get_forward_neighbor_indexes forward_of
  first_forward =
      rw
        (
          get_position_category_top s p 0 big (mod-eq_of_lt (omega arith)),
          +ℤ_pos 1 s,
          +ℤ_pos (1 + s) 1,
        )
        (ap (λ (t : ℕ). some (pos t)) (omega arith))

  second_chain : (x : ℕ) × (nth (get_chain_indexes s p (pos (s + 2))) 1 ≡ some (pos x)) × (x ≢ 0)
  second_chain =
      let place : s + 2 ≡ suc (suc s) = omega arith in
      let inside : suc s % (s * p) ≡ suc s = mod-eq_of_lt (grind arith) in
      (
        (suc s / p + p - suc s % p) % p,
        rw (place, get_chain_indexes_pos s p (suc s) (omega arith) (omega arith), inside) refl,
        grind (
          arith,
          mod-eq_of_lt {n = suc s} {m = p},
          div-eq_of_lt {n = suc s} {m = p},
          mod-eq_of_lt {n = p - suc s} {m = p},
          mod_self p,
          div_self {n = p} (omega arith),
          add-mod_right 1 p,
          mod-eq_of_lt {n = 1} {m = p},
        ),
      )

-- Where 2 <= s < p, which NewEntangler accepts, the right-hand strand breaks: the forward neighbour
-- of block 1 on strand 1 is on another chain than block 1.
pub oblong_breaks_right_strand :
    (s p : ℕ)
    → 2 ≤ s
    → s < p
    → (j : ℕ) × (nth (get_forward_neighbor_indexes s p 3 (pos 1)) 1 ≡ some (pos j))
      × (nth (get_chain_indexes s p (pos j)) 1 ≢ nth (get_chain_indexes s p (pos 1)) 1)
oblong_breaks_right_strand s p big wide =
    let (x, second, ne) = second_chain s p big wide in
    (s + 2, first_forward s p big wide, λ e. ne (cc (first_chain s p big wide)))
