-- ===== src/Entangler/Index/Chains.antt =====
-- The strands of a square lattice (s = p): chains that visit every column once.
use ipfs_reliability.Prelude.{
  ℕ, zero, suc, ◌+◌, ◌-◌, ◌*◌, ◌/◌, ◌%◌, ◌≤◌, ◌<◌, ◌≡◌, refl, arith, List, ◌⊎◌,
}
use ipfs_reliability.Prelude.{Option, some, ℤ, pos, ◌∙◌, ap, sym, get_elem?, ◌>>=◌}
use native.Mathlib.Nat.{mod-eq_of_lt, mod-eq-sub-mod, mod-lt, div-add-mod'}
use ipfs_reliability.Entangler.Index.{get_chain_indexes, get_forward_neighbor_indexes}
use ipfs_reliability.Entangler.Index.Square.{column, column_suc, get_chain_indexes_square}
use ipfs_reliability.Entangler.Index.Forward.{
  index_of, row_below, row_above, get_forward_neighbor_indexes_square,
}

-- indexes[k], after a call that may panic.
abbrev pub nth : Option (List ℤ) → ℕ → Option ℤ
nth indexes k = indexes >>= λ xs. get_elem? xs k

-- The chains of a position, with the column taken modulo s.
abbrev pub right_chain : ℕ → ℕ → ℕ → ℕ
right_chain s m r = (m + s - r) % s

abbrev pub left_chain : ℕ → ℕ → ℕ → ℕ
left_chain s m r = (r + m) % s

pub right_value :
    (s m r : ℕ)
    → m < s
    → r < s
    → (right_chain s m r ≡ m - r) × (r ≤ m) ⊎ (right_chain s m r ≡ m + s - r) × (m < r)
right_value s m r hm hr = grind (
  arith,
  mod-eq_of_lt {n = m + s - r} {m = s},
  mod-eq_of_lt {n = m - r} {m = s},
  mod-eq-sub-mod {n = m + s - r} {m = s},
)

pub left_value :
    (s m r : ℕ)
    → m < s
    → r < s
    → (left_chain s m r ≡ r + m) × (r + m < s) ⊎ (left_chain s m r ≡ r + m - s) × (s ≤ r + m)
left_value s m r hm hr = grind (
  arith,
  mod-eq_of_lt {n = r + m} {m = s},
  mod-eq_of_lt {n = r + m - s} {m = s},
  mod-eq-sub-mod {n = r + m} {m = s},
)

module _ (s c r : ℕ) (big : 2 ≤ s) (small : r < s) where
  next_lt : suc c % s < s
  next_lt = mod-lt (suc c) (omega arith)

  this_lt : c % s < s
  this_lt = mod-lt c (omega arith)

  right_chain_step : right_chain s (suc c % s) (row_below s r) ≡ right_chain s (c % s) r
  right_chain_step = ground (
    arith,
    column_suc s c big,
    right_value s (c % s) r this_lt small,
    right_value s (suc c % s) (row_below s r) next_lt,
  )

  left_chain_step : left_chain s (suc c % s) (row_above s r) ≡ left_chain s (c % s) r
  left_chain_step = ground (
    arith,
    column_suc s c big,
    left_value s (c % s) r this_lt small,
    left_value s (suc c % s) (row_above s r) next_lt,
  )

-- The chain number of a position on strand k, and the row of its forward neighbour.
abbrev pub chain_no : ℕ → ℕ → ℕ → ℕ → ℕ
chain_no zero s m r = r
chain_no (suc zero) s m r = right_chain s m r
chain_no (suc (suc k)) s m r = left_chain s m r

abbrev next_row : ℕ → ℕ → ℕ → ℕ
next_row zero s r = r
next_row (suc zero) s r = row_below s r
next_row (suc (suc k)) s r = row_above s r

pub nth_chain :
    (s c r k : ℕ)
    → r < s
    → k < 3
    → nth (get_chain_indexes s s (pos (index_of s c r))) k ≡ some (pos (chain_no k s (c % s) r))
nth_chain s c r zero small few = rw (get_chain_indexes_square s c r small) refl
nth_chain s c r (suc zero) small few = rw (get_chain_indexes_square s c r small) refl
nth_chain s c r (suc (suc zero)) small few = rw (get_chain_indexes_square s c r small) refl
nth_chain s c r (suc (suc (suc k))) small few = absurd (omega arith)

nth_forward :
    (s alpha c r k : ℕ)
    → 2 ≤ s
    → alpha ≤ 3
    → r < s
    → k < 3
    → nth (get_forward_neighbor_indexes s s alpha (pos (index_of s c r))) k
      ≡ some (pos (index_of s (suc c) (next_row k s r)))
nth_forward s alpha c r zero big low small few =
    rw (get_forward_neighbor_indexes_square s c r big small alpha low) refl
nth_forward s alpha c r (suc zero) big low small few =
    rw (get_forward_neighbor_indexes_square s c r big small alpha low) refl
nth_forward s alpha c r (suc (suc zero)) big low small few =
    rw (get_forward_neighbor_indexes_square s c r big small alpha low) refl
nth_forward s alpha c r (suc (suc (suc k))) big low small few = absurd (omega arith)

next_row-lt : (k s r : ℕ) → 2 ≤ s → r < s → next_row k s r < s
next_row-lt zero s r big small = small
next_row-lt (suc zero) s r big small = ground arith
next_row-lt (suc (suc k)) s r big small = ground arith

chain_no_step :
    (k s c r : ℕ)
    → 2 ≤ s
    → r < s
    → chain_no k s (suc c % s) (next_row k s r) ≡ chain_no k s (c % s) r
chain_no_step zero s c r big small = refl
chain_no_step (suc zero) s c r big small = right_chain_step s c r big small
chain_no_step (suc (suc k)) s c r big small = left_chain_step s c r big small

pub chain_no_injective :
    (k s m r q : ℕ) → m < s → r < s → q < s → chain_no k s m r ≡ chain_no k s m q → r ≡ q
chain_no_injective zero s m r q hm hr hq e = e
chain_no_injective (suc zero) s m r q hm hr hq e =
    ground (arith, right_value s m r hm hr, right_value s m q hm hq)
chain_no_injective (suc (suc k)) s m r q hm hr hq e =
    ground (arith, left_value s m r hm hr, left_value s m q hm hq)

-- Every index is the one of its column and row.
pub index_split : (s w : ℕ) → suc w ≡ index_of s (w / s) (w % s)
index_split s w = omega (arith, div-add-mod' w s)

column_back : (s c r : ℕ) → r < s → (index_of s c r - 1) / s ≡ c
column_back s c r small =
    let less : suc (c * s + r) - 1 ≡ c * s + r = omega arith in rw less (column s c r small)

-- In a square lattice the forward neighbour of a block on a strand lies in the next column, on the
-- chain of the block.
pub forward_on_chain :
    (s alpha i k : ℕ)
    → 2 ≤ s
    → alpha ≤ 3
    → 1 ≤ i
    → k < 3
    → (j : ℕ) × (nth (get_forward_neighbor_indexes s s alpha (pos i)) k ≡ some (pos j))
      × (nth (get_chain_indexes s s (pos j)) k ≡ nth (get_chain_indexes s s (pos i)) k)
      × ((j - 1) / s ≡ (i - 1) / s + 1)
forward_on_chain s alpha zero k big low one few = absurd (omega arith)
forward_on_chain s alpha (suc w) k big low one few =
    let c = w / s in
    let r = w % s in
    let small : r < s = mod-lt w (omega arith) in
    let lands = next_row-lt k s r big small in
    (
      index_of s (suc c) (next_row k s r),
      rw (index_split s w) (nth_forward s alpha c r k big low small few),
      rw (index_split s w) (
          nth_chain s (suc c) (next_row k s r) k lands few
          ∙ ap (λ (t : ℕ). some (pos t)) (chain_no_step k s c r big small)
          ∙ sym (nth_chain s c r k small few)),
      rw (column_back s (suc c) (next_row k s r) lands)
          (let less : suc w - 1 ≡ w = omega arith in rw less (omega arith)),
    )

-- In a square lattice a chain has one block in a column: two blocks of one column that are on the
-- same chain of strand k are the same block.
pub chain_meets_column_once :
    (s i j k : ℕ)
    → 2 ≤ s
    → 1 ≤ i
    → 1 ≤ j
    → k < 3
    → (i - 1) / s ≡ (j - 1) / s
    → nth (get_chain_indexes s s (pos i)) k ≡ nth (get_chain_indexes s s (pos j)) k
    → i ≡ j
chain_meets_column_once s zero j k big hi hj few same e = absurd (omega arith)
chain_meets_column_once s (suc v) zero k big hi hj few same e = absurd (omega arith)
chain_meets_column_once s (suc v) (suc w) k big hi hj few same e =
    let less : suc v - 1 ≡ v = omega arith in
    let less' : suc w - 1 ≡ w = omega arith in
    let column_eq : v / s ≡ w / s = rw (less, less') at same in
    let low : v % s < s = mod-lt v (omega arith) in
    let low' : w % s < s = mod-lt w (omega arith) in
    let at_v =
      ap (λ (t : ℕ). nth (get_chain_indexes s s (pos t)) k) (index_split s v)
      ∙ nth_chain s (v / s) (v % s) k low few in
    let at_w =
      ap (λ (t : ℕ). nth (get_chain_indexes s s (pos t)) k) (index_split s w)
      ∙ nth_chain s (w / s) (w % s) k low' few in
    let numbers : chain_no k s (v / s % s) (v % s) ≡ chain_no k s (w / s % s) (w % s) = cc in
    let rows : v % s ≡ w % s =
      chain_no_injective k s (w / s % s) (v % s) (w % s) (mod-lt (w / s) (omega arith)) low low'
        (rw column_eq at numbers) in
    omega (arith, div-add-mod' v s, div-add-mod' w s, ap (λ (t : ℕ). t * s) column_eq)
