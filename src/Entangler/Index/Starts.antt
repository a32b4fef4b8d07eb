-- ===== src/Entangler/Index/Starts.antt =====
-- Where a chain of a square lattice starts: in the first column.
use ipfs_reliability.Prelude.{
  ℕ, zero, suc, ◌+◌, ◌-◌, ◌/◌, ◌%◌, ◌≤◌, ◌<◌, ◌≡◌, refl, arith, [], ◌∷◌, ◌↔◌,
}
use ipfs_reliability.Prelude.{some, pos, ◌∙◌, ap, sym, rem_pos, +ℤ_one, -ℤ_pos}
use native.Mathlib.Nat.{mod-eq_of_lt, mod_self, mod-lt, div-eq_of_lt, zero-mod}
use ipfs_reliability.Entangler.Index.{get_chain_indexes, get_chain_start_indexes}
use ipfs_reliability.Entangler.Index.Square.{get_chain_indexes_square}
use ipfs_reliability.Entangler.Index.Forward.{index_of}
use ipfs_reliability.Entangler.Index.Chains.{
  nth, nth_chain, chain_no, index_split, right_chain, left_chain, right_value, left_value,
  chain_meets_column_once,
}

-- The row at which chain number x of strand k starts.
abbrev start_row : ℕ → ℕ → ℕ → ℕ
start_row zero s x = x
start_row (suc zero) s x = (s - x) % s
start_row (suc (suc k)) s x = x

get_chain_start_indexes_square :
    (s c r : ℕ)
    → r < s
    → get_chain_start_indexes s s (pos (index_of s c r))
      ≡ some (
          pos (suc r)
          ∷ pos (suc ((s - right_chain s (c % s) r) % s))
          ∷ pos (suc (left_chain s (c % s) r))
          ∷ [])
unfolding get_chain_start_indexes
get_chain_start_indexes_square s c r small =
    let fits : right_chain s (c % s) r ≤ s =
      omega (arith, mod-lt (c % s + s - r) {m = s} (omega arith)) in
    rw
      (
        get_chain_indexes_square s c r small,
        -ℤ_pos s (right_chain s (c % s) r) fits,
        rem_pos (s - right_chain s (c % s) r) s (omega arith),
        +ℤ_one r,
        +ℤ_one ((s - right_chain s (c % s) r) % s),
        +ℤ_one (left_chain s (c % s) r),
      )
      refl

nth_start :
    (s c r k : ℕ)
    → r < s
    → k < 3
    → nth (get_chain_start_indexes s s (pos (index_of s c r))) k
      ≡ some (pos (suc (start_row k s (chain_no k s (c % s) r))))
nth_start s c r zero small few = rw (get_chain_start_indexes_square s c r small) refl
nth_start s c r (suc zero) small few = rw (get_chain_start_indexes_square s c r small) refl
nth_start s c r (suc (suc zero)) small few = rw (get_chain_start_indexes_square s c r small) refl
nth_start s c r (suc (suc (suc k))) small few = absurd (omega arith)

start_row-lt : (k s x : ℕ) → x < s → start_row k s x < s
start_row-lt zero s x h = h
start_row-lt (suc zero) s x h = mod-lt (s - x) (omega arith)
start_row-lt (suc (suc k)) s x h = h

chain_no-lt : (k s m r : ℕ) → m < s → r < s → chain_no k s m r < s
chain_no-lt zero s m r hm hr = hr
chain_no-lt (suc zero) s m r hm hr = mod-lt (m + s - r) (omega arith)
chain_no-lt (suc (suc k)) s m r hm hr = mod-lt (r + m) (omega arith)

-- The chain that starts at that row is chain number x.
chain_no-start_row : (k s x : ℕ) → x < s → chain_no k s 0 (start_row k s x) ≡ x
chain_no-start_row zero s x h = refl
chain_no-start_row (suc zero) s x h = ground (
  arith,
  mod_self s,
  mod-eq_of_lt {n = s - x} {m = s},
  right_value s 0 ((s - x) % s) (omega arith) (mod-lt (s - x) (omega arith)),
)
chain_no-start_row (suc (suc k)) s x h = omega (arith, left_value s 0 x (omega arith) h)

-- In a square lattice the start of a block's chain on a strand is one of the first s blocks and on
-- the same chain; it is the block itself exactly when that is among the first s.
pub chain_start_first :
    (s i k : ℕ)
    → 2 ≤ s
    → 1 ≤ i
    → k < 3
    → (j : ℕ) × (nth (get_chain_start_indexes s s (pos i)) k ≡ some (pos j))
      × (1 ≤ j)
      × (j ≤ s)
      × (nth (get_chain_indexes s s (pos j)) k ≡ nth (get_chain_indexes s s (pos i)) k)
      × ((j ≡ i) ↔ (i ≤ s))
chain_start_first s zero k big hi few = absurd (omega arith)
chain_start_first s (suc w) k big hi few =
    let c = w / s in
    let r = w % s in
    let low : r < s = mod-lt w (omega arith) in
    let x = chain_no k s (c % s) r in
    let q = start_row k s x in
    let x_lt : x < s = chain_no-lt k s (c % s) r (mod-lt c (omega arith)) low in
    let q_lt : q < s = start_row-lt k s x x_lt in
    let same : nth (get_chain_indexes s s (pos (suc q))) k
        ≡ nth (get_chain_indexes s s (pos (suc w))) k =
      ap (λ (t : ℕ). nth (get_chain_indexes s s (pos t)) k) (omega arith)
      ∙ nth_chain s 0 q k q_lt few
      ∙ ap (λ (t : ℕ). some (pos t)) (rw (zero-mod s) (chain_no-start_row k s x x_lt))
      ∙ sym (nth_chain s c r k low few)
      ∙ ap (λ (t : ℕ). nth (get_chain_indexes s s (pos t)) k) (sym (index_split s w)) in
    let less : suc q - 1 ≡ q = omega arith in
    let less' : suc w - 1 ≡ w = omega arith in
    (
      suc q,
      rw (index_split s w) (nth_start s c r k low few),
      omega arith,
      omega arith,
      same,
      (
        λ e. omega arith,
        λ short.
            chain_meets_column_once s (suc q) (suc w) k big (omega arith) hi few
              (rw (less, less', div-eq_of_lt q_lt, div-eq_of_lt short)) same,
      ),
    )
