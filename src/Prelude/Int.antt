-- ===== src/Prelude/Int.antt =====
-- Go's `int` as signed numbers over the native ones, with the quotient and the remainder that
-- round towards zero. No value of the modelled code comes near the bounds of 64 bits.
use Prim.Native.Nat.{ℕ, zero, suc, ◌+◌, ◌-◌, ◌*◌, ◌/◌, ◌%◌, ◌≤◌, ◌<◌}
use mathlib.Core.Path.{◌≡◌, refl}
use mathlib.Core.Bool.{Bool}
use mathlib.Core.List.{List}
use mathlib.Core.Option.{Option, none, some}
use native.Mathlib.Omega.{arith}
use ipfs_reliability.Prelude.Tests.{ltb, leb, ◌==◌, if◌then◌else◌}
use ipfs_reliability.Prelude.Lists.{get_elem?, length, set}

-- `negsuc n` is -(n + 1).
pub data ℤ : Type 0 where
  pos : ℕ → ℤ
  negsuc : ℕ → ℤ

abbrev pub pos_part : ℤ → ℕ
pos_part (pos n) = n
pos_part (negsuc n) = 0

abbrev pub neg_part : ℤ → ℕ
neg_part (pos n) = 0
neg_part (negsuc n) = suc n

-- a - b, as an integer.
abbrev pub sub_ℕ : ℕ → ℕ → ℤ
sub_ℕ a b = if leb b a then pos (a - b) else negsuc (b - a - 1)

infixl 65 ◌+ℤ◌ ◌-ℤ◌
unfoldable pub ◌+ℤ◌ : ℤ → ℤ → ℤ
a +ℤ b = sub_ℕ (pos_part a + pos_part b) (neg_part a + neg_part b)

unfoldable pub ◌-ℤ◌ : ℤ → ℤ → ℤ
a -ℤ b = sub_ℕ (pos_part a + neg_part b) (neg_part a + pos_part b)

-- Go's a % n and a / n round towards zero, and panic (`none`) at n = 0.
unfoldable pub rem : ℤ → ℕ → Option ℤ
rem a zero = none
rem (pos a) (suc n) = some (pos (a % suc n))
rem (negsuc a) (suc n) = some (sub_ℕ 0 (suc a % suc n))

unfoldable pub quot : ℤ → ℕ → Option ℤ
quot a zero = none
quot (pos a) (suc n) = some (pos (a / suc n))
quot (negsuc a) (suc n) = some (sub_ℕ 0 (suc a / suc n))

infixl 70 ◌*ℤ◌
unfoldable pub ◌*ℤ◌ : ℤ → ℤ → ℤ
a *ℤ b =
    sub_ℕ (pos_part a * pos_part b + neg_part a * neg_part b)
      (pos_part a * neg_part b + neg_part a * pos_part b)

infix 50 ◌==ℤ◌
abbrev pub ◌==ℤ◌ : ℤ → ℤ → Bool
a ==ℤ b = (pos_part a + neg_part b) == (pos_part b + neg_part a)

abbrev pub ltb_ℤ : ℤ → ℤ → Bool
ltb_ℤ a b = ltb (pos_part a + neg_part b) (pos_part b + neg_part a)

-- xs[i], which panics (`none`) at a negative index or past the end.
abbrev pub at {ℓ} : {A : Type ℓ} → List A → ℤ → Option A
at xs (pos i) = get_elem? xs i
at xs (negsuc i) = none

-- xs[i] = v, which panics in the same cases.
abbrev pub set_at {ℓ} : {A : Type ℓ} → List A → ℤ → A → Option (List A)
set_at xs (pos i) v = if ltb i (length xs) then some (set xs i v) else none
set_at xs (negsuc i) v = none

pub +ℤ_pos : (a b : ℕ) → pos a +ℤ pos b ≡ pos (a + b)
unfolding ◌+ℤ◌
+ℤ_pos a b = ground arith

pub -ℤ_pos : (a b : ℕ) → b ≤ a → pos a -ℤ pos b ≡ pos (a - b)
unfolding ◌-ℤ◌
-ℤ_pos a b h = ground arith

pub *ℤ_pos : (a b : ℕ) → pos a *ℤ pos b ≡ pos (a * b)
unfolding ◌*ℤ◌
*ℤ_pos a b = ground arith

-- index - 1
pub -ℤ_one : (a : ℕ) → pos (suc a) -ℤ pos 1 ≡ pos a
unfolding ◌-ℤ◌
-ℤ_one a = ground arith

-- y - x + p, where x may be the larger of the first two
pub -ℤ-+ℤ_pos : (y x p : ℕ) → x ≤ p → pos y -ℤ pos x +ℤ pos p ≡ pos (y + p - x)
unfolding ◌-ℤ◌ ◌+ℤ◌
-ℤ-+ℤ_pos y x p h = ground arith

pub rem_pos : (a n : ℕ) → 0 < n → rem (pos a) n ≡ some (pos (a % n))
unfolding rem
rem_pos a zero h = elim h [ ]
rem_pos a (suc n) h = refl

pub quot_pos : (a n : ℕ) → 0 < n → quot (pos a) n ≡ some (pos (a / n))
unfolding quot
quot_pos a zero h = elim h [ ]
quot_pos a (suc n) h = refl

pub rem_zero : (a : ℤ) → rem a 0 ≡ none
unfolding rem
rem_zero a = refl

-- index + 1
pub +ℤ_one : (a : ℕ) → pos a +ℤ pos 1 ≡ pos (suc a)
unfolding ◌+ℤ◌
+ℤ_one a = ground arith
