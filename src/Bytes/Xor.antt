-- ===== src/Bytes/Xor.antt =====
-- Laws of the native exclusive or at every width, from its recursion on binary digits.
use Prim.Native.Nat.{digits, differ, bit_xor-bitwise}
use ipfs_reliability.Prelude.{ℕ, zero, suc, ◌+◌, ◌*◌, ◌/◌, ◌%◌, ◌≤◌, ◌<◌, ◌≡◌, refl, arith, bit_xor}

-- More fuel than the first number has digits changes nothing.
fuel-digits :
    (n m a b : ℕ) → a ≤ n → a ≤ m → digits (λ y. y) differ n a b ≡ digits (λ y. y) differ m a b
fuel-digits zero zero a b p q = refl
fuel-digits zero (suc m) zero b p q = refl
fuel-digits zero (suc m) (suc a) b p q = absurd (omega arith)
fuel-digits (suc n) zero zero b p q = refl
fuel-digits (suc n) zero (suc a) b p q = absurd (omega arith)
fuel-digits (suc n) (suc m) zero b p q = refl
fuel-digits (suc n) (suc m) (suc a) b p q =
    rw (fuel-digits n m (suc a / 2) (b / 2) (omega arith) (omega arith))

digits_step :
    (a b : ℕ)
    → digits (λ y. y) differ a a b
      ≡ digits (λ y. y) differ (a / 2) (a / 2) (b / 2) * 2 + differ (a % 2) (b % 2)
digits_step zero b = omega arith
digits_step (suc a) b =
    omega (arith, fuel-digits a (suc a / 2) (suc a / 2) (b / 2) (omega arith) (omega arith))

bit_xor_step : (a b : ℕ) → bit_xor a b ≡ bit_xor (a / 2) (b / 2) * 2 + differ (a % 2) (b % 2)
bit_xor_step a b = simp bit_xor-bitwise (digits_step a b)

-- The laws of one binary digit.
differ_digit :
    (x y : ℕ)
    → x < 2
    → y < 2
    → (differ x y < 2) × (differ x y ≡ differ y x) × (differ (differ x y) y ≡ x) × (differ x x ≡ 0)
differ_digit zero zero p q = (omega arith, refl, refl, refl)
differ_digit zero (suc zero) p q = (omega arith, refl, refl, refl)
differ_digit (suc zero) zero p q = (omega arith, refl, refl, refl)
differ_digit (suc zero) (suc zero) p q = (omega arith, refl, refl, refl)
differ_digit zero (suc (suc y)) p q = absurd (omega arith)
differ_digit (suc zero) (suc (suc y)) p q = absurd (omega arith)
differ_digit (suc (suc x)) y p q = absurd (omega arith)

bit_xor-comm_below : (k a b : ℕ) → a ≤ k → b ≤ k → bit_xor a b ≡ bit_xor b a
bit_xor-comm_below zero zero zero p q = refl
bit_xor-comm_below zero (suc a) b p q = absurd (omega arith)
bit_xor-comm_below zero zero (suc b) p q = absurd (omega arith)
bit_xor-comm_below (suc k) a b p q = omega (
  arith,
  bit_xor_step a b,
  bit_xor_step b a,
  differ_digit (a % 2) (b % 2) (omega arith) (omega arith),
  bit_xor-comm_below k (a / 2) (b / 2) (omega arith) (omega arith),
)

pub bit_xor_comm : (a b : ℕ) → bit_xor a b ≡ bit_xor b a
bit_xor_comm a b = bit_xor-comm_below (a + b) a b (omega arith) (omega arith)

bit_xor-self_below : (k a : ℕ) → a ≤ k → bit_xor a a ≡ 0
bit_xor-self_below zero zero p = refl
bit_xor-self_below zero (suc a) p = absurd (omega arith)
bit_xor-self_below (suc k) a p = omega (
  arith,
  bit_xor_step a a,
  differ_digit (a % 2) (a % 2) (omega arith) (omega arith),
  bit_xor-self_below k (a / 2) (omega arith),
)

pub bit_xor_self : (a : ℕ) → bit_xor a a ≡ 0
bit_xor_self a = bit_xor-self_below a a (omega arith)

-- The digits of the inner result are read back off the step equation.
bit_xor_halves :
    (a b : ℕ)
    → (bit_xor a b / 2 ≡ bit_xor (a / 2) (b / 2)) × (bit_xor a b % 2 ≡ differ (a % 2) (b % 2))
bit_xor_halves a b =
    let bit = differ_digit (a % 2) (b % 2) (omega arith) (omega arith) in
    (omega (arith, bit_xor_step a b, bit.0), omega (arith, bit_xor_step a b, bit.0))

bit_xor-cancel_below : (k a b : ℕ) → a ≤ k → b ≤ k → bit_xor (bit_xor a b) b ≡ a
bit_xor-cancel_below zero zero zero p q = refl
bit_xor-cancel_below zero (suc a) b p q = absurd (omega arith)
bit_xor-cancel_below zero zero (suc b) p q = absurd (omega arith)
bit_xor-cancel_below (suc k) a b p q =
    let halves = bit_xor_halves a b in
    rw (bit_xor_step (bit_xor a b) b, halves.0, halves.1)
      (omega (
        arith,
        differ_digit (a % 2) (b % 2) (omega arith) (omega arith),
        bit_xor-cancel_below k (a / 2) (b / 2) (omega arith) (omega arith),
      ))

-- A second exclusive or with the same number undoes the first.
pub bit_xor_cancel : (a b : ℕ) → bit_xor (bit_xor a b) b ≡ a
bit_xor_cancel a b = bit_xor-cancel_below (a + b) a b (omega arith) (omega arith)

pub zero-bit_xor : (b : ℕ) → bit_xor 0 b ≡ b
zero-bit_xor b = simp bit_xor-bitwise

pub bit_xor-zero : (a : ℕ) → bit_xor a 0 ≡ a
bit_xor-zero a = rw (bit_xor_comm a 0) (zero-bit_xor a)
