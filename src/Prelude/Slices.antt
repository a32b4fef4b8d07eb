-- ===== src/Prelude/Slices.antt =====
-- Slices of slices, and of joined ones.
use Prim.Native.Nat.{ℕ, zero, suc, ◌+◌, ◌-◌, ◌≤◌}
use mathlib.Core.Path.{◌≡◌, refl, ap, sym, ◌∙◌}
use mathlib.Core.List.{List, [], ◌∷◌, ◌++◌}
use native.Mathlib.Omega.{arith}
use ipfs_reliability.Prelude.Lists.{take, drop, take-append-drop}

-- xs[lo:hi], for lo <= hi <= len(xs)
abbrev pub slice {ℓ} : {A : Type ℓ} → ℕ → ℕ → List A → List A
slice lo hi xs = take (hi - lo) (drop lo xs)

module _ {ℓ} {A : Type ℓ} where
  drop_nil : (n : ℕ) → drop {A = A} n [] ≡ []
  drop_nil zero = refl
  drop_nil (suc n) = refl

  pub drop_congr : {n m : ℕ} (xs : List A) → n ≡ m → drop n xs ≡ drop m xs
  drop_congr xs e = ap (λ (k : ℕ). drop k xs) e

  pub take_congr : {n m : ℕ} (xs : List A) → n ≡ m → take n xs ≡ take m xs
  take_congr xs e = ap (λ (k : ℕ). take k xs) e

  pub drop-drop : (n m : ℕ) (xs : List A) → drop n (drop m xs) ≡ drop (m + n) xs
  drop-drop n zero xs = drop_congr xs (omega arith)
  drop-drop n (suc m) [] = drop_nil n ∙ sym (drop_nil (suc m + n))
  drop-drop n (suc m) (x ∷ xs) =
      drop-drop n m xs ∙ drop_congr {n = suc (m + n)} {m = suc m + n} (x ∷ xs) (omega arith)

  pub append_nil : (xs : List A) → xs ++ [] ≡ xs
  append_nil [] = refl
  append_nil (x ∷ xs) = ap (λ (ys : List A). x ∷ ys) (append_nil xs)

  pub append_assoc : (xs ys zs : List A) → (xs ++ ys) ++ zs ≡ xs ++ (ys ++ zs)
  append_assoc [] ys zs = refl
  append_assoc (x ∷ xs) ys zs = ap (λ (l : List A). x ∷ l) (append_assoc xs ys zs)

  pub slice-append-drop :
      (lo hi : ℕ) (xs : List A) → lo ≤ hi → slice lo hi xs ++ drop hi xs ≡ drop lo xs
  slice-append-drop lo hi xs h =
      ap (λ (ys : List A). take (hi - lo) (drop lo xs) ++ ys)
        (drop_congr xs (omega arith) ∙ sym (drop-drop (hi - lo) lo xs))
      ∙ take-append-drop (hi - lo) (drop lo xs)

  take_nil : (n : ℕ) → take {A = A} n [] ≡ []
  take_nil zero = refl
  take_nil (suc n) = refl

  -- A prefix in two parts.
  pub take_add : (n m : ℕ) (xs : List A) → take n xs ++ take m (drop n xs) ≡ take (n + m) xs
  take_add zero m xs = take_congr xs (omega arith)
  take_add (suc n) m [] = take_nil m ∙ sym (take_nil (suc n + m))
  take_add (suc n) m (x ∷ xs) =
      ap (λ (ys : List A). x ∷ ys) (take_add n m xs)
      ∙ take_congr {n = suc (n + m)} {m = suc n + m} (x ∷ xs) (omega arith)

  pub slice-append-slice :
      (lo mid hi : ℕ) (xs : List A)
      → lo ≤ mid
      → mid ≤ hi
      → slice lo mid xs ++ slice mid hi xs ≡ slice lo hi xs
  slice-append-slice lo mid hi xs a b =
      ap (λ (ys : List A). take (mid - lo) (drop lo xs) ++ take (hi - mid) ys)
        (drop_congr xs (omega arith) ∙ sym (drop-drop (mid - lo) lo xs))
      ∙ take_add (mid - lo) (hi - mid) (drop lo xs)
      ∙ take_congr (drop lo xs) (omega arith)

  take-drop-take :
      (n lo m : ℕ) (xs : List A) → lo + n ≤ m → take n (drop lo (take m xs)) ≡ take n (drop lo xs)
  take-drop-take zero lo m xs h = refl
  take-drop-take (suc n) zero zero xs h = absurd (omega arith)
  take-drop-take (suc n) zero (suc m) [] h = refl
  take-drop-take (suc n) zero (suc m) (x ∷ xs) h =
      ap (λ (ys : List A). x ∷ ys) (take-drop-take n zero m xs (omega arith))
  take-drop-take (suc n) (suc lo) zero xs h = absurd (omega arith)
  take-drop-take (suc n) (suc lo) (suc m) [] h = refl
  take-drop-take (suc n) (suc lo) (suc m) (x ∷ xs) h = take-drop-take (suc n) lo m xs (omega arith)

  -- A slice of a slice.
  pub slice-slice :
      (lo hi base size : ℕ) (xs : List A)
      → lo ≤ hi
      → hi ≤ size
      → slice lo hi (take size (drop base xs)) ≡ slice (base + lo) (base + hi) xs
  slice-slice lo hi base size xs a b =
      take-drop-take (hi - lo) lo size (drop base xs) (omega arith)
      ∙ ap (λ (ys : List A). take (hi - lo) ys) (drop-drop lo base xs)
      ∙ take_congr (drop (base + lo) xs) (omega arith)
