-- ===== src/Prelude/Maps.antt =====
-- Go maps with numbers for keys, as association lists with at most one entry for a key.
use Prim.Native.Nat.{ℕ}
use mathlib.Core.Path.{◌≡◌, refl}
use mathlib.Core.Option.{Option, none, some}
use mathlib.Core.List.{List, [], ◌∷◌}
use native.Mathlib.Omega.{arith}
use ipfs_reliability.Prelude.Tests.{◌==◌, if◌then◌else◌}

-- v, ok = m[key]
unfoldable pub lookup {ℓ} : {A : Type ℓ} → ℕ → List (ℕ × A) → Option A
lookup key [] = none
lookup key ((k, v) ∷ rest) = if k == key then some v else lookup key rest

-- m[key] = v
unfoldable pub put {ℓ} : {A : Type ℓ} → ℕ → A → List (ℕ × A) → List (ℕ × A)
put key v [] = (key, v) ∷ []
put key v ((k, w) ∷ rest) =
    let others = put key v rest in if k == key then (key, v) ∷ rest else (k, w) ∷ others

pub lookup-put {ℓ} :
    {A : Type ℓ} (key other : ℕ) (v : A) (m : List (ℕ × A))
    → lookup other (put key v m) ≡ (if key == other then some v else lookup other m)
unfolding lookup put
lookup-put key other v [] = refl
lookup-put key other v ((k, w) ∷ rest) = ground (arith, lookup-put key other v rest)

pub lookup-put_same {ℓ} :
    {A : Type ℓ} (key : ℕ) (v : A) (m : List (ℕ × A)) → lookup key (put key v m) ≡ some v
unfolding lookup put
lookup-put_same key v [] = ground arith
lookup-put_same key v ((k, w) ∷ rest) = ground (arith, lookup-put_same key v rest)

-- delete(m, key)
unfoldable pub remove {ℓ} : {A : Type ℓ} → ℕ → List (ℕ × A) → List (ℕ × A)
remove key [] = []
remove key ((k, v) ∷ rest) =
    let others = remove key rest in if k == key then others else (k, v) ∷ others

pub lookup-remove {ℓ} :
    {A : Type ℓ} (key other : ℕ) (m : List (ℕ × A))
    → lookup other (remove key m) ≡ (if key == other then none else lookup other m)
unfolding lookup remove
lookup-remove key other [] = ground arith
lookup-remove key other ((k, w) ∷ rest) = ground (arith, lookup-remove key other rest)
