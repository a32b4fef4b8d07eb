-- ===== src/Connector/Tree/Swap/Distinct.antt =====
-- The swaps only exchange places: each lattice index stays with exactly one node.
use ipfs_reliability.Prelude.{
  ℕ, zero, suc, ◌+◌, ◌-◌, ◌*◌, ◌≡◌, ◌≤◌, ◌<◌, refl, sym, ◌∙◌, ap, subst, arith, false, not, ◌&&◌,
  List, [], ◌∷◌, Option, none, some, inl, inr, Bool-cases, Option-cases, ltb, ◌==◌, if◌then◌else◌,
  length, get_elem?, set, length-set, get_elem?-of_lt, get_elem?-set, >>=-eq-some, some_inj,
  lt-length_of_get_elem?,
}
use ipfs_reliability.Connector.Getter.{EmptyTreeNode}
use ipfs_reliability.Connector.Tree.Swap.{
  from, last_child, swap_entries, in_window, is_leaf, search, swap_internal, swap_flattened_tree,
  swap_unflattened_tree,
}

-- How often a number is in a list.
abbrev pub occurrences : ℕ → List ℕ → ℕ
occurrences v [] = 0
occurrences v (x ∷ xs) = (if x == v then 1 else 0) + occurrences v xs

abbrev one_if : ℕ → ℕ → ℕ
one_if v x = if x == v then 1 else 0

occurrences-set :
    (v : ℕ) (xs : List ℕ) (i a b : ℕ)
    → get_elem? xs i ≡ some a
    → occurrences v (set xs i b) + one_if v a ≡ occurrences v xs + one_if v b
occurrences-set v [] i a b e = cc
occurrences-set v (x ∷ xs) zero a b e = ground arith
occurrences-set v (x ∷ xs) (suc i) a b e = omega (arith, occurrences-set v xs i a b e)

-- A list of n entries below n.
pub record Fits (n : ℕ) (xs : List ℕ) : Type 0 where
  pub size : length xs ≡ n
  pub below : (i x : ℕ) → get_elem? xs i ≡ some x → x < n

-- The entries of ys are those of xs, at other places.
abbrev pub Permutes : List ℕ → List ℕ → Type 0
Permutes xs ys = (v : ℕ) → occurrences v ys ≡ occurrences v xs

swap_entries-Fits :
    (n i j : ℕ) (xs : List ℕ)
    → Fits n xs
    → i < n
    → j < n
    → (ys : List ℕ) × (swap_entries i j xs ≡ some ys) × Fits n ys × Permutes xs ys
unfolding swap_entries
swap_entries-Fits n i j xs h i_lt j_lt =
    let (a, at_i) = get_elem?-of_lt xs i (omega (arith, h.size)) in
    let (b, at_j) = get_elem?-of_lt xs j (omega (arith, h.size)) in
    let mid = set xs i b in
    let size = length-set xs i b in
    let (c, at_j') = get_elem?-of_lt mid j (omega (arith, size, h.size)) in
    let same : c ≡ b = ground (arith, get_elem?-set xs i j b a at_i) in
    (
      set mid j a,
      rw (at_i, at_j) refl,
      record {
        size = length-set mid j a ∙ size ∙ h.size;
        below = λ q x e. ground (
          arith,
          get_elem?-set mid j q a c at_j',
          get_elem?-set xs i q b a at_i,
          h.below q x,
          h.below i a at_i,
          h.below j b at_j,
        );
      },
      λ v. omega (
        arith,
        occurrences-set v xs i a b at_i,
        occurrences-set v mid j c a at_j',
        ap (one_if v) same,
      ),
    )

-- An internal node that is not the root.
abbrev pub IsInner : List EmptyTreeNode → ℕ → Type 0
IsInner nodes i =
    (0 < i)
    × (i < length nodes)
    × (n : EmptyTreeNode) × (get_elem? nodes i ≡ some n)
    × (low : ℕ) × (get_elem? n.children 0 ≡ some low)
    × (high : ℕ) × (last_child n.children ≡ some high)

search-returns :
    (nodes : List EmptyTreeNode) (order : List ℕ) (window low high s fuel j : ℕ)
    → 0 < s
    → length order ≤ j + fuel
    → Fits (length nodes) order
    → (found : Option ℕ) × (search nodes order window low high s fuel j ≡ some found)
      × ((k : ℕ) → found ≡ some k → k < length nodes)
unfolding search
search-returns nodes order window low high s zero j pos enough h =
    let out : ltb j (length order) ≡ false = ground arith in (none, rw (out) refl, λ k e. cc)
search-returns nodes order window low high s (suc fuel) j pos enough h =
    let (found, rest, bound) =
      search-returns nodes order window low high s fuel (j + s) pos (omega arith) h in
    elim (Bool-cases (ltb j (length order))) [
      | inr out ↦ (none, rw (out) refl, λ k e. cc)
      | inl inside ↦
          let j_lt : j < length order = ground arith in
          let (ptr, at_j) = get_elem?-of_lt order j j_lt in
          let (n, at_ptr) = get_elem?-of_lt nodes ptr (h.below j ptr at_j) in
          elim (Bool-cases (not (in_window window low high n.pre_order_idx) && is_leaf n)) [
            | inl hit ↦
                (some j, rw (inside, at_j, at_ptr, hit) refl, λ k e. ground (arith, h.size, j_lt))
            | inr miss ↦ (found, rw (inside, at_j, at_ptr, miss) rest, bound)
          ]
    ]

swap_internal-Permutes :
    (nodes : List EmptyTreeNode) (s p internal : ℕ) (order xs : List ℕ)
    → 0 < s
    → IsInner nodes internal
    → Fits (length nodes) order
    → Fits (length nodes) xs
    → (ys : List ℕ) × (swap_internal nodes s p order internal xs ≡ some ys)
      × Fits (length nodes) ys
      × Permutes xs ys
unfolding swap_internal
swap_internal-Permutes nodes s p internal order xs step (pos, below, n, at, low, first, high, last)
      fits h =
    let (found, e, bound) =
      search-returns nodes order (s * p) low high s (length order) (s * p) step (omega arith)
        fits in
    elim (Option-cases found) [
      | inl miss ↦ (xs, rw (at, first, last, e, miss) refl, h, λ v. refl)
      | inr (j, hit) ↦
          let (ys, swapped, h', same) =
            swap_entries-Fits (length nodes) j (internal - 1) xs h (bound j hit) (omega arith) in
          (ys, rw (at, first, last, e, hit) swapped, h', same)
    ]

-- A search that returns a place returns one of the array.
search-below :
    (nodes : List EmptyTreeNode) (order : List ℕ) (window low high s fuel j : ℕ) (found : Option ℕ)
    → search nodes order window low high s fuel j ≡ some found
    → (k : ℕ) → found ≡ some k
    → k < length order
unfolding search
search-below nodes order window low high s zero j found e k hit =
    elim (Bool-cases (ltb j (length order))) [
      | inl inside ↦ let e' = rw inside at e in cc
      | inr out ↦ let e' = rw out at e in cc
    ]
search-below nodes order window low high s (suc fuel) j found e k hit =
    elim (Bool-cases (ltb j (length order))) [
      | inr out ↦ let e' = rw out at e in cc
      | inl inside ↦
          let e' = rw inside at e in
          let (ptr, _, e1) = >>=-eq-some (get_elem? order j) _ e' in
          let (n, _, e2) = >>=-eq-some (get_elem? nodes ptr) _ e1 in
          elim (Bool-cases (not (in_window window low high n.pre_order_idx) && is_leaf n)) [
            | inl hits ↦
                let e3 : some (some j) ≡ some found = rw hits at e2 in
                let same : j ≡ k = some_inj (some_inj e3 ∙ hit) in ground arith
            | inr miss ↦
                search-below nodes order window low high s fuel (j + s) found (rw miss at e2) k hit
          ]
    ]

-- A swap that returns moves the entries around.
swapped-Permutes :
    (nodes : List EmptyTreeNode) (s p internal : ℕ) (order xs ys : List ℕ)
    → swap_internal nodes s p order internal xs ≡ some ys
    → Fits (length nodes) order
    → Fits (length nodes) xs
    → Fits (length nodes) ys × Permutes xs ys
unfolding swap_internal
swapped-Permutes nodes s p internal order xs ys e fits h =
    let (n, at, e1) = >>=-eq-some (get_elem? nodes internal) _ e in
    let (low, _, e2) = >>=-eq-some (get_elem? n.children 0) _ e1 in
    let (high, _, e3) = >>=-eq-some (last_child n.children) _ e2 in
    let (found, searched, e4) =
      >>=-eq-some (search nodes order (s * p) low high s (length order) (s * p)) _ e3 in
    elim (Option-cases found) [
      | inl miss ↦
          let same : xs ≡ ys = some_inj (rw miss at e4) in
          subst (λ (zs : List ℕ). Fits (length nodes) zs × Permutes xs zs) same (h, λ v. refl)
      | inr (j, hit) ↦
          let low_j =
            search-below nodes order (s * p) low high s (length order) (s * p) found searched j
              hit in
          let inside = lt-length_of_get_elem? nodes internal n at in
          let (zs, swapped, h', same) =
            swap_entries-Fits (length nodes) j (internal - 1) xs h (omega (arith, low_j, fits.size))
              (omega (arith, inside)) in
          let is : zs ≡ ys = some_inj (sym swapped ∙ rw hit at e4) in
          subst (λ (l : List ℕ). Fits (length nodes) l × Permutes xs l) is (h', same)
    ]

pub returned-Permutes :
    (nodes : List EmptyTreeNode) (s p : ℕ) (internals order ys : List ℕ)
    → swap_flattened_tree nodes s p internals order ≡ some ys
    → Fits (length nodes) order
    → Fits (length nodes) ys × Permutes order ys
unfolding swap_flattened_tree
returned-Permutes nodes s p [] order ys e h =
    subst (λ (l : List ℕ). Fits (length nodes) l × Permutes order l) (some_inj e) (h, λ v. refl)
returned-Permutes nodes s p (i ∷ rest) order ys e h =
    let (mid, moved, e') = >>=-eq-some (swap_internal nodes s p order i order) _ e in
    let (h', same) = swapped-Permutes nodes s p i order order mid moved h h in
    let (h'', same') = returned-Permutes nodes s p rest mid ys e' h' in (h'', λ v. same' v ∙ same v)

abbrev pub AllInner : List EmptyTreeNode → List ℕ → Type 0
AllInner nodes [] = Unit {0}
AllInner nodes (i ∷ rest) = IsInner nodes i × AllInner nodes rest

pub unflattened-Permutes :
    (nodes : List EmptyTreeNode) (s p : ℕ) (internals lattice : List ℕ)
    → 0 < s
    → AllInner nodes internals
    → Fits (length nodes) (from 0 (length nodes))
    → Fits (length nodes) lattice
    → (ys : List ℕ) × (swap_unflattened_tree nodes s p internals lattice ≡ some ys)
      × Fits (length nodes) ys
      × Permutes lattice ys
unfolding swap_unflattened_tree
unflattened-Permutes nodes s p [] lattice step inner fits h = (lattice, refl, h, λ v. refl)
unflattened-Permutes nodes s p (i ∷ rest) lattice step inner fits h =
    let (mid, e, h', same) =
      swap_internal-Permutes nodes s p i (from 0 (length nodes)) lattice step inner.0 fits h in
    let (ys, e', h'', same') = unflattened-Permutes nodes s p rest mid step inner.1 fits h' in
    (ys, rw (e) e', h'', λ v. same' v ∙ same v)

pub flattened-Permutes :
    (nodes : List EmptyTreeNode) (s p : ℕ) (internals order : List ℕ)
    → 0 < s
    → AllInner nodes internals
    → Fits (length nodes) order
    → (ys : List ℕ) × (swap_flattened_tree nodes s p internals order ≡ some ys)
      × Fits (length nodes) ys
      × Permutes order ys
unfolding swap_flattened_tree
flattened-Permutes nodes s p [] order step inner h = (order, refl, h, λ v. refl)
flattened-Permutes nodes s p (i ∷ rest) order step inner h =
    let (mid, e, h', same) = swap_internal-Permutes nodes s p i order order step inner.0 h h in
    let (ys, e', h'', same') = flattened-Permutes nodes s p rest mid step inner.1 h' in
    (ys, rw (e) e', h'', λ v. same' v ∙ same v)

length-from : (i n : ℕ) → length (from i n) ≡ n
unfolding from
length-from i zero = refl
length-from i (suc n) = ap suc (length-from (suc i) n)

from-below : (i n k x : ℕ) → get_elem? (from i n) k ≡ some x → x < i + n
unfolding from
from-below i zero k x e = cc
from-below i (suc n) zero x e = ground arith
from-below i (suc n) (suc k) x e = omega (arith, from-below (suc i) n k x e)

occurrences-from_above : (v i n : ℕ) → v < i → occurrences v (from i n) ≡ 0
unfolding from
occurrences-from_above v i zero h = refl
occurrences-from_above v i (suc n) h =
    ground (arith, occurrences-from_above v (suc i) n (omega arith))

occurrences-from : (v i n : ℕ) → i ≤ v → v < i + n → occurrences v (from i n) ≡ 1
unfolding from
occurrences-from v i zero h k = absurd (omega arith)
occurrences-from v i (suc n) h k = elim (Bool-cases (i == v)) [
  | inl here ↦ let later = occurrences-from_above v (suc i) n (ground arith) in ground arith
  | inr apart ↦
      let later = occurrences-from v (suc i) n (ground arith) (omega arith) in ground arith
]

pub from-Fits : (n : ℕ) → Fits n (from 0 n)
from-Fits n = record {
  size = length-from 0 n;
  below = λ i x e. omega (arith, from-below 0 n i x e);
}

pub swaps_right :
    (nodes : List EmptyTreeNode) (s p : ℕ) (before after : List ℕ)
    → 0 < s
    → AllInner nodes before
    → AllInner nodes after
    → (order : List ℕ) × (swap_flattened_tree nodes s p after (from 0 (length nodes)) ≡ some order)
      × (lattice : List ℕ) × (swap_unflattened_tree nodes s p before (from 0 (length nodes))
          ≡ some lattice)
      × ((v : ℕ) → v < length nodes → (occurrences v order ≡ 1) × (occurrences v lattice ≡ 1))
swaps_right nodes s p before after step a b =
    let n = length nodes in
    let start = from-Fits n in
    let (order, e, h, same) = flattened-Permutes nodes s p after (from 0 n) step b start in
    let (lattice, e', h', same') =
      unflattened-Permutes nodes s p before (from 0 n) step a start start in
    (
      order,
      e,
      lattice,
      e',
      λ v lt. (
        same v ∙ occurrences-from v 0 n (omega arith) (omega arith),
        same' v ∙ occurrences-from v 0 n (omega arith) (omega arith),
      ),
    )
