-- ===== src/Server/Split/Laws.antt =====
-- The requests of a collaborative repair ask for every failed leaf exactly once.
use ipfs_reliability.Prelude.{
  ℕ, zero, suc, ◌+◌, ◌*◌, ◌-◌, ◌/◌, ◌≡◌, ◌≤◌, ◌<◌, refl, ◌∙◌, ap, arith, false, List, [], ◌∷◌, some,
}
use ipfs_reliability.Prelude.{
  length, drop, ◌==◌, length-drop, length-take, drop_congr, append_nil, slice-append-drop,
}
use native.Mathlib.Nat.{suc-mul, mul-le-mul_right, mul_comm, div-mul-le_self}
use ipfs_reliability.Server.Split.{share, shares_from, shares, concat}

concat-shares_from :
    (n i num per : ℕ) (leaves : List ℕ)
    → i + suc n ≡ num
    → concat (shares_from (suc n) i num per leaves) ≡ drop (i * per) leaves
unfolding concat shares_from share
concat-shares_from zero i num per leaves h = ground (arith, append_nil (drop (i * per) leaves))
concat-shares_from (suc n) i num per leaves h =
    let rest = concat-shares_from n (suc i) num per leaves (omega arith) in
    let last : (suc i == num) ≡ false = ground arith in
    rw (last, rest)
      (slice-append-drop (i * per) (suc i * per) leaves (mul-le-mul_right per (omega arith)))

length-shares_from :
    (n i num per : ℕ) (leaves : List ℕ) → length (shares_from n i num per leaves) ≡ n
unfolding shares_from
length-shares_from zero i num per leaves = refl
length-shares_from (suc n) i num per leaves = ap suc (length-shares_from n (suc i) num per leaves)

-- Each request has at least `per` leaves.
abbrev pub AllAtLeast : ℕ → List (List ℕ) → Type 0
AllAtLeast per [] = Unit {0}
AllAtLeast per (xs ∷ rest) = (per ≤ length xs) × AllAtLeast per rest

shares_from-AllAtLeast :
    (n i num per : ℕ) (leaves : List ℕ)
    → i + n ≡ num
    → num * per ≤ length leaves
    → AllAtLeast per (shares_from n i num per leaves)
unfolding shares_from share
shares_from-AllAtLeast zero i num per leaves h room = tt
shares_from-AllAtLeast (suc n) i num per leaves h room =
    let fits = mul-le-mul_right {m = suc i} {n = num} per (omega arith) in
    let size = length-take (suc i * per - i * per) (drop (i * per) leaves) in
    (
      ground (arith, suc-mul i per, fits, room, size, length-drop (i * per) leaves),
      shares_from-AllAtLeast n (suc i) num per leaves (omega arith) room,
    )

-- For a positive number of peers: there is one request for each; the requests together ask for the
-- failed leaves, each once and in their order; and each asks for len(leaves) / numPeers or more.
pub shares_right :
    (num : ℕ) (leaves : List ℕ)
    → 0 < num
    → (requests : List (List ℕ)) × (shares num leaves ≡ some requests)
      × (length requests ≡ num)
      × (concat requests ≡ leaves)
      × AllAtLeast (length leaves / num) requests
unfolding shares
shares_right zero leaves h = elim h [ ]
shares_right (suc n) leaves h =
    let per = length leaves / suc n in
    let room : suc n * per ≤ length leaves =
      omega (arith, div-mul-le_self (length leaves) (suc n), mul_comm (suc n) per) in
    (
      shares_from (suc n) 0 (suc n) per leaves,
      ground arith,
      length-shares_from (suc n) 0 (suc n) per leaves,
      concat-shares_from n 0 (suc n) per leaves (omega arith)
          ∙ drop_congr {n = 0 * per} {m = 0} leaves (omega arith),
      shares_from-AllAtLeast (suc n) 0 (suc n) per leaves (omega arith) room,
    )
