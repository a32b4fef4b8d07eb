-- ===== src/Lattice/Request/Check.antt =====
-- Tests for the conditions of a recovery, which run on a lattice that is given.
use ipfs_reliability.Prelude.{
  ℕ, zero, suc, ◌-◌, ◌≡◌, ◌<◌, refl, sym, ◌∙◌, subst, arith, Bool, true, false, not, ◌&&◌, List, [],
  ◌∷◌, Option, none, some, some_inj,
}
use ipfs_reliability.Prelude.{
  ◌==◌, ltb, if◌then◌else◌, length, get_elem?, >>=-eq-some, lt-length_of_get_elem?, ◌==ℤ◌, pos, inl,
  inr, Bool-cases,
}
use ipfs_reliability.Bytes.{xor_chunk_data}
use ipfs_reliability.Entangler.State.{EntangledBlock}
use ipfs_reliability.Block.{Cell, get_data, is_data_available, is_repair_pending}
use ipfs_reliability.Lattice.{Node, Lattice}
use ipfs_reliability.Lattice.Recover.Evolves.{pending_at, available_at}
use ipfs_reliability.Lattice.Request.File.{IsQuiet}
use ipfs_reliability.Lattice.Recover.{BlockPair, BlockGetter, get_recover_pairs, fetch}
use ipfs_reliability.Lattice.Recover.Sound.{PairsMake}
use ipfs_reliability.Lattice.Recover.Total.{AreBelow}

abbrev pub are_equal : List ℕ → List ℕ → Bool
are_equal [] [] = true
are_equal (x ∷ xs) (y ∷ ys) = (x == y) && are_equal xs ys
are_equal xs ys = false

abbrev pub pairs_make : (ℕ → List ℕ) → ℕ → List BlockPair → Bool
pairs_make truth ptr [] = true
pairs_make truth ptr (pair ∷ rest) =
    are_equal (xor_chunk_data (truth pair.left) (truth pair.right)) (truth ptr)
    && pairs_make truth ptr rest

abbrev pub are_below : ℕ → List BlockPair → Bool
are_below n [] = true
are_below n (pair ∷ rest) = ltb pair.left n && ltb pair.right n && are_below n rest

abbrev pub pairs_right : (ℕ → List ℕ) → ℕ → ℕ → Option (List BlockPair) → Bool
pairs_right truth n ptr none = false
pairs_right truth n ptr (some pairs) = pairs_make truth ptr pairs && are_below n pairs

abbrev pub fetch_right : List ℕ → Option (List ℕ) → Bool
fetch_right v none = true
fetch_right v (some w) = are_equal w v

-- Whether f holds of the numbers below n.
abbrev pub all_below : ℕ → (ℕ → Bool) → Bool
all_below zero f = true
all_below (suc n) f = f n && all_below n f

all_below_lem : (n : ℕ) (f : ℕ → Bool) → all_below n f ≡ true → (i : ℕ) → i < n → f i ≡ true
all_below_lem zero f h i below = elim below [ ]
all_below_lem (suc n) f h i below = elim (Bool-cases (i == n)) [
  | inl e ↦ (let same : i ≡ n = ground arith in rw same (ground arith))
  | inr e ↦ all_below_lem n f (ground arith) i (ground arith)
]

are_equal_lem : (xs ys : List ℕ) → are_equal xs ys ≡ true → xs ≡ ys
are_equal_lem [] [] h = refl
are_equal_lem (x ∷ xs) (y ∷ ys) h = ground (arith, are_equal_lem xs ys)
are_equal_lem [] (y ∷ ys) h = cc
are_equal_lem (x ∷ xs) [] h = cc

pairs_make_lem :
    (truth : ℕ → List ℕ) (ptr : ℕ) (pairs : List BlockPair)
    → pairs_make truth ptr pairs ≡ true
    → PairsMake truth ptr pairs
pairs_make_lem truth ptr [] h = tt
pairs_make_lem truth ptr (pair ∷ rest) h =
    (are_equal_lem _ _ (ground arith), pairs_make_lem truth ptr rest (ground arith))

are_below_lem : (n : ℕ) (pairs : List BlockPair) → are_below n pairs ≡ true → AreBelow n pairs
are_below_lem n [] h = tt
are_below_lem n (pair ∷ rest) h = (ground arith, ground arith, are_below_lem n rest (ground arith))

module _ (nodes : List Node) (truth : ℕ → List ℕ)
    (right : all_below
        (length nodes)
        (λ ptr. pairs_right truth (length nodes) ptr (get_recover_pairs nodes ptr))
      ≡ true) where
  checked_pairs :
      (ptr : ℕ) (o : Option (List BlockPair))
      → pairs_right truth (length nodes) ptr o ≡ true
      → (pairs : List BlockPair) × (o ≡ some pairs)
        × AreBelow (length nodes) pairs
        × PairsMake truth ptr pairs
  checked_pairs ptr none h = cc
  checked_pairs ptr (some pairs) h = (
    pairs,
    refl,
    are_below_lem (length nodes) pairs (ground arith),
    pairs_make_lem truth ptr pairs (ground arith),
  )

  pub checked_linked :
      (ptr : ℕ)
      → ptr < length nodes
      → (pairs : List BlockPair) × (get_recover_pairs nodes ptr ≡ some pairs)
        × AreBelow (length nodes) pairs
  checked_linked ptr below =
      let (pairs, e, low, _) =
        checked_pairs ptr (get_recover_pairs nodes ptr)
          (all_below_lem (length nodes) _ right ptr below) in
      (pairs, e, low)

  below_of_pairs :
      (ptr : ℕ) (pairs : List BlockPair)
      → get_recover_pairs nodes ptr ≡ some pairs
      → ptr < length nodes
  unfolding get_recover_pairs
  below_of_pairs ptr pairs e =
      let (node, at_ptr, _) = >>=-eq-some (get_elem? nodes ptr) _ e in
      lt-length_of_get_elem? nodes ptr node at_ptr

  pub checked_entangled :
      (ptr : ℕ) (pairs : List BlockPair)
      → get_recover_pairs nodes ptr ≡ some pairs
      → PairsMake truth ptr pairs
  checked_entangled ptr pairs e =
      let (pairs', e', _, made) =
        checked_pairs ptr (get_recover_pairs nodes ptr)
          (all_below_lem (length nodes) _ right ptr (below_of_pairs ptr pairs e)) in
      subst (PairsMake truth ptr) (some_inj (sym e' ∙ e)) made

abbrev or_empty : Option (List ℕ) → List ℕ
or_empty none = []
or_empty (some v) = v

abbrev pub fetches_right : BlockGetter → (ℕ → List ℕ) → ℕ → Option Node → Bool
fetches_right getter truth ptr none = true
fetches_right getter truth ptr (some node) = fetch_right (truth ptr) (fetch getter node)

module _ (getter : BlockGetter) (nodes : List Node) (truth : ℕ → List ℕ)
    (right : all_below (length nodes) (λ ptr. fetches_right getter truth ptr (get_elem? nodes ptr))
      ≡ true) where
  pub checked_honest :
      (ptr : ℕ) (node : Node) (v : List ℕ)
      → get_elem? nodes ptr ≡ some node
      → fetch getter node ≡ some v
      → v ≡ truth ptr
  checked_honest ptr node v at_ptr fetched =
      let ok =
        all_below_lem (length nodes) _ right ptr (lt-length_of_get_elem? nodes ptr node at_ptr) in
      let ok' : fetch_right (truth ptr) (some v) ≡ true = rw (at_ptr, fetched) at ok in
      are_equal_lem v (truth ptr) ok'

-- The chunk of the last parity of a block on a strand among those that an entangler sent.
abbrev pub parity_of : ℕ → ℕ → List EntangledBlock → List ℕ → List ℕ
parity_of index strand [] found = found
parity_of index strand (block ∷ rest) found = parity_of index strand rest (
    if block.left_block_index ==ℤ pos index && (block.strand == strand) then block.chunk else found)

-- The true data of the block at an address.
abbrev pub truth_of : List (List ℕ) → List EntangledBlock → Option Node → List ℕ
truth_of file sent none = []
truth_of file sent (some node) =
    if node.is_parity
    then parity_of node.index node.strand sent []
    else or_empty (get_elem? file (node.index - 1))

abbrev pub all_fresh : List Cell → Bool
all_fresh [] = true
all_fresh (b ∷ rest) =
    not (is_repair_pending b.status) && (not (is_data_available b.status) && all_fresh rest)

all_fresh_lem :
    (cells : List Cell)
    → all_fresh cells ≡ true
    → (q : ℕ) → (pending_at cells q ≡ false) × (available_at cells q ≡ none)
unfolding get_data
all_fresh_lem [] h q = (refl, refl)
all_fresh_lem (b ∷ rest) h zero = (ground arith, ground arith)
all_fresh_lem (b ∷ rest) h (suc q) = all_fresh_lem rest (ground arith) q

abbrev pub all_under : ℕ → List ℕ → Bool
all_under n [] = true
all_under n (x ∷ rest) = ltb x n && all_under n rest

all_under_lem :
    (n : ℕ) (xs : List ℕ) → all_under n xs ≡ true → (i x : ℕ) → get_elem? xs i ≡ some x → x < n
all_under_lem n [] h i x e = cc
all_under_lem n (y ∷ rest) h zero x e = ground arith
all_under_lem n (y ∷ rest) h (suc i) x e = all_under_lem n rest (ground arith) i x e

pub checked-IsQuiet :
    (truth : ℕ → List ℕ) (l : Lattice)
    → length l.cells ≡ length l.nodes
    → (all_fresh l.cells && all_under (length l.nodes) l.data_blocks) ≡ true
    → IsQuiet l.nodes truth l
checked-IsQuiet truth l size h = record {
  same_nodes = refl;
  size = size;
  idle = λ q. (all_fresh_lem l.cells (ground arith) q).0;
  sound = λ q v e. cc ((all_fresh_lem l.cells (ground arith) q).1);
  data_below = all_under_lem (length l.nodes) l.data_blocks (ground arith);
}
