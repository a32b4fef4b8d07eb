-- ===== src/Entangler/Encode/Cache.antt =====
-- The cache that prepareEntangle allocates, and the chain numbers that index it.
use ipfs_reliability.Prelude.{
  ℕ, zero, suc, ◌≤◌, ◌<◌, ◌≡◌, refl, ap, arith, List, [], ◌∷◌, ◌++◌, none, some, true, false,
  replicate, ltb, ◌>>=◌, length, get_elem?, get_elem?-of_lt, at, pos,
}
use ipfs_reliability.Entangler.Index.{get_chain_indexes}
use ipfs_reliability.Entangler.Index.Oblong.{chain_indexes_in_cache}
use ipfs_reliability.Entangler.State.{
  Entangler, new_entangler, addresses, alloc_placeholders, prepare_strand, for_strands,
  prepare_entangle,
}

length-addresses : (a n : ℕ) → length (addresses a n) ≡ n
unfolding addresses
length-addresses a zero = refl
length-addresses a (suc n) = ap suc (length-addresses (suc a) n)

-- The cache of a strand has `size` slots, and this place is one of them.
pub record HasSlot (e : Entangler) (k size place : ℕ) : Type 0 where
  pub row : List ℕ
  pub ptr : ℕ
  pub row_of_strand : get_elem? e.cached_parities k ≡ some row
  pub size_of_row : length row ≡ size
  pub in_row : at row (pos place) ≡ some ptr

slot :
    (e : Entangler) (k a size place : ℕ)
    → get_elem? e.cached_parities k ≡ some (addresses a size)
    → place < size
    → HasSlot e k size place
slot e k a size place row low =
    let n = length-addresses a size in
    let (ptr, found) = get_elem?-of_lt (addresses a size) place (omega (arith, n)) in
    record {
      row = addresses a size;
      ptr = ptr;
      row_of_strand = row;
      size_of_row = n;
      in_row = found;
    }

abbrev wrap_none : Entangler → Entangler
wrap_none e = record e {
  parity_blocks_to_wrap = e.parity_blocks_to_wrap ++ replicate e.max_chain_num_per_strand none ∷ [];
}

-- Three strands with s and p slots.
abbrev three_strands : ℕ → ℕ → Entangler
three_strands s p = record {
  alpha = 3;
  s = s;
  p = p;
  chunk_num = 0;
  chain_start_data = replicate p [];
  max_chain_num_per_strand = p;
  cached_parities = [];
  parity_blocks_to_wrap = [];
  strands = true ∷ true ∷ true ∷ [];
  heap = [];
  sent = [];
}

abbrev prepared : ℕ → ℕ → Entangler
prepared s p = alloc_placeholders p 2 (
    wrap_none
      (alloc_placeholders p 1 (wrap_none (alloc_placeholders s 0 (wrap_none (three_strands s p))))))

-- For three strands and 1 <= s <= p: NewEntangler and prepareEntangle go through, the caches that they
-- make have s slots for strand 0 and p slots for the others, and the chain numbers of every block from 1
-- on are slots of the caches of their strands.
pub chain_indexes_have_slots :
    (s p i : ℕ)
    → 1 ≤ s
    → s ≤ p
    → 1 ≤ i
    → (ready : Entangler) × ((new_entangler 3 s p [] >>= prepare_entangle) ≡ some ready)
      × ((h rh lh : ℕ) × (get_chain_indexes s p (pos i) ≡ some (pos h ∷ pos rh ∷ pos lh ∷ []))
          × HasSlot ready 0 s h
          × HasSlot ready 1 p rh
          × HasSlot ready 2 p lh)
unfolding new_entangler prepare_entangle for_strands prepare_strand alloc_placeholders
chain_indexes_have_slots s p i some_row wide some_block =
    let (h, rh, lh, chains, a, b, c) = chain_indexes_in_cache s p i some_row wide some_block in
    let order : ltb p s ≡ false = ground arith in
    let ready = prepared s p in
    let first = slot ready 0 0 s h refl a in
    let second = slot ready 1 _ p rh refl b in
    let third = slot ready 2 _ p lh refl c in
    (ready, rw (order) refl, (h, rh, lh, chains, first, second, third))
