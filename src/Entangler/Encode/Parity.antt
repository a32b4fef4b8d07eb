-- ===== src/Entangler/Encode/Parity.antt =====
-- What the round of entangleSingleBlock for one strand makes.
use ipfs_reliability.Prelude.{
  ℕ, ◌-◌, ◌≡◌, refl, sym, ap, ◌∙◌, subst, true, if◌then◌else◌, inl, inr, List, [], ◌∷◌, ◌++◌,
  Option, none, some, some_inj,
}
use ipfs_reliability.Prelude.{length, get_elem?, at, >>=-eq-some, ℤ, pos, ◌-ℤ◌, ◌==ℤ◌, Bool-cases}
use mathlib.Core.Option
use ipfs_reliability.Bytes.{xor_chunk_data}
use ipfs_reliability.Bytes.Laws.{zeros_after, xor_chunk_data_cancel}
use ipfs_reliability.Entangler.Index.{get_chain_start_indexes}
use ipfs_reliability.Entangler.State.{Bytes, EntangledBlock, Entangler, new_entangled_block}
use ipfs_reliability.Entangler.Encode.{set_slot, send, send_or_park, entangle_on}

-- Where the new parity goes: at the start of its chain it is parked for wrapLattice, else it is sent.
record IsStored (start index : ℤ) (k : ℕ) (next : EntangledBlock) (ptr : ℕ) (e e' : Entangler)
    : Type 0 where
  heap_after : e'.heap ≡ e.heap
  cache_after : e'.cached_parities ≡ e.cached_parities
  sent_after : e'.sent ≡ (if start ==ℤ index then e.sent else e.sent ++ next ∷ [])
  parked_after :
      (if start ==ℤ index
        then set_slot e.parity_blocks_to_wrap k (index -ℤ pos 1) (some ptr)
        else some e.parity_blocks_to_wrap)
      ≡ some e'.parity_blocks_to_wrap

parked :
    (start index : ℤ) (k : ℕ) (next : EntangledBlock) (ptr : ℕ) (e e' : Entangler)
    (o : Option (List (List (Option ℕ))))
    → (start ==ℤ index) ≡ true
    → set_slot e.parity_blocks_to_wrap k (index -ℤ pos 1) (some ptr) ≡ o
    → Option.map (λ to_wrap. record e { parity_blocks_to_wrap = to_wrap }) o ≡ some e'
    → IsStored start index k next ptr e e'
parked start index k next ptr e e' none same q h = cc
parked start index k next ptr e e' (some to_wrap) same q h =
    subst (IsStored start index k next ptr e) (some_inj h) (record {
      heap_after = refl;
      cache_after = refl;
      sent_after = rw (same) refl;
      parked_after = rw (same) q;
    })

send_or_park_stores :
    (start index : ℤ) (k : ℕ) (next : EntangledBlock) (ptr : ℕ) (e e' : Entangler)
    → send_or_park start index k next ptr e ≡ some e'
    → IsStored start index k next ptr e e'
unfolding send_or_park send
send_or_park_stores start index k next ptr e e' h = elim (Bool-cases (start ==ℤ index)) [
  | inl same ↦
      parked start index k next ptr e e'
        (set_slot e.parity_blocks_to_wrap k (index -ℤ pos 1) (some ptr)) same refl (rw same at h)
  | inr other ↦ subst (IsStored start index k next ptr e) (some_inj (rw other at h)) (record {
    heap_after = refl;
    cache_after = refl;
    sent_after = rw (other) refl;
    parked_after = rw (other) refl;
  })
]

-- What the round of strand k has made of e for the block with this index.
pub record Makes (index : ℤ) (block : Bytes) (cache_pos r_indexes : List ℤ) (k : ℕ)
    (e e' : Entangler) : Type 0 where
  pub row : List ℕ
  pub place : ℤ
  pub prev_ptr : ℕ
  pub prev : EntangledBlock
  pub next : EntangledBlock
  pub start : ℤ
  pub row_of_strand : get_elem? e.cached_parities k ≡ some row
  pub place_of_chain : get_elem? cache_pos k ≡ some place
  pub cached_prev : at row place ≡ some prev_ptr
  pub points_to_prev : get_elem? e.heap prev_ptr ≡ some prev
  pub left_index : next.left_block_index ≡ index
  pub right_index : get_elem? r_indexes k ≡ some next.right_block_index
  pub on_strand : next.strand ≡ k
  pub recovers :
      xor_chunk_data next.chunk prev.chunk ≡ zeros_after block (length prev.chunk - length block)
  pub heap_after : e'.heap ≡ e.heap ++ next ∷ []
  pub cache_after : set_slot e.cached_parities k place (length e.heap) ≡ some e'.cached_parities
  pub starts : List ℤ
  pub starts_of_block : get_chain_start_indexes e.s e.p index ≡ some starts
  pub start_of_chain : get_elem? starts k ≡ some start
  pub sent_after : e'.sent ≡ (if start ==ℤ index then e.sent else e.sent ++ next ∷ [])
  pub parked_after :
      (if start ==ℤ index
        then set_slot e.parity_blocks_to_wrap k (index -ℤ pos 1) (some (length e.heap))
        else some e.parity_blocks_to_wrap)
      ≡ some e'.parity_blocks_to_wrap

-- When the round for strand k goes through: it makes one new parity, between the block and rIndexes[k], on
-- this strand; the XOR of that parity with the one that the cache has in the slot cachePos[k] gives back the
-- data of the block, with zero bytes behind it where the earlier parity is longer; the cache has the new
-- parity in this slot from then on, and is the same otherwise; and the new parity is kept for wrapLattice,
-- and not sent, when the block is the start of its chain, and else it is sent, and not kept.
pub entangle_on_right :
    (index : ℤ) (block : Bytes) (cache_pos r_indexes : List ℤ) (k : ℕ) (e e' : Entangler)
    → entangle_on index block cache_pos r_indexes k e ≡ some e'
    → Makes index block cache_pos r_indexes k e e'
unfolding entangle_on new_entangled_block
entangle_on_right index block cache_pos r_indexes k e e' h =
    let (row, at_row, h1) = >>=-eq-some (get_elem? e.cached_parities k) _ h in
    let (place, at_place, h2) = >>=-eq-some (get_elem? cache_pos k) _ h1 in
    let (prev_ptr, at_ptr, h3) = >>=-eq-some (at row place) _ h2 in
    let (prev, at_prev, h4) = >>=-eq-some (get_elem? e.heap prev_ptr) _ h3 in
    let (r_index, at_right, h5) = >>=-eq-some (get_elem? r_indexes k) _ h4 in
    let next = new_entangled_block index r_index (xor_chunk_data block prev.chunk) k in
    let (cached, set_cache, h6) =
      >>=-eq-some (set_slot e.cached_parities k place (length e.heap)) _ h5 in
    let (starts, at_starts, h7) = >>=-eq-some (get_chain_start_indexes e.s e.p index) _ h6 in
    let (start, at_start, h8) = >>=-eq-some (get_elem? starts k) _ h7 in
    let stored =
      send_or_park_stores start index k next (length e.heap)
        (record e { heap = e.heap ++ next ∷ []; cached_parities = cached }) e' h8 in
    record {
      row = row;
      place = place;
      prev_ptr = prev_ptr;
      prev = prev;
      next = next;
      start = start;
      row_of_strand = at_row;
      place_of_chain = at_place;
      cached_prev = at_ptr;
      points_to_prev = at_prev;
      left_index = refl;
      right_index = at_right;
      on_strand = refl;
      recovers = xor_chunk_data_cancel block prev.chunk;
      heap_after = stored.heap_after;
      cache_after = set_cache ∙ ap some (sym stored.cache_after);
      starts = starts;
      starts_of_block = at_starts;
      start_of_chain = at_start;
      sent_after = stored.sent_after;
      parked_after = stored.parked_after;
    }
