-- ===== src/Entangler/State.antt =====
-- The data of entangler/entangler.go. A pointer to an EntangledBlock is an index into `heap`, and
-- the blocks that went into parityChan are listed in `sent`, the oldest first.
use ipfs_reliability.Prelude.{ℕ, zero, suc, Bool, true, not, ◌&&◌, List, [], ◌∷◌, ◌++◌}
use ipfs_reliability.Prelude.{
  Option, none, some, ◌>>=◌, ltb, ◌==◌, if◌then◌else◌, length, get_elem?,
}
use ipfs_reliability.Prelude.{replicate, ℤ, pos}

abbrev pub Bytes : Type 0
Bytes = List ℕ

pub record EntangledBlock : Type 0 where
  pub left_block_index : ℤ
  pub right_block_index : ℤ
  pub chunk : Bytes
  pub strand : ℕ

unfoldable pub new_entangled_block : ℤ → ℤ → Bytes → ℕ → EntangledBlock
new_entangled_block l r chunk strand = record {
  left_block_index = l;
  right_block_index = r;
  chunk = chunk;
  strand = strand;
}

pub record Entangler : Type 0 where
  pub alpha : ℕ
  pub s : ℕ
  pub p : ℕ
  pub chunk_num : ℕ
  pub chain_start_data : List Bytes
  pub max_chain_num_per_strand : ℕ
  pub cached_parities : List (List ℕ)
  pub parity_blocks_to_wrap : List (List (Option ℕ))
  pub strands : List Bool
  pub heap : List EntangledBlock
  pub sent : List EntangledBlock

-- `none` is the panic of ThrowError.
unfoldable pub new_entangler : ℕ → ℕ → ℕ → List Bool → Option Entangler
new_entangler alpha s p strands =
    if ltb alpha 1
    then none
    else if alpha == 1 && not (s == 1 && p == 0)
    then none
    else if ltb 1 alpha && ltb p s
    then none
    else some (record {
      alpha = alpha;
      s = s;
      p = p;
      chunk_num = 0;
      chain_start_data = [];
      max_chain_num_per_strand = if ltb p s then s else p;
      cached_parities = [];
      parity_blocks_to_wrap = [];
      strands = if length strands == 0 then replicate alpha true else strands;
      heap = [];
      sent = [];
    })

-- `n` pointers to fresh blocks, from address `a` on.
unfoldable pub addresses : ℕ → ℕ → List ℕ
addresses a zero = []
addresses a (suc n) = a ∷ addresses (suc a) n

-- make([]*EntangledBlock, n) filled with n placeholders of strand k.
unfoldable pub alloc_placeholders : ℕ → ℕ → Entangler → Entangler
unfolding addresses new_entangled_block
alloc_placeholders n k e = record e {
  cached_parities = e.cached_parities ++ addresses (length e.heap) n ∷ [];
  heap = e.heap ++ replicate n (new_entangled_block (pos 0) (pos 0) [] k);
}

-- The round k of the loops of prepareEntangle: the caches of a strand that is not to be generated
-- stay nil.
unfoldable pub prepare_strand : ℕ → Entangler → Option Entangler
unfolding alloc_placeholders
prepare_strand k e = do
  wanted ← get_elem? e.strands k
  if wanted
      then some (
          alloc_placeholders (if k == 0 then e.s else e.p) k (record e {
            parity_blocks_to_wrap =
                e.parity_blocks_to_wrap ++ replicate e.max_chain_num_per_strand none ∷ [];
          }))
      else some (record e {
        parity_blocks_to_wrap = e.parity_blocks_to_wrap ++ [] ∷ [];
        cached_parities = e.cached_parities ++ [] ∷ [];
      })

-- for k := k0; k < k0 + n; k++ { body(k) }
unfoldable pub for_strands {ℓ} : {S : Type ℓ} → ℕ → ℕ → (ℕ → S → Option S) → S → Option S
for_strands zero k body e = some e
for_strands (suc n) k body e = do e' ← body k e; for_strands n (suc k) body e'

unfoldable pub prepare_entangle : Entangler → Option Entangler
unfolding for_strands prepare_strand
prepare_entangle e = for_strands e.alpha 0 prepare_strand (record e {
  parity_blocks_to_wrap = [];
  cached_parities = [];
  chain_start_data = replicate e.max_chain_num_per_strand [];
})
