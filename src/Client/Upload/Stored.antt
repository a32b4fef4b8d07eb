-- ===== src/Client/Upload/Stored.antt =====
-- The file of a strand that an upload stores, and GetParity, which cuts it into parity blocks again.
use ipfs_reliability.Prelude.{
  ℕ, zero, suc, ◌+◌, ◌*◌, ◌≡◌, ◌≤◌, refl, sym, ap, ◌∙◌, arith, true, List, [], ◌∷◌, ◌++◌, some,
  some_inj, get_elem?, length, length-append, take, drop, drop-drop, drop_congr, append_assoc,
  append_nil, take_congr,
}
use native.Mathlib.Nat.{suc-mul}
use ipfs_reliability.Connector.Getter.{IpfsGetter, GetterState}
use ipfs_reliability.Connector.Ranges.Laws.{file_block}
use ipfs_reliability.Connector.Parity.{get_parity_block, parity_block_size, leaf_size}
use ipfs_reliability.Connector.Parity.Blocks.{HasLeaves, get_parity_block_right}
use ipfs_reliability.Client.Upload.{merge_blocks}

merge_blocks-append :
    (merged : List ℕ) (blocks : List (List ℕ))
    → merge_blocks merged blocks ≡ merged ++ merge_blocks [] blocks
unfolding merge_blocks
merge_blocks-append merged [] = sym (append_nil merged)
merge_blocks-append merged (block ∷ rest) =
    merge_blocks-append (merged ++ block) rest
    ∙ append_assoc merged block (merge_blocks [] rest)
    ∙ ap (λ (l : List ℕ). merged ++ l) (sym (merge_blocks-append block rest))

-- All blocks have this size.
abbrev pub HaveSize : ℕ → List (List ℕ) → Type 0
HaveSize size [] = Unit {0}
HaveSize size (block ∷ rest) = (length block ≡ size) × HaveSize size rest

drop-append : (xs ys : List ℕ) → drop (length xs) (xs ++ ys) ≡ ys
drop-append [] ys = refl
drop-append (x ∷ xs) ys = drop-append xs ys

take-append : (xs ys : List ℕ) → take (length xs) (xs ++ ys) ≡ xs
take-append [] ys = refl
take-append (x ∷ xs) ys = ap (λ (l : List ℕ). x ∷ l) (take-append xs ys)

drop_after :
    (size m : ℕ) (b rest : List ℕ) → length b ≡ size → drop (size + m) (b ++ rest) ≡ drop m rest
drop_after size m b rest e =
    sym (drop-drop m size (b ++ rest))
    ∙ ap (drop m) (drop_congr (b ++ rest) (sym e) ∙ drop-append b rest)

file_block-first :
    (size : ℕ) (b rest : List ℕ) → length b ≡ size → file_block size (b ++ rest) 0 ≡ b
file_block-first size b rest e =
    ap (take size) (drop_congr {n = 0 * size} {m = 0} (b ++ rest) (omega arith))
    ∙ take_congr (b ++ rest) (sym e)
    ∙ take-append b rest

file_block-later :
    (size i : ℕ) (b rest : List ℕ)
    → length b ≡ size
    → file_block size (b ++ rest) (suc i) ≡ file_block size rest i
file_block-later size i b rest e = ap (take size) (
    drop_congr {n = suc i * size} {m = size + i * size} (b ++ rest) (omega (arith, suc-mul i size))
    ∙ drop_after size (i * size) b rest e)

-- The block number i of the merged file.
file_block-merge_blocks :
    (size i : ℕ) (blocks : List (List ℕ)) (block : List ℕ)
    → HaveSize size blocks
    → get_elem? blocks i ≡ some block
    → (file_block size (merge_blocks [] blocks) i ≡ block)
      × (i * size + size ≤ length (merge_blocks [] blocks))
unfolding merge_blocks
file_block-merge_blocks size i [] block h e = cc
file_block-merge_blocks size zero (b ∷ rest) block h e =
    let whole = merge_blocks-append b rest in
    let long = length-append b (merge_blocks [] rest) in
    rw (whole)
      (file_block-first size b (merge_blocks [] rest) h.0 ∙ some_inj e, omega (arith, h.0, long))
file_block-merge_blocks size (suc i) (b ∷ rest) block h e =
    let whole = merge_blocks-append b rest in
    let long = length-append b (merge_blocks [] rest) in
    let (later, room) = file_block-merge_blocks size i rest block h.1 e in
    rw (whole) (
      file_block-later size i b (merge_blocks [] rest) h.0 ∙ later,
      omega (arith, h.0, long, room, suc-mul i size),
    )

-- When all parity blocks of a strand have the full size, and the file that an upload merges them into is
-- there, leaf by leaf: GetParity of a block of the strand returns the bytes of exactly this block, and
-- asks the network for nothing.
pub merged_strand_reads :
    (g : IpfsGetter) (n index strand : ℕ) (index_map : List (ℕ × ℕ)) (blocks : List (List ℕ))
    (block : List ℕ) (st : GetterState)
    → HaveSize parity_block_size blocks
    → get_elem? blocks index ≡ some block
    → get_elem? st.parity_available strand ≡ some true
    → get_elem? g.parity_index_map strand ≡ some index_map
    → HasLeaves (file_block leaf_size (merge_blocks [] blocks)) index_map st.parity_cells
    → (st' : GetterState) × (get_parity_block g (suc n) index strand st ≡ some (st', some block))
      × (st'.parity_cells ≡ st.parity_cells)
merged_strand_reads g n index strand index_map blocks block st size at available at_strand leaves =
    let (same, room) = file_block-merge_blocks parity_block_size index blocks block size at in
    let (st', e, cells, _) =
      get_parity_block_right g n index strand index_map (merge_blocks [] blocks) st available
        at_strand leaves room in
    (st', e ∙ ap (λ (l : List ℕ). some (st', some l)) same, cells)
