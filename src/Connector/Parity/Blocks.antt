-- ===== src/Connector/Parity/Blocks.antt =====
-- GetParity of a strand whose leaves are there gives the parity block.
use ipfs_reliability.Prelude.{
  ℕ, zero, suc, ◌+◌, ◌*◌, ◌≡◌, ◌≤◌, ◌<◌, refl, ◌∙◌, ap, arith, true, List, [], ◌∷◌, ◌++◌, some,
  >>=-eq-some, get_elem?, lookup, length, sym, some_inj, Bool-cases, ◌==◌, inl, inr, ◌-◌, ◌/◌, ◌%◌,
  append_assoc, append_nil,
}
use ipfs_reliability.Connector.Getter.{TreeCell, IpfsGetter, GetterState}
use ipfs_reliability.Connector.Ranges.{
  Range, full_blocks, calculate_new_blocks, read_range, read_ranges,
}
use ipfs_reliability.Connector.Ranges.Laws.{file_block, read_ranges-calculate_new_blocks}
use ipfs_reliability.Connector.Parity.{
  parity_cached, get_parity_node, cached_parity_or, get_parity_helper, append_range,
  get_parity_ranges, get_parity_block, parity_block_size, leaf_size,
}

-- Each leaf of the strand that is not empty is there with its bytes.
abbrev pub HasLeaves : (ℕ → List ℕ) → List (ℕ × ℕ) → List TreeCell → Type 0
HasLeaves block_of index_map cells =
    (b : ℕ)
    → 0 < length (block_of b)
    → (ptr : ℕ) × (lookup b index_map ≡ some ptr)
      × (cell : TreeCell) × (get_elem? cells ptr ≡ some cell)
      × (cell.data_of ≡ some (block_of b))

abbrev EndPositive : List Range → Type 0
EndPositive [] = Unit {0}
EndPositive (range ∷ rest) = (0 < range.hi) × EndPositive rest

full_blocks-EndPositive :
    (n b size : ℕ) (rest : List Range)
    → 0 < size
    → EndPositive rest
    → EndPositive (full_blocks n b size ++ rest)
unfolding full_blocks
full_blocks-EndPositive zero b size rest pos h = h
full_blocks-EndPositive (suc n) b size rest pos h =
    (pos, full_blocks-EndPositive n (suc b) size rest pos h)

calculate_new_blocks-EndPositive :
    (original size index : ℕ) → 0 < size → EndPositive (calculate_new_blocks original size index)
unfolding calculate_new_blocks
calculate_new_blocks-EndPositive original size index pos =
    let first = index * original in
    let last = first + original - 1 in
    elim (Bool-cases (first / size == last / size)) [
      | inl same ↦ rw (same) (omega arith, tt)
      | inr apart ↦ rw (apart) (
        pos,
        full_blocks-EndPositive (last / size - suc (first / size)) (suc (first / size)) size
            (record { block = last / size; lo = 0; hi = last % size + 1 } ∷ []) pos
            (omega arith, tt),
      )
    ]

read_range-positive :
    (range : Range) (bytes part : List ℕ)
    → read_range range bytes ≡ some part
    → 0 < range.hi
    → 0 < length bytes
unfolding read_range
read_range-positive range bytes part e pos = ground arith

module _ (g : IpfsGetter) (n strand : ℕ) (index_map : List (ℕ × ℕ)) (block_of : ℕ → List ℕ) where
  -- A range whose leaf is there.
  get_parity_ranges-step :
      (range : Range) (rest : List Range) (final_data part : List ℕ) (ptr : ℕ) (cell : TreeCell)
      (st : GetterState)
      → lookup range.block index_map ≡ some ptr
      → get_elem? st.parity_cells ptr ≡ some cell
      → cell.data_of ≡ some (block_of range.block)
      → read_range range (block_of range.block) ≡ some part
      → get_parity_ranges g (suc n) strand index_map (range ∷ rest) final_data st
        ≡ get_parity_ranges g (suc n) strand index_map rest (final_data ++ part) (parity_cached st)
  unfolding get_parity_ranges get_parity_helper get_parity_node cached_parity_or append_range
  get_parity_ranges-step range rest final_data part ptr cell st at_b at_cell has e =
      rw (get_parity_ranges, at_b, at_cell, has, e) refl

  get_parity_ranges-cached :
      (ranges : List Range) (final_data bytes : List ℕ) (st : GetterState)
      → HasLeaves block_of index_map st.parity_cells
      → EndPositive ranges
      → read_ranges block_of ranges ≡ some bytes
      → (st' : GetterState) × (get_parity_ranges g (suc n) strand index_map ranges final_data st
          ≡ some (st', some (final_data ++ bytes)))
        × (st'.parity_cells ≡ st.parity_cells)
        × (st'.parity_blocks.cached ≡ st.parity_blocks.cached + length ranges)
  unfolding get_parity_ranges read_ranges parity_cached
  get_parity_ranges-cached [] final_data bytes st h pos e = (
    st,
    ap (λ (l : List ℕ). some (st, some l))
        (sym (append_nil final_data) ∙ ap (λ (l : List ℕ). final_data ++ l) (some_inj e)),
    refl,
    omega arith,
  )
  get_parity_ranges-cached (range ∷ rest) final_data bytes st h pos e =
      let (part, e₁, e') = >>=-eq-some (read_range range (block_of range.block)) _ e in
      let (more, e₂, e₃) = >>=-eq-some (read_ranges block_of rest) _ e' in
      let (ptr, at_b, cell, at_cell, has) =
        h range.block (read_range-positive range (block_of range.block) part e₁ pos.0) in
      let (st', done, same, count) =
        get_parity_ranges-cached rest (final_data ++ part) more (parity_cached st) h pos.1 e₂ in
      (
        st',
        get_parity_ranges-step range rest final_data part ptr cell st at_b at_cell has e₁
            ∙ done
            ∙ ap (λ (l : List ℕ). some (st', some l))
                (append_assoc final_data part more
                  ∙ ap (λ (l : List ℕ). final_data ++ l) (some_inj e₃)),
        same,
        omega (arith, count),
      )

-- When the strand is available, the tree of the strand has all leaves of a file, and the file has
-- all bytes of the parity block: GetParity returns exactly those bytes, asks for nothing, and counts
-- one cached block for each leaf that it reads.
pub get_parity_block_right :
    (g : IpfsGetter) (n index strand : ℕ) (index_map : List (ℕ × ℕ)) (file : List ℕ)
    (st : GetterState)
    → get_elem? st.parity_available strand ≡ some true
    → get_elem? g.parity_index_map strand ≡ some index_map
    → HasLeaves (file_block leaf_size file) index_map st.parity_cells
    → index * parity_block_size + parity_block_size ≤ length file
    → (st' : GetterState) × (get_parity_block g (suc n) index strand st
        ≡ some (st', some (file_block parity_block_size file index)))
      × (st'.parity_cells ≡ st.parity_cells)
      × (st'.parity_blocks.cached
          ≡ st.parity_blocks.cached
            + length (calculate_new_blocks parity_block_size leaf_size index))
unfolding get_parity_block
get_parity_block_right g n index strand index_map file st available at_strand leaves room =
    let ranges = calculate_new_blocks parity_block_size leaf_size index in
    let bytes =
      read_ranges-calculate_new_blocks leaf_size parity_block_size index file (omega arith)
        (omega arith) room in
    let (st', e, same, count) =
      get_parity_ranges-cached g n strand index_map (file_block leaf_size file) ranges []
        (file_block parity_block_size file index) st leaves
        (calculate_new_blocks-EndPositive parity_block_size leaf_size index (omega arith)) bytes in
    (st', rw (available, at_strand) e, same, count)
