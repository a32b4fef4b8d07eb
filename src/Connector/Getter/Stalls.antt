-- ===== src/Connector/Getter/Stalls.antt =====
-- GetData of a block whose parent is there, but did not give it a CID.
use ipfs_reliability.Prelude.{
  ℕ, zero, suc, ◌≡◌, refl, ◌∙◌, false, List, none, some, get_elem?, lookup, ◌==◌, ◌>>=◌,
}
use ipfs_reliability.Connector.Getter.{
  TreeCell, IpfsGetter, GetterState, Outcome, elem, data_cached, after_parent, ask_parent,
  get_data_round, get_data_loop, get_node_data, cached_or, get_data, EmptyTreeNode,
}

module _ (g : IpfsGetter) (index ptr parent_index parent : ℕ) (node : EmptyTreeNode)
    (cell parent_cell : TreeCell) (bytes : List ℕ) (at_index : lookup index g.node_map ≡ some ptr)
    (at_ptr : get_elem? g.nodes ptr ≡ some node) (no_data : cell.data_of ≡ none)
    (no_cid : cell.cid ≡ 0) (up : lookup index g.parent_map ≡ some parent_index)
    (apart : (parent_index == index) ≡ false) (free : elem parent_index g.data_filter ≡ false)
    (at_parent : lookup parent_index g.node_map ≡ some parent)
    (has_data : parent_cell.data_of ≡ some bytes) where
  parent_cached :
      (m : ℕ) (st : GetterState)
      → get_elem? st.data_cells parent ≡ some parent_cell
      → get_data g (suc m) parent_index st ≡ some (data_cached st, some bytes)
  unfolding get_data get_node_data cached_or
  parent_cached m st b = rw (free, at_parent, b, has_data) refl

  round_again :
      (recur : ℕ → GetterState → Outcome) (go_on : GetterState → Outcome) (st : GetterState)
      → get_elem? st.data_cells ptr ≡ some cell
      → get_data_round g recur go_on index ptr st ≡ (recur parent_index st >>= after_parent go_on)
  unfolding get_data_round
  round_again recur go_on st a = rw (at_ptr, a, no_cid, ask_parent, up, apart) refl

  get_data_loop-none :
      (n m : ℕ) (st : GetterState)
      → get_elem? st.data_cells ptr ≡ some cell
      → get_elem? st.data_cells parent ≡ some parent_cell
      → get_data_loop g (get_data g m) n index ptr st ≡ none
  unfolding get_data_loop after_parent data_cached get_data
  get_data_loop-none zero m st a b = refl
  get_data_loop-none (suc n) zero st a b =
      round_again (get_data g 0) (get_data_loop g (get_data g 0) n index ptr) st a ∙ refl
  get_data_loop-none (suc n) (suc m) st a b =
      round_again (get_data g (suc m)) (get_data_loop g (get_data g (suc m)) n index ptr) st a
      ∙ rw (parent_cached m st b) (get_data_loop-none n (suc m) (data_cached st) a b)

-- When a block has neither data nor a CID, but its parent already has data, so that its links do not
-- reach this block, and neither of the two is filtered: GetData of the block has no result with any
-- fuel, the loop in the code does not end.
pub get_data_stalls :
    (g : IpfsGetter) (index ptr parent_index parent : ℕ) (node : EmptyTreeNode)
    (cell parent_cell : TreeCell) (bytes : List ℕ) (st : GetterState) (fuel : ℕ)
    → elem index g.data_filter ≡ false
    → lookup index g.node_map ≡ some ptr
    → get_elem? g.nodes ptr ≡ some node
    → get_elem? st.data_cells ptr ≡ some cell
    → cell.data_of ≡ none
    → cell.cid ≡ 0
    → lookup index g.parent_map ≡ some parent_index
    → (parent_index == index) ≡ false
    → elem parent_index g.data_filter ≡ false
    → lookup parent_index g.node_map ≡ some parent
    → get_elem? st.data_cells parent ≡ some parent_cell
    → parent_cell.data_of ≡ some bytes
    → get_data g fuel index st ≡ none
unfolding get_data get_node_data cached_or
get_data_stalls g index ptr parent_index parent node cell parent_cell bytes st zero fine at_index
      at_ptr at_cell no_data no_cid up apart free at_parent at_parent_cell has_data =
    refl
get_data_stalls g index ptr parent_index parent node cell parent_cell bytes st (suc n) fine at_index
      at_ptr at_cell no_data no_cid up apart free at_parent at_parent_cell has_data =
    rw (fine, at_index, at_cell, no_data)
      (get_data_loop-none g index ptr parent_index parent node cell parent_cell bytes at_index
        at_ptr no_data no_cid up apart free at_parent has_data (suc n) n st at_cell at_parent_cell)
