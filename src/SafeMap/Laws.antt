-- ===== src/SafeMap/Laws.antt =====
-- What the map holds after AddReverseMap.
use ipfs_reliability.Prelude.{
  ℕ, zero, suc, ◌≡◌, ◌≢◌, refl, sym, ap, some_inj, ◌∙◌, arith, List, [], ◌∷◌, some, if◌then◌else◌,
  ◌==◌, lookup-put, get_elem?,
}
use ipfs_reliability.SafeMap.{Cid, SafeMap, add, add_reverse_map, get}

-- No two entries have the same index.
abbrev pub NotAmong : ℕ → List (Cid × ℕ) → Type 0
NotAmong index [] = Unit {0}
NotAmong index ((cid, other) ∷ rest) = (other ≢ index) × NotAmong index rest

abbrev pub AreDistinct : List (Cid × ℕ) → Type 0
AreDistinct [] = Unit {0}
AreDistinct ((cid, index) ∷ rest) = NotAmong index rest × AreDistinct rest

get-add :
    (key other : ℕ) (val : Cid) (m : SafeMap)
    → get other (add key val m) ≡ (if key == other then some val else get other m)
unfolding get add
get-add key other val m = lookup-put key other val m.unsafe_map

get-add_reverse_map_other :
    (entries : List (Cid × ℕ)) (m : SafeMap) (index : ℕ)
    → NotAmong index entries
    → get index (add_reverse_map entries m) ≡ get index m
unfolding add_reverse_map
get-add_reverse_map_other [] m index absent = refl
get-add_reverse_map_other ((cid, other) ∷ rest) m index absent =
    get-add_reverse_map_other rest (add other cid m) index absent.1
    ∙ (get-add other index cid m ∙ ground arith)

-- After AddReverseMap with a map of CIDs to distinct indexes, in whatever order its entries come, Get
-- finds for each of these indexes its CID.
pub get-add_reverse_map :
    (entries : List (Cid × ℕ)) (m : SafeMap) (i : ℕ) (cid : Cid) (index : ℕ)
    → AreDistinct entries
    → get_elem? entries i ≡ some (cid, index)
    → get index (add_reverse_map entries m) ≡ some cid
unfolding add_reverse_map
get-add_reverse_map [] m i cid index distinct h = cc
get-add_reverse_map ((cid', other) ∷ rest) m zero cid index distinct h =
    let same : other ≡ index = ap (λ (entry : Cid × ℕ). entry.1) (some_inj h) in
    let same_cid : cid' ≡ cid = ap (λ (entry : Cid × ℕ). entry.0) (some_inj h) in
    rw (sym same) (
      get-add_reverse_map_other rest (add other cid' m) other distinct.0
      ∙ (get-add other other cid' m ∙ ground arith))
get-add_reverse_map ((cid', other) ∷ rest) m (suc i) cid index distinct h =
    get-add_reverse_map rest (add other cid' m) i cid index distinct.1 h
