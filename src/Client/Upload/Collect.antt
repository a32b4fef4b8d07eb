-- ===== src/Client/Upload/Collect.antt =====
-- The table of the parity blocks that an upload collects, for any order in which the blocks arrive.
use mathlib.Core.List.{Permᴰ}
use ipfs_reliability.Prelude.{
  ℕ, zero, suc, ◌-◌, ◌≡◌, ◌<◌, inl, inr, refl, sym, ap, subst, ◌∙◌, arith, Bool, true, false, ◌&&◌,
  List, [], ◌∷◌, Option, some, ◌>>=◌, ◌==◌, if◌then◌else◌, get_elem?, set, length, replicate, pos,
  pos_part, ◌-ℤ◌, -ℤ_one, Bool-cases, get_elem?-set, get_elem?-of_lt, length-set, length-replicate,
  ℤ, lt→ltb,
}
use ipfs_reliability.Entangler.State.{Bytes, EntangledBlock}
use ipfs_reliability.Entangler.Encode.{set_slot}
use ipfs_reliability.Client.Upload.{store_block, store_blocks, no_blocks}

-- The place of a block in the row of its strand.
abbrev pub place_of : EntangledBlock → ℕ
place_of b = pos_part b.left_block_index - 1

-- The table has a place for the block.
abbrev pub Fits : ℕ → ℕ → EntangledBlock → Type 0
Fits alpha n b =
    (b.strand < alpha) × (b.left_block_index ≡ pos (suc (place_of b))) × (place_of b < n)

abbrev pub Each : (EntangledBlock → Type 0) → List EntangledBlock → Type 0
Each P [] = Unit {0}
Each P (b ∷ bs) = P b × Each P bs

abbrev pub goes_to : ℕ → ℕ → EntangledBlock → Bool
goes_to k i b = (b.strand == k) && (place_of b == i)

abbrev HasShape : ℕ → ℕ → List (List Bytes) → Type 0
HasShape alpha n table =
    (k : ℕ) → k < alpha → (row : List Bytes) × (get_elem? table k ≡ some row) × (length row ≡ n)

-- parityBlocks[k][i]
abbrev pub read_slot : List (List Bytes) → ℕ → ℕ → Option Bytes
read_slot table k i = get_elem? table k >>= λ row. get_elem? row i

set_row-HasShape :
    (alpha n k : ℕ) (row row' : List Bytes) (table : List (List Bytes))
    → get_elem? table k ≡ some row
    → length row' ≡ n
    → HasShape alpha n table
    → HasShape alpha n (set table k row')
set_row-HasShape alpha n k row row' table at size shape j low = elim (Bool-cases (k == j)) [
  | inl here ↦ (row', get_elem?-set table k j row' row at ∙ rw (here) refl, size)
  | inr apart ↦
      let (old, at_j, size_j) = shape j low in
      (old, get_elem?-set table k j row' row at ∙ rw (apart) at_j, size_j)
]

read_slot-set :
    (table : List (List Bytes)) (row : List Bytes) (old data_of : Bytes) (k i j l : ℕ)
    → get_elem? table k ≡ some row
    → get_elem? row i ≡ some old
    → read_slot (set table k (set row i data_of)) j l
      ≡ (if (k == j) && (i == l) then some data_of else read_slot table j l)
read_slot-set table row old data_of k i j l at at_i = elim (Bool-cases (k == j)) [
  | inr apart ↦ rw (get_elem?-set table k j (set row i data_of) row at, apart) refl
  | inl here ↦
      let same : k ≡ j = ground arith in
      let at_j : get_elem? table j ≡ some row =
        subst (λ (m : ℕ). get_elem? table m ≡ some row) same at in
      rw (get_elem?-set table k j (set row i data_of) row at, here, at_j)
        (get_elem?-set row i l data_of old at_i)
]

set_slot_lem :
    (table : List (List Bytes)) (row data_of : Bytes) (rows : List Bytes) (k i : ℕ)
    → get_elem? table k ≡ some rows
    → i < length rows
    → set_slot table k (pos i) data_of ≡ some (set table k (set rows i data_of))
unfolding set_slot
set_slot_lem table row data_of rows k i at low = rw (at, lt→ltb i (length rows) low) refl

store_block_lem :
    (alpha n : ℕ) (b : EntangledBlock) (table : List (List Bytes))
    → Fits alpha n b
    → HasShape alpha n table
    → (table' : List (List Bytes)) × (store_block b table ≡ some table')
      × HasShape alpha n table'
      × ((k i : ℕ)
          → read_slot table' k i ≡ (if goes_to k i b then some b.chunk else read_slot table k i))
unfolding store_block
store_block_lem alpha n b table (strand, index, place) shape =
    let (rows, at, size) = shape b.strand strand in
    let (old, at_i) = get_elem?-of_lt rows (place_of b) (omega arith) in
    let found : store_block b table ≡ set_slot table b.strand (pos (place_of b)) b.chunk =
      ap (λ (x : ℤ). set_slot table b.strand (x -ℤ pos 1) b.chunk) index
      ∙ ap (λ (x : ℤ). set_slot table b.strand x b.chunk) (-ℤ_one (place_of b)) in
    (
      set table b.strand (set rows (place_of b) b.chunk),
      found ∙ set_slot_lem table [] b.chunk rows b.strand (place_of b) at (omega arith),
      set_row-HasShape alpha n b.strand rows (set rows (place_of b) b.chunk) table at
          (length-set rows (place_of b) b.chunk ∙ size) shape,
      λ k i. read_slot-set table rows old b.chunk b.strand (place_of b) k i at at_i,
    )

-- What a slot holds when the blocks have been stored one after the other.
abbrev pub latest : ℕ → ℕ → Option Bytes → List EntangledBlock → Option Bytes
latest k i found [] = found
latest k i found (b ∷ bs) = latest k i (if goes_to k i b then some b.chunk else found) bs

store_blocks_lem :
    (alpha n : ℕ) (bs : List EntangledBlock) (table : List (List Bytes))
    → Each (Fits alpha n) bs
    → HasShape alpha n table
    → (table' : List (List Bytes)) × (store_blocks bs table ≡ some table')
      × HasShape alpha n table'
      × ((k i : ℕ) → read_slot table' k i ≡ latest k i (read_slot table k i) bs)
unfolding store_blocks
store_blocks_lem alpha n [] table fit shape = (table, refl, shape, λ k i. refl)
store_blocks_lem alpha n (b ∷ bs) table (here, fit) shape =
    let (next, e, shape', reads) = store_block_lem alpha n b table here shape in
    let (end, e', shape'', reads') = store_blocks_lem alpha n bs next fit shape' in
    (
      end,
      rw (e) e',
      shape'',
      λ k i. reads' k i ∙ ap (λ (x : Option Bytes). latest k i x bs) (reads k i),
    )

-- No two blocks go to the same place.
abbrev pub Misses : EntangledBlock → EntangledBlock → Type 0
Misses b c = goes_to b.strand (place_of b) c ≡ false

abbrev pub AreApart : List EntangledBlock → Type 0
AreApart [] = Unit {0}
AreApart (b ∷ bs) = Each (Misses b) bs × AreApart bs

Misses-symm : (b c : EntangledBlock) → Misses b c → Misses c b
Misses-symm b c h = ground arith

module _ (P : EntangledBlock → Type 0) where
  Permᴰ-Each : {bs cs : List EntangledBlock} → Permᴰ bs cs → Each P bs → Each P cs
  Permᴰ-Each Permᴰ.nil h = h
  Permᴰ-Each (Permᴰ.cons e p) h = (subst P e h.0, Permᴰ-Each p h.1)
  Permᴰ-Each (Permᴰ.swap e f) h = (subst P f h.1.0, (subst P e h.0, h.1.1))
  Permᴰ-Each (Permᴰ.trans p q) h = Permᴰ-Each q (Permᴰ-Each p h)

Permᴰ-AreApart : {bs cs : List EntangledBlock} → Permᴰ bs cs → AreApart bs → AreApart cs
Permᴰ-AreApart Permᴰ.nil h = h
Permᴰ-AreApart (Permᴰ.cons {l₂ = cs} e p) h = (
  subst (λ (b : EntangledBlock). Each (Misses b) cs) e (Permᴰ-Each _ p h.0),
  Permᴰ-AreApart p h.1,
)
Permᴰ-AreApart (Permᴰ.swap {a} {b} {a'} {b'} {l} e f) h =
    let a_l : Each (Misses b') l = subst (λ (x : EntangledBlock). Each (Misses x) l) e h.0.1 in
    let b_l : Each (Misses a') l = subst (λ (x : EntangledBlock). Each (Misses x) l) f h.1.0 in
    let b_a : Misses a' b' =
      subst (λ (x : EntangledBlock). Misses x b') f
        (subst (λ (x : EntangledBlock). Misses b x) e (Misses-symm a b h.0.0)) in
    ((b_a, b_l), (a_l, h.1.1))
Permᴰ-AreApart (Permᴰ.trans p q) h = Permᴰ-AreApart q (Permᴰ-AreApart p h)

abbrev overwrite : ℕ → ℕ → EntangledBlock → Option Bytes → Option Bytes
overwrite k i b found = if goes_to k i b then some b.chunk else found

overwrite_swap :
    (k i : ℕ) (a b : EntangledBlock) (found : Option Bytes)
    → Misses a b
    → overwrite k i b (overwrite k i a found) ≡ overwrite k i a (overwrite k i b found)
overwrite_swap k i a b found h = ground arith

latest-Permᴰ :
    (k i : ℕ) (found : Option Bytes) {bs cs : List EntangledBlock}
    → Permᴰ bs cs
    → AreApart bs
    → latest k i found bs ≡ latest k i found cs
latest-Permᴰ k i found Permᴰ.nil h = refl
latest-Permᴰ k i found (Permᴰ.cons {a} {b} {l₂ = cs} e p) h =
    latest-Permᴰ k i (overwrite k i a found) p h.1
    ∙ ap (λ (x : EntangledBlock). latest k i (overwrite k i x found) cs) e
latest-Permᴰ k i found (Permᴰ.swap {a} {b} {a'} {b'} {l} e f) h =
    ap (λ (x : Option Bytes). latest k i x l) (overwrite_swap k i a b found h.0.0)
    ∙ ap (λ (x : EntangledBlock). latest k i (overwrite k i x (overwrite k i b found)) l) e
    ∙ ap (λ (x : EntangledBlock). latest k i (overwrite k i b' (overwrite k i x found)) l) f
latest-Permᴰ k i found (Permᴰ.trans p q) h =
    latest-Permᴰ k i found p h ∙ latest-Permᴰ k i found q (Permᴰ-AreApart p h)

get_elem?-replicate {ℓ} :
    {A : Type ℓ} (n i : ℕ) (a : A) → i < n → get_elem? (replicate n a) i ≡ some a
get_elem?-replicate zero i a h = elim h [ ]
get_elem?-replicate (suc n) zero a h = refl
get_elem?-replicate (suc n) (suc i) a h = get_elem?-replicate n i a (omega arith)

no_blocks_slot : (alpha n k i : ℕ) → k < alpha → i < n → read_slot (no_blocks alpha n) k i ≡ some []
no_blocks_slot alpha n k i low low' =
    let row : List Bytes = replicate n [] in
    rw (get_elem?-replicate alpha k row low) (get_elem?-replicate n i [] low')

no_blocks-HasShape : (alpha n : ℕ) → HasShape alpha n (no_blocks alpha n)
no_blocks-HasShape alpha n k low =
    let row : List Bytes = replicate n [] in
    (row, get_elem?-replicate alpha k row low, length-replicate n [])

table_slots :
    (alpha n : ℕ) (table : List (List Bytes)) (sent arrived : List EntangledBlock)
    → AreApart sent
    → Permᴰ sent arrived
    → ((k i : ℕ) → read_slot table k i ≡ latest k i (read_slot (no_blocks alpha n) k i) arrived)
    → (k i : ℕ) → k < alpha
    → i < n
    → read_slot table k i ≡ latest k i (some []) sent
table_slots alpha n table sent arrived apart moved reads k i low low' =
    reads k i
    ∙ ap (λ (x : Option Bytes). latest k i x arrived) (no_blocks_slot alpha n k i low low')
    ∙ sym (latest-Permᴰ k i (some []) moved apart)

latest-untouched :
    (k i : ℕ) (found : Option Bytes) (bs : List EntangledBlock)
    → Each (λ b. goes_to k i b ≡ false) bs
    → latest k i found bs ≡ found
latest-untouched k i found [] h = refl
latest-untouched k i found (b ∷ bs) h = rw (h.0) (latest-untouched k i found bs h.1)

goes_home : (b : EntangledBlock) → goes_to b.strand (place_of b) b ≡ true
goes_home b = ground arith

latest-Each :
    (found : EntangledBlock → Option Bytes) (bs : List EntangledBlock)
    → AreApart bs
    → Each (λ b. latest b.strand (place_of b) (found b) bs ≡ some b.chunk) bs
latest-Each found [] h = tt
latest-Each found (b ∷ bs) h = (
  rw (goes_home b) (latest-untouched b.strand (place_of b) (some b.chunk) bs h.0),
  latest-Each (λ c. overwrite c.strand (place_of c) b (found c)) bs h.1,
)

Each-both :
    (P Q R : EntangledBlock → Type 0) (bs : List EntangledBlock)
    → ((b : EntangledBlock) → P b → Q b → R b)
    → Each P bs
    → Each Q bs
    → Each R bs
Each-both P Q R [] both p q = tt
Each-both P Q R (b ∷ bs) both p q = (both b p.0 q.0, Each-both P Q R bs both p.1 q.1)

-- When the blocks that come out of parityChan all have a place in the table and no two of them the same
-- one, then in whatever order their goroutines run, the table is made without a panic, each block's
-- data is in its place, and a place that no block goes to stays empty.
pub store_blocks_right :
    (alpha n : ℕ) (sent arrived : List EntangledBlock)
    → Each (Fits alpha n) sent
    → AreApart sent
    → Permᴰ sent arrived
    → (table : List (List Bytes)) × (store_blocks arrived (no_blocks alpha n) ≡ some table)
      × Each (λ b. read_slot table b.strand (place_of b) ≡ some b.chunk) sent
      × ((k i : ℕ)
          → k < alpha
          → i < n
          → Each (λ b. goes_to k i b ≡ false) sent
          → read_slot table k i ≡ some [])
store_blocks_right alpha n sent arrived fit apart moved =
    let rows : HasShape alpha n (no_blocks alpha n) = no_blocks-HasShape alpha n in
    let (table, e, shape, reads) =
      store_blocks_lem alpha n arrived (no_blocks alpha n) (Permᴰ-Each _ moved fit) rows in
    let slots = table_slots alpha n table sent arrived apart moved reads in
    (
      table,
      e,
      Each-both (Fits alpha n) _ _ sent
          (λ b inside last. slots b.strand (place_of b) inside.0 inside.2 ∙ last) fit
          (latest-Each (λ b. some []) sent apart),
      λ k i low low' none_goes. slots k i low low' ∙ latest-untouched k i (some []) sent none_goes,
    )
