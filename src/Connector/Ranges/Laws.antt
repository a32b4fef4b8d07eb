-- ===== src/Connector/Ranges/Laws.antt =====
-- The byte ranges of a parity block hold its bytes.
use ipfs_reliability.Prelude.{
  ℕ, zero, suc, ◌+◌, ◌*◌, ◌-◌, ◌/◌, ◌%◌, ◌≡◌, ◌≤◌, ◌<◌, refl, sym, ◌∙◌, ap, arith, List, [], ◌∷◌,
  ◌++◌, some, inl, inr,
}
use ipfs_reliability.Prelude.{
  length, take, drop, slice, slice-slice, take_congr, slice-append-slice, length-take, length-drop,
  leb, Bool-cases, ==_iff, ◌==◌, true,
}
use native.Mathlib.Nat.{
  suc-mul, mul-le-mul_right, div-add-mod', mod-lt, div-mul-le_self, add-mul, le_refl,
}
use native.Mathlib.Nat.{le-div_iff_mul-le}
use ipfs_reliability.Connector.Ranges.{
  Range, full_blocks, calculate_new_blocks, read_range, read_ranges,
}

-- The blocks of `size` bytes of a file.
abbrev pub file_block : ℕ → List ℕ → ℕ → List ℕ
file_block size bytes b = take size (drop (b * size) bytes)

slice_congr :
    {lo lo' hi hi' : ℕ} (bytes : List ℕ)
    → lo ≡ lo'
    → hi ≡ hi'
    → slice lo hi bytes ≡ slice lo' hi' bytes
slice_congr bytes a b = cc

module _ (size : ℕ) (bytes : List ℕ) where
  read_range-file_block :
      (b lo hi : ℕ)
      → lo ≤ hi
      → hi ≤ size
      → b * size + hi ≤ length bytes
      → read_range record { block = b; lo = lo; hi = hi } (file_block size bytes b)
        ≡ some (slice (b * size + lo) (b * size + hi) bytes)
  unfolding read_range
  read_range-file_block b lo hi a c room =
      let len = length-take size (drop (b * size) bytes) in
      let len' = length-drop (b * size) bytes in
      let fits : leb hi (length (file_block size bytes b)) ≡ true = ground arith in
      rw (fits, slice-slice lo hi (b * size) size bytes a c) refl

  read_ranges-range :
      (b lo hi stop : ℕ) (rest : List Range)
      → lo ≤ hi
      → hi ≤ size
      → b * size + hi ≤ stop
      → stop ≤ length bytes
      → read_ranges (file_block size bytes) rest ≡ some (slice (b * size + hi) stop bytes)
      → read_ranges (file_block size bytes) (record { block = b; lo = lo; hi = hi } ∷ rest)
        ≡ some (slice (b * size + lo) stop bytes)
  unfolding read_ranges
  read_ranges-range b lo hi stop rest a c d room after =
      let first = read_range-file_block b lo hi a c (omega arith) in
      rw (first, after)
        (ap some (slice-append-slice (b * size + lo) (b * size + hi) stop bytes (omega arith) d))

  read_ranges-full_blocks :
      (n b mid stop : ℕ) (rest : List Range)
      → b * size + n * size ≡ mid
      → mid ≤ stop
      → stop ≤ length bytes
      → read_ranges (file_block size bytes) rest ≡ some (slice mid stop bytes)
      → read_ranges (file_block size bytes) (full_blocks n b size ++ rest)
        ≡ some (slice (b * size) stop bytes)
  unfolding full_blocks
  read_ranges-full_blocks zero b mid stop rest e h room after =
      after ∙ ap some (slice_congr {hi = stop} bytes (omega arith) refl)
  read_ranges-full_blocks (suc n) b mid stop rest e h room after =
      let more =
        read_ranges-full_blocks n (suc b) mid stop rest
          (omega (arith, suc-mul b size, suc-mul n size)) h room after in
      read_ranges-range b 0 size stop (full_blocks n (suc b) size ++ rest) (omega arith)
        (omega arith) (omega (arith, suc-mul b size, suc-mul n size)) room
        (more ∙ ap some (slice_congr {hi = stop} bytes (omega (arith, suc-mul b size)) refl))
      ∙ ap some (slice_congr {hi = stop} bytes (omega arith) refl)

  slice_empty : (n : ℕ) → slice n n bytes ≡ []
  slice_empty n = take_congr {n = n - n} {m = 0} (drop n bytes) (omega arith)

  read_ranges-last :
      (b lo hi stop : ℕ)
      → lo ≤ hi
      → hi ≤ size
      → b * size + hi ≡ stop
      → stop ≤ length bytes
      → read_ranges (file_block size bytes) (record { block = b; lo = lo; hi = hi } ∷ [])
        ≡ some (slice (b * size + lo) stop bytes)
  unfolding read_ranges
  read_ranges-last b lo hi stop a c e room =
      read_ranges-range b lo hi stop [] a c (omega arith) room
        (ap some (sym (slice_empty stop) ∙ slice_congr {hi = stop} bytes (sym e) refl))

  -- With a first byte and a last one, in blocks b and c.
  read_ranges-single :
      (b c lo z first last : ℕ)
      → b ≡ c
      → b * size + lo ≡ first
      → c * size + z ≡ last
      → z < size
      → first ≤ last
      → last < length bytes
      → read_ranges (file_block size bytes) (record { block = b; lo = lo; hi = z + 1 } ∷ [])
        ≡ some (slice first (suc last) bytes)
  read_ranges-single b c lo z first last same e e' z_lt le room =
      let same' : b * size ≡ c * size = ap (λ (k : ℕ). k * size) same in
      read_ranges-last b lo (z + 1) (suc last) (omega arith) (omega arith) (omega arith) room
      ∙ ap some (slice_congr {hi = suc last} bytes e refl)

  read_ranges-many :
      (b c lo z first last : ℕ)
      → b < c
      → b * size + lo ≡ first
      → c * size + z ≡ last
      → lo < size
      → z < size
      → last < length bytes
      → read_ranges (file_block size bytes) (
          record { block = b; lo = lo; hi = size } ∷ full_blocks (c - suc b) (suc b) size
          ++ record { block = c; lo = 0; hi = z + 1 } ∷ [])
        ≡ some (slice first (suc last) bytes)
  read_ranges-many b c lo z first last lt e e' lo_lt z_lt room =
      let next = suc-mul b size in
      let fits : suc b * size ≤ c * size = mul-le-mul_right size lt in
      let lo_le : lo ≤ size = omega arith in
      let below : b * size + size ≤ suc last = omega arith in
      let before : c * size ≤ suc last = omega arith in
      let middle : suc b * size + (c - suc b) * size ≡ c * size =
        sym (add-mul (suc b) (c - suc b) size) ∙ ap (λ (k : ℕ). k * size) (omega arith) in
      let end =
        read_ranges-last c 0 (z + 1) (suc last) (omega arith) (omega arith) (omega arith) room
        ∙ ap some (
            slice_congr {lo = c * size + 0} {lo' = c * size} {hi = suc last} bytes (omega arith)
              refl) in
      let full =
        read_ranges-full_blocks (c - suc b) (suc b) (c * size) (suc last)
          (record { block = c; lo = 0; hi = z + 1 } ∷ []) middle before room end in
      read_ranges-range b lo size (suc last)
        (full_blocks (c - suc b) (suc b) size ++ record { block = c; lo = 0; hi = z + 1 } ∷ [])
        lo_le (le_refl size) below room
        (full
          ∙ ap some (
              slice_congr {lo = suc b * size} {lo' = b * size + size} {hi = suc last} bytes next
                refl))
      ∙ ap some (slice_congr {hi = suc last} bytes e refl)

-- For positive sizes, when the file that is cut into the new blocks has all bytes of the original
-- block `index`: the ranges of calculateNewBlocks, read one after the other from the new blocks,
-- give exactly the bytes of that original block, and no range is outside its block.
pub read_ranges-calculate_new_blocks :
    (size original index : ℕ) (bytes : List ℕ)
    → 0 < size
    → 0 < original
    → index * original + original ≤ length bytes
    → read_ranges (file_block size bytes) (calculate_new_blocks original size index)
      ≡ some (file_block original bytes index)
unfolding calculate_new_blocks
read_ranges-calculate_new_blocks size original index bytes a c room =
    let first = index * original in
    let last = first + original - 1 in
    let first_eq = div-add-mod' first size in
    let last_eq = div-add-mod' last size in
    let first_lt = mod-lt first a in
    let last_lt = mod-lt last a in
    let le : first / size ≤ last / size =
      (le-div_iff_mul-le a).1 (omega (arith, div-mul-le_self first size)) in
    let whole : slice first (suc last) bytes ≡ file_block original bytes index =
      ap (λ (k : ℕ). take k (drop first bytes)) (omega arith) in
    elim (Bool-cases (first / size == last / size)) [
      | inl same ↦ rw (same) (
          read_ranges-single size bytes (first / size) (last / size) (first % size) (last % size)
            first last ((==_iff (first / size) (last / size)).0 same) first_eq last_eq last_lt
            (omega arith) (omega arith)
          ∙ ap some whole)
      | inr apart ↦
          let lt : first / size < last / size = ground arith in
          rw (apart) (
            read_ranges-many size bytes (first / size) (last / size) (first % size) (last % size)
              first last lt first_eq last_eq first_lt last_lt (omega arith)
            ∙ ap some whole)
    ]
