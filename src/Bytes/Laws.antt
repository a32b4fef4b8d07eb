-- ===== src/Bytes/Laws.antt =====
-- What the XOR of chunks of different lengths means, and that it undoes itself.
use ipfs_reliability.Prelude.{
  ℕ, suc, ◌-◌, ◌≡◌, refl, max, Bool-cases, ltb, ltb→lt, inl, inr, List, [], ◌∷◌, ◌++◌, arith,
}
use ipfs_reliability.Prelude.{length, replicate, bit_xor}
use mathlib.Core.List.{append-nil}
use ipfs_reliability.Bytes.{padding_data, xor_bytes, xor_chunk_data}
use ipfs_reliability.Bytes.Xor.{
  bit_xor_comm, bit_xor_self, bit_xor_cancel, zero-bit_xor, bit_xor-zero,
}

-- The byte-wise XOR in which the longer chunk keeps its tail.
unfoldable pub overlay : List ℕ → List ℕ → List ℕ
overlay [] ys = ys
overlay xs [] = xs
overlay (x ∷ xs) (y ∷ ys) = bit_xor x y ∷ overlay xs ys

-- A chunk with n zero bytes behind it.
abbrev pub zeros_after : List ℕ → ℕ → List ℕ
zeros_after xs n = xs ++ replicate n 0

xor_bytes-zeros : (ys : List ℕ) → xor_bytes (replicate (length ys) 0) ys ≡ ys
unfolding xor_bytes
xor_bytes-zeros [] = refl
xor_bytes-zeros (y ∷ ys) = rw (zero-bit_xor y, xor_bytes-zeros ys)

zeros-xor_bytes : (xs : List ℕ) → xor_bytes xs (replicate (length xs) 0) ≡ xs
unfolding xor_bytes
zeros-xor_bytes [] = refl
zeros-xor_bytes (x ∷ xs) = rw (bit_xor-zero x, zeros-xor_bytes xs)

xor_bytes-padded :
    (xs ys : List ℕ)
    → xor_bytes (zeros_after xs (length ys - length xs)) (zeros_after ys (length xs - length ys))
      ≡ overlay xs ys
unfolding xor_bytes overlay
xor_bytes-padded [] [] = refl
xor_bytes-padded [] (y ∷ ys) =
    let whole : suc (length ys) - 0 ≡ suc (length ys) = omega arith in
    let nothing : 0 - suc (length ys) ≡ 0 = omega arith in
    rw (whole, nothing, append-nil ys) (xor_bytes-zeros (y ∷ ys))
xor_bytes-padded (x ∷ xs) [] =
    let whole : suc (length xs) - 0 ≡ suc (length xs) = omega arith in
    let nothing : 0 - suc (length xs) ≡ 0 = omega arith in
    rw (whole, nothing, append-nil xs) (zeros-xor_bytes (x ∷ xs))
xor_bytes-padded (x ∷ xs) (y ∷ ys) =
    let left : suc (length ys) - suc (length xs) ≡ length ys - length xs = omega arith in
    let right : suc (length xs) - suc (length ys) ≡ length xs - length ys = omega arith in
    rw (left, right, xor_bytes-padded xs ys)

padding_data_lem :
    (xs ys : List ℕ)
    → ((padding_data xs ys).0 ≡ zeros_after xs (length ys - length xs))
      × ((padding_data xs ys).1 ≡ zeros_after ys (length xs - length ys))
unfolding padding_data
padding_data_lem xs ys = elim (Bool-cases (ltb (length ys) (length xs))) [
  | inl longer ↦
      let nothing : length ys - length xs ≡ 0 = omega (arith, ltb→lt _ _ longer) in
      rw (longer, nothing, append-nil xs) (refl, refl)
  | inr _ ↦ ground (arith, append-nil xs, append-nil ys)
]

-- xorChunkData, with its copies and its padding, is the byte-wise XOR in which the longer chunk keeps its tail.
pub xor_chunk_data-eq-overlay : (xs ys : List ℕ) → xor_chunk_data xs ys ≡ overlay xs ys
unfolding xor_chunk_data overlay
xor_chunk_data-eq-overlay [] ys = refl
xor_chunk_data-eq-overlay (x ∷ xs) [] = refl
xor_chunk_data-eq-overlay (x ∷ xs) (y ∷ ys) =
    let padded = padding_data_lem (x ∷ xs) (y ∷ ys) in
    rw (padded.0, padded.1) (xor_bytes-padded (x ∷ xs) (y ∷ ys))

overlay_comm : (xs ys : List ℕ) → overlay xs ys ≡ overlay ys xs
unfolding overlay
overlay_comm [] [] = refl
overlay_comm [] (y ∷ ys) = refl
overlay_comm (x ∷ xs) [] = refl
overlay_comm (x ∷ xs) (y ∷ ys) = rw (bit_xor_comm x y, overlay_comm xs ys)

overlay_self : (xs : List ℕ) → overlay xs xs ≡ replicate (length xs) 0
unfolding overlay
overlay_self [] = refl
overlay_self (x ∷ xs) = rw (bit_xor_self x, overlay_self xs)

overlay_cancel :
    (xs ys : List ℕ) → overlay (overlay xs ys) ys ≡ zeros_after xs (length ys - length xs)
unfolding overlay
overlay_cancel [] ys =
    let whole : length ys - 0 ≡ length ys = omega arith in rw whole (overlay_self ys)
overlay_cancel (x ∷ xs) [] =
    let nothing : 0 - suc (length xs) ≡ 0 = omega arith in rw (nothing, append-nil xs)
overlay_cancel (x ∷ xs) (y ∷ ys) =
    let less : suc (length ys) - suc (length xs) ≡ length ys - length xs = omega arith in
    rw (less, bit_xor_cancel x y, overlay_cancel xs ys)

length-overlay : (xs ys : List ℕ) → length (overlay xs ys) ≡ max (length xs) (length ys)
unfolding overlay
length-overlay [] ys = omega arith
length-overlay (x ∷ xs) [] = omega arith
length-overlay (x ∷ xs) (y ∷ ys) = omega (arith, length-overlay xs ys)

-- The order of the two chunks does not matter.
xor_chunk_data_comm : (xs ys : List ℕ) → xor_chunk_data xs ys ≡ xor_chunk_data ys xs
xor_chunk_data_comm xs ys =
    rw (xor_chunk_data-eq-overlay xs ys, xor_chunk_data-eq-overlay ys xs) (overlay_comm xs ys)

-- The XOR of a chunk with itself is a chunk of zeros.
pub xor_chunk_data_self : (xs : List ℕ) → xor_chunk_data xs xs ≡ replicate (length xs) 0
xor_chunk_data_self xs = rw (xor_chunk_data-eq-overlay xs xs) (overlay_self xs)

-- XOR with the same chunk a second time gives the first chunk back, with zero bytes behind it
-- where the second chunk is the longer one.
pub xor_chunk_data_cancel :
    (xs ys : List ℕ)
    → xor_chunk_data (xor_chunk_data xs ys) ys ≡ zeros_after xs (length ys - length xs)
xor_chunk_data_cancel xs ys =
    rw (xor_chunk_data-eq-overlay xs ys, xor_chunk_data-eq-overlay (overlay xs ys) ys)
      (overlay_cancel xs ys)

-- The result is as long as the longer chunk.
pub length-xor_chunk_data :
    (xs ys : List ℕ) → length (xor_chunk_data xs ys) ≡ max (length xs) (length ys)
length-xor_chunk_data xs ys = rw (xor_chunk_data-eq-overlay xs ys) (length-overlay xs ys)
