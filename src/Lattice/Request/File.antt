-- ===== src/Lattice/Request/File.antt =====
-- The download of a whole file through a lattice.
use ipfs_reliability.Prelude.{
  ℕ, zero, suc, ◌+◌, ◌≡◌, ◌≤◌, ◌<◌, refl, ◌∙◌, arith, ap, subst, Bool, true, false, List, [], ◌∷◌,
  Option, none, some,
}
use ipfs_reliability.Prelude.{length, get_elem?, get_elem?-of_lt, -ℤ_one}
use ipfs_reliability.Block.{is_repaired}
use ipfs_reliability.Lattice.{Node, Lattice}
use ipfs_reliability.Lattice.Recover.{BlockPair, BlockGetter, get_recover_pairs, fetch}
use ipfs_reliability.Lattice.Recover.Evolves.{IsTrue, pending_at}
use ipfs_reliability.Lattice.Recover.Sound.{PairsMake, get_data_from_block_sound}
use ipfs_reliability.Lattice.Recover.Total.{AreBelow, Ready, get_data_from_block_returns}
use ipfs_reliability.Lattice.Request.{
  Answer, request, get_block, get_chunk, append_chunk, get_chunks_from, get_all_data,
  next_request_id,
}

-- Between two requests: no block is in repair, and the data that is there is true.
pub record IsQuiet (nodes : List Node) (truth : ℕ → List ℕ) (l : Lattice) : Type 0 where
  pub same_nodes : l.nodes ≡ nodes
  pub size : length l.cells ≡ length nodes
  pub idle : (q : ℕ) → pending_at l.cells q ≡ false
  pub sound : IsTrue truth l.cells
  pub data_below : (i ptr : ℕ) → get_elem? l.data_blocks i ≡ some ptr → ptr < length nodes

-- The list of chunks is that of the data blocks from number i on.
abbrev pub AreChunks : (ℕ → List ℕ) → List ℕ → ℕ → List (List ℕ) → Type 0
AreChunks truth data_blocks i [] = Unit {0}
AreChunks truth data_blocks i (chunk ∷ rest) =
    ((ptr : ℕ) × (get_elem? data_blocks i ≡ some ptr) × (chunk ≡ truth ptr))
    × AreChunks truth data_blocks (suc i) rest

module _ (getter : BlockGetter) (nodes : List Node) (truth : ℕ → List ℕ)
    (honest : (ptr : ℕ) (node : Node) (v : List ℕ)
      → get_elem? nodes ptr ≡ some node
      → fetch getter node ≡ some v
      → v ≡ truth ptr)
    (entangled : (ptr : ℕ) (pairs : List BlockPair)
      → get_recover_pairs nodes ptr ≡ some pairs
      → PairsMake truth ptr pairs)
    (linked : (ptr : ℕ)
      → ptr < length nodes
      → (pairs : List BlockPair) × (get_recover_pairs nodes ptr ≡ some pairs)
        × AreBelow (length nodes) pairs) where
  -- What a request gives.
  record IsAnswer (ptr : ℕ) (l l' : Lattice) (answer : Answer) : Type 0 where
    quiet : IsQuiet nodes truth l'
    same_blocks : l'.data_blocks ≡ l.data_blocks
    same_num : l'.chunk_num ≡ l.chunk_num
    right : (v : List ℕ) → answer.data_of ≡ some v → v ≡ truth ptr

  request_answers :
      (depth ptr : ℕ) (l : Lattice)
      → ptr < length nodes
      → IsQuiet nodes truth l
      → (done : Lattice × Answer) × (request getter depth ptr l ≡ some done)
        × IsAnswer ptr l done.0 done.1
  unfolding request next_request_id
  request_answers depth ptr l below q =
      let ready : Ready (length nodes) l.request_counter l.cells = record {
        size = q.size;
        mine = λ x p. ground (arith, q.idle x);
      } in
      let (done, e, h) =
        get_data_from_block_returns getter nodes linked depth l.request_counter ptr l.cells below
          ready in
      let (step, right) =
        get_data_from_block_sound getter nodes truth honest entangled depth l.request_counter ptr
          l.cells done q.sound e in
      let (b, at_ptr) = get_elem?-of_lt done.0 ptr (omega (arith, h.size)) in
      (
        (
          record (next_request_id l) { cells = done.0 },
          record { data_of = done.1; repaired = is_repaired b },
        ),
        rw (q.same_nodes, e, at_ptr) refl,
        record {
          quiet = record {
            same_nodes = q.same_nodes;
            size = h.size;
            idle = λ x. step.pending x refl ∙ q.idle x;
            sound = step.sound q.sound;
            data_below = q.data_below;
          };
          same_blocks = refl;
          same_num = refl;
          right = right;
        },
      )

  -- What is left of GetAllData gives.
  record IsFile (i n : ℕ) (l l' : Lattice) (chunks : List (List ℕ)) (ok : Bool) : Type 0 where
    quiet : IsQuiet nodes truth l'
    true_chunks : AreChunks truth l.data_blocks i chunks
    complete : ok ≡ true → length chunks ≡ n

  get_chunk_answers :
      (i : ℕ) (l : Lattice)
      → i < length l.data_blocks
      → IsQuiet nodes truth l
      → (ptr : ℕ) × (get_elem? l.data_blocks i ≡ some ptr)
        × (done : Lattice × Answer) × (get_chunk getter (suc i) l ≡ some done)
        × IsAnswer ptr l done.0 done.1
  unfolding get_chunk get_block
  get_chunk_answers i l below q =
      let (ptr, at_i) = get_elem?-of_lt l.data_blocks i below in
      let (done, e, h) = request_answers l.switch_depth ptr l (q.data_below i ptr at_i) q in
      (ptr, at_i, done, rw (-ℤ_one i, at_i) e, h)

  append_chunk_answers :
      (i n ptr : ℕ) (l l' : Lattice) (o : Option (List ℕ))
      (go_on : Lattice → Option (Lattice × List (List ℕ) × Bool))
      → get_elem? l.data_blocks i ≡ some ptr
      → l'.data_blocks ≡ l.data_blocks
      → IsQuiet nodes truth l'
      → ((v : List ℕ) → o ≡ some v → v ≡ truth ptr)
      → (r : Lattice × List (List ℕ) × Bool) × (go_on l' ≡ some r) × IsFile (suc i) n l' r.0 r.1 r.2
      → (r : Lattice × List (List ℕ) × Bool) × (append_chunk o go_on l' ≡ some r)
        × IsFile i (suc n) l r.0 r.1 r.2
  unfolding append_chunk
  append_chunk_answers i n ptr l l' none go_on at_i same q right rest =
      ((l', [], false), refl, record { quiet = q; true_chunks = tt; complete = λ e. cc })
  append_chunk_answers i n ptr l l' (some v) go_on at_i same q right (r, e, h) = (
    (r.0, v ∷ r.1, r.2),
    rw e refl,
    record {
      quiet = h.quiet;
      true_chunks = (
        (ptr, at_i, right v refl),
        subst (λ (d : List ℕ). AreChunks truth d (suc i) r.1) same h.true_chunks,
      );
      complete = λ ok. ap suc (h.complete ok);
    },
  )

  get_chunks_from_answers :
      (n i : ℕ) (l : Lattice)
      → i + n ≤ length l.data_blocks
      → IsQuiet nodes truth l
      → (r : Lattice × List (List ℕ) × Bool) × (get_chunks_from getter n i l ≡ some r)
        × IsFile i n l r.0 r.1 r.2
  unfolding get_chunks_from
  get_chunks_from_answers zero i l below q =
      ((l, [], true), refl, record { quiet = q; true_chunks = tt; complete = λ e. refl })
  get_chunks_from_answers (suc n) i l below q =
      let (ptr, at_i, done, e, h) = get_chunk_answers i l (omega arith) q in
      let rest =
        get_chunks_from_answers n (suc i) done.0 (omega (arith, ap length h.same_blocks)) h.quiet in
      let (r, e', h') =
        append_chunk_answers i n ptr l done.0 done.1.data_of (get_chunks_from getter n (suc i)) at_i
          h.same_blocks h.quiet h.right rest in
      (r, rw e e', h')

  -- With a getter that returns only true data, blocks that are the XOR of the parts of each of their
  -- recover pairs and links that stay within the lattice, between two requests: GetAllData returns,
  -- each chunk of the list that it returns is the true data of the data block with that number, an
  -- error cuts the list but does not make it wrong, and without an error it has all the chunks. After
  -- it no block is in repair and all data that is there is true.
  pub get_all_data_right :
      (l : Lattice)
      → l.chunk_num ≡ length l.data_blocks
      → IsQuiet nodes truth l
      → (r : Lattice × List (List ℕ) × Bool) × (get_all_data getter l ≡ some r)
        × IsQuiet nodes truth r.0
        × AreChunks truth l.data_blocks 0 r.1
        × (r.2 ≡ true → length r.1 ≡ length l.data_blocks)
  unfolding get_all_data
  get_all_data_right l num q =
      let (r, e, h) = get_chunks_from_answers l.chunk_num 0 l (omega (arith, num)) q in
      (r, e, h.quiet, h.true_chunks, λ ok. h.complete ok ∙ num)
