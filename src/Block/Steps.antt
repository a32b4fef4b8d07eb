-- ===== src/Block/Steps.antt =====
-- A block under any sequence of calls of its methods, by any requests.
use ipfs_reliability.Prelude.{ℕ, ◌≡◌, ◌≢◌, Bool, false, List, some, arith}
use ipfs_reliability.Block.{
  Cell, started, refused, waits, start_repair, finish_repair, set_data, recover, get_data,
}

-- The calls that can change a block.
pub data Step : Cell → Cell → Type 0 where
  start : (rid : ℕ) (b c : Cell) → start_repair false rid b ≡ started c → Step b c
  finish : (success : Bool) (b : Cell) → Step b (finish_repair success b)
  download :
      (new_data : List ℕ) (is_recover : Bool) (b : Cell) → Step b (set_data new_data is_recover b)
  rebuild : (v w : List ℕ) (b c : Cell) → recover v w b ≡ some c → Step b c

pub data Steps (b : Cell) : Cell → Type 0 where
  here : Steps b b
  next : {c d : Cell} → Steps b c → Step c d → Steps b d

Step-keeps_data : {b c : Cell} → Step b c → (v : List ℕ) → get_data b ≡ some v → get_data c ≡ some v
unfolding get_data start_repair finish_repair set_data recover
Step-keeps_data (start rid b c e) v h = ground arith
Step-keeps_data (finish success b) v h = ground arith
Step-keeps_data (download new_data is_recover b) v h = ground arith
Step-keeps_data (rebuild x y b c e) v h = ground arith

-- Once a block has data, no sequence of calls changes or removes it.
pub Steps-keep_data :
    {b c : Cell} → Steps b c → (v : List ℕ) → get_data b ≡ some v → get_data c ≡ some v
Steps-keep_data here v h = h
Steps-keep_data (next path step) v h = Step-keeps_data step v (Steps-keep_data path v h)

-- A block that one request repairs is not handed to a second one: until FinishRepair, SetData or
-- Recover, another request has to wait and the same request is refused.
pub start_repair_excludes :
    (rid other : ℕ) (b c : Cell)
    → start_repair false rid b ≡ started c
    → (start_repair false rid c ≡ refused) × (rid ≢ other → start_repair false other c ≡ waits)
unfolding start_repair
start_repair_excludes rid other b c h = ground arith
