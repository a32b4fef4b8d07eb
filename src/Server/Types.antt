-- ===== src/Server/Types.antt =====
-- Server/types.go, the types of the repairs. A string (a CID, an address) is a number, the empty
-- string is 0; a time is a number, the zero time is 0.
use ipfs_reliability.Prelude.{ℕ, Bool, List, [], Option, some}

abbrev pub Str : Type 0
Str = ℕ

abbrev pub Time : Type 0
Time = ℕ

pub data RepairStatus : Type 0 where
  pending success failure : RepairStatus

-- The counters of a getter, which the types of a repair repeat field by field; a nil slice
-- is `none`.
pub record Metrics : Type 0 where
  pub parity_available : Option (List Bool)
  pub data_blocks_fetched : ℕ
  pub data_blocks_cached : ℕ
  pub data_blocks_unavailable : ℕ
  pub data_blocks_error : ℕ
  pub parity_blocks_fetched : ℕ
  pub parity_blocks_cached : ℕ
  pub parity_blocks_unavailable : ℕ
  pub parity_blocks_error : ℕ

-- The counters of a new entry.
unfoldable pub no_metrics : Metrics
no_metrics = record {
  parity_available = some [];
  data_blocks_fetched = 0;
  data_blocks_cached = 0;
  data_blocks_unavailable = 0;
  data_blocks_error = 0;
  parity_blocks_fetched = 0;
  parity_blocks_cached = 0;
  parity_blocks_unavailable = 0;
  parity_blocks_error = 0;
}

pub record CollabPeerInfo : Type 0 where
  pub name : Str
  pub start_time : Time
  pub end_time : Time
  pub status : RepairStatus
  pub allocated_blocks : List (ℕ × Bool)
  pub metrics : Metrics

pub record CollaborativeRepairData : Type 0 where
  pub file_cid : Str
  pub meta_cid : Str
  pub depth : ℕ
  pub status : RepairStatus
  pub start_time : Time
  pub end_time : Time
  pub peers : List (Str × CollabPeerInfo)
  pub origin : Str
  pub metrics : Metrics

pub record StrandRepairData : Type 0 where
  pub file_cid : Str
  pub meta_cid : Str
  pub strand : ℕ
  pub depth : ℕ
  pub status : RepairStatus
  pub start_time : Time
  pub end_time : Time

pub record CollaborativeRepairOperation : Type 0 where
  pub file_cid : Str
  pub meta_cid : Str
  pub depth : ℕ
  pub origin : Str
  pub num_peers : ℕ

pub record CollaborativeRepairDone : Type 0 where
  pub file_cid : Str
  pub meta_cid : Str
  pub origin : Str
  pub repair_status : Bool

pub record UnitRepairOperationRequest : Type 0 where
  pub file_cid : Str
  pub meta_cid : Str
  pub failed_indices : List ℕ
  pub depth : ℕ
  pub origin : Str

pub record UnitRepairDone : Type 0 where
  pub file_cid : Str
  pub meta_cid : Str
  pub origin : Str
  pub repair_status : List (ℕ × Bool)
  pub metrics : Metrics

pub record StrandRepairOperation : Type 0 where
  pub file_cid : Str
  pub meta_cid : Str
  pub strand : ℕ
  pub depth : ℕ

-- The state of the struct Server that the repairs change, its address, and the answers that it
-- posted to the origins of repairs, the oldest first.
pub record Server : Type 0 where
  pub address : Str
  pub collab_data : List (Str × CollaborativeRepairData)
  pub strand_data : List (Str × StrandRepairData)
  pub answers : List CollaborativeRepairDone
