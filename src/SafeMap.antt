-- ===== src/SafeMap.antt =====
-- The map from lattice indexes to CIDs of util/safestruct.go. Each method holds the lock from its
-- first to its last line. A CID is a number, and a map is a list of its entries in some order.
pub mod Laws
mod Tests
use ipfs_reliability.Prelude.{ℕ, List, [], ◌∷◌, Option, lookup, put}

abbrev pub Cid : Type 0
Cid = ℕ

pub record SafeMap : Type 0 where
  pub unsafe_map : List (ℕ × Cid)

unfoldable pub new_safe_map : SafeMap
new_safe_map = record { unsafe_map = [] }

unfoldable pub add : ℕ → Cid → SafeMap → SafeMap
add key val m = record { unsafe_map = put key val m.unsafe_map }

unfoldable pub add_reverse_map : List (Cid × ℕ) → SafeMap → SafeMap
unfolding add
add_reverse_map [] m = m
add_reverse_map ((cid, index) ∷ rest) m = add_reverse_map rest (add index cid m)

unfoldable pub get : ℕ → SafeMap → Option Cid
get key m = lookup key m.unsafe_map

-- The loop of GetAll, which copies the entries into a new map.
unfoldable pub copy_entries : List (ℕ × Cid) → List (ℕ × Cid) → List (ℕ × Cid)
copy_entries [] mymap = mymap
copy_entries ((key, value) ∷ rest) mymap = copy_entries rest (put key value mymap)

unfoldable pub get_all : SafeMap → List (ℕ × Cid)
unfolding copy_entries
get_all m = copy_entries m.unsafe_map []
