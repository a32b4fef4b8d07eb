-- ===== src/SafeMap/Tests.antt =====
-- A run of AddReverseMap.
use ipfs_reliability.Prelude.{◌≡◌, refl, [], ◌∷◌, some, lookup, put}
use ipfs_reliability.SafeMap.{new_safe_map, add_reverse_map, get}

reverse_test : get 4 (add_reverse_map ((70, 3) ∷ (71, 4) ∷ []) new_safe_map) ≡ some 71
unfolding add_reverse_map get new_safe_map lookup put
reverse_test = refl
