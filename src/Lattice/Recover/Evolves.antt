-- ===== src/Lattice/Recover/Evolves.antt =====
-- What a recovery may do to the blocks of a lattice.
use ipfs_reliability.Prelude.{
  ℕ, ◌≡◌, refl, ◌∙◌, arith, ◌⊎◌, Bool, true, false, List, Option, none, some,
}
use ipfs_reliability.Prelude.{◌==◌, length, get_elem?, set, length-set, get_elem?-set, ◌>>=◌}
use ipfs_reliability.Block.{Cell, get_data, is_repair_pending}

-- Whether some request is busy with the block at an address, and which one.
abbrev pub pending_of : Option Cell → Bool
pending_of none = false
pending_of (some b) = is_repair_pending b.status

abbrev pub request_of : Option Cell → ℕ
request_of none = 0
request_of (some b) = b.curr_request

abbrev pub pending_at : List Cell → ℕ → Bool
pending_at cells q = pending_of (get_elem? cells q)

abbrev pub request_at : List Cell → ℕ → ℕ
request_at cells q = request_of (get_elem? cells q)

-- The data that GetData returns for the block at an address.
abbrev pub available_at : List Cell → ℕ → Option (List ℕ)
available_at cells q = get_elem? cells q >>= get_data

-- Every block that has data has the data that `truth` gives for it.
abbrev pub IsTrue : (ℕ → List ℕ) → List Cell → Type 0
IsTrue truth cells = (q : ℕ) (v : List ℕ) → available_at cells q ≡ some v → v ≡ truth q

-- From `cells` to `cells'`: blocks that are not `free` stay with the request that is busy with them,
-- no data is lost, and true data stays true.
pub record Evolves (truth : ℕ → List ℕ) (free : ℕ → Bool) (cells cells' : List Cell) : Type 0 where
  pub size : length cells' ≡ length cells
  pub pending : (q : ℕ) → free q ≡ false → pending_at cells' q ≡ pending_at cells q
  pub request :
      (q : ℕ)
      → free q ≡ false
      → pending_at cells q ≡ true
      → request_at cells' q ≡ request_at cells q
  pub kept : (q : ℕ) (v : List ℕ) → available_at cells q ≡ some v → available_at cells' q ≡ some v
  pub sound : IsTrue truth cells → IsTrue truth cells'

abbrev pub nothing : ℕ → Bool
nothing q = false

abbrev pub only : ℕ → ℕ → Bool
only x q = x == q

module _ (truth : ℕ → List ℕ) (free : ℕ → Bool) where
  pub Evolves-refl : (cells : List Cell) → Evolves truth free cells cells
  Evolves-refl cells = record {
    size = refl;
    pending = λ q h. refl;
    request = λ q h p. refl;
    kept = λ q v h. h;
    sound = λ h. h;
  }

  pub Evolves-trans :
      {a b c : List Cell} → Evolves truth free a b → Evolves truth free b c → Evolves truth free a c
  Evolves-trans h k = record {
    size = k.size ∙ h.size;
    pending = λ q f. k.pending q f ∙ h.pending q f;
    request = λ q f p. k.request q f (h.pending q f ∙ p) ∙ h.request q f p;
    kept = λ q v e. k.kept q v (h.kept q v e);
    sound = λ t. k.sound (h.sound t);
  }

  pub Evolves-weaken : {a b : List Cell} → Evolves truth nothing a b → Evolves truth free a b
  Evolves-weaken h = record {
    size = h.size;
    pending = λ q f. h.pending q refl;
    request = λ q f p. h.request q refl p;
    kept = h.kept;
    sound = h.sound;
  }

-- A write to the block at x that keeps its data, and that adds only true data.
pub Evolves-set :
    (truth : ℕ → List ℕ) (cells : List Cell) (x : ℕ) (b b' : Cell)
    → get_elem? cells x ≡ some b
    → ((v : List ℕ) → get_data b ≡ some v → get_data b' ≡ some v)
    → ((v : List ℕ) → get_data b' ≡ some v → (get_data b ≡ some v) ⊎ (v ≡ truth x))
    → Evolves truth (only x) cells (set cells x b')
Evolves-set truth cells x b b' at_x keeps adds = record {
  size = length-set cells x b';
  pending = λ q f. rw (get_elem?-set cells x q b' b at_x, f) refl;
  request = λ q f p. rw (get_elem?-set cells x q b' b at_x, f) refl;
  kept = λ q v h. ground (arith, get_elem?-set cells x q b' b at_x, keeps v);
  sound = λ t q v h. ground (arith, get_elem?-set cells x q b' b at_x, adds v, t q v);
}

-- Between two moments at which no request is busy with the block at x, it need not count as free.
pub Evolves-close :
    (truth : ℕ → List ℕ) (x : ℕ) (a c : List Cell)
    → Evolves truth (only x) a c
    → pending_at a x ≡ false
    → pending_at c x ≡ false
    → Evolves truth nothing a c
Evolves-close truth x a c h before after = record {
  size = h.size;
  pending = λ q _. ground (arith, h.pending q);
  request = λ q _ p. ground (arith, h.request q);
  kept = h.kept;
  sound = h.sound;
}
