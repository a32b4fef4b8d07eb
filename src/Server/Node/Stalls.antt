-- ===== src/Server/Node/Stalls.antt =====
-- A strand repair stops the daemon for good.
use ipfs_reliability.Prelude.{
  ◌≡◌, refl, sym, ap, ◌∙◌, arith, ◌<◌, length, Bool, true, false, List, [], ◌∷◌, ◌++◌, lookup,
}
use ipfs_reliability.Server.Types.{Server, StrandRepairOperation}
use ipfs_reliability.Server.Strand.{start_strand_repair, strand_in_repair}
use ipfs_reliability.Server.Node.{
  Request, trigger_strand_repair, Daemon, selecting, awaiting, sending, World, after_strand, run,
  Node, Step, capacity, arrives, receives, takes, puts, daemon_puts, answered, Steps, here, next,
}

abbrev pub is_sending : Daemon → Bool
is_sending (sending op s) = true
is_sending _ = false

-- Nothing is taken from the handlers, the daemon stays where it is, and the buffers are empty.
record IsStalled (n m : Node) : Type 0 where
  same : m.daemon ≡ n.daemon
  queued : (later : List Request) × (m.handlers ≡ n.handlers ++ later)
  empty : m.buffered ≡ []

no_room : (bs : List Request) → ¬ (length bs < capacity)
no_room bs h = omega arith

append_assoc : (xs ys zs : List Request) → (xs ++ ys) ++ zs ≡ xs ++ (ys ++ zs)
append_assoc [] ys zs = refl
append_assoc (x ∷ xs) ys zs = ap (λ (l : List Request). x ∷ l) (append_assoc xs ys zs)

append_nil : (xs : List Request) → xs ++ [] ≡ xs
append_nil [] = refl
append_nil (x ∷ xs) = ap (λ (l : List Request). x ∷ l) (append_nil xs)

stays : {n m k : Node} → is_sending n.daemon ≡ true → IsStalled n m → Step m k → IsStalled n k
stays {n} busy h (arrives d rs bs r) =
    let (later, e) = h.queued in
    record {
      same = h.same;
      queued = (
        later ++ r ∷ [],
        ap (λ (l : List Request). l ++ r ∷ []) e ∙ append_assoc n.handlers later (r ∷ []),
      );
      empty = h.empty;
    }
stays busy h (receives w s before after bs r) =
    let yes_sending : is_sending (selecting s) ≡ true = ap is_sending h.same ∙ busy in cc
stays busy h (takes w s rs bs r) =
    let yes_sending : is_sending (selecting s) ≡ true = ap is_sending h.same ∙ busy in cc
stays busy h (puts d before after bs r room) = absurd (no_room bs room)
stays busy h (daemon_puts op s rs bs room) = absurd (no_room bs room)
stays busy h (answered more w op s rs bs) =
    let yes_sending : is_sending (awaiting w op s) ≡ true = ap is_sending h.same ∙ busy in cc

stalls : {n m : Node} → is_sending n.daemon ≡ true → n.buffered ≡ [] → Steps n m → IsStalled n m
stalls {n} busy none_left here = record {
  same = refl;
  queued = ([], sym (append_nil n.handlers));
  empty = none_left;
}
stalls busy none_left (next path step) = stays busy (stalls busy none_left path) step

starts_sending :
    (w : World) (op : StrandRepairOperation) (s : Server)
    → strand_in_repair (lookup op.file_cid s.strand_data) ≡ false
    → is_sending (run w (trigger_strand_repair op) s) ≡ true
unfolding run start_strand_repair after_strand
starts_sending w op s idle = rw idle refl

-- When the daemon receives a request for a strand repair, for a file of which it repairs no strand, and
-- the buffers are empty:
-- whatever arrives from then on, the daemon never again returns to its select, and no request that
-- waits or arrives is ever received.
pub strand_repair_stalls :
    (w : World) (op : StrandRepairOperation) (s : Server) (waiting : List Request) (m : Node)
    → strand_in_repair (lookup op.file_cid s.strand_data) ≡ false
    → Steps
        (record { daemon = run w (trigger_strand_repair op) s; handlers = waiting; buffered = [] })
        m
    → (is_sending m.daemon ≡ true) × ((later : List Request) × (m.handlers ≡ waiting ++ later))
strand_repair_stalls w op s waiting m idle path =
    let busy = starts_sending w op s idle in
    let h = stalls busy refl path in (ap is_sending h.same ∙ busy, h.queued)
