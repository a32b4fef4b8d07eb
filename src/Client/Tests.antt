-- ===== src/Client/Tests.antt =====
-- A download and a repair of a root with two leaves. The chunk of the first leaf is repaired; that of
-- the second is not there without a recovery.
use ipfs_reliability.Prelude.{
  ℕ, zero, suc, ◌+◌, ◌-◌, ◌≡◌, refl, ◌∙◌, sym, ap, arith, subst, Bool, true, false, put, List, [],
  ◌∷◌, Option, none, some, ◌==◌, if◌then◌else◌, some_inj,
}
use ipfs_reliability.Lattice.Request.{Answer}
use ipfs_reliability.Connector.Tree.{Tree, node, no_trees, tree_then, leaf, tree_size, count}
use ipfs_reliability.Client.{
  DagNode, Network, Progress, trim, trim_left, reverse_onto, download_and_recover,
}
use ipfs_reliability.Client.Download.{IsFaithful, leaves_data, download_right}
use ipfs_reliability.Client.Repair.{retrieve_failed_leaves, repair_failed_leaves}

abbrev dags : ℕ → DagNode
dags zero = record { links = 11 ∷ 12 ∷ []; file_data = none }
dags (suc i) = record { links = []; file_data = some (i ∷ i ∷ []) }

abbrev parse : List ℕ → Option DagNode
parse [] = none
parse (b ∷ bs) = some (dags (b - 2))

-- The chunk with lattice index k is one byte, k + 1.
abbrev answer_for : ℕ → Answer
answer_for k = record { data_of = some (suc k ∷ []); repaired = k == 2 }

abbrev net : Network ℕ
net = record {
  get_chunk = λ k l. some (l, answer_for k);
  get_chunk_depth = λ k depth l.
      some (l, if k == 3 then record { data_of = none; repaired = false } else answer_for k);
  cid_of = λ i l. i;
  set_cid = λ c cid l. l;
  add_raw_data = λ chunk l. (suc l, some 1);
  get_dag_node = parse;
}

one_byte :
    (i : ℕ) (b : Bool) (chunk : List ℕ) (d : DagNode)
    → some (suc (i + 1) ∷ []) ≡ some chunk
    → parse (if b then trim chunk else chunk) ≡ some d
    → d ≡ dags i
unfolding trim trim_left reverse_onto
one_byte i true chunk d e p =
    let shift : suc (i + 1) - 2 ≡ i = omega arith in
    let p' = subst (λ (c : List ℕ). parse (trim c) ≡ some d) (sym (some_inj e)) p in
    sym (some_inj p') ∙ ap dags shift
one_byte i false chunk d e p =
    let shift : suc (i + 1) - 2 ≡ i = omega arith in
    let p' = subst (λ (c : List ℕ). parse c ≡ some d) (sym (some_inj e)) p in
    sym (some_inj p') ∙ ap dags shift

net-IsFaithful : IsFaithful net (λ i. i) dags (λ l. Unit {0})
net-IsFaithful = record {
  chunk_right = λ i l h. (l, answer_for (i + 1), refl, tt, one_byte i (i + 1 == 2));
  set_holds = λ c cid l h. tt;
  add_holds = λ chunk l h. tt;
}

abbrev two_leaves : Tree
two_leaves = node (tree_then leaf (tree_then leaf no_trees))

download_test :
    download_and_recover net (λ i. i) true true two_leaves 0
    ≡ some (
      record { blocks = 1; data_so_far = 0 ∷ 0 ∷ 1 ∷ 1 ∷ []; repaired = true; downloaded = 3 },
      true,
    )
unfolding download_and_recover count tree_size
download_test = refl

download_right_example :
    (done : Progress net × Bool) × (download_and_recover net (λ i. i) true true two_leaves 0
      ≡ some done)
    × (done.1 ≡ true
        → (done.0.data_so_far ≡ leaves_data dags 0 two_leaves)
          × (done.0.downloaded ≡ tree_size two_leaves))
download_right_example =
    download_right net (λ i. i) dags (λ l. Unit {0}) true two_leaves 0 net-IsFaithful tt

retrieve_test :
    retrieve_failed_leaves net (λ i. i) two_leaves 0
    ≡ some (record { blocks = 0; leaf_indices = 2 ∷ [] }, true)
unfolding retrieve_failed_leaves count tree_size
retrieve_test = refl

repair_test :
    repair_failed_leaves net (some 0) (1 ∷ 2 ∷ []) ≡ some (some 1, (1, true) ∷ (2, true) ∷ [], true)
unfolding repair_failed_leaves put
repair_test = refl
