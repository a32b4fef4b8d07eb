-- ===== src/Monitor/Forward/Sent.antt =====
-- Which nodes are told what.
use ipfs_reliability.Prelude.{
  ◌≡◌, ◌≢◌, ◌↔◌, inl, inr, refl, sym, ap, ap₂, subst, arith, Bool-cases, List, [], ◌∷◌, Option,
  none, some, some_inj, ◌==◌,
}
use mathlib.Core.List
use mathlib.Core.List.{Memᴰ}
use mathlib.Core.List.Memᴰ
use ipfs_reliability.Server.Types.{Str}
use ipfs_reliability.Monitor.{Floats}
use ipfs_reliability.Monitor.Forward.{
  Directory, Message, Post, names_of, post_if_found, forward_to_peer, start_request, forward_root,
  forward_monitoring,
}
use ipfs_reliability.Client.Metadata.{ForwardMonitoringRequest}

-- An entry of a flattened list stands in the list of one of the elements.
Memᴰ-flat_map {ℓ ℓ'} :
    {A : Type ℓ} {B : Type ℓ'} (g : A → List B) (xs : List A) (b : B)
    → Memᴰ b (List.flat_map g xs) ↔ ((a : A) × Memᴰ a xs × Memᴰ b (g a))
unfolding List.flat_map
Memᴰ-flat_map g [] b = (λ m. absurd (Memᴰ.not-nil m), λ (a, m, h). absurd (Memᴰ.not-nil m))
Memᴰ-flat_map {A} {B} g (x ∷ xs) b =
    let (there, back) = Memᴰ-flat_map g xs b in
    (
      λ m. elim (Memᴰ.append_cases (g x) m) [
        | inl here ↦ (x, Memᴰ.head refl, here)
        | inr later ↦ let (a, at, h) = there later in (a, Memᴰ.tail at, h)
      ],
      λ (a, m, h). elim (Memᴰ.cases_cons m) [
        | inl e ↦ Memᴰ.append_left (List.flat_map g xs) (subst (λ (y : A). Memᴰ b (g y)) e h)
        | inr later ↦ Memᴰ.append_right (g x) (back (a, later, h))
      ],
    )

module _ (f : Floats) (d : Directory) where
  post_if_found-Sent :
      (m : Message f) (found : Option Str) (address : Str) (sent : Message f)
      → Memᴰ (address, sent) (post_if_found f d m found)
        ↔ ((found ≡ some address) × (address ≢ 0) × (sent ≡ m))
  unfolding post_if_found
  post_if_found-Sent m none address sent =
      (λ h. absurd (Memᴰ.not-nil h), λ (e, _, _). absurd (ground arith))
  post_if_found-Sent m (some a) address sent = elim (Bool-cases (a == 0)) [
    | inl empty ↦ rw (empty) (
      λ h. absurd (Memᴰ.not-nil h),
      λ (e, p, _). absurd (p (let same : a ≡ address = some_inj e in ground arith)),
    )
    | inr full ↦ rw (full) (
      λ h.
          let e = Memᴰ.eq_of_singleton h in
          let at : address ≡ a = ap (λ (x : Post f). x.0) e in
          (ap some (sym at), (λ z. ground arith), ap (λ (x : Post f). x.1) e),
      λ (e, p, q). Memᴰ.head (ap₂ (λ (x : Str) (y : Message f). (x, y)) (sym (some_inj e)) q),
    )
  ]

  -- Whether a peer is told this at this address.
  abbrev pub IsTold : Post f → Message f → Str → Type 0
  IsTold (address, sent) m peer =
      (peer ≢ 0) × (d.community_address peer ≡ some address) × (address ≢ 0) × (sent ≡ m)

  forward_to_peer-IsTold :
      (m : Message f) (peer : Str) (post : Post f)
      → Memᴰ post (forward_to_peer f d m peer) ↔ IsTold post m peer
  unfolding forward_to_peer
  forward_to_peer-IsTold m peer (address, sent) = elim (Bool-cases (peer == 0)) [
    | inl empty ↦
        rw (empty) (λ h. absurd (Memᴰ.not-nil h), λ (p, _, _, _). absurd (p (ground arith)))
    | inr full ↦
        let (there, back) = post_if_found-Sent m (d.community_address peer) address sent in
        rw (full) (
          λ h. let (e, p, q) = there h in ((λ z. ground arith), e, p, q),
          λ (_, e, p, q). back (e, p, q),
        )
  ]

  -- Whether this is the request for a root of the file, sent to a peer that has the root pinned.
  abbrev pub IsForwarded : ForwardMonitoringRequest → Post f → Type 0
  IsForwarded request post =
      (root : Str) × Memᴰ root request.strand_root_cids
      × ((peers : List Str) × (d.allocations root ≡ some peers)
          × ((peer : Str) × Memᴰ peer peers × IsTold post (start_request f d request root) peer))

  names_of-Mem :
      (peer : Str) (found : Option (List Str))
      → Memᴰ peer (names_of found)
      → (peers : List Str) × (found ≡ some peers) × Memᴰ peer peers
  unfolding names_of
  names_of-Mem peer none h = absurd (Memᴰ.not-nil h)
  names_of-Mem peer (some peers) h = (peers, refl, h)

  -- forwardMonitoring asks to monitor the file, with the root of the strand, exactly the peers that the
  -- pin of a root of the request is allocated to, and that have a name and an address, at this address.
  pub forward_monitoring_right :
      (request : ForwardMonitoringRequest) (post : Post f)
      → Memᴰ post (forward_monitoring f d request) ↔ IsForwarded request post
  unfolding forward_monitoring forward_root names_of
  forward_monitoring_right request post = (
    λ h.
        let (root, at, h') =
          (Memᴰ-flat_map (forward_root f d request) request.strand_root_cids post).0 h in
        let (peer, in_peers, h'') =
          (Memᴰ-flat_map (forward_to_peer f d (start_request f d request root))
              (names_of (d.allocations root)) post).0
            h' in
        let (peers, e, in_peers') = names_of-Mem peer (d.allocations root) in_peers in
        (
          root,
          at,
          (
            peers,
            e,
            (
              peer,
              in_peers',
              (forward_to_peer-IsTold (start_request f d request root) peer post).0 h'',
            ),
          ),
        ),
    λ (root, at, (peers, e, (peer, in_peers, told))).
        (Memᴰ-flat_map (forward_root f d request) request.strand_root_cids post).1 (
          root,
          at,
          (Memᴰ-flat_map (forward_to_peer f d (start_request f d request root))
                (names_of (d.allocations root)) post).1
              (
                peer,
                rw (e) in_peers,
                (forward_to_peer-IsTold (start_request f d request root) peer post).1 told,
              ),
        ),
  )
