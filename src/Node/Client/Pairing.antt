-- ===== src/Node/Client/Pairing.antt =====
-- Discovery never pairs, and never undoes a pairing.
use nexus_p2p.Base.{◌≡◌, refl, ap, ◌∙◌, inl, inr, if◌then◌else◌, Option, none, some, arith, All}
use nexus_p2p.Base.Result.{ok, Result-cases}
use nexus_p2p.External.{External, IsLawful, now_ms}
use nexus_p2p.Model.{PublicIdentity, PeerEndpoint, Peer}
use nexus_p2p.Identity.{validate_public_identity}
use nexus_p2p.Storage.Peers.{coalesce, peer, upsert_peer}
use nexus_p2p.Storage.Peers.Merge.{HasWholeEndpoint, merge, peer-upsert_peer}
use nexus_p2p.Node.{Node, NodeEvent, emit}
use nexus_p2p.Transport.{TransportEvent}
use nexus_p2p.Node.Client.{is_paired, remember_peer, handle_transport_event}

-- The peer of an endpoint that is remembered.
abbrev pub remembered : PublicIdentity → PeerEndpoint → Option Peer → Node → Peer
remembered identity endpoint old n = record {
  identity = identity;
  endpoint = some endpoint;
  paired = is_paired old;
  last_seen_ms = n.env.now n.env.calls;
}

merge-remembered :
    (old : Option Peer) (i : PublicIdentity) (e : PeerEndpoint) (n : Node)
    → ((merge old (remembered i e old n)).identity ≡ i)
      × ((merge old (remembered i e old n)).endpoint ≡ some e)
      × ((merge old (remembered i e old n)).paired ≡ is_paired old)
unfolding coalesce
merge-remembered none i e n = (refl, refl, refl)
merge-remembered (some p) i e n = (refl, refl, ground arith)

only : (u : Unit {0}) → u ≡ tt
only tt = refl

module _ (x : External) (identity : PublicIdentity) (endpoint : PeerEndpoint) (n n' : Node) where
  remembered_run :
      (old : Option Peer)
      → peer x identity.device_id n.store ≡ (ok old, n.store)
      → remember_peer x identity endpoint n ≡ (ok tt, n')
      → (validate_public_identity x identity ≡ ok tt)
        × (upsert_peer x (remembered identity endpoint old n) n.store ≡ (ok tt, n'.store))
  unfolding remember_peer now_ms
  remembered_run old known h = elim (Result-cases (validate_public_identity x identity)) [
    | inr (e, v) ↦ absurd (ground (arith, v))
    | inl (u, v) ↦
        elim (Result-cases (upsert_peer x (remembered identity endpoint old n) n.store).0) [
          | inr (e, w) ↦ absurd (ground (arith, v, known, w))
          | inl (w, q) ↦ (v ∙ ap ok (only u), ground (arith, v, known, q))
        ]
  ]

  -- Under the laws of the crates, an endpoint that is remembered belongs to a valid identity; its
  -- device then has that identity and endpoint, and is paired if and only if it was, where every
  -- row has a whole endpoint and the old peer is read.
  pub peer-remember_peer :
      (law : IsLawful x) (old : Option Peer)
      → All HasWholeEndpoint n.store.peer_rows
      → peer x identity.device_id n.store ≡ (ok old, n.store)
      → remember_peer x identity endpoint n ≡ (ok tt, n')
      → (validate_public_identity x identity ≡ ok tt)
        × ((known : Peer) × (peer x identity.device_id n'.store ≡ (ok (some known), n'.store))
            × (known.identity ≡ identity)
            × (known.endpoint ≡ some endpoint)
            × (known.paired ≡ is_paired old))
  peer-remember_peer law old whole known h =
      let (valid, run) = remembered_run old known h in
      let p = remembered identity endpoint old n in
      let same = merge-remembered old identity endpoint n in
      (
        valid,
        (
          merge old p,
          peer-upsert_peer x p n.store n'.store law old whole known run,
          same.0,
          same.1,
          same.2,
        ),
      )

  -- What discovery does to the node is what remembering the endpoint does, where the old peer is
  -- read and the peer is remembered, and it tells of the peer besides; a synchronization with the
  -- peer is spawned if and only if the old peer was paired.
  pub handle_transport_event-remember_peer :
      (old : Option Peer)
      → peer x identity.device_id n.store ≡ (ok old, n.store)
      → remember_peer x identity endpoint n ≡ (ok tt, n')
      → handle_transport_event x (TransportEvent.discovered endpoint identity) n ≡ (
        ok (if is_paired old then some identity.device_id else none),
        (emit (NodeEvent.peer_discovered (remembered identity endpoint old n)) n').1,
      )
  unfolding handle_transport_event remember_peer emit now_ms
  handle_transport_event-remember_peer old known h =
      let (valid, run) = remembered_run old known h in ground (arith, valid, known, run)
