-- ===== src/Node/Reach/Remembered.antt =====
-- `remember_peer` of core/nexus-core/src/node.rs at a node that was reached from a first start.
use nexus_p2p.Base.{◌≡◌, ap, Option, some}
use nexus_p2p.Base.Text.{Text}
use nexus_p2p.Base.Result.{Result, ok}
use nexus_p2p.External.{External, IsLawful, now_ms}
use nexus_p2p.Model.{PublicIdentity, PeerEndpoint, Peer}
use nexus_p2p.Identity.{validate_public_identity}
use nexus_p2p.Storage.{Store}
use nexus_p2p.Storage.Peers.{peer, upsert_peer}
use nexus_p2p.Storage.Peers.Known.{peer-known, known-whole}
use nexus_p2p.Node.{Node}
use nexus_p2p.Node.Client.{is_paired, remember_peer}
use nexus_p2p.Node.Client.Pairing.{peer-remember_peer}
use nexus_p2p.Node.Sound.{IsSound}
use nexus_p2p.Node.Reach.{Reach, Reach-IsSound}

module _ (x : External) (i : PublicIdentity) (e : PeerEndpoint) (n : Node) where
  remember_run :
      (old : Option Peer) (json : Text)
      → peer x i.device_id n.store ≡ (ok old, n.store)
      → validate_public_identity x i ≡ ok tt
      → x.identity_to_json i ≡ ok json
      → remember_peer x i e n ≡ (ok tt, (remember_peer x i e n).1)
  unfolding remember_peer upsert_peer now_ms
  remember_run old json read valid encoded = rw (valid, read, encoded)

module _ (x : External) (law : IsLawful x) where
  -- Under the laws of the crates, at a node that was reached from a first start, remember_peer of
  -- a valid identity that can be encoded succeeds; the device then has that identity and endpoint,
  -- and is paired if and only if it was.
  pub remember_peer-Reach :
      {origin n : Node} (i : PublicIdentity) (e : PeerEndpoint) (json : Text)
      → Reach x origin n
      → validate_public_identity x i ≡ ok tt
      → x.identity_to_json i ≡ ok json
      → let n' = (remember_peer x i e n).1 in
        ((remember_peer x i e n).0 ≡ ok tt)
        × ((old : Option Peer) × ((peer x i.device_id n.store).0 ≡ ok old)
            × (known : Peer) × ((peer x i.device_id n'.store).0 ≡ ok (some known))
            × (known.identity ≡ i)
            × (known.endpoint ≡ some e)
            × (known.paired ≡ is_paired old))
  unfolding IsSound
  remember_peer-Reach {n = n} i e json run valid encoded =
      let h = Reach-IsSound x law run in
      let (old, read) = peer-known x i.device_id n.store h.peers in
      let n' = (remember_peer x i e n).1 in
      let done = remember_run x i e n old json read valid encoded in
      let (_, (known, found, identity, endpoint, paired)) =
        peer-remember_peer x i e n n' law old (known-whole x n.store.peer_rows h.peers) read done in
      (
        ap (λ (r : Result (Unit {0}) × Node). r.0) done,
        (
          old,
          ap (λ (r : Result (Option Peer) × Store). r.0) read,
          known,
          ap (λ (r : Result (Option Peer) × Store). r.0) found,
          identity,
          endpoint,
          paired,
        ),
      )
