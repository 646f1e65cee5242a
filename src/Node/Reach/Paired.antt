-- ===== src/Node/Reach/Paired.antt =====
-- A request to pair, to a node of core/nexus-core/src/node.rs that was reached from a first start.
use nexus_p2p.Base.{◌≡◌, refl, ap, ◌∙◌, true, Option, none, some, arith, list_eq, nat_eq}
use nexus_p2p.Base.Text.{Text}
use nexus_p2p.Base.Result.{Result, ok}
use nexus_p2p.External.{External, IsLawful, now_ms}
use nexus_p2p.Model.{PublicIdentity, Peer, protocol_version}
use nexus_p2p.Protocol.{WireMessage, WireEnvelope}
use nexus_p2p.Identity.{validate_public_identity}
use nexus_p2p.Storage.{Store}
use nexus_p2p.Storage.Peers.{peer, upsert_peer, set_peer_paired, upsert_row, peer_row}
use nexus_p2p.Storage.Peers.Merge.{merge, peer-upsert_peer}
use nexus_p2p.Storage.Peers.Known.{peer-known, known-whole}
use nexus_p2p.Node.{Node, emit, node_identity}
use nexus_p2p.Node.Server.{handle_pair_request, handle_message, handle_request, endpoint_of}
use nexus_p2p.Node.Server.Authorization.{IsPaired}
use nexus_p2p.Node.Sound.{IsSound}
use nexus_p2p.Node.Reach.{Reach, Reach-IsSound}

-- the peer that a request to pair stores
abbrev paired_peer : PublicIdentity → Option Peer → Node → Peer
paired_peer sender old n = record {
  identity = sender;
  endpoint = endpoint_of old;
  paired = true;
  last_seen_ms = n.env.now n.env.calls;
}

merge-paired_peer :
    (sender : PublicIdentity) (old : Option Peer) (n : Node)
    → ((merge old (paired_peer sender old n)).paired ≡ true)
      × ((merge old (paired_peer sender old n)).identity ≡ sender)
merge-paired_peer sender none n = (refl, refl)
merge-paired_peer sender (some p) n = (ground arith, refl)

module _ (x : External) (sender : PublicIdentity) (n : Node) where
  -- Where its reads and its write succeed, the handler answers and leaves the store so.
  pair_run :
      (old : Option Peer) (known : Peer) (t : Store)
      → peer x sender.device_id n.store ≡ (ok old, n.store)
      → upsert_peer x (paired_peer sender old n) n.store ≡ (ok tt, t)
      → peer x sender.device_id t ≡ (ok (some known), t)
      → ((handle_pair_request x sender n).0 ≡ ok (WireMessage.pair_response true))
        × ((handle_pair_request x sender n).1.store ≡ t)
  unfolding handle_pair_request set_peer_paired now_ms emit
  pair_run old known t read written again = (rw (read, written, again), rw (read, written, again))

module _ (x : External) (law : IsLawful x) where
  -- Under the laws of the crates, a node that was reached from a first start answers every request
  -- to pair of the current version from a sender whose identity is valid and can be encoded,
  -- whoever it is, with the acceptance, and the node that the request leaves has the sender paired
  -- under that identity.
  pub handle_request-IsPaired :
      {origin n : Node} (sender : PublicIdentity) (nonce json : Text)
      → Reach x origin n
      → validate_public_identity x sender ≡ ok tt
      → x.identity_to_json sender ≡ ok json
      → let asked : WireEnvelope = record {
        version = protocol_version;
        sender = sender;
        body = WireMessage.pair_request nonce;
      } in
        (answer : WireEnvelope) × ((handle_request x asked n).0 ≡ ok answer)
        × (answer.body ≡ WireMessage.pair_response true)
        × IsPaired x sender (handle_request x asked n).1
  unfolding IsSound handle_request handle_message upsert_peer
  handle_request-IsPaired {n = n} sender nonce json run valid encoded =
      let h = Reach-IsSound x law run in
      let (old, read) = peer-known x sender.device_id n.store h.peers in
      let p = paired_peer sender old n in
      let t : Store = record n.store {
        peer_rows = upsert_row (peer_row json p) n.store.peer_rows;
      } in
      let written : upsert_peer x p n.store ≡ (ok tt, t) = rw encoded in
      let again =
        peer-upsert_peer x p n.store t law old (known-whole x n.store.peer_rows h.peers) read
          written in
      let (answered, stored) = pair_run x sender n old (merge old p) t read written again in
      let b = (handle_pair_request x sender n).1 in
      let asked : WireEnvelope = record {
        version = protocol_version;
        sender = sender;
        body = WireMessage.pair_request nonce;
      } in
      let answer : WireEnvelope = record {
        version = protocol_version;
        sender = node_identity b;
        body = WireMessage.pair_response true;
      } in
      let done : handle_request x asked n ≡ (ok answer, b) = ground (arith, valid, answered) in
      let (paired, identity) = merge-paired_peer sender old n in
      (
        answer,
        ap (λ (r : Result WireEnvelope × Node). r.0) done,
        refl,
        (
          merge old p,
          ap (λ (r : Result WireEnvelope × Node). (peer x sender.device_id r.1.store).0) done
              ∙ ap (λ (s : Store). (peer x sender.device_id s).0) stored
              ∙ ap (λ (r : Result (Option Peer) × Store). r.0) again,
          paired,
          identity,
        ),
      )
