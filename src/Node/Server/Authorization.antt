-- ===== src/Node/Server/Authorization.antt =====
-- Who may ask for what: a request that reads or writes events and files is refused, with nothing
-- changed, unless its sender is a peer that is paired under the very identity that it sends.
use nexus_p2p.Base.{
  ◌≡◌, refl, ◌⊎◌, inl, inr, arith, true, Option, none, some, Bool-cases, ◌==◌, list_eq, nat_eq,
  ==-true,
}
use nexus_p2p.Base.Text.{Text, codes}
use nexus_p2p.Base.Result.{Error, fail, panic, Result, ok, err, Result-cases}
use nexus_p2p.External.{External}
use nexus_p2p.Model.{DeviceId, PublicIdentity, identity_eq, Peer, protocol_version}
use nexus_p2p.Protocol.{WireMessage, WireEnvelope}
use nexus_p2p.Identity.{validate_public_identity}
use nexus_p2p.Storage.{Store, PeerRow}
use nexus_p2p.Storage.Peers
use nexus_p2p.Storage.Peers.{peer}
use nexus_p2p.Node.{Node, require_sender_paired}
use nexus_p2p.Node.Server.{
  handle_push_event, handle_sync_exchange, handle_chunk_request, handle_push_chunks, handle_message,
  handle_request,
}

-- The store has a paired peer with exactly this identity.
abbrev pub IsPaired : External → PublicIdentity → Node → Type 0
IsPaired x sender n =
    (known : Peer) × ((peer x sender.device_id n.store).0 ≡ ok (some known))
    × (known.paired ≡ true)
    × (known.identity ≡ sender)

module _ (x : External) where
  read_row_state : (o : Option PeerRow) (s : Store) → (Peers.read_row x o s).1 ≡ s
  unfolding Peers.read_row
  read_row_state none s = refl
  read_row_state (some row) s = ground arith

  pub peer_state : (id : DeviceId) (s : Store) → (peer x id s).1 ≡ s
  unfolding peer
  peer_state id s = read_row_state _ s

  -- `require_sender_paired` decides `IsPaired`, and changes nothing.
  pub require_sender_paired-cases :
      (sender : PublicIdentity) (n : Node)
      → (IsPaired x sender n × ((require_sender_paired x sender n).1 ≡ n))
        ⊎ ((e : Error) × (require_sender_paired x sender n ≡ (err e, n)))
  unfolding require_sender_paired
  require_sender_paired-cases sender n =
      let same = peer_state sender.device_id n.store in
      elim (Result-cases (peer x sender.device_id n.store).0) [
        | inr (er, r) ↦ inr (er, rw (r, same) refl)
        | inl (none, r) ↦ inr (fail (codes "unknown sender"), rw (r, same) refl)
        | inl (some known, r) ↦ elim (Bool-cases known.paired) [
          | inr p ↦ inr (fail (codes "sender is not paired"), rw (r, p, same) refl)
          | inl p ↦ elim (Bool-cases (known.identity == sender)) [
            | inr i ↦ inr (fail (codes "paired identity changed"), rw (r, p, i, same) refl)
            | inl i ↦ inl ((known, r, p, ==-true known.identity sender i), rw (r, p, i, same) refl)
          ]
        ]
      ]

-- The requests that read or write events and files.
abbrev pub NeedsPairing : WireMessage → Type 0
NeedsPairing (WireMessage.push_event event) = Unit
NeedsPairing (WireMessage.sync_exchange stream_id known_ids incoming) = Unit
NeedsPairing (WireMessage.chunk_request manifest_id hashes) = Unit
NeedsPairing (WireMessage.push_chunks manifest_id chunks) = Unit
NeedsPairing _ = ⊥

module _ (x : External) (sender : PublicIdentity) (n : Node) where
  refused :
      (IsPaired x sender n → ⊥) → (e : Error) × (require_sender_paired x sender n ≡ (err e, n))
  refused unpaired = elim (require_sender_paired-cases x sender n) [
    | inl (p, _) ↦ absurd (unpaired p)
    | inr r ↦ r
  ]

  -- Such a request of an unpaired sender fails, with nothing changed.
  pub handle_message-unpaired :
      (body : WireMessage)
      → NeedsPairing body
      → (IsPaired x sender n → ⊥)
      → (e : Error) × (handle_message x sender body n ≡ (err e, n))
  unfolding handle_message handle_push_event handle_sync_exchange handle_chunk_request
      handle_push_chunks
  handle_message-unpaired (WireMessage.push_event event) need unpaired =
      let (e, r) = refused unpaired in (e, rw r refl)
  handle_message-unpaired (WireMessage.sync_exchange s k i) need unpaired =
      let (e, r) = refused unpaired in (e, rw r refl)
  handle_message-unpaired (WireMessage.chunk_request m h) need unpaired =
      let (e, r) = refused unpaired in (e, rw r refl)
  handle_message-unpaired (WireMessage.push_chunks m c) need unpaired =
      let (e, r) = refused unpaired in (e, rw r refl)
  handle_message-unpaired WireMessage.hello need unpaired = absurd need
  handle_message-unpaired (WireMessage.pair_request nonce) need unpaired = absurd need
  handle_message-unpaired (WireMessage.pair_response accepted) need unpaired = absurd need
  handle_message-unpaired (WireMessage.ack id) need unpaired = absurd need
  handle_message-unpaired (WireMessage.sync_result missing) need unpaired = absurd need
  handle_message-unpaired (WireMessage.chunk_result m c) need unpaired = absurd need
  handle_message-unpaired (WireMessage.error message) need unpaired = absurd need

-- No answer, or an answer that carries an error.
abbrev pub IsRefusal : Result WireEnvelope → Type 0
IsRefusal (ok reply) = (message : Text) × (reply.body ≡ WireMessage.error message)
IsRefusal (err e) = Unit

module _ (x : External) where
  refusal :
      (e : Error) (request : WireEnvelope) (n : Node)
      → handle_message x request.sender request.body n ≡ (err e, n)
      → ((handle_request x request n).1 ≡ n) × IsRefusal (handle_request x request n).0
  unfolding handle_request
  refusal (fail message) request n h = elim (Bool-cases (request.version == protocol_version)) [
    | inr v ↦ rw v (refl, tt)
    | inl v ↦ elim (Result-cases (validate_public_identity x request.sender)) [
      | inr (er, i) ↦ rw (v, i) (refl, tt)
      | inl (u, i) ↦ rw (v, i, h) (refl, (message, refl))
    ]
  ]
  refusal panic request n h = elim (Bool-cases (request.version == protocol_version)) [
    | inr v ↦ rw v (refl, tt)
    | inl v ↦ elim (Result-cases (validate_public_identity x request.sender)) [
      | inr (er, i) ↦ rw (v, i) (refl, tt)
      | inl (u, i) ↦ rw (v, i, h) (refl, tt)
    ]
  ]

  -- A request that reads or writes events or files, from a sender that is not paired under the
  -- very identity it sends, changes nothing, and gets no answer or an error.
  pub handle_request-unpaired :
      (request : WireEnvelope) (n : Node)
      → NeedsPairing request.body
      → ¬ IsPaired x request.sender n
      → ((handle_request x request n).1 ≡ n) × IsRefusal (handle_request x request n).0
  handle_request-unpaired request n need unpaired =
      let (e, r) = handle_message-unpaired x request.sender n request.body need unpaired in
      refusal e request n r
