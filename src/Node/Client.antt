-- ===== src/Node/Client.antt =====
-- core/nexus-core/src/node.rs: what a node asks of others. The transport is a parameter: what the
-- k-th call of its `request` gives for an endpoint and an envelope, so that the other end may answer
-- anything.
pub mod Names
pub mod Pairing
pub mod Answers
pub mod Files
pub mod Sync
pub mod Resume
pub mod Kept
pub mod Authentic
use nexus_p2p.Base.{
  ℕ, suc, Bool, true, false, not, Option, none, some, List, [], ◌∷◌, ◌++◌, ◌==◌, nat_eq, list_eq,
  leb, filter, length, if◌then◌else◌,
}
use nexus_p2p.Base.Text.{Text, codes, trim}
use nexus_p2p.Base.Result.{Error, fail, panic, Result, ok, err}
use nexus_p2p.Base.Exec.{
  Exec, pure, raise, lift, gets, modify, ensure, some_or, traverse, ◌>>=◌, ◌>>◌,
}
use nexus_p2p.External.{External, Env, now_ms, fill_bytes}
use nexus_p2p.Model.{
  DeviceId, PublicIdentity, PeerEndpoint, Peer, EventKind, EventEnvelope, DecryptedPayload,
  ChatItem, direct_stream_id, protocol_version,
}
use nexus_p2p.Protocol.{WireMessage, WireEnvelope}
use nexus_p2p.Identity.{validate_public_identity}
use nexus_p2p.Crypto.Draws.{create_event}
use nexus_p2p.Storage.Identities.{update_identity_public}
use nexus_p2p.Storage.Peers.{upsert_peer, peer}
use nexus_p2p.Storage.Events.{insert_event, events, event_ids}
use nexus_p2p.Transport.{TransportEvent}
use nexus_p2p.Node.{
  Node, NodeEvent, in_store, in_env, emit, node_identity, chat_item, process_manifest,
  require_paired_peer,
}

-- `is_some_and(|peer| peer.paired)`
abbrev pub is_paired : Option Peer → Bool
is_paired none = false
is_paired (some p) = p.paired

-- `.ok().flatten()`
abbrev flattened : Result (Option Peer) → Option Peer
flattened (ok p) = p
flattened (err e) = none

abbrev pub reported : {A : Type 0} → A → Result (Unit {0}) → Exec Node A → Exec Node A
reported a (ok tt) next = next
reported a (err (fail message)) next = emit (NodeEvent.error message) >> pure a
reported a (err panic) next = raise panic

-- `if let Err(error) = .. { self.emit_error(error); return; }`, with what is returned: a panic goes
-- on.
abbrev pub or_report : {A : Type 0} → A → Exec Node Unit → Exec Node A → Exec Node A
or_report a m next n = let (r, n') = m n in reported a r next n'

-- the stream of this node and a peer
abbrev pub stream_of : DeviceId → Node → Text
stream_of id n = direct_stream_id n.keys.public.device_id id

abbrev pub matches_ack : Text → WireMessage → Bool
matches_ack id (WireMessage.ack event_id) = event_id == id
matches_ack id _ = false

module _ (x : External) where
  unfoldable pub set_display_name : Text → Exec Node PublicIdentity
  set_display_name name = do
    let display_name = trim name
    ensure (not (display_name == [])) (fail (codes "device name cannot be empty"))
    ensure (leb (length display_name) 40) (fail (codes "device name is too long"))
    me ← gets node_identity
    let identity : PublicIdentity = record me { display_name = display_name }
    public_json ← lift (x.identity_to_json identity)
    in_store (update_identity_public public_json)
    modify (λ n. record n { display_name = display_name })
    pure identity

  unfoldable pub remember_peer : PublicIdentity → PeerEndpoint → Exec Node Unit
  remember_peer identity endpoint = do
    lift (validate_public_identity x identity)
    known ← in_store (peer x identity.device_id)
    now ← in_env now_ms
    in_store (
        upsert_peer x (record {
          identity = identity;
          endpoint = some endpoint;
          paired = is_paired known;
          last_seen_ms = now;
        }))

  -- An error of the read of the old peer counts as no peer.
  unfoldable pub known_peer : DeviceId → Exec Node (Option Peer)
  known_peer id n = let (r, n') = in_store (peer x id) n in (ok (flattened r), n')

  unfoldable pub announce_peer : Peer → Exec Node (Option DeviceId)
  announce_peer p = or_report none (in_store (upsert_peer x p)) (do
    emit (NodeEvent.peer_discovered p)
    pure (if p.paired then some p.identity.device_id else none))

  -- What is returned is the peer for which the task `sync_discovered` of Node/Client/Sync is spawned,
  -- where there is one.
  unfoldable pub handle_transport_event : TransportEvent → Exec Node (Option DeviceId)
  unfolding known_peer announce_peer
  handle_transport_event (TransportEvent.lost id) = do emit (NodeEvent.peer_lost id); pure none
  handle_transport_event (TransportEvent.discovered endpoint announcement) =
      or_report none (lift (validate_public_identity x announcement)) (do
        known ← known_peer announcement.device_id
        now ← in_env now_ms
        announce_peer (record {
          identity = announcement;
          endpoint = some endpoint;
          paired = is_paired known;
          last_seen_ms = now;
        }))

module _ (x : External) (transport : ℕ → PeerEndpoint → WireEnvelope → Result WireEnvelope) where
  -- the next call of the transport
  unfoldable pub send : PeerEndpoint → WireEnvelope → Exec Env WireEnvelope
  send endpoint envelope e = (transport e.calls endpoint envelope, record e { calls = suc e.calls })

  unfoldable pub refuse_error : WireMessage → Exec Node Unit
  refuse_error (WireMessage.error message) = raise (fail message)
  refuse_error _ = pure tt

  -- `request` after the call of the transport
  unfoldable pub accept_answer : Peer → WireEnvelope → Exec Node WireEnvelope
  accept_answer p response = do
    ensure (response.version == protocol_version) (fail (codes "unsupported protocol version"))
    lift (validate_public_identity x response.sender)
    ensure (response.sender.device_id == p.identity.device_id)
        (fail (codes "response identity mismatch"))
    refuse_error response.body
    pure response

  unfoldable pub request : Peer → WireMessage → Exec Node WireEnvelope
  unfolding send
  request p body = do
    endpoint ← some_or (fail (codes "peer is offline")) p.endpoint
    me ← gets node_identity
    response ←
        in_env (send endpoint (record { version = protocol_version; sender = me; body = body }))
    accept_answer p response

  unfoldable pub send_text : DeviceId → Text → Exec Node ChatItem
  send_text peer_id text = do
    p ← require_paired_peer x peer_id
    stream_id ← gets (stream_of peer_id)
    keys ← gets (λ n. n.keys)
    event ←
        in_env
          (create_event x keys p.identity stream_id EventKind.text (DecryptedPayload.text text))
    in_store (insert_event event)
    response ← request p (WireMessage.push_event event)
    ensure (matches_ack event.id response.body) (fail (codes "message was not acknowledged"))
    item ← chat_item x p.identity event
    emit (NodeEvent.message item)
    pure item

  unfoldable pub chat : DeviceId → Exec Node (List ChatItem)
  chat peer_id = do
    p ← require_paired_peer x peer_id
    stream ← gets (stream_of peer_id)
    logged ← in_store (events x stream)
    traverse (chat_item x p.identity) logged

  unfoldable pub received_events : WireMessage → Exec Node (List EventEnvelope)
  received_events (WireMessage.sync_result events) = pure events
  received_events _ = raise (fail (codes "unexpected sync response"))

  abbrev count_event : Peer → EventEnvelope → Exec Node ℕ
  count_event p event = process_manifest x p.identity.device_id p.identity event >> pure 1

  -- The body of the loop of `sync` over the events of the answer; the count of the new ones.
  unfoldable pub receive_event : Peer → EventEnvelope → Exec Node ℕ
  receive_event p event =
      if event.author == p.identity.device_id
      then (do
        chat_item x p.identity event
        new ← in_store (insert_event event)
        if new then count_event p event else pure 0)
      else pure 0

  -- `sync` from its guard on the peer to its call of `resume_files`.
  unfoldable pub exchange_events : DeviceId → Peer → Exec Node (List ℕ)
  unfolding received_events
  exchange_events peer_id p = do
    stream_id ← gets (stream_of peer_id)
    known_ids ← in_store (event_ids x stream_id)
    logged ← in_store (events x stream_id)
    own ← gets (λ n. filter (λ event. event.author == n.keys.public.device_id) logged)
    response ← request p (WireMessage.sync_exchange stream_id known_ids own)
    incoming ← received_events response.body
    traverse (receive_event p) incoming
