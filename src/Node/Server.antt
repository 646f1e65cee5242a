-- ===== src/Node/Server.antt =====
-- `handle_message` of core/nexus-core/src/node.rs, a function for each kind of request, and
-- `handle_connection` between the read of the request and the write of the answer.
pub mod Kept
pub mod Authorization
pub mod Authenticity
pub mod Connection
use nexus_p2p.Base.{
  ℕ, Bool, true, false, not, Option, none, some, List, [], ◌∷◌, ◌++◌, map, ◌==◌, ◌&&◌, nat_eq,
  list_eq, contains, filter, length, take, if◌then◌else◌,
}
use nexus_p2p.Base.Text.{Text, Bytes, codes}
use nexus_p2p.Base.Result.{Error, fail, panic, Result, ok, err}
use nexus_p2p.Base.Exec.{
  Exec, pure, raise, lift, gets, ensure, some_or, traverse, for_each, ◌>>=◌, ◌>>◌,
}
use nexus_p2p.External.{External, now_ms}
use nexus_p2p.Model.{
  PublicIdentity, PeerEndpoint, Peer, EventEnvelope, FileManifest, direct_stream_id,
  protocol_version,
}
use nexus_p2p.Protocol.{WireChunk, WireMessage, WireEnvelope}
use nexus_p2p.Identity.{validate_public_identity}
use nexus_p2p.Crypto.{decrypt_chunk}
use nexus_p2p.Crypto.Draws.{encrypt_chunk}
use nexus_p2p.Storage.Peers.{peer, set_peer_paired}
use nexus_p2p.Storage.Events.{insert_event, events}
use nexus_p2p.Storage.Blobs.{put_blob, get_blob}
use nexus_p2p.Storage.Manifests.{manifest, missing_chunks, refresh_manifest_complete}
use nexus_p2p.Node.{
  Node, NodeEvent, in_store, in_env, emit, node_identity, usize_sub, chat_item, process_manifest,
  require_sender_paired,
}

abbrev pub endpoint_of : Option Peer → Option PeerEndpoint
endpoint_of none = none
endpoint_of (some p) = p.endpoint

-- the stream of this node and a sender
abbrev pub stream_with : PublicIdentity → Node → Text
stream_with sender n = direct_stream_id n.keys.public.device_id sender.device_id

-- the hashes of a manifest's chunks
abbrev pub allowed_hashes : FileManifest → List Text
allowed_hashes m = map (λ chunk. chunk.hash) m.chunks

module _ (x : External) (sender : PublicIdentity) where
  unfoldable pub handle_pair_request : Exec Node WireMessage
  handle_pair_request = do
    known ← in_store (peer x sender.device_id)
    now ← in_env now_ms
    in_store (set_peer_paired x sender (endpoint_of known) now)
    found ← in_store (peer x sender.device_id)
    paired ← some_or panic found
    emit (NodeEvent.paired paired)
    pure (WireMessage.pair_response true)

  -- What is done with an event that was not known.
  unfoldable pub announce_event : EventEnvelope → Exec Node Unit
  announce_event event = do
    process_manifest x sender.device_id sender event
    item ← chat_item x sender event
    emit (NodeEvent.message item)

  unfoldable pub handle_push_event : EventEnvelope → Exec Node WireMessage
  handle_push_event event = do
    known ← require_sender_paired x sender
    ensure (event.author == sender.device_id) (fail (codes "forwarded events are not accepted"))
    chat_item x known.identity event
    new ← in_store (insert_event event)
    if new then announce_event event else pure tt
    pure (WireMessage.ack event.id)

  -- The body of the loop over the events of a `SyncExchange`.
  unfoldable pub accept_event : EventEnvelope → Exec Node Unit
  accept_event event =
      if event.author == sender.device_id
      then (do
        chat_item x sender event
        new ← in_store (insert_event event)
        if new then process_manifest x sender.device_id sender event else pure tt)
      else pure tt

  -- the events of this node that the other end does not know
  unfoldable pub missing_events : Node → List Text → List EventEnvelope → List EventEnvelope
  missing_events n known_ids =
      filter (λ event. event.author == n.keys.public.device_id && not (contains known_ids event.id))

  unfoldable pub handle_sync_exchange :
      Text → List Text → List EventEnvelope → Exec Node WireMessage
  handle_sync_exchange stream_id known_ids incoming = do
    require_sender_paired x sender
    stream ← gets (stream_with sender)
    ensure (stream_id == stream) (fail (codes "invalid stream id"))
    for_each accept_event incoming
    logged ← in_store (events x stream_id)
    missing ← gets (λ n. missing_events n known_ids logged)
    pure (WireMessage.sync_result missing)

  -- The body of the loop over the hashes of a `ChunkRequest`.
  unfoldable pub serve_chunk : Peer → Text → Text → List Text → Text → Exec Node WireChunk
  serve_chunk known stream_id manifest_id allowed hash = do
    ensure (contains allowed hash) (fail (codes "chunk is not part of manifest"))
    blob ← in_store (get_blob x hash)
    keys ← gets (λ n. n.keys)
    (nonce, bytes) ← in_env (encrypt_chunk x keys known.identity stream_id manifest_id hash blob)
    pure (record { hash = hash; nonce = nonce; bytes = bytes })

  unfoldable pub handle_chunk_request : Text → List Text → Exec Node WireMessage
  handle_chunk_request manifest_id hashes = do
    known ← require_sender_paired x sender
    found ← in_store (manifest x manifest_id)
    m ← some_or (fail (codes "unknown manifest")) found
    stream_id ← gets (stream_with sender)
    chunks ← traverse (serve_chunk known stream_id manifest_id (allowed_hashes m)) (take 16 hashes)
    pure (WireMessage.chunk_result manifest_id chunks)

  -- The body of the loop over the chunks of a `PushChunks`.
  unfoldable pub store_chunk : Peer → Text → Text → List Text → WireChunk → Exec Node Unit
  store_chunk known stream_id manifest_id allowed chunk = do
    ensure (contains allowed chunk.hash) (fail (codes "chunk is not part of manifest"))
    keys ← gets (λ n. n.keys)
    cleartext ← lift (
        decrypt_chunk x keys known.identity stream_id manifest_id chunk.hash chunk.nonce
          chunk.bytes)
    in_store (put_blob x chunk.hash cleartext)

  unfoldable pub handle_push_chunks : Text → List WireChunk → Exec Node WireMessage
  handle_push_chunks manifest_id chunks = do
    known ← require_sender_paired x sender
    found ← in_store (manifest x manifest_id)
    m ← some_or (fail (codes "unknown manifest")) found
    stream_id ← gets (stream_with sender)
    for_each (store_chunk known stream_id manifest_id (allowed_hashes m)) chunks
    missing ← in_store (missing_chunks manifest_id)
    let total = length m.chunks
    emit (NodeEvent.file_progress manifest_id (usize_sub total (length missing)) total)
    complete ← in_store (refresh_manifest_complete manifest_id)
    if complete then emit (NodeEvent.file_complete manifest_id m.name) else pure tt
    pure (WireMessage.ack manifest_id)

  unfoldable pub handle_message : WireMessage → Exec Node WireMessage
  handle_message WireMessage.hello = pure WireMessage.hello
  handle_message (WireMessage.pair_request pairing_nonce) = handle_pair_request
  handle_message (WireMessage.push_event event) = handle_push_event event
  handle_message (WireMessage.sync_exchange stream_id known_ids incoming) =
      handle_sync_exchange stream_id known_ids incoming
  handle_message (WireMessage.chunk_request manifest_id hashes) =
      handle_chunk_request manifest_id hashes
  handle_message (WireMessage.push_chunks manifest_id chunks) =
      handle_push_chunks manifest_id chunks
  handle_message _ = raise (fail (codes "response message used as a request"))

-- `unwrap_or_else`: an error becomes the body of the answer, a panic ends the task.
abbrev pub answer_error : Result WireMessage × Node → Result WireMessage × Node
answer_error (ok body, n) = (ok body, n)
answer_error (err (fail message), n) = (ok (WireMessage.error message), n)
answer_error (err panic, n) = (err panic, n)

module _ (x : External) where
  -- The answer to a request: the part of `handle_connection` between its two frames.
  unfoldable pub handle_request : WireEnvelope → Exec Node WireEnvelope
  handle_request request = do
    ensure (request.version == protocol_version) (fail (codes "unsupported protocol version"))
    lift (validate_public_identity x request.sender)
    body ← (λ n. answer_error (handle_message x request.sender request.body n))
    me ← gets node_identity
    pure (record { version = protocol_version; sender = me; body = body })

-- A failed connection is reported as an event; a panic ends its task in silence.
abbrev pub report_failure : Result WireEnvelope × Node → Node
report_failure (ok reply, n) = n
report_failure (err (fail message), n) = (emit (NodeEvent.error message) n).1
report_failure (err panic, n) = n

module _ (x : External) where
  -- The accept loop of `start` over the requests of its connections, one after another.
  unfoldable pub serve : List WireEnvelope → Node → Node
  serve [] n = n
  serve (request ∷ rest) n = serve rest (report_failure (handle_request x request n))
