-- ===== src/Node/Client/Files.antt =====
-- `send_file`, `materialize_file` and `resume_files` of core/nexus-core/src/node.rs.
pub mod Batches
use nexus_p2p.Base.{
  ℕ, zero, suc, Bool, true, false, not, List, [], ◌∷◌, ◌==◌, nat_eq, list_eq, length, take, drop,
  if◌then◌else◌,
}
use nexus_p2p.Base.Text.{Text, Bytes, codes}
use nexus_p2p.Base.Result.{fail, Result}
use nexus_p2p.Base.Exec.{
  Exec, pure, raise, lift, gets, ensure, some_or, traverse, for_each, ◌>>=◌, ◌>>◌,
}
use nexus_p2p.External.{External}
use nexus_p2p.Model.{
  DeviceId, PeerEndpoint, Peer, EventKind, FileManifest, ChunkDescriptor, DecryptedPayload,
  ChatItem,
}
use nexus_p2p.Protocol.{WireChunk, WireMessage, WireEnvelope}
use nexus_p2p.Crypto.{decrypt_chunk}
use nexus_p2p.Crypto.Draws.{create_event, encrypt_chunk}
use nexus_p2p.Files
use nexus_p2p.Files.{ingest_file}
use nexus_p2p.Storage.Events.{insert_event}
use nexus_p2p.Storage.Blobs.{put_blob, get_blob}
use nexus_p2p.Storage.Manifests.{
  save_manifest, manifest, missing_chunks, refresh_manifest_complete, incomplete_manifests_for_peer,
}
use nexus_p2p.Node.{
  Node, NodeEvent, in_store, in_env, in_machine, emit, usize_sub, chat_item, require_paired_peer,
}
use nexus_p2p.Node.Client.{stream_of, matches_ack, request}

-- `chunks(16)`; the fuel is the length of the list.
batches_of : {A : Type 0} → ℕ → List A → List (List A)
batches_of zero xs = []
batches_of (suc fuel) [] = []
batches_of (suc fuel) (x ∷ xs) = take 16 (x ∷ xs) ∷ batches_of fuel (drop 16 (x ∷ xs))

unfoldable pub batches : {A : Type 0} → List A → List (List A)
unfolding batches_of
batches xs = batches_of (length xs) xs

abbrev pub is_ack : WireMessage → Bool
is_ack (WireMessage.ack id) = true
is_ack _ = false

module _ (x : External) where
  unfoldable pub materialize_file : Text → Text → Exec Node Unit
  materialize_file manifest_id destination = do
    found ← in_store (manifest x manifest_id)
    m ← some_or (fail (codes "unknown file manifest")) found
    in_store (Files.materialize_file x m destination)

module _ (x : External) (transport : ℕ → PeerEndpoint → WireEnvelope → Result WireEnvelope) where
  -- The closure over the chunks of a batch.
  unfoldable pub seal_blob : Peer → Text → Text → ChunkDescriptor → Exec Node WireChunk
  seal_blob p stream_id manifest_id chunk = do
    blob ← in_store (get_blob x chunk.hash)
    keys ← gets (λ n. n.keys)
    (nonce, bytes) ← in_env (encrypt_chunk x keys p.identity stream_id manifest_id chunk.hash blob)
    pure (record { hash = chunk.hash; nonce = nonce; bytes = bytes })

  -- The body of the loop over the batches.
  unfoldable pub push_batch : Peer → DeviceId → Text → List ChunkDescriptor → Exec Node Unit
  push_batch p peer_id manifest_id batch = do
    stream_id ← gets (stream_of peer_id)
    chunks ← traverse (seal_blob p stream_id manifest_id) batch
    response ← request x transport p (WireMessage.push_chunks manifest_id chunks)
    ensure (is_ack response.body) (fail (codes "file chunks were not acknowledged"))

  -- `reads` is that of `ingest_file`.
  unfoldable pub send_file : (Bytes → List Bytes) → DeviceId → Text → Text → Exec Node ChatItem
  send_file reads peer_id path media_type = do
    p ← require_paired_peer x peer_id
    m ← in_machine (ingest_file x reads path media_type)
    in_store (save_manifest x peer_id m)
    stream_id ← gets (stream_of peer_id)
    keys ← gets (λ n. n.keys)
    event ← in_env (
        create_event x keys p.identity stream_id EventKind.file_manifest
          (DecryptedPayload.file_manifest m))
    in_store (insert_event event)
    response ← request x transport p (WireMessage.push_event event)
    ensure (matches_ack event.id response.body) (fail (codes "file manifest was not acknowledged"))
    for_each (push_batch p peer_id m.id) (batches m.chunks)
    chat_item x p.identity event

  unfoldable pub received_chunks : WireMessage → Exec Node (Text × List WireChunk)
  received_chunks (WireMessage.chunk_result manifest_id chunks) = pure (manifest_id, chunks)
  received_chunks _ = raise (fail (codes "unexpected chunk response"))

  -- The body of the loop over the chunks of an answer.
  unfoldable pub receive_chunk : Peer → Text → Text → WireChunk → Exec Node Unit
  receive_chunk p stream_id manifest_id chunk = do
    keys ← gets (λ n. n.keys)
    cleartext ←
        lift
          (decrypt_chunk x keys p.identity stream_id manifest_id chunk.hash chunk.nonce chunk.bytes)
    in_store (put_blob x chunk.hash cleartext)

  -- A turn of the inner loop after the match on its answer.
  unfoldable pub take_chunks : Peer → FileManifest → Text × List WireChunk → Exec Node Unit
  take_chunks p m (manifest_id, chunks) = do
    ensure (manifest_id == m.id) (fail (codes "manifest response mismatch"))
    ensure (not (length chunks == 0)) (fail (codes "peer returned no chunks"))
    stream_id ← gets (stream_of p.identity.device_id)
    for_each (receive_chunk p stream_id manifest_id) chunks
    remaining ← in_store (missing_chunks m.id)
    let total = length m.chunks
    emit (NodeEvent.file_progress m.id (usize_sub total (length remaining)) total)

  -- A turn of the inner loop over some missing chunks.
  unfoldable pub fetch_chunks : Peer → FileManifest → List Text → Exec Node Unit
  fetch_chunks p m missing = do
    response ← request x transport p (WireMessage.chunk_request m.id (take 16 missing))
    answer ← received_chunks response.body
    take_chunks p m answer

  -- The inner loop, for as many turns as there is fuel; `false` is a loop that still runs.
  unfoldable pub fetch_all : ℕ → Peer → FileManifest → Exec Node Bool
  fetch_all zero p m = pure false
  fetch_all (suc fuel) p m =
      let rest = fetch_all fuel p m in
      (do
        missing ← in_store (missing_chunks m.id)
        if length missing == 0 then pure true else fetch_chunks p m missing >> rest)

  -- What follows the inner loop.
  unfoldable pub finish_file : FileManifest → Exec Node Unit
  finish_file m = do
    complete ← in_store (refresh_manifest_complete m.id)
    if complete then emit (NodeEvent.file_complete m.id m.name) else pure tt

  unfoldable pub resume_all : ℕ → Peer → List FileManifest → Exec Node Bool
  resume_all fuel p [] = pure true
  resume_all fuel p (m ∷ ms) =
      let rest = resume_all fuel p ms in
      (do ended ← fetch_all fuel p m; if ended then finish_file m >> rest else pure false)

  unfoldable pub resume_files : ℕ → Peer → Exec Node Bool
  resume_files fuel p = do
    ms ← in_store (incomplete_manifests_for_peer x p.identity.device_id)
    resume_all fuel p ms
