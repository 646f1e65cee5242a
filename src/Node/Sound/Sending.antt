-- ===== src/Node/Sound/Sending.antt =====
-- `send_text`, `send_file` and `materialize_file` of core/nexus-core/src/node.rs on a sound node.
use nexus_p2p.Base.{ℕ, List}
use nexus_p2p.Base.Text.{Text, Bytes}
use nexus_p2p.Base.Result.{Result}
use nexus_p2p.Base.Exec.{Exec, gets, ◌>>=◌, ◌>>◌}
use nexus_p2p.Base.Exec.Keeps.{Keeps, Keeps-bind, Keeps-then, Keeps-continue}
use nexus_p2p.Crypto.{Identity}
use nexus_p2p.External.{External, IsLawful}
use nexus_p2p.Model.{
  DeviceId, PublicIdentity, PeerEndpoint, Peer, EventKind, EventEnvelope, FileManifest,
  ChunkDescriptor, DecryptedPayload,
}
use nexus_p2p.Protocol.{WireEnvelope}
use nexus_p2p.Crypto.Draws.{create_event}
use nexus_p2p.Files
use nexus_p2p.Files.Frame
use nexus_p2p.Storage.Frame.{save_manifest-OnRows}
use nexus_p2p.Storage.Events.{insert_event}
use nexus_p2p.Storage.Manifests.{save_manifest}
use nexus_p2p.Node.{Node, in_store, in_env, in_machine}
use nexus_p2p.Node.Kept.{
  Invariant, IsKept, in_store-IsKept, in_env-IsKept, insert_event-IsKept, kept_rules,
}
use nexus_p2p.Node.Client.{stream_of, send_text}
use nexus_p2p.Node.Client.Kept.{request-IsKept, require_paired_peer-IsKept}
use nexus_p2p.Node.Client.Files.{seal_blob, push_batch, send_file, materialize_file}
use nexus_p2p.Node.Sound.{sound, created-IsSigned}

module _ (x : External) (I : Invariant x) where
  ingest_file-IsKept :
      (reads : Bytes → List Bytes) (path media_type : Text)
      → Keeps (IsKept x I) (in_machine (Files.ingest_file x reads path media_type))
  unfolding IsKept
  ingest_file-IsKept reads path media_type = record {
    at = λ n h.
        (Frame.ingest_file-OnRows x
            (λ rows peers saved. I.Holds (record {
              rows = rows;
              peers = peers;
              saved = saved;
              keys = n.keys;
              display_name = n.display_name;
            }))
            reads path media_type).at
          n.machine h;
  }

  save_manifest-IsKept :
      (id : DeviceId) (m : FileManifest) → Keeps (IsKept x I) (in_store (save_manifest x id m))
  save_manifest-IsKept id m = in_store-IsKept x I _ (λ R. save_manifest-OnRows x R id m)

  pub materialize_file-IsKept :
      (id destination : Text) → Keeps (IsKept x I) (materialize_file x id destination)
  unfolding materialize_file
  materialize_file-IsKept id destination = search (kept_rules, written) depth 12
    where
      written :
          (m : FileManifest)
          → Keeps (IsKept x I) (in_store (Files.materialize_file x m destination))
      written m = in_store-IsKept x I _ (λ R. Frame.materialize_file-OnRows x R m destination)

module _ (x : External) (law : IsLawful x) (d : Identity)
    (transport : ℕ → PeerEndpoint → WireEnvelope → Result WireEnvelope) where
  -- An event that the node creates may be inserted.
  insert_created :
      {A : Type 0} (id : DeviceId) (i : PublicIdentity) (kind : EventKind)
      (payload : DecryptedPayload) (rest : EventEnvelope → Exec Node A)
      → ((e : EventEnvelope) → Keeps (IsKept x (sound x law d)) (rest e))
      → Keeps (IsKept x (sound x law d)) (
          gets (stream_of id) >>= λ stream_id. gets (λ n. n.keys) >>= λ keys.
          in_env (create_event x keys i stream_id kind payload) >>= λ e.
          in_store (insert_event e) >> rest e)
  unfolding insert_event
  insert_created id i kind payload rest k = record {
    at = λ n h.
        let create = create_event x n.keys i (stream_of id n) kind payload in
        let n' = (in_env create n).1 in
        let h' = (in_env-IsKept x (sound x law d) create).at n h in
        Keeps-continue (IsKept x (sound x law d)) (create n.env).0
          (λ e. in_store (insert_event e) >> rest e) n' h'
          (λ e created. (k e).at (in_store (insert_event e) n').1 (
            insert_event-IsKept x (sound x law d) e n' h'
              (created-IsSigned x law d n i (stream_of id n) kind payload n.env e h created)));
  }

  pub send_text-IsSound :
      (id : DeviceId) (text : Text)
      → Keeps (IsKept x (sound x law d)) (send_text x transport id text)
  unfolding send_text
  send_text-IsSound id text =
      Keeps-bind _ _ (require_paired_peer-IsKept x (sound x law d) transport id) (λ p.
        insert_created id p.identity EventKind.text (DecryptedPayload.text text) _
          (λ e. search (kept_rules, request-IsKept) depth 16))

  seal_blob-IsSound :
      (p : Peer) (stream_id manifest_id : Text) (chunk : ChunkDescriptor)
      → Keeps (IsKept x (sound x law d)) (seal_blob x transport p stream_id manifest_id chunk)
  unfolding seal_blob
  seal_blob-IsSound p stream_id manifest_id chunk = search kept_rules depth 16

  push_batch-IsSound :
      (p : Peer) (id : DeviceId) (manifest_id : Text) (batch : List ChunkDescriptor)
      → Keeps (IsKept x (sound x law d)) (push_batch x transport p id manifest_id batch)
  unfolding push_batch
  push_batch-IsSound p id manifest_id batch =
      search (kept_rules, request-IsKept, seal_blob-IsSound) depth 16

  pub send_file-IsSound :
      (reads : Bytes → List Bytes) (id : DeviceId) (path media_type : Text)
      → Keeps (IsKept x (sound x law d)) (send_file x transport reads id path media_type)
  unfolding send_file
  send_file-IsSound reads id path media_type =
      Keeps-bind _ _ (require_paired_peer-IsKept x (sound x law d) transport id) (λ p.
        Keeps-bind _ _ (ingest_file-IsKept x (sound x law d) reads path media_type) (λ m.
          Keeps-then _ _ (save_manifest-IsKept x (sound x law d) id m) (
            insert_created id p.identity EventKind.file_manifest (DecryptedPayload.file_manifest m)
              _ (λ e. search (kept_rules, request-IsKept, push_batch-IsSound) depth 20))))
