-- ===== src/Storage/Frame.antt =====
-- What the operations of the store on chunks, manifests and files leave alone: the log, the peers
-- and the identity. Each keeps every statement about them.
use nexus_p2p.Base.{arith, Option, none, some, List}
use nexus_p2p.Base.Text.{Text, Bytes}
use nexus_p2p.Base.Exec.{lift}
use nexus_p2p.Base.Exec.Keeps.{Keeps, keeps_rules, Keeps-traverse, Keeps-lift}
use nexus_p2p.External.{External}
use nexus_p2p.Model.{DeviceId, ChunkDescriptor, FileManifest}
use nexus_p2p.Storage.{Store, EventRow, PeerRow, ManifestRow}
use nexus_p2p.Storage.Manifests
use nexus_p2p.Storage.Peers
use nexus_p2p.Storage.Blobs
use nexus_p2p.Storage.Events

-- A statement about the log, the peers and the identity of a store.
abbrev pub OnRows : (List EventRow → List PeerRow → Option (Text × Text) → Type 0) → Store → Type 0
OnRows Q s = Q s.event_rows s.peer_rows s.local_identity

module _ (x : External) (Q : List EventRow → List PeerRow → Option (Text × Text) → Type 0) where
  save_chunk-OnRows :
      (id : Text) (c : ChunkDescriptor) → Keeps (OnRows Q) (Manifests.save_chunk id c)
  unfolding Manifests.save_chunk
  save_chunk-OnRows id c = search keeps_rules

  pub refresh-OnRows : (id : Text) → Keeps (OnRows Q) (Manifests.refresh_manifest_complete id)
  unfolding Manifests.refresh_manifest_complete
  refresh-OnRows id = record { at = λ s h. h }

  save_rows-OnRows :
      (p : DeviceId) (m : FileManifest) → Keeps (OnRows Q) (Manifests.save_rows x p m)
  unfolding Manifests.save_rows
  save_rows-OnRows p m = search (keeps_rules, save_chunk-OnRows) depth 9

  pub save_manifest-OnRows :
      (p : DeviceId) (m : FileManifest) → Keeps (OnRows Q) (Manifests.save_manifest x p m)
  unfolding Manifests.save_manifest
  save_manifest-OnRows p m = search (keeps_rules, save_rows-OnRows, refresh-OnRows) depth 9

  read_row-OnRows : (o : Option PeerRow) → Keeps (OnRows Q) (Peers.read_row x o)
  unfolding Peers.read_row
  read_row-OnRows none = search keeps_rules
  read_row-OnRows (some row) = search keeps_rules

  pub peer-OnRows : (id : DeviceId) → Keeps (OnRows Q) (Peers.peer x id)
  unfolding Peers.peer
  peer-OnRows id = record { at = λ s h. (read_row-OnRows (Peers.find_row id s.peer_rows)).at s h }

  write_if_absent-OnRows :
      (path : Text) (b : Bytes) → Keeps (OnRows Q) (Blobs.write_if_absent path b)
  unfolding Blobs.write_if_absent
  write_if_absent-OnRows path b = record { at = λ s h. ground arith }

  mark-OnRows : (hash : Text) → Keeps (OnRows Q) (Blobs.mark_chunk_present hash)
  unfolding Blobs.mark_chunk_present
  mark-OnRows hash = search keeps_rules

  pub put_blob-OnRows : (hash : Text) (b : Bytes) → Keeps (OnRows Q) (Blobs.put_blob x hash b)
  unfolding Blobs.put_blob
  put_blob-OnRows hash b = search (keeps_rules, write_if_absent-OnRows, mark-OnRows) depth 9

  pub get_blob-OnRows : (hash : Text) → Keeps (OnRows Q) (Blobs.get_blob x hash)
  unfolding Blobs.get_blob
  get_blob-OnRows hash = search keeps_rules depth 9

  read_manifest-OnRows : (o : Option ManifestRow) → Keeps (OnRows Q) (Manifests.read_manifest x o)
  unfolding Manifests.read_manifest
  read_manifest-OnRows none = search keeps_rules
  read_manifest-OnRows (some row) = search keeps_rules

  pub manifest-OnRows : (id : Text) → Keeps (OnRows Q) (Manifests.manifest x id)
  unfolding Manifests.manifest
  manifest-OnRows id = record { at = λ s h. (read_manifest-OnRows _).at s h }

  pub missing_chunks-OnRows : (id : Text) → Keeps (OnRows Q) (Manifests.missing_chunks id)
  unfolding Manifests.missing_chunks
  missing_chunks-OnRows id = search keeps_rules

  pub events-OnRows : (stream_id : Text) → Keeps (OnRows Q) (Events.events x stream_id)
  unfolding Events.events
  events-OnRows stream_id = record {
    at = λ s h.
        (Keeps-traverse {P = OnRows Q} (λ row. lift (Events.event_of_row x stream_id row))
            (Events.select_events stream_id s.event_rows)
            (λ row. Keeps-lift (Events.event_of_row x stream_id row))).at
          s h;
  }

  pub event_ids-OnRows : (stream_id : Text) → Keeps (OnRows Q) (Events.event_ids x stream_id)
  unfolding Events.event_ids
  event_ids-OnRows stream_id = search (keeps_rules, events-OnRows)

  pub incomplete_manifests-OnRows :
      (p : DeviceId) → Keeps (OnRows Q) (Manifests.incomplete_manifests_for_peer x p)
  unfolding Manifests.incomplete_manifests_for_peer
  incomplete_manifests-OnRows p = search keeps_rules
