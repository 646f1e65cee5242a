-- ===== src/Files/Frame.antt =====
-- What `ingest_file` and `materialize_file` of core/nexus-core/src/files.rs leave alone: the log, the
-- peers and the identity.
use nexus_p2p.Base.{Option, List, [], ◌∷◌, ◌++◌, length, ◌==◌, nat_eq}
use nexus_p2p.Base.Text.{Text, Bytes}
use nexus_p2p.Base.Exec.Keeps.{
  Keeps, Keeps-if, Keeps-pure, Keeps-then, Keeps-bind, Keeps-ensure, keeps_rules,
}
use nexus_p2p.External.{External, new_ulid}
use nexus_p2p.Model.{FileManifest, ChunkDescriptor}
use nexus_p2p.Identity.Local.{Machine, in_store, in_env}
use nexus_p2p.Storage.{EventRow, PeerRow}
use nexus_p2p.Storage.Frame.{OnRows, put_blob-OnRows, get_blob-OnRows, missing_chunks-OnRows}
use nexus_p2p.Files.{Ingest, ingest_reads, ingest_file, write_file, copy_chunks, materialize_file}

module _ (x : External) (Q : List EventRow → List PeerRow → Option (Text × Text) → Type 0) where
  ingest_reads-OnRows :
      (reads : List Bytes) (state : Ingest) → Keeps (OnRows Q) (ingest_reads x reads state)
  unfolding ingest_reads
  ingest_reads-OnRows [] state = Keeps-pure state
  ingest_reads-OnRows (buffer ∷ reads) state =
      Keeps-if (length buffer == 0) _ _ (Keeps-pure state)
        (Keeps-then _ _ (put_blob-OnRows x Q _ buffer) (ingest_reads-OnRows reads _))

  reads_in_store :
      (reads : List Bytes) (state : Ingest)
      → Keeps (λ (m : Machine). OnRows Q m.store) (in_store (ingest_reads x reads state))
  reads_in_store reads state = record { at = λ m h. (ingest_reads-OnRows reads state).at m.store h }

  ulid_in_env : Keeps (λ (m : Machine). OnRows Q m.store) (in_env new_ulid)
  ulid_in_env = record { at = λ m h. h }

  pub ingest_file-OnRows :
      (reads : Bytes → List Bytes) (path media_type : Text)
      → Keeps (λ (m : Machine). OnRows Q m.store) (ingest_file x reads path media_type)
  unfolding ingest_file
  ingest_file-OnRows reads path media_type =
      search (keeps_rules, reads_in_store, ulid_in_env) depth 12

  write_file-OnRows : (path : Text) (b : Bytes) → Keeps (OnRows Q) (write_file path b)
  unfolding write_file
  write_file-OnRows path b = search keeps_rules

  copy_chunks-OnRows :
      (path : Text) (written : Bytes) (chunks : List ChunkDescriptor)
      → Keeps (OnRows Q) (copy_chunks x path written chunks)
  unfolding copy_chunks
  copy_chunks-OnRows path written [] = Keeps-pure written
  copy_chunks-OnRows path written (chunk ∷ chunks) =
      Keeps-bind _ _ (get_blob-OnRows x Q chunk.hash) (λ bytes. Keeps-then _ _ (Keeps-ensure _ _) (
        Keeps-then _ _ (write_file-OnRows path _)
          (copy_chunks-OnRows path (written ++ bytes) chunks)))

  pub materialize_file-OnRows :
      (m : FileManifest) (path : Text) → Keeps (OnRows Q) (materialize_file x m path)
  unfolding materialize_file
  materialize_file-OnRows m path =
      search (keeps_rules, write_file-OnRows, copy_chunks-OnRows, missing_chunks-OnRows) depth 12
