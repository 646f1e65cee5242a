-- ===== src/Files.antt =====
-- core/nexus-core/src/files.rs: a file becomes chunks in the blob store, and chunks become a file.
-- The hasher that is fed piece by piece is the digest of what it was fed, as its crate documents.
pub mod Frame
pub mod Integrity
pub mod Chunks
pub mod RoundTrip
use nexus_p2p.Base.{
  ℕ, ◌+◌, ◌%◌, ◌^◌, Bool, Option, none, some, List, [], ◌∷◌, ◌++◌, ◌==◌, nat_eq, list_eq, length,
  if◌then◌else◌,
}
use nexus_p2p.Base.Dict.{lookup, insert}
use nexus_p2p.Base.Text.{Text, Bytes, codes}
use nexus_p2p.Base.Result.{fail}
use nexus_p2p.Base.Exec.{Exec, pure, gets, modify, ensure, some_or, ◌>>=◌, ◌>>◌}
use nexus_p2p.External.{External, new_ulid}
use nexus_p2p.Model.{ChunkDescriptor, FileManifest, file_chunk_size}
use nexus_p2p.Identity.Local.{Machine, in_store, in_env}
use nexus_p2p.Storage.{Store}
use nexus_p2p.Storage.Path.{file_name, with_extension}
use nexus_p2p.Storage.Blobs.{rename, put_blob, get_blob}
use nexus_p2p.Storage.Manifests.{missing_chunks}

-- The variables of the loop of `ingest_file`; `hashed` is what the hasher was fed.
pub record Ingest : Type 0 where
  pub chunks : List ChunkDescriptor
  pub total : ℕ
  pub hashed : Bytes

-- a write of a whole file
unfoldable pub write_file : Text → Bytes → Exec Store Unit
write_file path bytes = modify (λ s. record s { disk = insert path bytes s.disk })

-- The path that a file is assembled at.
abbrev pub temporary_path : Text → Text
temporary_path destination = with_extension destination (codes "nexus-partial")

-- `unwrap_or("file")`
abbrev name_or_file : Option Text → Text
name_or_file none = codes "file"
name_or_file (some name) = name

module _ (x : External) where
  -- The variables after a chunk, with the casts to `u32` and the sum on `u64`.
  unfoldable pub ingest_chunk : Bytes → Ingest → Ingest
  ingest_chunk buffer state = record {
    chunks =
        state.chunks
        ++ record {
          index = length state.chunks % 2 ^ 32;
          hash = x.hex_encode (x.blake3 buffer);
          size = length buffer % 2 ^ 32;
        }
          ∷ [];
    total = (state.total + length buffer) % 2 ^ 64;
    hashed = state.hashed ++ buffer;
  }

  -- The loop, over what the calls of `read` return; after the last one they return nothing.
  unfoldable pub ingest_reads : List Bytes → Ingest → Exec Store Ingest
  ingest_reads [] state = pure state
  ingest_reads (buffer ∷ reads) state =
      let rest = ingest_reads reads (ingest_chunk buffer state) in
      if length buffer == 0
      then pure state
      else put_blob x (x.hex_encode (x.blake3 buffer)) buffer >> rest

  -- `reads` gives what the calls of `read` return for a content: the system may return less than
  -- the buffer holds. A path is text, so that its name is UTF-8.
  unfoldable pub ingest_file : (Bytes → List Bytes) → Text → Text → Exec Machine FileManifest
  ingest_file reads path media_type = do
    disk ← gets (λ m. m.store.disk)
    content ← some_or x.not_found (lookup path disk)
    state ← in_store (ingest_reads (reads content) (record { chunks = []; total = 0; hashed = [] }))
    id ← in_env new_ulid
    pure (record {
      id = id;
      name = name_or_file (file_name path);
      media_type = media_type;
      size = state.total;
      chunk_size = file_chunk_size;
      chunks = state.chunks;
      file_hash = x.hex_encode (x.blake3 state.hashed);
    })

  -- The loop of `materialize_file`; `written` is what was written before.
  unfoldable pub copy_chunks : Text → Bytes → List ChunkDescriptor → Exec Store Bytes
  copy_chunks temporary written [] = pure written
  copy_chunks temporary written (chunk ∷ chunks) = do
    bytes ← get_blob x chunk.hash
    ensure (length bytes == chunk.size) (fail (codes "stored chunk size mismatch"))
    write_file temporary (written ++ bytes)
    copy_chunks temporary (written ++ bytes) chunks

  unfoldable pub materialize_file : FileManifest → Text → Exec Store Unit
  materialize_file manifest destination = do
    missing ← missing_chunks manifest.id
    ensure (missing == []) (fail (codes "file is not complete"))
    write_file (temporary_path destination) []
    written ← copy_chunks (temporary_path destination) [] manifest.chunks
    ensure (x.hex_encode (x.blake3 written) == manifest.file_hash)
        (fail (codes "assembled file hash mismatch"))
    modify (λ s. record s { disk = rename (temporary_path destination) destination s.disk })
