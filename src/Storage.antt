-- ===== src/Storage.antt =====
-- The state of core/nexus-core/src/storage.rs: the five tables of the database and the files of the
-- disk. A statement of SQL is a function on a table, in the order of insertion. Statements and
-- file operations succeed, but for the read of a file that is not there: faults of the disk are
-- not modelled.
pub mod Path
pub mod Identities
pub mod Peers
pub mod Events
pub mod Blobs
pub mod Manifests
pub mod Frame
pub mod Open
use nexus_p2p.Base.{ℕ, Option, List}
use nexus_p2p.Base.Int.{ℤ}
use nexus_p2p.Base.Dict.{Dict}
use nexus_p2p.Base.Text.{Text, Bytes}

-- table `peers`
pub record PeerRow : Type 0 where
  pub device_id : Text
  pub identity_json : Text
  pub paired : ℕ
  pub host : Option Text
  pub port : Option ℕ
  pub last_seen_ms : ℤ

-- table `events`
pub record EventRow : Type 0 where
  pub id : Text
  pub stream_id : Text
  pub author : Text
  pub created_at_ms : ℤ
  pub kind : ℤ
  pub nonce : Bytes
  pub ciphertext : Bytes
  pub signature : Bytes

-- table `manifests`
pub record ManifestRow : Type 0 where
  pub id : Text
  pub peer_id : Text
  pub manifest_json : Text
  pub complete : ℕ

-- table `manifest_chunks`
pub record ChunkRow : Type 0 where
  pub manifest_id : Text
  pub chunk_index : ℕ
  pub hash : Text
  pub present : ℕ

pub record Store : Type 0 where
  pub local_identity : Option (Text × Text)
  pub peer_rows : List PeerRow
  pub event_rows : List EventRow
  pub manifest_rows : List ManifestRow
  pub chunk_rows : List ChunkRow
  pub disk : Dict Text Bytes
  pub blob_dir : Text
