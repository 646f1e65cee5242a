-- ===== src/Storage/Open.antt =====
-- `Store::open` of core/nexus-core/src/storage.rs, over what the disk holds: the files, and the tables
-- of each database file. Directories are made where they are not there, and the settings of SQLite are
-- not modelled.
use nexus_p2p.Base.{◌≡◌, ◌∙◌, Option, none, some, List, [], ==-refl, list_eq, nat_eq}
use nexus_p2p.Base.Dict.{Dict, lookup, insert, lookup-insert}
use nexus_p2p.Base.Text.{Text, Bytes, codes}
use nexus_p2p.Storage.{Store, PeerRow, EventRow, ManifestRow, ChunkRow}
use nexus_p2p.Storage.Path.{join}

-- what the database file holds
pub record Tables : Type 0 where
  pub local_identity : Option (Text × Text)
  pub peer_rows : List PeerRow
  pub event_rows : List EventRow
  pub manifest_rows : List ManifestRow
  pub chunk_rows : List ChunkRow

pub record Disk : Type 0 where
  pub files : Dict Text Bytes
  pub databases : Dict Text Tables

-- `data_dir.join("nexus.db")`
abbrev pub database_path : Text → Text
database_path data_dir = join data_dir (codes "nexus.db")

-- `CREATE TABLE IF NOT EXISTS`: tables that are there stay as they are.
abbrev created_tables : Option Tables → Tables
created_tables (some tables) = tables
created_tables none = record {
  local_identity = none;
  peer_rows = [];
  event_rows = [];
  manifest_rows = [];
  chunk_rows = [];
}

abbrev store_of : Tables → Dict Text Bytes → Text → Store
store_of tables files blob_dir = record {
  local_identity = tables.local_identity;
  peer_rows = tables.peer_rows;
  event_rows = tables.event_rows;
  manifest_rows = tables.manifest_rows;
  chunk_rows = tables.chunk_rows;
  disk = files;
  blob_dir = blob_dir;
}

unfoldable pub open_store : Text → Disk → Store
open_store data_dir disk =
    store_of (created_tables (lookup (database_path data_dir) disk.databases)) disk.files
      (join data_dir (codes "blobs"))

-- what is on the disk when the process ends
abbrev tables_of : Store → Tables
tables_of s = record {
  local_identity = s.local_identity;
  peer_rows = s.peer_rows;
  event_rows = s.event_rows;
  manifest_rows = s.manifest_rows;
  chunk_rows = s.chunk_rows;
}

abbrev pub left : Text → Store → Disk → Disk
left data_dir s disk = record {
  files = s.disk;
  databases = insert (database_path data_dir) (tables_of s) disk.databases;
}

-- What a store leaves on the disk is what the next open finds.
pub open_store-left :
    (data_dir : Text) (s : Store) (disk : Disk)
    → s.blob_dir ≡ join data_dir (codes "blobs")
    → open_store data_dir (left data_dir s disk) ≡ s
unfolding open_store
open_store-left data_dir s disk h =
    let path = database_path data_dir in
    let found : lookup path (insert path (tables_of s) disk.databases) ≡ some (tables_of s) =
      lookup-insert path path (tables_of s) disk.databases ∙ rw (==-refl path) in
    rw (found, ← h)
