-- ===== src/Storage/Manifests.antt =====
-- The tables `manifests` and `manifest_chunks`: `save_manifest`, `manifest`, `missing_chunks`,
-- `refresh_manifest_complete` and `incomplete_manifests_for_peer` of
-- core/nexus-core/src/storage.rs.
pub mod Missing
use nexus_p2p.Base.{
  ℕ, Bool, false, Option, none, some, List, [], ◌∷◌, ◌++◌, map, ◌==◌, ◌&&◌, ◌||◌, nat_eq, list_eq,
  leb, filter, find?, length, contains, if◌then◌else◌,
}
use nexus_p2p.Base.Sort.{sort_by}
use nexus_p2p.Base.Text.{Text}
use nexus_p2p.Base.Result.{ok}
use nexus_p2p.Base.Exec.{
  Exec, pure, lift, gets, modify, traverse, for_each, transaction, ◌>>=◌, ◌>>◌,
}
use nexus_p2p.External.{External}
use nexus_p2p.Model.{DeviceId, ChunkDescriptor, FileManifest}
use nexus_p2p.Storage.{Store, ManifestRow, ChunkRow}
use nexus_p2p.Storage.Path.{blob_path}
use nexus_p2p.Storage.Blobs.{exists}
use nexus_p2p.Storage.Peers.{from_bool}

-- `INSERT OR IGNORE INTO manifests`
unfoldable pub insert_manifest_row : ManifestRow → List ManifestRow → List ManifestRow
insert_manifest_row row rows =
    if contains (map (λ old. old.id) rows) row.id then rows else rows ++ row ∷ []

-- the primary key `(manifest_id, chunk_index)`
unfoldable pub has_chunk : Text → ℕ → List ChunkRow → Bool
has_chunk id index [] = false
has_chunk id index (row ∷ rows) =
    (row.manifest_id == id && row.chunk_index == index) || has_chunk id index rows

-- `INSERT OR IGNORE INTO manifest_chunks`
unfoldable pub insert_chunk_row : ChunkRow → List ChunkRow → List ChunkRow
insert_chunk_row row rows =
    if has_chunk row.manifest_id row.chunk_index rows then rows else rows ++ row ∷ []

-- The body of the loop of `save_manifest`.
unfoldable pub save_chunk : Text → ChunkDescriptor → Exec Store Unit
save_chunk manifest_id chunk = do
  blob_dir ← gets (λ s. s.blob_dir)
  path ← lift (blob_path blob_dir chunk.hash)
  modify (λ s. record s {
    chunk_rows =
        insert_chunk_row
          (record {
            manifest_id = manifest_id;
            chunk_index = chunk.index;
            hash = chunk.hash;
            present = from_bool (exists s.disk path);
          })
          s.chunk_rows;
  })

-- the rows of a manifest with `present=0`
unfoldable pub missing_rows : Text → List ChunkRow → List ChunkRow
missing_rows id = filter (λ row. row.manifest_id == id && row.present == 0)

unfoldable pub missing_chunks : Text → Exec Store (List Text)
missing_chunks id = gets (λ s.
    map (λ row. row.hash)
      (sort_by (λ (a b : ChunkRow). leb a.chunk_index b.chunk_index)
        (missing_rows id s.chunk_rows)))

set_complete : Text → ℕ → ManifestRow → ManifestRow
set_complete id complete row = if row.id == id then record row { complete = complete } else row

-- `UPDATE manifests SET complete=?2 WHERE id=?1`
unfoldable pub set_complete_rows : Text → ℕ → List ManifestRow → List ManifestRow
unfolding set_complete
set_complete_rows id complete = map (set_complete id complete)

unfoldable pub refresh_manifest_complete : Text → Exec Store Bool
refresh_manifest_complete id s =
    let complete = length (missing_rows id s.chunk_rows) == 0 in
    (
      ok complete,
      record s { manifest_rows = set_complete_rows id (from_bool complete) s.manifest_rows },
    )

module _ (x : External) where
  -- The statements of the transaction.
  unfoldable pub save_rows : DeviceId → FileManifest → Exec Store Unit
  save_rows peer manifest = do
    manifest_json ← lift (x.manifest_to_json manifest)
    modify (λ s. record s {
      manifest_rows =
          insert_manifest_row
            (record {
              id = manifest.id;
              peer_id = peer;
              manifest_json = manifest_json;
              complete = 0;
            })
            s.manifest_rows;
    })
    for_each (save_chunk manifest.id) manifest.chunks

  unfoldable pub save_manifest : DeviceId → FileManifest → Exec Store Unit
  save_manifest peer manifest = do
    transaction (save_rows peer manifest)
    refresh_manifest_complete manifest.id
    pure tt

  unfoldable pub read_manifest : Option ManifestRow → Exec Store (Option FileManifest)
  read_manifest none = pure none
  read_manifest (some row) = do
    manifest ← lift (x.manifest_from_json row.manifest_json)
    pure (some manifest)

  unfoldable pub manifest : Text → Exec Store (Option FileManifest)
  unfolding read_manifest
  manifest id s = read_manifest (find? (λ row. row.id == id) s.manifest_rows) s

  unfoldable pub incomplete_manifests_for_peer : DeviceId → Exec Store (List FileManifest)
  incomplete_manifests_for_peer peer = do
    jsons ← gets (λ s.
        map (λ row. row.manifest_json)
          (filter (λ row. row.peer_id == peer && row.complete == 0) s.manifest_rows))
    traverse (λ json. lift (x.manifest_from_json json)) jsons
