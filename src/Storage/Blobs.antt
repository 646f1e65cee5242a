-- ===== src/Storage/Blobs.antt =====
-- The content-addressed files: `put_blob`, `get_blob` and `mark_chunk_present` of
-- core/nexus-core/src/storage.rs. Directories are not modelled; a rename replaces its target.
pub mod Integrity
pub mod Retrieval
use nexus_p2p.Base.{
  Bool, true, false, Option, none, some, List, map, ◌==◌, nat_eq, list_eq, if◌then◌else◌,
}
use nexus_p2p.Base.Dict.{Dict, lookup, insert, erase}
use nexus_p2p.Base.Text.{Text, Bytes, codes}
use nexus_p2p.Base.Result.{fail, ok}
use nexus_p2p.Base.Exec.{Exec, pure, lift, gets, modify, ensure, some_or, ◌>>=◌, ◌>>◌}
use nexus_p2p.External.{External}
use nexus_p2p.Storage.{Store, ChunkRow}
use nexus_p2p.Storage.Path.{blob_path, with_extension}

-- `Path::exists`
abbrev pub exists : Dict Text Bytes → Text → Bool
exists disk path = elim (lookup path disk) [ none ↦ false | some _ ↦ true ]

-- `std::fs::rename`
abbrev pub rename : Text → Text → Dict Text Bytes → Dict Text Bytes
rename from to disk = elim (lookup from disk) [
  | none ↦ disk
  | some bytes ↦ insert to bytes (erase from disk)
]

-- the write to a temporary file and the rename
unfoldable pub place : Text → Bytes → Dict Text Bytes → Dict Text Bytes
place path bytes disk =
    let temporary = with_extension path (codes "partial") in
    rename temporary path (insert temporary bytes disk)

unfoldable pub mark_row : Text → ChunkRow → ChunkRow
mark_row hash row = if row.hash == hash then record row { present = 1 } else row

-- `UPDATE manifest_chunks SET present=1 WHERE hash=?1`
unfoldable pub mark_rows : Text → List ChunkRow → List ChunkRow
unfolding mark_row
mark_rows hash = map (mark_row hash)

unfoldable pub mark_chunk_present : Text → Exec Store Unit
mark_chunk_present hash = modify (λ s. record s { chunk_rows = mark_rows hash s.chunk_rows })

unfoldable pub write_if_absent : Text → Bytes → Exec Store Unit
write_if_absent path bytes s =
    if exists s.disk path then (ok tt, s) else (ok tt, record s { disk = place path bytes s.disk })

module _ (x : External) where
  unfoldable pub put_blob : Text → Bytes → Exec Store Unit
  put_blob expected_hash bytes = do
    ensure (x.hex_encode (x.blake3 bytes) == expected_hash) (fail (codes "chunk hash mismatch"))
    blob_dir ← gets (λ s. s.blob_dir)
    path ← lift (blob_path blob_dir expected_hash)
    write_if_absent path bytes
    mark_chunk_present expected_hash

  -- `std::fs::read` of a file that is not there reports `not_found`.
  unfoldable pub get_blob : Text → Exec Store Bytes
  get_blob hash = do
    blob_dir ← gets (λ s. s.blob_dir)
    path ← lift (blob_path blob_dir hash)
    disk ← gets (λ s. s.disk)
    some_or x.not_found (lookup path disk)
