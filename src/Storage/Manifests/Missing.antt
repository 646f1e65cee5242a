-- ===== src/Storage/Manifests/Missing.antt =====
-- The chunks that a manifest misses, and what `put_blob` of core/nexus-core/src/storage.rs does to
-- them.
use nexus_p2p.Base.{
  ℕ, suc, ◌≤◌, ◌≡◌, refl, ap, inl, inr, Bool, true, false, List, [], ◌∷◌, arith, All, Bool-cases,
  Option-cases, ◌==◌, ◌&&◌, ◌||◌, nat_eq, list_eq, leb, length, map,
}
use nexus_p2p.Base.Dict.{lookup}
use nexus_p2p.Base.Sort.{sort_by, All-sort_by}
use nexus_p2p.Base.Text.{Text, Bytes}
use nexus_p2p.Base.Result.{ok, Result-cases}
use nexus_p2p.External.{External}
use nexus_p2p.Storage.{Store, ChunkRow}
use nexus_p2p.Storage.Path.{blob_path}
use nexus_p2p.Storage.Blobs.{mark_row, mark_rows, put_blob, write_if_absent, mark_chunk_present}
use nexus_p2p.Storage.Manifests.{missing_rows, missing_chunks}

-- the number of chunks that a manifest misses
abbrev pub missing_count : Text → Store → ℕ
missing_count id s = length (missing_rows id s.chunk_rows)

-- A row of the manifest with the hash has no blob.
abbrev pub misses : Text → Text → List ChunkRow → Bool
misses id hash [] = false
misses id hash (row ∷ rows) =
    (row.manifest_id == id && row.present == 0 && row.hash == hash) || misses id hash rows

pub chunk_rows_length :
    (hash : Text) (rows : List ChunkRow) → length (mark_rows hash rows) ≡ length rows
unfolding mark_rows
chunk_rows_length hash [] = refl
chunk_rows_length hash (row ∷ rows) = ap suc (chunk_rows_length hash rows)

pub missing_rows-le :
    (id : Text) (rows : List ChunkRow) → length (missing_rows id rows) ≤ length rows
unfolding missing_rows
missing_rows-le id [] = omega arith
missing_rows-le id (row ∷ rows) = ground (arith, missing_rows-le id rows)

pub length-mark_rows :
    (id hash : Text) (rows : List ChunkRow)
    → length (missing_rows id (mark_rows hash rows)) ≤ length (missing_rows id rows)
unfolding missing_rows mark_rows mark_row
length-mark_rows id hash [] = omega arith
length-mark_rows id hash (row ∷ rows) = ground (arith, length-mark_rows id hash rows)

pub length-mark_rows_missing :
    (id hash : Text) (rows : List ChunkRow)
    → misses id hash rows ≡ true
    → suc (length (missing_rows id (mark_rows hash rows))) ≤ length (missing_rows id rows)
unfolding missing_rows mark_rows mark_row
length-mark_rows_missing id hash [] h = absurd (ground arith)
length-mark_rows_missing id hash (row ∷ rows) h =
    ground (arith, length-mark_rows id hash rows, length-mark_rows_missing id hash rows)

-- what one row adds
missing_rows-misses :
    (id : Text) (rows all : List ChunkRow)
    → ((hash : Text) → misses id hash rows ≡ true → misses id hash all ≡ true)
    → All (λ (row : ChunkRow). misses id row.hash all ≡ true) (missing_rows id rows)
unfolding missing_rows
missing_rows-misses id [] all f = tt
missing_rows-misses id (row ∷ rows) all f =
    let rest = missing_rows-misses id rows all (λ hash e. f hash (ground (arith, e))) in
    elim (Bool-cases (row.manifest_id == id && row.present == 0)) [
      | inl t ↦ rw t (f row.hash (ground (arith, t)), rest)
      | inr t ↦ rw t rest
    ]

All-hashes :
    (Q : Text → Type 0) (rows : List ChunkRow)
    → All (λ (row : ChunkRow). Q row.hash) rows
    → All Q (map (λ (row : ChunkRow). row.hash) rows)
All-hashes Q [] h = tt
All-hashes Q (row ∷ rows) h = (h.0, All-hashes Q rows h.1)

-- What is listed is missing.
pub missing_chunks-misses :
    (id : Text) (s : Store)
    → (hashes : List Text) × (missing_chunks id s ≡ (ok hashes, s))
      × All (λ hash. misses id hash s.chunk_rows ≡ true) hashes
unfolding missing_chunks
missing_chunks-misses id s = (
  map (λ (row : ChunkRow). row.hash)
      (sort_by (λ (a b : ChunkRow). leb a.chunk_index b.chunk_index)
        (missing_rows id s.chunk_rows)),
  refl,
  All-hashes _ _
      (All-sort_by _ _ _ (missing_rows-misses id s.chunk_rows s.chunk_rows (λ hash e. e))),
)

module _ (x : External) (hash : Text) (bytes : Bytes) (s : Store) where
  -- A `put_blob` that succeeds marks the rows of its hash.
  pub chunk_rows-put_blob :
      (t : Store)
      → put_blob x hash bytes s ≡ (ok tt, t)
      → t.chunk_rows ≡ mark_rows hash s.chunk_rows
  unfolding put_blob write_if_absent mark_chunk_present
  chunk_rows-put_blob t h = elim (Bool-cases (x.hex_encode (x.blake3 bytes) == hash)) [
    | inr e ↦ absurd (ground (arith, e))
    | inl e ↦ elim (Result-cases (blob_path s.blob_dir hash)) [
      | inr (er, p) ↦ absurd (ground (arith, e, p))
      | inl (path, p) ↦ elim (Option-cases (lookup path s.disk)) [
        | inl f ↦ ground (arith, e, p, f)
        | inr (c, f) ↦ ground (arith, e, p, f)
      ]
    ]
  ]
