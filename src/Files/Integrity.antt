-- ===== src/Files/Integrity.antt =====
-- A materialized file has the content that its manifest's hash names, and a failure spares every
-- other file.
use nexus_p2p.Base.{
  ◌≡◌, ◌≢◌, refl, sym, ap, ◌∙◌, ◌⊎◌, inl, inr, false, some, List, [], ◌∷◌, ◌++◌, arith, Bool-cases,
  Option-cases, ◌==◌, list_eq, nat_eq, ==-true, ==-ne, ==-refl, length, map, leb,
}
use nexus_p2p.Base.Dict.{Dict, lookup, insert, erase, lookup-insert, lookup-erase}
use nexus_p2p.Base.Text.{Text, Bytes, codes}
use nexus_p2p.Base.Result.{Error, fail, Result, ok, err, Result-cases}
use nexus_p2p.External.{External}
use nexus_p2p.Model.{ChunkDescriptor, FileManifest}
use nexus_p2p.Base.Sort.{sort_by}
use nexus_p2p.Storage.{Store, ChunkRow}
use nexus_p2p.Storage.Blobs.{get_blob, rename}
use nexus_p2p.Storage.Manifests.{missing_rows, missing_chunks}
use nexus_p2p.Files.{write_file, temporary_path, copy_chunks, materialize_file}

module _ (x : External) where
  get_blob_state : (hash : Text) (s : Store) → (get_blob x hash s).1 ≡ s
  unfolding get_blob
  get_blob_state hash s = ground arith

  -- A turn of the loop fails with nothing changed, or writes the chunk and goes on.
  copy_chunks-cons :
      (temporary : Text) (written : Bytes) (chunk : ChunkDescriptor) (chunks : List ChunkDescriptor)
      (s : Store)
      → ((e : Error) × (copy_chunks x temporary written (chunk ∷ chunks) s ≡ (err e, s)))
        ⊎ ((bytes : Bytes) × (copy_chunks x temporary written (chunk ∷ chunks) s
              ≡ copy_chunks x temporary
                  (written ++ bytes)
                  chunks
                  (record s { disk = insert temporary (written ++ bytes) s.disk })))
  unfolding copy_chunks write_file
  copy_chunks-cons temporary written chunk chunks s =
      let same = get_blob_state chunk.hash s in
      elim (Result-cases (get_blob x chunk.hash s).0) [
        | inr (e, b) ↦ inl (e, rw (b, same) refl)
        | inl (bytes, b) ↦ elim (Bool-cases (length bytes == chunk.size)) [
          | inr n ↦ inl (fail (codes "stored chunk size mismatch"), rw (b, n, same) refl)
          | inl n ↦ inr (bytes, rw (b, n, same) refl)
        ]
      ]

  pub lookup_inserted :
      (path : Text) (bytes : Bytes) (disk : Dict Text Bytes)
      → lookup path (insert path bytes disk) ≡ some bytes
  lookup_inserted path bytes disk = lookup-insert path path bytes disk ∙ rw (==-refl path)

  pub lookup_other :
      (j path : Text) (bytes : Bytes) (disk : Dict Text Bytes)
      → (j == path) ≡ false
      → lookup j (insert path bytes disk) ≡ lookup j disk
  lookup_other j path bytes disk n = lookup-insert j path bytes disk ∙ rw n

  -- The loop leaves the temporary file with all that it has written.
  pub copy_chunks-writes :
      (temporary : Text) (written : Bytes) (chunks : List ChunkDescriptor) (s t : Store)
      {all : Bytes}
      → lookup temporary s.disk ≡ some written
      → copy_chunks x temporary written chunks s ≡ (ok all, t)
      → lookup temporary t.disk ≡ some all
  unfolding copy_chunks
  copy_chunks-writes temporary written [] s t h e = ground arith
  copy_chunks-writes temporary written (chunk ∷ chunks) s t h e =
      elim (copy_chunks-cons temporary written chunk chunks s) [
        | inl (er, f) ↦ absurd (cc)
        | inr (bytes, f) ↦
            copy_chunks-writes temporary (written ++ bytes) chunks _ t
              (lookup_inserted temporary (written ++ bytes) s.disk) (sym f ∙ e)
      ]

  -- The loop changes no file but the temporary one.
  copy_chunks-spares :
      (temporary : Text) (written : Bytes) (chunks : List ChunkDescriptor) (s : Store) (j : Text)
      → (j == temporary) ≡ false
      → lookup j (copy_chunks x temporary written chunks s).1.disk ≡ lookup j s.disk
  unfolding copy_chunks
  copy_chunks-spares temporary written [] s j n = refl
  copy_chunks-spares temporary written (chunk ∷ chunks) s j n =
      elim (copy_chunks-cons temporary written chunk chunks s) [
        | inl (er, f) ↦ ap (λ (r : Result Bytes × Store). lookup j r.1.disk) f
        | inr (bytes, f) ↦
            ap (λ (r : Result Bytes × Store). lookup j r.1.disk) f
            ∙ copy_chunks-spares temporary (written ++ bytes) chunks _ j n
            ∙ lookup_other j temporary (written ++ bytes) s.disk n
      ]

pub lookup-rename :
    (from to : Text) (bytes : Bytes) (disk : Dict Text Bytes)
    → lookup from disk ≡ some bytes
    → lookup to (rename from to disk) ≡ some bytes
lookup-rename from to bytes disk h = ground (arith, h, lookup-insert to to bytes (erase from disk))

-- A rename changes no file but its two paths.
lookup-rename_other :
    (j from to : Text) (disk : Dict Text Bytes)
    → (j == from) ≡ false
    → (j == to) ≡ false
    → lookup j (rename from to disk) ≡ lookup j disk
lookup-rename_other j from to disk n k = elim (Option-cases (lookup from disk)) [
  | inl e ↦ ground (arith, e)
  | inr (bytes, e) ↦
      ground (arith, e, n, k, lookup-insert j to bytes (erase from disk), lookup-erase j from disk)
]

module _ (x : External) (m : FileManifest) (destination : Text) (s t : Store) where
  abbrev emptied : Store
  emptied = record s { disk = insert (temporary_path destination) [] s.disk }

  abbrev copied : Result Bytes × Store
  copied = copy_chunks x (temporary_path destination) [] m.chunks emptied

  abbrev missing : List Text
  missing =
      map (λ row. row.hash)
        (sort_by (λ (a b : ChunkRow). leb a.chunk_index b.chunk_index)
          (missing_rows m.id s.chunk_rows))

  -- How `materialize_file` ends.
  materialize_file-cases :
      ((e : Error) × (materialize_file x m destination s ≡ (err e, s)))
      ⊎ ((e : Error) × (materialize_file x m destination s ≡ (err e, copied.1)))
      ⊎ ((written : Bytes) × (copied.0 ≡ ok written)
          × (x.hex_encode (x.blake3 written) ≡ m.file_hash)
          × (materialize_file x m destination s ≡ (
            ok tt,
            record copied.1 {
              disk = rename (temporary_path destination) destination copied.1.disk;
            },
          )))
  unfolding materialize_file write_file missing_chunks
  materialize_file-cases = elim (Bool-cases (missing == [])) [
    | inr e ↦ inl (fail (codes "file is not complete"), rw e refl)
    | inl e ↦ inr (elim (Result-cases copied.0) [
      | inr (er, c) ↦ inl (er, rw (e, c) refl)
      | inl (written, c) ↦ elim (Bool-cases (x.hex_encode (x.blake3 written) == m.file_hash)) [
        | inr h ↦ inl (fail (codes "assembled file hash mismatch"), rw (e, c, h) refl)
        | inl h ↦ inr (written, c, ==-true _ _ h, rw (e, c, h) refl)
      ]
    ])
  ]

  -- A file that materialize_file has assembled has a content with the hash of its manifest.
  pub materialize_file-digest :
      materialize_file x m destination s ≡ (ok tt, t)
      → (content : Bytes) × (lookup destination t.disk ≡ some content)
        × (x.hex_encode (x.blake3 content) ≡ m.file_hash)
  materialize_file-digest h = elim materialize_file-cases [
    | inl (e, f) ↦ absurd cc
    | inr (inl (e, f)) ↦ absurd cc
    | inr (inr (content, c, same, f)) ↦
        let stored =
          copy_chunks-writes x (temporary_path destination) [] m.chunks emptied copied.1
            (lookup_inserted x (temporary_path destination) [] s.disk) (rw c refl) in
        (
          content,
          ap (λ (r : Result (Unit {0}) × Store). lookup destination r.1.disk) (sym h ∙ f)
              ∙ lookup-rename (temporary_path destination) destination content copied.1.disk stored,
          same,
        )
  ]

  -- Whether materialize_file returns or fails, no file has changed but the destination and the
  -- temporary one beside it.
  pub materialize_file-spares :
      (j : Text)
      → j ≢ destination
      → j ≢ temporary_path destination
      → lookup j (materialize_file x m destination s).1.disk ≡ lookup j s.disk
  materialize_file-spares j n k =
      let kept =
        copy_chunks-spares x (temporary_path destination) [] m.chunks emptied j (==-ne k)
        ∙ lookup_other x j (temporary_path destination) [] s.disk (==-ne k) in
      elim materialize_file-cases [
        | inl (e, f) ↦ ap (λ (r : Result (Unit {0}) × Store). lookup j r.1.disk) f
        | inr (inl (e, f)) ↦ ap (λ (r : Result (Unit {0}) × Store). lookup j r.1.disk) f ∙ kept
        | inr (inr (content, c, same, f)) ↦
            ap (λ (r : Result (Unit {0}) × Store). lookup j r.1.disk) f
            ∙ lookup-rename_other j (temporary_path destination) destination copied.1.disk (==-ne k)
                (==-ne n)
            ∙ kept
      ]

  -- A materialize_file that fails leaves the destination as it was, where the destination is not
  -- the temporary file itself.
  pub materialize_file_fails :
      {e : Error}
      → destination ≢ temporary_path destination
      → (materialize_file x m destination s).0 ≡ err e
      → lookup destination (materialize_file x m destination s).1.disk ≡ lookup destination s.disk
  materialize_file_fails k h =
      let kept =
        copy_chunks-spares x (temporary_path destination) [] m.chunks emptied destination (==-ne k)
        ∙ lookup_other x destination (temporary_path destination) [] s.disk (==-ne k) in
      elim materialize_file-cases [
        | inl (e, f) ↦ ap (λ (r : Result (Unit {0}) × Store). lookup destination r.1.disk) f
        | inr (inl (e, f)) ↦
            ap (λ (r : Result (Unit {0}) × Store). lookup destination r.1.disk) f ∙ kept
        | inr (inr (content, c, same, f)) ↦ absurd cc
      ]
