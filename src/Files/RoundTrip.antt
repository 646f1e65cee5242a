-- ===== src/Files/RoundTrip.antt =====
-- What `ingest_file` has taken in, `materialize_file` gives back.
use mathlib.Core.Path.{subst}
use mathlib.Core.List.{append_assoc, append-nil}
use nexus_p2p.Base.{
  ◌^◌, ◌<◌, ◌≡◌, ◌≢◌, refl, sym, ap, ◌∙◌, inl, inr, List, [], ◌∷◌, ◌++◌, some, arith, All, list_eq,
  nat_eq, ==-ne, ==-refl, length,
}
use nexus_p2p.Base.Dict.{lookup, insert}
use nexus_p2p.Base.Text.{Text, Bytes}
use nexus_p2p.Base.Result.{Result, ok, Result-cases}
use nexus_p2p.External.{External, IsLawful, new_ulid}
use nexus_p2p.Identity.Local.{Machine}
use nexus_p2p.Model.{ChunkDescriptor, FileManifest}
use nexus_p2p.Storage.{Store}
use nexus_p2p.Storage.Path.{blob_path}
use nexus_p2p.Storage.Blobs.{get_blob, rename}
use nexus_p2p.Storage.Blobs.Integrity.{IsVerified}
use nexus_p2p.Storage.Manifests.{missing_chunks}
use nexus_p2p.Files.{
  Ingest, ingest_reads, ingest_file, write_file, temporary_path, copy_chunks, materialize_file,
}
use nexus_p2p.Files.Chunks.{
  concat, digest, Describes, HasBlob, ingest_reads-HasBlob, ingest_reads-IsVerified,
  ingest_reads-Describes,
}
use nexus_p2p.Files.Integrity.{lookup_inserted, lookup_other, copy_chunks-writes, lookup-rename}

-- The piece is in its blob, which is not the given file.
abbrev IsReadable : External → Text → Store → Bytes → Type 0
IsReadable x temporary s piece =
    (path : Text) × (blob_path s.blob_dir (digest x piece) ≡ ok path)
    × (lookup path s.disk ≡ some piece)
    × (path ≢ temporary)

module _ (x : External) (temporary : Text) where
  -- the store after a write to the temporary file
  abbrev after : Bytes → Store → Store
  after bytes s = record s { disk = insert temporary bytes s.disk }

  IsReadable-after :
      (bytes : Bytes) (s : Store) (pieces : List Bytes)
      → All (IsReadable x temporary s) pieces
      → All (IsReadable x temporary (after bytes s)) pieces
  IsReadable-after bytes s [] h = tt
  IsReadable-after bytes s (piece ∷ pieces) ((path, p, found, n), h) = (
    (path, p, lookup_other x path temporary bytes s.disk (==-ne n) ∙ found, n),
    IsReadable-after bytes s pieces h,
  )

  -- A turn of the loop over a readable piece.
  copy_chunks-piece :
      (written piece : Bytes) (chunk : ChunkDescriptor) (chunks : List ChunkDescriptor) (s : Store)
      → chunk.hash ≡ digest x piece
      → chunk.size ≡ length piece
      → IsReadable x temporary s piece
      → copy_chunks x temporary written (chunk ∷ chunks) s
        ≡ copy_chunks x temporary (written ++ piece) chunks (after (written ++ piece) s)
  unfolding copy_chunks write_file get_blob
  copy_chunks-piece written piece chunk chunks s e f (path, p, found, n) =
      rw (e, f, p, found, ==-refl (length piece)) refl

  -- The loop copies readable pieces one after another.
  copy_chunks-concat :
      (written : Bytes) (chunks : List ChunkDescriptor) (pieces : List Bytes) (s : Store)
      → Describes x chunks pieces
      → All (λ p. length p < 2 ^ 32) pieces
      → All (IsReadable x temporary s) pieces
      → (copy_chunks x temporary written chunks s).0 ≡ ok (written ++ concat pieces)
  unfolding copy_chunks
  copy_chunks-concat written [] [] s d small h = rw (append-nil written) refl
  copy_chunks-concat written (chunk ∷ chunks) (piece ∷ pieces) s d small h =
      ap (λ (r : Result Bytes × Store). r.0)
        (copy_chunks-piece written piece chunk chunks s d.0 (d.1 ∙ omega (arith, small.0)) h.0)
      ∙ copy_chunks-concat (written ++ piece) chunks pieces _ d.2 small.1
          (IsReadable-after (written ++ piece) s pieces h.1)
      ∙ ap ok (append_assoc written piece (concat pieces))
  copy_chunks-concat written [] (piece ∷ pieces) s d small h = absurd d
  copy_chunks-concat written (chunk ∷ chunks) [] s d small h = absurd d

module _ (x : External) (m : FileManifest) (destination : Text) (u : Store) where
  -- Where no chunk is missing and all pieces are readable, a file is assembled of them.
  pub materialize_file-concat :
      (pieces : List Bytes)
      → missing_chunks m.id u ≡ (ok [], u)
      → Describes x m.chunks pieces
      → All (λ p. length p < 2 ^ 32) pieces
      → All (IsReadable x (temporary_path destination) u) pieces
      → m.file_hash ≡ digest x (concat pieces)
      → (v : Store) × (materialize_file x m destination u ≡ (ok tt, v))
        × (lookup destination v.disk ≡ some (concat pieces))
  unfolding materialize_file write_file
  materialize_file-concat pieces none d small h same =
      let temporary = temporary_path destination in
      let emptied = after x temporary [] u in
      let copied = copy_chunks x temporary [] m.chunks emptied in
      let all =
        copy_chunks-concat x temporary [] m.chunks pieces emptied d small
          (IsReadable-after x temporary [] u pieces h) in
      let stored =
        copy_chunks-writes x temporary [] m.chunks emptied copied.1
          (lookup_inserted x temporary [] u.disk) (rw all refl) in
      (
        record copied.1 { disk = rename temporary destination copied.1.disk },
        rw (none, ==-refl {A = List Text} [], all, same, ==-refl (digest x (concat pieces))) refl,
        lookup-rename temporary destination (concat pieces) copied.1.disk stored,
      )

-- No file of the store has the hash of a piece but another content.
abbrev pub HasNoCollision : External → Store → List Bytes → Type 0
HasNoCollision x s = All (λ piece.
    (path : Text) (c : Bytes)
    → lookup path s.disk ≡ some c
    → digest x c ≡ digest x piece
    → c ≡ piece)

-- No blob is at a path.
abbrev pub IsNoBlob : External → Store → Text → Type 0
IsNoBlob x s path = (piece : Bytes) → blob_path s.blob_dir (digest x piece) ≢ ok path

-- The calls of `read` return the content of a file, in pieces that are not empty.
abbrev pub IsSplit : List Bytes → Bytes → Type 0
IsSplit pieces content = (concat pieces ≡ content) × All (λ p. length p ≢ 0) pieces

module _ (x : External) (law : IsLawful x) where
  readable :
      (temporary : Text) (s u : Store) (pieces : List Bytes)
      → IsVerified x s
      → HasNoCollision x s pieces
      → IsNoBlob x s temporary
      → u.disk ≡ s.disk
      → u.blob_dir ≡ s.blob_dir
      → All (HasBlob x s) pieces
      → All (IsReadable x temporary u) pieces
  readable temporary s u [] v unique apart disk dir h = tt
  readable temporary s u (piece ∷ pieces) v unique apart disk dir ((path, c, p, found), h) =
      let here = unique.0 path c found (v.at (digest x piece) path c (piece, refl) p found) in
      (
        (path, rw dir p, rw disk (found ∙ ap some here), λ e. apart piece (p ∙ ap ok e)),
        readable temporary s u pieces v unique.1 apart disk dir h,
      )

  abbrev start : Ingest
  start = record { chunks = []; total = 0; hashed = [] }

  -- What `ingest_file` has run and returned.
  ingest_file-cases :
      (reads : Bytes → List Bytes) (path media_type : Text) (n n' : Machine) (m : FileManifest)
      (content : Bytes)
      → lookup path n.store.disk ≡ some content
      → ingest_file x reads path media_type n ≡ (ok m, n')
      → (out : Ingest) × (ingest_reads x (reads content) start n.store ≡ (ok out, n'.store))
        × (m.chunks ≡ out.chunks)
        × (m.file_hash ≡ digest x out.hashed)
  unfolding ingest_file new_ulid
  ingest_file-cases reads path media_type n n' m content found h =
      elim (Result-cases (ingest_reads x (reads content) start n.store).0) [
        | inr (e, r) ↦ absurd (ground (arith, found, r))
        | inl (out, r) ↦
            (out, ground (arith, found, r), ground (arith, found, r), ground (arith, found, r))
      ]

  -- Under the laws of the crates, a file that ingest_file has taken in is assembled again by
  -- materialize_file, content for content, however the system split the reads into pieces shorter
  -- than 2 ^ 32: if the blobs were verified before, no file of the store collides with a piece,
  -- the temporary file of the destination is at no blob's path, and the store has since then kept
  -- its files and misses no chunk of the manifest.
  pub materialize_file-ingest_file :
      (reads : Bytes → List Bytes) (path media_type destination : Text) (n n' : Machine)
      (m : FileManifest) (content : Bytes) (u : Store)
      → IsVerified x n.store
      → lookup path n.store.disk ≡ some content
      → IsSplit (reads content) content
      → All (λ p. length p < 2 ^ 32) (reads content)
      → ingest_file x reads path media_type n ≡ (ok m, n')
      → HasNoCollision x n'.store (reads content)
      → IsNoBlob x n'.store (temporary_path destination)
      → u.disk ≡ n'.store.disk
      → u.blob_dir ≡ n'.store.blob_dir
      → missing_chunks m.id u ≡ (ok [], u)
      → (v : Store) × (materialize_file x m destination u ≡ (ok tt, v))
        × (lookup destination v.disk ≡ some content)
  materialize_file-ingest_file reads path media_type destination n n' m content u v found split
        small h unique apart disk dir none =
      let pieces = reads content in
      let (out, run, chunks, hash) =
        ingest_file-cases reads path media_type n n' m content found h in
      let (described, e, d, hashed) =
        ingest_reads-Describes x law pieces start n.store n'.store out split.1 run in
      let verified =
        ingest_reads-IsVerified x law pieces start n.store n'.store out split.1 run v in
      let blobs = ingest_reads-HasBlob x law pieces start n.store n'.store out split.1 run in
      rw (← split.0) (
        materialize_file-concat x m destination u pieces none
          (subst (λ l. Describes x l pieces) (sym (chunks ∙ e)) d) small
          (readable (temporary_path destination) n'.store u pieces verified unique apart disk dir
            blobs)
          (hash ∙ ap (digest x) hashed))
