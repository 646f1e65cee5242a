-- ===== src/Files/Chunks.antt =====
-- What `ingest_file` leaves: the chunks describe what was read, and each has a blob.
use mathlib.Core.Path.{subst}
use mathlib.Core.List.{append_assoc, append-nil}
use nexus_p2p.Base.{
  ◌%◌, ◌^◌, ◌≡◌, ◌≢◌, refl, sym, ap, ◌∙◌, inl, inr, List, [], ◌∷◌, ◌++◌, some, arith, All, list_eq,
  nat_eq, length,
}
use nexus_p2p.Base.Dict.{lookup}
use nexus_p2p.Base.Text.{Text, Bytes}
use nexus_p2p.Base.Result.{Result, ok, Result-cases}
use nexus_p2p.External.{External, IsLawful}
use nexus_p2p.Model.{ChunkDescriptor}
use nexus_p2p.Storage.{Store}
use nexus_p2p.Storage.Path.{blob_path}
use nexus_p2p.Storage.Blobs.{put_blob}
use nexus_p2p.Storage.Blobs.Integrity.{IsVerified, put_blob-IsVerified, blob_dir-put_blob}
use nexus_p2p.Storage.Blobs.Retrieval.{put_blob-keeps, put_blob-stores}
use nexus_p2p.Files.{Ingest, ingest_chunk, ingest_reads}

abbrev pub concat : List Bytes → Bytes
concat [] = []
concat (piece ∷ pieces) = piece ++ concat pieces

abbrev pub digest : External → Bytes → Text
digest x bytes = x.hex_encode (x.blake3 bytes)

-- Each chunk has the hash and the size of its piece.
abbrev pub Describes : External → List ChunkDescriptor → List Bytes → Type 0
Describes x [] [] = Unit
Describes x (chunk ∷ chunks) (piece ∷ pieces) =
    (chunk.hash ≡ digest x piece) × (chunk.size ≡ length piece % 2 ^ 32) × Describes x chunks pieces
Describes x _ _ = ⊥

-- There is a file at the path of a content's digest.
abbrev pub HasBlob : External → Store → Bytes → Type 0
HasBlob x s piece =
    (path : Text) × (c : Bytes) × (blob_path s.blob_dir (digest x piece) ≡ ok path)
    × (lookup path s.disk ≡ some c)

module _ (x : External) (law : IsLawful x) where
  put_blob-HasBlob :
      (hash : Text) (bytes piece : Bytes) (s : Store)
      → HasBlob x s piece
      → HasBlob x (put_blob x hash bytes s).1 piece
  put_blob-HasBlob hash bytes piece s (path, c, p, found) = (
    path,
    c,
    rw (blob_dir-put_blob x hash bytes s) p,
    put_blob-keeps x law hash bytes s (digest x piece) path c (piece, refl) p found,
  )

  abbrev put : Bytes → Store → Result (Unit {0}) × Store
  put buffer s = put_blob x (digest x buffer) buffer s

  -- A turn of the loop that succeeds.
  ingest_reads-cons :
      (buffer : Bytes) (reads : List Bytes) (state : Ingest) (s t : Store) (out : Ingest)
      → length buffer ≢ 0
      → ingest_reads x (buffer ∷ reads) state s ≡ (ok out, t)
      → (put buffer s ≡ (ok tt, (put buffer s).1))
        × (ingest_reads x reads (ingest_chunk x buffer state) (put buffer s).1 ≡ (ok out, t))
  unfolding ingest_reads
  ingest_reads-cons buffer reads state s t out n h = elim (Result-cases (put buffer s).0) [
    | inr (e, p) ↦ absurd (ground (arith, n, p))
    | inl (u, p) ↦ (ground (arith, p), ground (arith, n, p))
  ]

  -- After the loop every piece has a blob, as has every content that had one before.
  ingest_reads-keeps :
      (reads : List Bytes) (state : Ingest) (s t : Store) (out : Ingest) (piece : Bytes)
      → All (λ p. length p ≢ 0) reads
      → ingest_reads x reads state s ≡ (ok out, t)
      → HasBlob x s piece
      → HasBlob x t piece
  unfolding ingest_reads
  ingest_reads-keeps [] state s t out piece n h b =
      subst (λ (r : Result Ingest × Store). HasBlob x r.1 piece) h b
  ingest_reads-keeps (buffer ∷ reads) state s t out piece n h b =
      let (p, rest) = ingest_reads-cons buffer reads state s t out n.0 h in
      ingest_reads-keeps reads _ _ t out piece n.1 rest
        (put_blob-HasBlob (digest x buffer) buffer piece s b)

  pub ingest_reads-HasBlob :
      (reads : List Bytes) (state : Ingest) (s t : Store) (out : Ingest)
      → All (λ p. length p ≢ 0) reads
      → ingest_reads x reads state s ≡ (ok out, t)
      → All (HasBlob x t) reads
  ingest_reads-HasBlob [] state s t out n h = tt
  ingest_reads-HasBlob (buffer ∷ reads) state s t out n h =
      let (p, rest) = ingest_reads-cons buffer reads state s t out n.0 h in
      let (path, c, same, q, found) = put_blob-stores x (digest x buffer) buffer s _ p in
      (
        ingest_reads-keeps reads _ _ t out buffer n.1 rest (path, c, q, found),
        ingest_reads-HasBlob reads _ _ t out n.1 rest,
      )

  pub ingest_reads-IsVerified :
      (reads : List Bytes) (state : Ingest) (s t : Store) (out : Ingest)
      → All (λ p. length p ≢ 0) reads
      → ingest_reads x reads state s ≡ (ok out, t)
      → IsVerified x s
      → IsVerified x t
  unfolding ingest_reads
  ingest_reads-IsVerified [] state s t out n h v =
      subst (λ (r : Result Ingest × Store). IsVerified x r.1) h v
  ingest_reads-IsVerified (buffer ∷ reads) state s t out n h v =
      let (p, rest) = ingest_reads-cons buffer reads state s t out n.0 h in
      ingest_reads-IsVerified reads _ _ t out n.1 rest
        (put_blob-IsVerified x law (digest x buffer) buffer s v)

  -- The loop adds a chunk for each piece, and feeds each piece to the hasher.
  pub ingest_reads-Describes :
      (reads : List Bytes) (state : Ingest) (s t : Store) (out : Ingest)
      → All (λ p. length p ≢ 0) reads
      → ingest_reads x reads state s ≡ (ok out, t)
      → (chunks : List ChunkDescriptor) × (out.chunks ≡ state.chunks ++ chunks)
        × Describes x chunks reads
        × (out.hashed ≡ state.hashed ++ concat reads)
  unfolding ingest_reads ingest_chunk
  ingest_reads-Describes [] state s t out n h =
      let same : state ≡ out = ground arith in
      (
        [],
        sym (ap (λ (i : Ingest). i.chunks) same) ∙ sym (append-nil state.chunks),
        tt,
        sym (ap (λ (i : Ingest). i.hashed) same) ∙ sym (append-nil state.hashed),
      )
  ingest_reads-Describes (buffer ∷ reads) state s t out n h =
      let (p, rest) = ingest_reads-cons buffer reads state s t out n.0 h in
      let (chunks, e, d, f) =
        ingest_reads-Describes reads (ingest_chunk x buffer state) _ t out n.1 rest in
      (
        record {
          index = length state.chunks % 2 ^ 32;
          hash = digest x buffer;
          size = length buffer % 2 ^ 32;
        }
            ∷ chunks,
        e ∙ append_assoc state.chunks _ chunks,
        (refl, refl, d),
        f ∙ append_assoc state.hashed buffer (concat reads),
      )
