-- ===== src/Storage/Blobs/Retrieval.antt =====
-- What `get_blob` returns after `put_blob`, and of which names it reads a file of the store.
use mathlib.Core.Path.{subst}
use nexus_p2p.Base.{
  ℕ, ◌≡◌, ◌<◌, ap, ◌∙◌, inl, inr, some, ◌∷◌, arith, Bool-cases, Option-cases, ◌==◌, list_eq, nat_eq,
  ==-true,
}
use nexus_p2p.Base.Dict.{lookup}
use nexus_p2p.Base.Text.{Text, Bytes, codes}
use nexus_p2p.Base.Result.{Result, ok, Result-cases}
use nexus_p2p.External.{External, IsLawful}
use nexus_p2p.Storage.{Store}
use nexus_p2p.Storage.Path.{blob_path, with_extension}
use nexus_p2p.Storage.Path.Names.{blob_path_absolute, partial-ne-blob_path}
use nexus_p2p.Storage.Blobs.{put_blob, get_blob, write_if_absent, mark_chunk_present}
use nexus_p2p.Storage.Blobs.Integrity.{
  IsDigest, IsDigest-Lacks, IsVerified, put_blob-IsVerified, disk-put_blob, lookup-place,
}

module _ (x : External) (hash : Text) (bytes : Bytes) (s : Store) where
  -- the file that a successful `put_blob` leaves
  pub put_blob-stores :
      (t : Store)
      → put_blob x hash bytes s ≡ (ok tt, t)
      → (path : Text) × (c : Bytes) × (x.hex_encode (x.blake3 bytes) ≡ hash)
        × (blob_path t.blob_dir hash ≡ ok path)
        × (lookup path t.disk ≡ some c)
  unfolding put_blob write_if_absent mark_chunk_present
  put_blob-stores t h =
      let digest = x.hex_encode (x.blake3 bytes) in
      elim (Bool-cases (digest == hash)) [
        | inr e ↦ absurd (ground (arith, e))
        | inl e ↦ elim (Result-cases (blob_path s.blob_dir hash)) [
          | inr (er, p) ↦ absurd (ground (arith, e, p))
          | inl (path, p) ↦ elim (Option-cases (lookup path s.disk)) [
            | inl fresh ↦ (
              path,
              bytes,
              ==-true digest hash e,
              ground (arith, e, p, fresh),
              ground (arith, e, p, fresh, lookup-place path path bytes s.disk),
            )
            | inr (c, old) ↦ (
              path,
              c,
              ==-true digest hash e,
              ground (arith, e, p, old),
              ground (arith, e, p, old),
            )
          ]
        ]
      ]

module _ (x : External) (law : IsLawful x) (hash : Text) (bytes : Bytes) (s : Store) where
  -- Under the laws of the crates, a blob of a digest that is there stays there with its content,
  -- whatever is put.
  pub put_blob-keeps :
      (h path : Text) (c : Bytes)
      → IsDigest x h
      → blob_path s.blob_dir h ≡ ok path
      → lookup path s.disk ≡ some c
      → lookup path (put_blob x hash bytes s).1.disk ≡ some c
  put_blob-keeps h q c digest hq found = elim (disk-put_blob x hash bytes s) [
    | inl e ↦ rw e found
    | inr (path, same, p, fresh, e) ↦
        rw (e, lookup-place)
          (ground (
            arith,
            found,
            fresh,
            λ (t : q ≡ with_extension path (codes "partial")).
                partial-ne-blob_path s.blob_dir hash h
                  (IsDigest-Lacks x law 47 hash (λ d. omega arith) (bytes, same))
                  (IsDigest-Lacks x law 46 hash (λ d. omega arith) (bytes, same))
                  (IsDigest-Lacks x law 47 h (λ d. omega arith) digest)
                  (IsDigest-Lacks x law 46 h (λ d. omega arith) digest) p (hq ∙ ap ok t),
          ))
  ]

  -- Under the laws of the crates, after a put_blob that succeeds in a verified store, get_blob of
  -- the same hash returns content with that hash.
  pub get_blob-put_blob :
      (t : Store)
      → IsVerified x s
      → put_blob x hash bytes s ≡ (ok tt, t)
      → (c : Bytes) × (get_blob x hash t ≡ (ok c, t)) × (x.hex_encode (x.blake3 c) ≡ hash)
  unfolding get_blob
  get_blob-put_blob t v h =
      let (path, c, same, p, found) = put_blob-stores x hash bytes s t h in
      let kept : IsVerified x t =
        subst (IsVerified x) (ap (λ (r : Result Unit × Store). r.1) h)
          (put_blob-IsVerified x law hash bytes s v) in
      (c, rw (p, found), kept.at hash path c (bytes, same) p found)

-- Get_blob of a name that begins with a slash and an ASCII character reads the file at that path
-- of the system, where there is one.
pub get_blob_absolute :
    (x : External) (c : ℕ) (rest : Text) (bytes : Bytes) (s : Store)
    → c < 128
    → lookup (47 ∷ c ∷ rest) s.disk ≡ some bytes
    → get_blob x (47 ∷ c ∷ rest) s ≡ (ok bytes, s)
unfolding get_blob
get_blob_absolute x c rest bytes s h found = rw (blob_path_absolute s.blob_dir c rest h, found)
