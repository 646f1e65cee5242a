-- ===== src/Storage/Blobs/Integrity.antt =====
-- The blob store holds what its names say: content-addressed files, written once and verified.
use mathlib.Core.Path.{subst}
use nexus_p2p.Base.{
  ℕ, ◌≡◌, ◌∙◌, ◌⊎◌, inl, inr, none, some, [], ◌∷◌, arith, All, Bool-cases, Option-cases, ◌==◌,
  list_eq, nat_eq, if◌then◌else◌, ==-true,
}
use nexus_p2p.Base.Dict.{Dict, lookup, insert, erase, lookup-insert, lookup-erase}
use nexus_p2p.Base.Text.{Text, Bytes, codes}
use nexus_p2p.Base.Result.{ok, Result-cases}
use nexus_p2p.External.{External, IsLawful, IsHexDigit}
use nexus_p2p.Storage.{Store}
use nexus_p2p.Storage.Path.{blob_path, with_extension}
use nexus_p2p.Storage.Path.Names.{Lacks, blob_path-inj}
use nexus_p2p.Storage.Blobs.{place, put_blob, write_if_absent, mark_chunk_present}

-- The file is at its path, the temporary file is gone, and no other file has changed.
pub lookup-place :
    (j path : Text) (bytes : Bytes) (disk : Dict Text Bytes)
    → lookup j (place path bytes disk) ≡ (
        if j == path
        then some bytes
        else if j == with_extension path (codes "partial")
        then none
        else lookup j disk)
unfolding place
lookup-place j path bytes disk =
    let tmp = with_extension path (codes "partial") in
    ground (
      arith,
      lookup-insert tmp tmp bytes disk,
      lookup-insert j tmp bytes disk,
      lookup-insert j path bytes (erase tmp (insert tmp bytes disk)),
      lookup-erase j tmp (insert tmp bytes disk),
    )

hex-Lacks : (d : ℕ) (t : Text) → (IsHexDigit d → ⊥) → All IsHexDigit t → Lacks d t
hex-Lacks d [] n h = tt
hex-Lacks d (c ∷ t) n h = (λ e. n (subst IsHexDigit e h.0), hex-Lacks d t n h.1)

-- The text is the name of some content.
abbrev pub IsDigest : External → Text → Type 0
IsDigest x h = (b : Bytes) × (x.hex_encode (x.blake3 b) ≡ h)

module _ (x : External) (law : IsLawful x) where
  pub IsDigest-Lacks : (d : ℕ) (h : Text) → (IsHexDigit d → ⊥) → IsDigest x h → Lacks d h
  IsDigest-Lacks d h n (b, e) =
      hex-Lacks d h n (subst (All IsHexDigit) e (law.hex_digits (x.blake3 b)))

-- Every file at the path of a digest has the content of that digest.
pub record IsVerified (x : External) (s : Store) : Type 0 where
  pub at :
      (h path : Text) (c : Bytes)
      → IsDigest x h
      → blob_path s.blob_dir h ≡ ok path
      → lookup path s.disk ≡ some c
      → x.hex_encode (x.blake3 c) ≡ h

module _ (x : External) (hash : Text) (bytes : Bytes) (s : Store) where
  -- `put_blob` leaves the files as they are, or writes verified content where there was no file.
  pub disk-put_blob :
      ((put_blob x hash bytes s).1.disk ≡ s.disk)
      ⊎ ((path : Text) × (x.hex_encode (x.blake3 bytes) ≡ hash)
          × (blob_path s.blob_dir hash ≡ ok path)
          × (lookup path s.disk ≡ none)
          × ((put_blob x hash bytes s).1.disk ≡ place path bytes s.disk))
  unfolding put_blob write_if_absent mark_chunk_present
  disk-put_blob =
      let digest = x.hex_encode (x.blake3 bytes) in
      elim (Bool-cases (digest == hash)) [
        | inr e ↦ inl (rw e)
        | inl e ↦ elim (Result-cases (blob_path s.blob_dir hash)) [
          | inr (er, p) ↦ inl (rw (e, p))
          | inl (path, p) ↦ elim (Option-cases (lookup path s.disk)) [
            | inl fresh ↦ inr (path, ==-true digest hash e, p, fresh, ground (arith, e, p, fresh))
            | inr (c, old) ↦ inl (ground (arith, e, p, old))
          ]
        ]
      ]

  pub blob_dir-put_blob : (put_blob x hash bytes s).1.blob_dir ≡ s.blob_dir
  unfolding put_blob write_if_absent mark_chunk_present
  blob_dir-put_blob = ground arith

module _ (x : External) (law : IsLawful x) (hash : Text) (bytes : Bytes) (s : Store) where
  slash : (h : Text) → IsDigest x h → Lacks 47 h
  slash h = IsDigest-Lacks x law 47 h (λ d. omega arith)

  placed-IsVerified :
      (path : Text)
      → x.hex_encode (x.blake3 bytes) ≡ hash
      → blob_path s.blob_dir hash ≡ ok path
      → IsVerified x s
      → (h q : Text) (c : Bytes) → IsDigest x h
      → blob_path s.blob_dir h ≡ ok q
      → lookup q (place path bytes s.disk) ≡ some c
      → x.hex_encode (x.blake3 c) ≡ h
  placed-IsVerified path same p v h q c digest hq found = elim (Bool-cases (q == path)) [
    | inl e ↦
        let one : ok path ≡ ok q = rw (==-true q path e) in
        let hh =
          blob_path-inj s.blob_dir hash h (slash hash (bytes, same)) (slash h digest) (p ∙ one)
            hq in
        ground (arith, e, hh, same, found, lookup-place q path bytes s.disk)
    | inr n ↦ elim (Bool-cases (q == with_extension path (codes "partial"))) [
      | inl t ↦ absurd (ground (arith, n, t, found, lookup-place q path bytes s.disk))
      | inr t ↦ v.at h q c digest hq (ground (arith, n, t, found, lookup-place q path bytes s.disk))
    ]
  ]

  -- Under the laws of the crates, put_blob, whether it returns or fails, keeps every file at the
  -- path of a digest at content with that digest.
  pub put_blob-IsVerified : IsVerified x s → IsVerified x (put_blob x hash bytes s).1
  put_blob-IsVerified v = record {
    at = λ h q c digest hq found.
        let hq' : blob_path s.blob_dir h ≡ ok q = rw (blob_dir-put_blob x hash bytes s) at hq in
        elim (disk-put_blob x hash bytes s) [
          | inl e ↦ v.at h q c digest hq' (rw e at found)
          | inr (path, same, p, fresh, e) ↦
              placed-IsVerified path same p v h q c digest hq' (rw e at found)
        ];
  }
