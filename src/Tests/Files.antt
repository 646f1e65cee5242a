-- ===== src/Tests/Files.antt =====
-- A file that is taken in, and assembled again.
use mathlib.Core.Path.{subst}
use nexus_p2p.Base.{
  ◌≡◌, ◌≢◌, refl, sym, ap, ◌∙◌, arith, some, List, [], ◌∷◌, nat_eq, list_eq, ◌==◌, ==-true, ◌++◌,
  length, inl, inr, Bool-cases,
}
use nexus_p2p.Base.Dict.{Dict, lookup, insert, erase}
use nexus_p2p.Base.Sort.{sort_by}
use nexus_p2p.Base.Text.{Text, Bytes, codes, starts_with, ends_with_char, slice_to}
use nexus_p2p.Base.Result.{panic, Result, ok, err}
use nexus_p2p.External.{new_ulid}
use nexus_p2p.Identity.Local.{Machine}
use nexus_p2p.Model.{FileManifest}
use nexus_p2p.Storage.{Store}
use nexus_p2p.Storage.Path.{
  blob_path, join, with_extension, split_dir, file_stem, before_dot, no_name, trim_tail,
  is_file_name,
}
use nexus_p2p.Storage.Path.Names.{Lacks, blob_path_name, split_dir_lem}
use nexus_p2p.Storage.Blobs.{
  put_blob, get_blob, write_if_absent, mark_chunk_present, mark_rows, place,
}
use nexus_p2p.Storage.Blobs.Integrity.{IsVerified, IsDigest, IsDigest-Lacks}
use nexus_p2p.Storage.Manifests.{missing_chunks, missing_rows}
use nexus_p2p.Files.{
  ingest_chunk, ingest_reads, ingest_file, write_file, temporary_path, copy_chunks,
  materialize_file,
}
use nexus_p2p.Files.Chunks.{digest}
use nexus_p2p.Files.Integrity.{
  materialize_file-digest, materialize_file-spares, materialize_file_fails,
}
use nexus_p2p.Files.RoundTrip.{HasNoCollision, IsNoBlob, materialize_file-ingest_file}
use nexus_p2p.Tests.Crates.{crates, crates-IsLawful}
use nexus_p2p.Tests.Devices.{clock, empty_store}

abbrev content : Bytes
content = 7 ∷ 9 ∷ 8 ∷ []

abbrev reads : Bytes → List Bytes
reads bytes = bytes ∷ []

abbrev source : Text
source = codes "/f.t"

abbrev destination : Text
destination = codes "/out"

abbrev machine : Machine
machine = record { store = record empty_store { disk = (source, content) ∷ [] }; env = clock }

abbrev ingested : Result FileManifest × Machine
ingested = ingest_file crates reads source (codes "text/plain") machine

abbrev no_manifest : FileManifest
no_manifest = record {
  id = [];
  name = [];
  media_type = [];
  size = 0;
  chunk_size = 0;
  chunks = [];
  file_hash = [];
}

abbrev manifest_of : Result FileManifest → FileManifest
manifest_of (ok m) = m
manifest_of (err e) = no_manifest

abbrev manifest : FileManifest
manifest = manifest_of ingested.0

abbrev store : Store
store = ingested.1.store

abbrev blob : Text
blob = codes "blobs/07/0709080000000000000000000000000000000000000000000000000000000000"

ingested_ok : ingested ≡ (ok manifest, ingested.1)
unfolding ingest_file ingest_reads ingest_chunk put_blob blob_path slice_to write_if_absent
    mark_chunk_present new_ulid list_eq nat_eq lookup join
ingested_ok = refl

disk_after : store.disk ≡ (source, content) ∷ (blob, content) ∷ []
unfolding ingest_file ingest_reads ingest_chunk put_blob blob_path slice_to write_if_absent
    mark_chunk_present new_ulid list_eq nat_eq lookup place with_extension no_name trim_tail
    is_file_name split_dir file_stem before_dot insert erase join starts_with ends_with_char
disk_after = refl

dir_after : store.blob_dir ≡ codes "blobs"
unfolding ingest_file ingest_reads ingest_chunk put_blob blob_path slice_to write_if_absent
    mark_chunk_present new_ulid list_eq nat_eq lookup place with_extension no_name trim_tail
    is_file_name split_dir file_stem before_dot insert erase join starts_with ends_with_char
dir_after = refl

nothing_missing : missing_chunks manifest.id store ≡ (ok [], store)
unfolding ingest_file ingest_reads ingest_chunk put_blob blob_path slice_to write_if_absent
    mark_chunk_present mark_rows new_ulid list_eq nat_eq lookup missing_chunks missing_rows sort_by
    join
nothing_missing = refl

same_content :
    (path : Text) (c : Bytes)
    → lookup path ((source, content) ∷ (blob, content) ∷ []) ≡ some c
    → c ≡ content
unfolding lookup
same_content path c h = elim (Bool-cases (path == source)) [
  | inl e ↦ ground (arith, e)
  | inr e ↦ elim (Bool-cases (path == blob)) [
    | inl f ↦ ground (arith, e, f)
    | inr f ↦ absurd (ground (arith, e, f))
  ]
]

store-HasNoCollision : HasNoCollision crates store (reads content)
store-HasNoCollision = (
  λ path c found e.
      same_content path c
        (subst (λ (d : Dict Text Bytes). lookup path d ≡ some c) disk_after found),
  tt,
)

temporary : temporary_path destination ≡ codes "/out.nexus-partial"
unfolding with_extension no_name trim_tail is_file_name split_dir file_stem before_dot nat_eq
    list_eq
temporary = refl

-- A name with a dot is no digest.
not_blob :
    (blob_dir d name h : Text)
    → Lacks 47 name
    → (Lacks 46 name → ⊥)
    → IsDigest crates h
    → blob_path blob_dir h ≢ ok (d ++ 47 ∷ name)
not_blob blob_dir d name h slashless dotted is_digest e =
    let plain = IsDigest-Lacks crates crates-IsLawful 47 h (λ d. omega arith) is_digest in
    let dotless = IsDigest-Lacks crates crates-IsLawful 46 h (λ d. omega arith) is_digest in
    let (d', q) = blob_path_name blob_dir h plain e in
    let same : name ≡ h =
      ap (λ (t : Text × Text). t.1)
        (sym (split_dir_lem d name slashless) ∙ ap split_dir q ∙ split_dir_lem d' h plain) in
    dotted (subst (Lacks 46) (sym same) dotless)

temporary-IsNoBlob : IsNoBlob crates store (temporary_path destination)
temporary-IsNoBlob piece e =
    not_blob store.blob_dir [] (codes "out.nexus-partial") (digest crates piece) (search arith)
      (λ l. l.1.1.1.0 refl) (piece, refl) (e ∙ ap ok temporary)

source_only : (path : Text) (c : Bytes) → lookup path machine.store.disk ≡ some c → path ≡ source
unfolding lookup
source_only path c h = elim (Bool-cases (path == source)) [
  | inl e ↦ ==-true path source e
  | inr e ↦ absurd (ground (arith, e))
]

machine-IsVerified : IsVerified crates machine.store
machine-IsVerified = record {
  at = λ h path c d p found. absurd (
      not_blob machine.store.blob_dir [] (codes "f.t") h (search arith) (λ l. l.1.0 refl) d
        (p ∙ ap ok (source_only path c found)));
}

source_found : lookup source machine.store.disk ≡ some content
unfolding lookup list_eq nat_eq
source_found = refl

source_kept : source ≢ temporary_path destination
source_kept e = absurd (search (arith, e ∙ temporary))

some_content : length content ≢ 0
some_content e = absurd (omega (arith, e))

materialize_file-ingest_file_example :
    (v : Store) × (materialize_file crates manifest destination store ≡ (ok tt, v))
    × (lookup destination v.disk ≡ some content)
materialize_file-ingest_file_example =
    materialize_file-ingest_file crates crates-IsLawful reads source (codes "text/plain")
      destination machine ingested.1 manifest content store machine-IsVerified source_found
      (refl, (some_content, tt)) (omega arith, tt) ingested_ok store-HasNoCollision
      temporary-IsNoBlob refl refl nothing_missing

abbrev assembled :
    (v : Store) × (materialize_file crates manifest destination store ≡ (ok tt, v))
    × (lookup destination v.disk ≡ some content)
assembled =
    materialize_file-ingest_file crates crates-IsLawful reads source (codes "text/plain")
      destination machine ingested.1 manifest content store machine-IsVerified source_found
      (refl, (some_content, tt)) (omega arith, tt) ingested_ok store-HasNoCollision
      temporary-IsNoBlob refl refl nothing_missing

materialize_file-digest_example :
    (c : Bytes) × (lookup destination assembled.0.disk ≡ some c)
    × (crates.hex_encode (crates.blake3 c) ≡ manifest.file_hash)
materialize_file-digest_example =
    materialize_file-digest crates manifest destination store assembled.0 assembled.1

materialize_file-spares_example :
    lookup source (materialize_file crates manifest destination store).1.disk
    ≡ lookup source store.disk
materialize_file-spares_example =
    materialize_file-spares crates manifest destination store store source (search arith)
      source_kept

abbrev broken : FileManifest
broken = record no_manifest { chunks = record { index = 0; hash = codes "a"; size = 0 } ∷ [] }

broken_err : (materialize_file crates broken destination empty_store).0 ≡ err panic
unfolding materialize_file missing_chunks missing_rows sort_by write_file copy_chunks get_blob
    blob_path slice_to list_eq nat_eq
broken_err = refl

destination_kept : destination ≢ temporary_path destination
destination_kept e = absurd (search (arith, e ∙ temporary))

materialize_file_fails_example :
    lookup destination (materialize_file crates broken destination empty_store).1.disk
    ≡ lookup destination empty_store.disk
materialize_file_fails_example =
    materialize_file_fails crates broken destination empty_store empty_store destination_kept
      broken_err
