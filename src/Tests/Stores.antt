-- ===== src/Tests/Stores.antt =====
-- Stores with a few rows and files.
use mathlib.Core.List.Permᴰ
use nexus_p2p.Base.{
  ℕ, ◌≡◌, ◌≢◌, refl, arith, true, false, none, some, [], ◌∷◌, nat_eq, list_eq, All,
}
use nexus_p2p.Base.Dict.{lookup, insert, erase}
use nexus_p2p.Base.Int.{pos}
use nexus_p2p.Base.Text.{Text, Bytes, codes, starts_with, ends_with_char, slice_to}
use nexus_p2p.Base.Result.{Result, ok}
use nexus_p2p.Identity.{device_id_of}
use nexus_p2p.Model.{Peer}
use nexus_p2p.Storage.{Store, EventRow}
use nexus_p2p.Storage.Path.{
  blob_path, join, with_extension, split_dir, file_stem, before_dot, no_name, trim_tail,
  is_file_name,
}
use nexus_p2p.Storage.Path.Names.{blob_path-inj, partial-ne-blob_path}
use nexus_p2p.Storage.Events.{select_events}
use nexus_p2p.Storage.Events.Merge.{insert_rows, select_events-insert_rows}
use nexus_p2p.Storage.Blobs.{put_blob, get_blob, write_if_absent, mark_chunk_present, place}
use nexus_p2p.Storage.Blobs.Integrity.{IsVerified, put_blob-IsVerified}
use nexus_p2p.Storage.Blobs.Retrieval.{put_blob-keeps, get_blob-put_blob, get_blob_absolute}
use nexus_p2p.Storage.Peers.{upsert_peer, upsert_row, peer, find_row, read_row}
use nexus_p2p.Storage.Peers.Merge.{HasWholeEndpoint, merge, peer-upsert_peer, peer-upsert_peer_ne}
use nexus_p2p.Tests.Crates.{crates, crates-IsLawful}
use nexus_p2p.Tests.Devices.{alice, bob, empty_store}

-- a row of the stream `s`
abbrev row : Text → ℕ → EventRow
row id time = record {
  id = id;
  stream_id = codes "s";
  author = codes "a";
  created_at_ms = pos time;
  kind = pos 1;
  nonce = [];
  ciphertext = [];
  signature = [];
}

abbrev first : EventRow
first = row (codes "x") 5

abbrev second : EventRow
second = row (codes "y") 3

abbrev third : EventRow
third = row (codes "z") 5

select_events-insert_rows_example :
    select_events (codes "s") (insert_rows (first ∷ second ∷ []) (third ∷ second ∷ []))
    ≡ select_events (codes "s") (insert_rows (second ∷ first ∷ []) (third ∷ second ∷ []))
select_events-insert_rows_example =
    select_events-insert_rows (codes "s") (third ∷ second ∷ []) (Permᴰ.swap refl refl)
      (search arith) (search arith)

abbrev content : Bytes
content = 7 ∷ 9 ∷ []

abbrev hash : Text
hash = crates.hex_encode (crates.blake3 content)

abbrev other_hash : Text
other_hash = crates.hex_encode (crates.blake3 [])

pub empty-IsVerified : IsVerified crates empty_store
unfolding lookup
empty-IsVerified = record { at = λ h path c d p found. absurd (ground arith) }

put_blob-IsVerified_example : IsVerified crates (put_blob crates hash content empty_store).1
put_blob-IsVerified_example =
    put_blob-IsVerified crates crates-IsLawful hash content empty_store empty-IsVerified

abbrev stored : Result (Unit {0}) × Store
stored = put_blob crates hash content empty_store

stored_ok : stored ≡ (ok tt, stored.1)
unfolding put_blob blob_path slice_to write_if_absent mark_chunk_present list_eq nat_eq lookup
stored_ok = refl

get_blob-put_blob_example :
    (c : Bytes) × (get_blob crates hash stored.1 ≡ (ok c, stored.1))
    × (crates.hex_encode (crates.blake3 c) ≡ hash)
get_blob-put_blob_example =
    get_blob-put_blob crates crates-IsLawful hash content empty_store stored.1 empty-IsVerified
      stored_ok

abbrev path : Text
path = codes "blobs/07/0709000000000000000000000000000000000000000000000000000000000000"

path_of_hash : blob_path stored.1.blob_dir hash ≡ ok path
unfolding blob_path slice_to join starts_with ends_with_char put_blob write_if_absent
    mark_chunk_present list_eq nat_eq lookup
path_of_hash = refl

found : lookup path stored.1.disk ≡ some content
unfolding blob_path slice_to join starts_with ends_with_char put_blob write_if_absent
    mark_chunk_present list_eq nat_eq lookup place with_extension no_name trim_tail is_file_name
    split_dir file_stem before_dot insert erase
found = refl

put_blob-keeps_example : lookup path (put_blob crates other_hash [] stored.1).1.disk ≡ some content
put_blob-keeps_example =
    put_blob-keeps crates crates-IsLawful other_hash [] stored.1 hash path content (content, refl)
      path_of_hash found

abbrev passwd : Store
passwd = record empty_store { disk = (codes "/etc/passwd", codes "root") ∷ [] }

passwd_found : lookup (codes "/etc/passwd") passwd.disk ≡ some (codes "root")
unfolding lookup list_eq nat_eq
passwd_found = refl

get_blob_absolute_example :
    get_blob crates (codes "/etc/passwd") passwd ≡ (ok (codes "root"), passwd)
get_blob_absolute_example =
    get_blob_absolute crates 101 (codes "tc/passwd") (codes "root") passwd (omega arith)
      passwd_found

short_path : blob_path (codes "b") (codes "abcd") ≡ ok (codes "b/ab/abcd")
unfolding blob_path slice_to join starts_with ends_with_char nat_eq list_eq
short_path = refl

blob_path-inj_example : codes "abcd" ≡ codes "abcd"
blob_path-inj_example =
    blob_path-inj (codes "b") (codes "abcd") (codes "abcd") (search arith) (search arith) short_path
      short_path

partial-ne-blob_path_example :
    blob_path (codes "b") (codes "abce") ≢ ok (with_extension (codes "b/ab/abcd") (codes "partial"))
partial-ne-blob_path_example =
    partial-ne-blob_path (codes "b") (codes "abcd") (codes "abce") (search arith) (search arith)
      (search arith) (search arith) short_path

abbrev known : Peer
known = record {
  identity = bob.public;
  endpoint = some (record { host = codes "10.0.0.2"; port = 4000 });
  paired = true;
  last_seen_ms = pos 5;
}

abbrev seen : Peer
seen = record { identity = bob.public; endpoint = none; paired = false; last_seen_ms = pos 9 }

abbrev with_known : Result (Unit {0}) × Store
with_known = upsert_peer crates known empty_store

abbrev with_seen : Result (Unit {0}) × Store
with_seen = upsert_peer crates seen with_known.1

seen_ok : with_seen ≡ (ok tt, with_seen.1)
unfolding upsert_peer
seen_ok = refl

bob_read : peer crates bob.public.device_id with_known.1 ≡ (ok (some known), with_known.1)
unfolding upsert_peer peer find_row read_row upsert_row list_eq nat_eq device_id_of
bob_read = refl

whole : All HasWholeEndpoint with_known.1.peer_rows
unfolding upsert_peer upsert_row
whole = search arith

peer-upsert_peer_example :
    peer crates bob.public.device_id with_seen.1
    ≡ (ok (some (merge (some known) seen)), with_seen.1)
peer-upsert_peer_example =
    peer-upsert_peer crates seen with_known.1 with_seen.1 crates-IsLawful (some known) whole
      bob_read seen_ok

other_device : bob.public.device_id ≢ alice.public.device_id
unfolding device_id_of
other_device = search arith

peer-upsert_peer_ne_example :
    (peer crates alice.public.device_id with_seen.1).0
    ≡ (peer crates alice.public.device_id with_known.1).0
peer-upsert_peer_ne_example =
    peer-upsert_peer_ne crates seen with_known.1 with_seen.1 alice.public.device_id other_device
      seen_ok
