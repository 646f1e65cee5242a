-- ===== src/Tests/Deliveries.antt =====
-- A text from a device that has just started to one that it has paired with.
use nexus_p2p.Base.{
  ◌≡◌, ◌≢◌, refl, Option, some, none, false, arith, nat_eq, list_eq, length, contains,
}
use nexus_p2p.Base.Int.{pos}
use nexus_p2p.Base.Text.{codes, trim, trim_start, trim_end, is_whitespace}
use nexus_p2p.Base.Result.{Result, ok}
use nexus_p2p.External.{Env, fill_bytes, now_ms, new_ulid}
use nexus_p2p.Identity.{device_id_of, validate_public_identity}
use nexus_p2p.Identity.Local.{create, load_or_create}
use nexus_p2p.Model.{Peer, EventKind, EventEnvelope, DecryptedPayload, protocol_version}
use nexus_p2p.Protocol.{WireMessage, WireEnvelope}
use nexus_p2p.Crypto.{conversation_key, seal_event}
use nexus_p2p.Crypto.Draws.{create_event}
use nexus_p2p.Storage.Events.{row_ids}
use nexus_p2p.Storage.Identities.{load_identity, save_identity}
use nexus_p2p.Storage.Peers.{
  peer, find_row, read_row, upsert_peer, upsert_row, merge_peer, coalesce, set_peer_paired,
}
use nexus_p2p.Node.{node_identity, emit}
use nexus_p2p.Node.Client.{remember_peer}
use nexus_p2p.Node.Start.{new_node}
use nexus_p2p.Node.Server.{handle_request, handle_message, handle_pair_request}
use nexus_p2p.Node.Server.Authorization.{IsPaired}
use nexus_p2p.Storage.Events.Held.{HasEvent}
use nexus_p2p.Node.Reach.Delivered.{handle_request-HasEvent}
use nexus_p2p.Tests.Crates.{crates, crates-IsLawful}
use nexus_p2p.Tests.Devices.{alice, value}
use nexus_p2p.Tests.Messages.{event}
use nexus_p2p.Tests.Lives.{b_paired, b_paired-Reach, long_clock, made, first_a}

abbrev known_of : Result (Option Peer) → Peer
known_of (ok (some p)) = p
known_of _ = record {
  identity = alice.public;
  endpoint = none;
  paired = false;
  last_seen_ms = pos 0;
}

paired : IsPaired crates (node_identity (made 0)) b_paired
unfolding peer find_row read_row remember_peer new_node load_or_create load_identity create
    fill_bytes save_identity device_id_of validate_public_identity trim trim_start trim_end
    is_whitespace now_ms upsert_peer upsert_row merge_peer coalesce list_eq nat_eq node_identity
    handle_request handle_message handle_pair_request set_peer_paired emit
paired =
    (known_of (peer crates (node_identity (made 0)).device_id b_paired.store).0, refl, refl, refl)

apart : (made 0).keys.public.device_id ≢ b_paired.keys.public.device_id
unfolding remember_peer new_node load_or_create load_identity create fill_bytes save_identity
    device_id_of validate_public_identity trim list_eq nat_eq node_identity peer find_row read_row
    now_ms upsert_peer upsert_row handle_request handle_message handle_pair_request set_peer_paired
    emit merge_peer coalesce
apart h = absurd (ground (arith, h))

abbrev written : Result EventEnvelope × Env
written =
    create_event crates (made 0).keys (node_identity b_paired) (codes "dm:1:2") EventKind.text
      (DecryptedPayload.text (codes "hi")) (long_clock 40)

abbrev letter : EventEnvelope
letter = value event written.0

written_ok : written ≡ (ok letter, written.1)
unfolding create_event new_ulid now_ms fill_bytes conversation_key seal_event node_identity
written_ok = refl

long : length letter.nonce ≡ 24
unfolding create_event new_ulid now_ms fill_bytes conversation_key seal_event node_identity
long = refl

new_id : contains (row_ids b_paired.store.event_rows) letter.id ≡ false
unfolding remember_peer new_node load_or_create load_identity create fill_bytes save_identity
    device_id_of validate_public_identity trim list_eq nat_eq node_identity peer find_row read_row
    now_ms upsert_peer upsert_row handle_request handle_message handle_pair_request set_peer_paired
    emit merge_peer coalesce
new_id = refl

abbrev asked : WireEnvelope
asked = record {
  version = protocol_version;
  sender = node_identity (made 0);
  body = WireMessage.push_event letter;
}

handle_request-HasEvent_example :
    (answer : WireEnvelope) × ((handle_request crates asked b_paired).0 ≡ ok answer)
    × (answer.body ≡ WireMessage.ack letter.id)
    × HasEvent crates letter (handle_request crates asked b_paired).1.store.event_rows
handle_request-HasEvent_example =
    handle_request-HasEvent crates crates-IsLawful (codes "dm:1:2") (codes "hi") (long_clock 40)
      written.1 letter first_a b_paired-Reach paired apart written_ok long new_id
