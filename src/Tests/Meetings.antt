-- ===== src/Tests/Meetings.antt =====
-- A device that has just started is told of another, and is asked to pair.
use nexus_p2p.Base.{◌≡◌, refl, true, false, Option, none, some, [], nat_eq, list_eq, if◌then◌else◌}
use nexus_p2p.Base.Int.{pos}
use nexus_p2p.Base.Text.{codes, trim, trim_start, trim_end, is_whitespace}
use nexus_p2p.Base.Result.{Result, ok}
use nexus_p2p.External.{fill_bytes, now_ms}
use nexus_p2p.Identity.{device_id_of, validate_public_identity}
use nexus_p2p.Identity.Local.{create, load_or_create}
use nexus_p2p.Model.{PublicIdentity, Peer, protocol_version}
use nexus_p2p.Protocol.{WireMessage, WireEnvelope}
use nexus_p2p.Storage.Identities.{load_identity, save_identity}
use nexus_p2p.Storage.Peers.{
  peer, find_row, read_row, upsert_peer, upsert_row, merge_peer, coalesce, set_peer_paired,
}
use nexus_p2p.Transport.{TransportEvent}
use nexus_p2p.Node.{Node, NodeEvent, emit, node_identity}
use nexus_p2p.Node.Start.{new_node}
use nexus_p2p.Node.Client.Pairing.{remembered, handle_transport_event-remember_peer}
use nexus_p2p.Node.Client.{is_paired, remember_peer, handle_transport_event}
use nexus_p2p.Node.Server.{handle_request, handle_message, handle_pair_request}
use nexus_p2p.Node.Server.Authorization.{IsPaired}
use nexus_p2p.Node.Reach.Paired.{handle_request-IsPaired}
use nexus_p2p.Node.Reach.Remembered.{remember_peer-Reach}
use nexus_p2p.Tests.Crates.{crates, crates-IsLawful}
use nexus_p2p.Tests.Devices.{alice, value}
use nexus_p2p.Tests.Lives.{b_paired, first_a, made, place}

alice-valid : validate_public_identity crates alice.public ≡ ok tt
unfolding validate_public_identity trim list_eq nat_eq device_id_of
alice-valid = refl

abbrev asked : WireEnvelope
asked = record {
  version = protocol_version;
  sender = alice.public;
  body = WireMessage.pair_request (codes "n");
}

handle_request-IsPaired_example :
    (answer : WireEnvelope) × ((handle_request crates asked (made 0)).0 ≡ ok answer)
    × (answer.body ≡ WireMessage.pair_response true)
    × IsPaired crates alice.public (handle_request crates asked (made 0)).1
handle_request-IsPaired_example =
    handle_request-IsPaired crates crates-IsLawful alice.public (codes "n")
      (value [] (crates.identity_to_json alice.public)) first_a alice-valid refl

remember_peer-Reach_example :
    ((remember_peer crates alice.public place (made 0)).0 ≡ ok tt)
    × ((old : Option Peer) × ((peer crates alice.public.device_id (made 0).store).0 ≡ ok old)
        × (known : Peer) × ((peer crates alice.public.device_id
              (remember_peer crates alice.public place (made 0)).1.store).0
            ≡ ok (some known))
        × (known.identity ≡ alice.public)
        × (known.endpoint ≡ some place)
        × (known.paired ≡ is_paired old))
remember_peer-Reach_example =
    remember_peer-Reach crates crates-IsLawful alice.public place
      (value [] (crates.identity_to_json alice.public)) first_a alice-valid refl

-- The device that has paired is discovered again.
abbrev discovered : PublicIdentity
discovered = node_identity (made 0)

abbrev known_of : Result (Option Peer) → Peer
known_of (ok (some p)) = p
known_of _ = record {
  identity = alice.public;
  endpoint = none;
  paired = false;
  last_seen_ms = pos 0;
}

abbrev met_before : Peer
met_before = known_of (peer crates discovered.device_id b_paired.store).0

abbrev met_again : Result (Unit {0}) × Node
met_again = remember_peer crates discovered place b_paired

known_before :
    peer crates discovered.device_id b_paired.store ≡ (ok (some met_before), b_paired.store)
unfolding peer find_row read_row remember_peer new_node load_or_create load_identity create
    fill_bytes save_identity device_id_of validate_public_identity trim trim_start trim_end
    is_whitespace now_ms upsert_peer upsert_row merge_peer coalesce list_eq nat_eq node_identity
    handle_request handle_message handle_pair_request set_peer_paired emit
known_before = refl

met_again_ok : met_again ≡ (ok tt, met_again.1)
unfolding peer find_row read_row remember_peer new_node load_or_create load_identity create
    fill_bytes save_identity device_id_of validate_public_identity trim trim_start trim_end
    is_whitespace now_ms upsert_peer upsert_row merge_peer coalesce list_eq nat_eq node_identity
    handle_request handle_message handle_pair_request set_peer_paired emit
met_again_ok = refl

handle_transport_event-remember_peer_example :
    handle_transport_event crates (TransportEvent.discovered place discovered) b_paired ≡ (
      ok (if is_paired (some met_before) then some discovered.device_id else none),
      (emit
          (NodeEvent.peer_discovered (remembered discovered place (some met_before) b_paired))
          met_again.1).1,
    )
handle_transport_event-remember_peer_example =
    handle_transport_event-remember_peer crates discovered place b_paired met_again.1
      (some met_before) known_before met_again_ok

-- It had paired, so that the discovery spawns a synchronization.
spawned : is_paired (some met_before) ≡ true
unfolding peer find_row read_row remember_peer new_node load_or_create load_identity create
    fill_bytes save_identity device_id_of validate_public_identity trim trim_start trim_end
    is_whitespace now_ms upsert_peer upsert_row merge_peer coalesce list_eq nat_eq node_identity
    handle_request handle_message handle_pair_request set_peer_paired emit
spawned = refl
