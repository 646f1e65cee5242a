-- ===== src/Tests/Wire.antt =====
-- A greeting on the wire, from one device to the other, and what a device announces.
use nexus_p2p.Base.{
  ◌+◌, ◌≤◌, ◌≡◌, ◌≢◌, refl, arith, some, [], ◌∷◌, ◌++◌, length, take, nat_eq, list_eq,
}
use nexus_p2p.Base.Dict.{lookup}
use nexus_p2p.Base.Text.{Text, Bytes, codes, trim, slice_to}
use nexus_p2p.Base.Result.{Result, ok}
use nexus_p2p.Model.{PublicIdentity, PeerEndpoint}
use nexus_p2p.Identity.{device_id_of, validate_public_identity}
use nexus_p2p.Protocol.{WireMessage, WireEnvelope}
use nexus_p2p.Transport.{TransportEvent}
use nexus_p2p.Transport.Frames.{max_frame, read_frame, write_frame, encode}
use nexus_p2p.Transport.Frames.RoundTrip.{read_frame-write_frame, read_frame-le}
use nexus_p2p.Transport.Address.{format_address-inj}
use nexus_p2p.Transport.Tcp.{request_over}
use nexus_p2p.Transport.Discovery.{
  Advertisement, ServiceInfo, advertisement, advertise, resolved_event, removed_event,
}
use nexus_p2p.Transport.Adapters.{fullname_of}
use nexus_p2p.Transport.Discovery.Announcements.{resolved_event-advertise, removed_event-advertise}
use nexus_p2p.Node.{node_identity}
use nexus_p2p.Node.Server.{handle_request, handle_message}
use nexus_p2p.Node.Server.Connection.{other_end, request_over-handle_connection}
use nexus_p2p.Tests.Crates.{crates, crates-IsLawful}
use nexus_p2p.Tests.Devices.{alice, bob, value}
use nexus_p2p.Tests.Nodes.{node}

abbrev greeting : WireEnvelope
greeting = record { version = 1; sender = alice.public; body = WireMessage.hello }

abbrev greeted : WireEnvelope
greeted = record { version = 1; sender = bob.public; body = WireMessage.hello }

abbrev sent_before : Bytes
sent_before = 5 ∷ []

abbrev written : Result (Unit {0}) × Bytes
written = write_frame crates greeting sent_before

written_ok : written ≡ (ok tt, written.1)
unfolding write_frame encode device_id_of
written_ok = refl

read_frame-write_frame_example :
    (frame : Bytes) × (written.1 ≡ sent_before ++ frame)
    × (length frame ≤ 4 + max_frame)
    × ((rest : Bytes) → read_frame crates (frame ++ rest) ≡ (ok greeting, rest))
read_frame-write_frame_example =
    read_frame-write_frame crates crates-IsLawful greeting sent_before written.1 written_ok

-- a frame that claims more bytes than come
abbrev short : Bytes
short = 0 ∷ 0 ∷ 0 ∷ 9 ∷ 1 ∷ 2 ∷ []

read_frame-le_example : length short ≤ length (read_frame crates short).1 + (4 + max_frame)
read_frame-le_example = read_frame-le crates short

abbrev plain : PeerEndpoint
plain = record { host = codes "fe80::1"; port = 4000 }

abbrev bracketed : PeerEndpoint
bracketed = record { host = codes "fe80:" ++ codes ":1"; port = 4000 }

format_address-inj_example : plain ≡ bracketed
format_address-inj_example = format_address-inj plain bracketed refl

handled :
    handle_request crates greeting node ≡ (ok greeted, (handle_request crates greeting node).1)
unfolding handle_request handle_message validate_public_identity node_identity trim list_eq nat_eq
    device_id_of
handled = refl

abbrev connect : Text → Result (Bytes → Bytes)
connect address = ok (other_end crates node)

request_over-handle_connection_example : request_over crates connect plain greeting ≡ ok greeted
unfolding device_id_of
request_over-handle_connection_example =
    request_over-handle_connection crates crates-IsLawful connect plain greeting greeted node
      (handle_request crates greeting node).1 refl
      (value [] (crates.envelope_to_cbor greeting), refl, omega arith)
      (value [] (crates.envelope_to_cbor greeted), refl, omega arith) handled

abbrev key : Bytes
key = crates.blake3 (1 ∷ 2 ∷ [])

abbrev phone : PublicIdentity
phone = record {
  device_id = device_id_of crates key;
  display_name = codes "phone";
  signing_public_key = key;
  exchange_public_key = key;
}

abbrev announced : Advertisement
announced = advertisement crates (take 8 phone.device_id) phone 4000

announced_ok : advertise crates phone 4000 ≡ ok announced
unfolding advertise slice_to device_id_of nat_eq
announced_ok = refl

abbrev info : ServiceInfo
info = record {
  hostname = announced.host;
  port = 4000;
  property = λ k. lookup k announced.properties;
}

other_id : phone.device_id ≢ bob.public.device_id
unfolding device_id_of
other_id e = absurd (ground (arith, e))

resolved_event-advertise_example :
    resolved_event crates bob.public.device_id info
    ≡ some (
        TransportEvent.discovered
          (record { host = phone.device_id ++ codes ".local"; port = 4000 })
          phone)
resolved_event-advertise_example =
    resolved_event-advertise crates phone 4000 announced crates-IsLawful bob.public.device_id info
      announced_ok
      (record {
        hostname = refl;
        port = refl;
        id = refl;
        name = refl;
        sign = refl;
        exchange = refl;
      })
      other_id (refl, search arith) (refl, search arith)

removed_event-advertise_example :
    (ad : Advertisement) × (advertise crates phone 4000 ≡ ok ad)
    × (removed_event (fullname_of ad) ≡ some (TransportEvent.lost (take 8 phone.device_id)))
    × (take 8 phone.device_id ≢ phone.device_id)
removed_event-advertise_example = removed_event-advertise crates crates-IsLawful key phone 4000 refl
