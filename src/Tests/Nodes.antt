-- ===== src/Tests/Nodes.antt =====
-- A node with no peers that answers requests.
use nexus_p2p.Base.{none, ◌≡◌, refl, arith, true, [], ◌∷◌, nat_eq, list_eq}
use nexus_p2p.Base.Text.{codes, trim}
use nexus_p2p.Base.Result.{ok}
use nexus_p2p.Identity.{device_id_of, validate_public_identity}
use nexus_p2p.Protocol.{WireMessage, WireEnvelope}
use nexus_p2p.Storage.Peers.{peer, find_row, read_row}
use nexus_p2p.Node.{Node, node_identity}
use nexus_p2p.Node.Server.{serve, handle_request}
use nexus_p2p.Node.Server.Authenticity.{IsAuthentic}
use nexus_p2p.Node.Server.Authenticity.Handlers.{serve-IsAuthentic}
use nexus_p2p.Node.Server.Authorization.{IsPaired, IsRefusal, handle_request-unpaired}
use nexus_p2p.Tests.Crates.{crates}
use nexus_p2p.Tests.Devices.{alice, bob, clock, empty_store}
use nexus_p2p.Tests.Messages.{event}

abbrev pub node : Node
node = record {
  machine = record { store = empty_store; env = clock };
  keys = bob;
  display_name = codes "bob";
  listen_port = 4000;
  started = true;
  listening = true;
  discovery = none;
  sent = [];
}

abbrev pairing : WireEnvelope
pairing = record { version = 1; sender = alice.public; body = WireMessage.pair_request (codes "n") }

abbrev pushed : WireEnvelope
pushed = record { version = 1; sender = alice.public; body = WireMessage.push_event event }

bob-valid : validate_public_identity crates (node_identity node) ≡ ok tt
unfolding validate_public_identity node_identity trim list_eq nat_eq device_id_of
bob-valid = refl

serve-IsAuthentic_example : IsAuthentic crates (serve crates (pairing ∷ pushed ∷ []) node)
serve-IsAuthentic_example = serve-IsAuthentic crates (pairing ∷ pushed ∷ []) node (tt, bob-valid)

unpaired : ¬ IsPaired crates alice.public node
unfolding peer find_row read_row
unpaired p = absurd (ground (arith, p.1))

handle_request-unpaired_example :
    ((handle_request crates pushed node).1 ≡ node) × IsRefusal (handle_request crates pushed node).0
handle_request-unpaired_example = handle_request-unpaired crates pushed node tt unpaired
