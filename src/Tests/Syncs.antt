-- ===== src/Tests/Syncs.antt =====
-- A node that synchronizes with a paired device.
use mathlib.Core.Path.{subst}
use nexus_p2p.Base.Int.{pos}
use nexus_p2p.Base.{ℕ, ◌≡◌, refl, ap, Option, some, [], ◌∷◌, nat_eq, list_eq}
use nexus_p2p.Base.Text.{codes, trim}
use nexus_p2p.Base.Result.{fail, Result, ok, err}
use nexus_p2p.Identity.{device_id_of, validate_public_identity}
use nexus_p2p.Model.{PublicIdentity, PeerEndpoint, Peer}
use nexus_p2p.Protocol.{WireMessage, WireEnvelope}
use nexus_p2p.Storage.Peers.{peer, find_row, read_row}
use nexus_p2p.Node.{Node, node_identity}
use nexus_p2p.Node.Server.Authenticity.{IsAuthentic}
use nexus_p2p.Node.Client.Sync.{sync}
use nexus_p2p.Node.Client.Authentic.{sync-IsAuthentic}
use nexus_p2p.Tests.Crates.{crates}
use nexus_p2p.Tests.Devices.{alice, clock, empty_store, value}
use nexus_p2p.Tests.Messages.{event}
use nexus_p2p.Tests.Nodes.{node}

abbrev paired : Node
paired = record node {
  machine = record {
    env = clock;
    store = record empty_store {
      peer_rows =
          record {
            device_id = alice.public.device_id;
            identity_json = value [] (crates.identity_to_json alice.public);
            host = some (codes "10.0.0.2");
            port = some 4000;
            paired = 1;
            last_seen_ms = pos 1;
          }
          ∷ [];
    };
  };
}

abbrev answer_to : WireMessage → Result WireEnvelope
answer_to (WireMessage.sync_exchange stream known incoming) =
    ok (record { version = 1; sender = alice.public; body = WireMessage.sync_result (event ∷ []) })
answer_to _ = err (fail (codes "refused"))

abbrev transport : ℕ → PeerEndpoint → WireEnvelope → Result WireEnvelope
transport k endpoint asked = answer_to asked.body

bob-valid : validate_public_identity crates (node_identity paired) ≡ ok tt
unfolding validate_public_identity node_identity trim list_eq nat_eq device_id_of
bob-valid = refl

alice-valid : validate_public_identity crates alice.public ≡ ok tt
unfolding validate_public_identity trim list_eq nat_eq device_id_of
alice-valid = refl

abbrev identity_of : Result (Option Peer) → PublicIdentity
identity_of (ok (some p)) = p.identity
identity_of _ = alice.public

peers-valid :
    (p : Peer)
    → (peer crates alice.public.device_id paired.store).0 ≡ ok (some p)
    → validate_public_identity crates p.identity ≡ ok tt
unfolding peer find_row read_row list_eq nat_eq device_id_of
peers-valid p found =
    subst (λ (i : PublicIdentity). validate_public_identity crates i ≡ ok tt) (ap identity_of found)
      alice-valid

sync-IsAuthentic_example :
    IsAuthentic crates (sync crates transport 1 alice.public.device_id paired).1
sync-IsAuthentic_example =
    sync-IsAuthentic crates transport 1 alice.public.device_id paired peers-valid (tt, bob-valid)
