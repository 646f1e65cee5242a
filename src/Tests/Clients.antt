-- ===== src/Tests/Clients.antt =====
-- A node that takes a new name.
use nexus_p2p.Base.{◌≡◌, refl, some, [], nat_eq, list_eq}
use nexus_p2p.Base.Text.{Text, codes, trim, trim_start, trim_end, is_whitespace}
use nexus_p2p.Base.Result.{Result, ok}
use nexus_p2p.Model.{PublicIdentity}
use nexus_p2p.Identity.{device_id_of}
use nexus_p2p.Identity.Local.{load, load_or_create}
use nexus_p2p.Storage.Identities.{set_public, update_identity_public}
use nexus_p2p.Node.{Node, node_identity}
use nexus_p2p.Node.Client.{set_display_name}
use nexus_p2p.Node.Client.Names.{load_or_create-set_display_name}
use nexus_p2p.Tests.Crates.{crates, crates-IsLawful}
use nexus_p2p.Tests.Devices.{bob, empty_store, value}
use nexus_p2p.Tests.Nodes.{node}

abbrev public_json : Text
public_json = value [] (crates.identity_to_json bob.public)

abbrev secret_json : Text
secret_json = value [] (crates.secret_to_bincode bob.signing bob.exchange)

abbrev started : Node
started = record node {
  machine = record node.machine {
    store = record empty_store { local_identity = some (public_json, secret_json) };
  };
}

loads : load crates public_json secret_json started.machine ≡ (ok started.keys, started.machine)
unfolding load device_id_of
loads = refl

abbrev renamed : Result PublicIdentity × Node
renamed = set_display_name crates (codes " laptop ") started

renamed_ok : renamed ≡ (ok (value bob.public renamed.0), renamed.1)
unfolding set_display_name update_identity_public set_public node_identity trim is_whitespace
    trim_start trim_end list_eq nat_eq
renamed_ok = refl

load_or_create-set_display_name_example :
    (node_identity renamed.1 ≡ value bob.public renamed.0)
    × (load_or_create crates (codes "other") renamed.1.machine
        ≡ (ok (record bob { public = value bob.public renamed.0 }), renamed.1.machine))
load_or_create-set_display_name_example =
    load_or_create-set_display_name crates crates-IsLawful started renamed.1
      (value bob.public renamed.0) (codes " laptop ") (codes "other") public_json secret_json refl
      loads renamed_ok
