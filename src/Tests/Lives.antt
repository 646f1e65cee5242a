-- ===== src/Tests/Lives.antt =====
-- Two devices from their first start: they meet, pair, and exchange a message.
use nexus_p2p.Base.{ℕ, zero, suc, ◌+◌, ◌≡◌, ◌≢◌, refl, false, [], ◌∷◌, arith, nat_eq, list_eq}
use nexus_p2p.Base.Text.{Text, Bytes, codes, trim, trim_start, trim_end, is_whitespace}
use nexus_p2p.Base.Result.{fail, Result, ok, err}
use nexus_p2p.External.{Env, fill_bytes, now_ms, new_ulid}
use nexus_p2p.Model.{PeerEndpoint, EventKind, EventEnvelope, DecryptedPayload, kind_eq, identity_eq}
use nexus_p2p.Protocol.{WireMessage, WireEnvelope}
use nexus_p2p.Crypto.{verify_and_decrypt, conversation_key, seal_event}
use nexus_p2p.Crypto.Draws.{create_event}
use nexus_p2p.Identity.{device_id_of}
use nexus_p2p.Identity.Local.{Machine, create, load_or_create}
use nexus_p2p.Storage.Identities.{load_identity, save_identity, set_public, update_identity_public}
use nexus_p2p.Storage.Path.{join}
use nexus_p2p.Storage.Open.{Disk, left}
use nexus_p2p.Node.{Node, node_identity}
use nexus_p2p.Node.Start.{NodeConfig, new_node, open_node}
use nexus_p2p.Node.Server.{handle_request, report_failure}
use nexus_p2p.Node.Client.{set_display_name, send_text, remember_peer}
use nexus_p2p.Node.Client.Sync.{pair}
use nexus_p2p.Node.Sound.{IsSound, IsDevice}
use nexus_p2p.Node.Sound.Start.{IsFresh}
use nexus_p2p.Node.Reach.{Step, Reach, Reach-IsSound}
use nexus_p2p.Node.Reach.Conversation.{verify_and_decrypt-Reach}
use nexus_p2p.Node.Reach.Restart.{open_node-Reach}
use nexus_p2p.Tests.Crates.{crates, crates-IsLawful}
use nexus_p2p.Tests.Devices.{clock, empty_store, value}
use nexus_p2p.Tests.Messages.{event}
use nexus_p2p.Tests.Nodes.{node}
use nexus_p2p.Tests.Starts.{working}

abbrev config : NodeConfig
config = record {
  data_dir = codes "d";
  display_name = codes "a";
  listen_port = 4000;
  enable_mdns = false;
}

-- as many bytes as are asked for
abbrev filled : ℕ → ℕ → Bytes
filled zero c = []
filled (suc n) c = c ∷ filled n c

abbrev pub long_clock : ℕ → Env
long_clock calls = record clock { random = λ c n. filled n (c + 1); calls = calls }

abbrev empty_disk : Disk
empty_disk = record { files = []; databases = [] }

abbrev machine_of : ℕ → Machine
machine_of calls = record {
  store = record empty_store { blob_dir = codes "d/blobs" };
  env = long_clock calls;
}

abbrev pub made : ℕ → Node
made calls = value node (new_node crates working config (machine_of calls)).0

empty_store-IsFresh : IsFresh (machine_of 0).store
empty_store-IsFresh = record { saved = refl; log = refl; peers = refl }

a-named : trim config.display_name ≢ []
unfolding trim
a-named h = absurd (ground (arith, h))

made_ok : (new_node crates working config (machine_of 0)).0 ≡ ok (made 0)
unfolding new_node load_or_create load_identity create save_identity fill_bytes
made_ok = refl

other_ok : (new_node crates working config (machine_of 10)).0 ≡ ok (made 10)
unfolding new_node load_or_create load_identity create save_identity fill_bytes
other_ok = refl

pub first_a : Reach crates (made 0) (made 0)
first_a = Reach.first working config (machine_of 0) empty_store-IsFresh a-named made_ok

first_b : Reach crates (made 10) (made 10)
first_b = Reach.first working config (machine_of 10) empty_store-IsFresh a-named other_ok

abbrev pub place : PeerEndpoint
place = record { host = codes "10.0.0.4"; port = 4000 }

abbrev meet : Node → Node → Node
meet n other = (remember_peer crates (node_identity other) place n).1

-- A pairing request of the first device to the second.
abbrev pairing : WireEnvelope
pairing = record {
  version = 1;
  sender = node_identity (made 0);
  body = WireMessage.pair_request (codes "n");
}

abbrev b_met : Node
b_met = meet (made 10) (made 0)

abbrev pub b_paired : Node
b_paired = report_failure (handle_request crates pairing b_met)

abbrev answering : Node → ℕ → PeerEndpoint → WireEnvelope → Result WireEnvelope
answering other k endpoint asked = (handle_request crates asked other).0

abbrev offline : ℕ → PeerEndpoint → WireEnvelope → Result WireEnvelope
offline k endpoint asked = err (fail (codes "offline"))

abbrev a_id : Text
a_id = (made 0).keys.public.device_id

abbrev pub b_id : Text
b_id = (made 10).keys.public.device_id

-- The second device writes to the first, which does not answer.
abbrev pub b : Node
b = (send_text crates offline a_id (codes "hi") b_paired).1

abbrev a_met : Node
a_met = meet (made 0) (made 10)

abbrev a_paired : Node
a_paired = (pair crates (answering b_met) 1 b_id a_met).1

abbrev pub a : Node
a = (send_text crates offline b_id (codes "yo") a_paired).1

pub a-Reach : Reach crates (made 0) a
a-Reach =
    Reach.next
      (Reach.next (Reach.next first_a (Step.remembered (node_identity (made 10)) place))
        (Step.paired (answering b_met) 1 b_id))
      (Step.sent_text offline b_id (codes "yo"))

pub b_paired-Reach : Reach crates (made 10) b_paired
b_paired-Reach =
    Reach.next (Reach.next first_b (Step.remembered (node_identity (made 0)) place))
      (Step.answered pairing)

pub b-Reach : Reach crates (made 10) b
b-Reach = Reach.next b_paired-Reach (Step.sent_text offline a_id (codes "hi"))

Reach-IsSound_example : IsSound crates (made 0).keys a
Reach-IsSound_example = Reach-IsSound crates crates-IsLawful a-Reach

-- The first device under another name.
abbrev a_named : Node
a_named = (set_display_name crates (codes "pad") (made 0)).1

a_place : a_named.store.blob_dir ≡ join config.data_dir (codes "blobs")
unfolding join set_display_name update_identity_public set_public new_node load_or_create
    load_identity create save_identity fill_bytes device_id_of trim trim_start trim_end
    is_whitespace list_eq nat_eq node_identity
a_place = refl

open_node-Reach_example :
    (n : Node) × ((open_node crates working config
        (left config.data_dir a_named.store empty_disk)
        clock).0
      ≡ ok n)
    × (n.store ≡ a_named.store)
    × IsDevice (made 0).keys n.keys
    × (node_identity n ≡ node_identity a_named)
open_node-Reach_example =
    open_node-Reach crates crates-IsLawful working config empty_disk clock
      (Reach.next first_a (Step.renamed (codes "pad"))) refl a_place

abbrev written : Result EventEnvelope × Env
written =
    create_event crates a.keys (node_identity b) (codes "dm:1:2") EventKind.text
      (DecryptedPayload.text (codes "hi")) clock

abbrev letter : EventEnvelope
letter = value event written.0

written_ok : written ≡ (ok letter, written.1)
unfolding create_event new_ulid now_ms fill_bytes conversation_key seal_event remember_peer
    node_identity
written_ok = refl

verify_and_decrypt-Reach_example :
    verify_and_decrypt crates b.keys (node_identity a) (node_identity a) letter
    ≡ ok (DecryptedPayload.text (codes "hi"))
verify_and_decrypt-Reach_example =
    verify_and_decrypt-Reach crates crates-IsLawful a-Reach b-Reach (codes "dm:1:2") EventKind.text
      (DecryptedPayload.text (codes "hi")) clock written.1 letter written_ok
