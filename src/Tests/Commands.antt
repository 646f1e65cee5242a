-- ===== src/Tests/Commands.antt =====
-- A line that is typed, and a command of the C interface.
use nexus_p2p.Base.{
  ℕ, zero, suc, ◌≡◌, ◌≢◌, refl, arith, Option, none, some, List, [], ◌∷◌, nat_eq, list_eq,
}
use nexus_p2p.Base.Text.{Bytes, codes, trim, trim_end, trim_start, is_whitespace}
use nexus_p2p.Base.Result.{fail, Result, ok, err}
use nexus_p2p.External.{now_ms, fill_bytes}
use nexus_p2p.Model.{PublicIdentity, PeerEndpoint, Peer}
use nexus_p2p.Identity.{device_id_of, validate_public_identity}
use nexus_p2p.Protocol.{WireEnvelope}
use nexus_p2p.Storage.Peers.{peer, find_row, read_row, upsert_peer}
use nexus_p2p.Node.{NodeEvent}
use nexus_p2p.Node.Client.{is_paired, remember_peer}
use nexus_p2p.Cli.{CliCommand, parse_line}
use nexus_p2p.Cli.Lines.{shown, parse_line-shown}
use nexus_p2p.Ffi.{
  Command, Data, Response, Strings, Handle, read_string, respond, call_remember_peer, dispatch,
  execute, nexus_call,
}
use nexus_p2p.Ffi.Remembered.{nexus_call-remember_peer}
use nexus_p2p.Tests.Crates.{crates, crates-IsLawful}
use nexus_p2p.Tests.Devices.{alice}
use nexus_p2p.Node.Start.{new_node}
use nexus_p2p.Identity.Local.{create, load_or_create}
use nexus_p2p.Storage.Identities.{load_identity, save_identity}
use nexus_p2p.Tests.Lives.{first_a, made}
use nexus_p2p.Tests.Starts.{working}

abbrev spoken : CliCommand
spoken = CliCommand.say (codes "ab12") (codes " hello,  you two")

parse_line-shown_example : parse_line (shown spoken) ≡ ok spoken
unfolding trim_end is_whitespace nat_eq
parse_line-shown_example =
    parse_line-shown spoken (search arith, ((λ e. absurd (ground (arith, e))), refl))

abbrev command : Command
command = record {
  op = codes "remember_peer";
  peer_id = [];
  text = [];
  path = [];
  media_type = [];
  manifest_id = [];
  destination = [];
  identity = some alice.public;
  host = codes "10.0.0.3";
  port = 4000;
  display_name = [];
}

abbrev strings : Strings
strings = record {
  to_str = λ b. ok b;
  config_from_json = λ t. err (fail (codes "bad"));
  command_from_json = λ t. ok command;
}

abbrev nth : List NodeEvent → ℕ → Option NodeEvent
nth [] k = none
nth (e ∷ es) zero = some e
nth (e ∷ es) (suc k) = nth es k

abbrev try_recv : List NodeEvent → ℕ → Option NodeEvent × ℕ
try_recv sent k = elim (nth sent k) [ none ↦ (none, k) | some e ↦ (some e, suc k) ]

abbrev unreachable : ℕ → PeerEndpoint → WireEnvelope → Result WireEnvelope
unreachable k endpoint asked = err (fail (codes "unreachable"))

abbrev whole : Bytes → List Bytes
whole bytes = bytes ∷ []

abbrev handle : Handle ℕ
handle = record { node = made 0; receiver = 0 }

abbrev answered : Result Response × Option (Handle ℕ)
answered =
    nexus_call crates unreachable whole working strings try_recv 1 (some handle) (some (codes "{}"))

abbrev met : Handle ℕ
met = elim answered.1 [ none ↦ handle | some h ↦ h ]

answered_ok : answered ≡ (ok (Response.succeeded Data.null), some met)
unfolding nexus_call execute dispatch read_string respond call_remember_peer remember_peer
    validate_public_identity device_id_of trim peer find_row read_row upsert_peer now_ms list_eq
    nat_eq trim_start trim_end is_whitespace new_node load_or_create load_identity create fill_bytes
    save_identity
answered_ok = refl

nexus_call-remember_peer_example :
    (who : PublicIdentity) × (command.identity ≡ some who)
    × (trim command.host ≢ [])
    × (command.port ≢ 0)
    × (validate_public_identity crates who ≡ ok tt)
    × ((old : Option Peer) × ((peer crates who.device_id (made 0).store).0 ≡ ok old)
        × (known : Peer) × ((peer crates who.device_id met.node.store).0 ≡ ok (some known))
        × (known.identity ≡ who)
        × (known.endpoint ≡ some (record { host = command.host; port = command.port }))
        × (known.paired ≡ is_paired old))
nexus_call-remember_peer_example =
    nexus_call-remember_peer crates unreachable whole working strings try_recv 1 crates-IsLawful
      (codes "{}") (codes "{}") command handle met Data.null refl refl refl first_a answered_ok
