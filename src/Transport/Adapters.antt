-- ===== src/Transport/Adapters.antt =====
-- The adapters of core/nexus-core/src/transport/mod.rs, as records of what they do, and the two of
-- lan.rs. What the mDNS daemon, a crate, answers a call is a parameter.
use nexus_p2p.Base.{ℕ, Bool, ◌++◌, ◌∷◌}
use nexus_p2p.Base.Text.{Text, Bytes, codes}
use nexus_p2p.Base.Result.{Result, ok, err, ◌>>◌}
use nexus_p2p.External.{External}
use nexus_p2p.Model.{PeerEndpoint}
use nexus_p2p.Protocol.{WireEnvelope}
use nexus_p2p.Transport.Discovery.{Advertisement, service_type}
use nexus_p2p.Transport.Tcp.{request_over}

pub record DiscoveryAdapter : Type 0 where
  pub start : Result (Unit {0})
  pub stop : Result (Unit {0})

pub record DataTransport : Type 0 where
  pub name : Text
  pub request : PeerEndpoint → WireEnvelope → Result WireEnvelope

pub record RadioCapabilities : Type 0 where
  pub discovery_only : Bool
  pub metered : Bool
  pub max_frame_size : ℕ

-- An adapter that is both, with what it can do.
pub record PlatformRadioAdapter : Type 0 where
  pub discovery : DiscoveryAdapter
  pub data_transport : DataTransport
  pub capabilities : RadioCapabilities

-- what the daemon answers
pub record Daemon : Type 0 where
  pub register : Advertisement → Result (Unit {0})
  pub browse : Text → Result (Unit {0})
  pub unregister : Text → Result (Unit {0})
  pub shutdown : Result (Unit {0})

-- `get_fullname`
abbrev pub fullname_of : Advertisement → Text
fullname_of service = service.instance_name ++ 46 ∷ service_type

-- The outcome is dropped.
abbrev ignoring {ℓ} : {A B : Type ℓ} → Result A → Result B → Result B
ignoring (ok a) next = next
ignoring (err e) next = next

-- `LanMdnsAdapter::start`, which also spawns the loop over the events of the daemon.
abbrev start_adapter : Daemon → Advertisement → Result (Unit {0})
start_adapter daemon service = daemon.register service >> daemon.browse service_type

-- `LanMdnsAdapter::stop`; that it waits for the daemon to be done is left out, its outcome is
-- dropped.
abbrev stop_adapter : Daemon → Advertisement → Result (Unit {0})
stop_adapter daemon service = ignoring (daemon.unregister (fullname_of service)) daemon.shutdown

-- `LanMdnsAdapter` with a service
abbrev pub lan_adapter : Daemon → Advertisement → DiscoveryAdapter
lan_adapter daemon service = record {
  start = start_adapter daemon service;
  stop = stop_adapter daemon service;
}

-- `LanTcpTransport`, over what connecting gives
abbrev pub lan_transport : External → (Text → Result (Bytes → Bytes)) → DataTransport
lan_transport x connect = record { name = codes "lan-tcp"; request = request_over x connect }
