-- ===== src/Node/Start.antt =====
-- `NodeConfig`, `Node::new`, `Node::start` and `Node::shutdown` of core/nexus-core/src/node.rs. The
-- operating system and the mDNS daemon, a crate, are parameters: what they answer a call. The tasks
-- that `start` spawns are the handlers of Node/Server and Node/Client, which run when something
-- arrives.
pub mod Once
pub mod Kept
use nexus_p2p.Base.{
  ℕ, ◌≡◌, refl, Bool, true, false, Option, none, some, List, [], ◌∷◌, ◌++◌, arith, if◌then◌else◌,
}
use nexus_p2p.Base.Text.{Text}
use nexus_p2p.Base.Result.{Error, Result, ok, err}
use nexus_p2p.Base.Exec.{Exec, pure, lift, gets, modify, ◌>>=◌, ◌>>◌}
use nexus_p2p.External.{External, Env}
use nexus_p2p.Model.{PublicIdentity}
use nexus_p2p.Identity.Local.{Machine, load_or_create}
use nexus_p2p.Storage.Open.{Disk, open_store}
use nexus_p2p.Transport.Adapters.{Daemon, lan_adapter}
use nexus_p2p.Transport.Discovery.{Advertisement, advertise}
use nexus_p2p.Node.{Node, NodeEvent, emit, node_identity}

-- `data_dir` is where the store is.
pub record NodeConfig : Type 0 where
  pub data_dir : Text
  pub display_name : Text
  pub listen_port : ℕ
  pub enable_mdns : Bool

abbrev pub default_port : ℕ
default_port = 47777

abbrev pub default_discovery : Bool
default_discovery = true

-- what the system and the daemon answer
pub record Services : Type 0 where
  pub daemon : Result (Unit {0})
  pub service_info : Advertisement → Result (Unit {0})
  pub bind : ℕ → Result (Unit {0})
  pub mdns : Daemon

module _ (x : External) (services : Services) where
  -- `LanMdnsAdapter::new`, where discovery is enabled
  unfoldable adapter : NodeConfig → PublicIdentity → Exec Machine (Option Advertisement)
  adapter config identity =
      if config.enable_mdns
      then (do
        lift services.daemon
        service ← lift (advertise x identity config.listen_port)
        lift (services.service_info service)
        pure (some service))
      else pure none

  -- `Node::new` on a store that is open
  unfoldable pub new_node : NodeConfig → Exec Machine Node
  unfolding adapter
  new_node config = do
    identity ← load_or_create x config.display_name
    discovery ← adapter config identity.public
    machine ← gets (λ m. m)
    pure (record {
      machine = machine;
      keys = identity;
      display_name = identity.public.display_name;
      listen_port = config.listen_port;
      started = false;
      listening = false;
      discovery = discovery;
      sent = [];
    })

  -- `Node::new` with its open of the store
  unfoldable pub open_node : NodeConfig → Disk → Env → Result Node × Machine
  open_node config disk env =
      new_node config (record { store = open_store config.data_dir disk; env = env })

module _ (services : Services) where
  abbrev start_discovery : Option Advertisement → Exec Node Unit
  start_discovery none = pure tt
  start_discovery (some service) = lift (lan_adapter services.mdns service).start

  -- What `start` does where the flag was not set yet.
  unfoldable pub start_first : Exec Node Unit
  start_first = do
    modify (λ n. record n { started = true })
    port ← gets (λ n. n.listen_port)
    lift (services.bind port)
    modify (λ n. record n { listening = true })
    discovery ← gets (λ n. n.discovery)
    start_discovery discovery
    identity ← gets node_identity
    emit (NodeEvent.ready identity port)

  unfoldable pub start : Exec Node Unit
  start n = if n.started then (ok tt, n) else start_first n

  unfoldable pub shutdown : Exec Node Unit
  shutdown n = elim n.discovery [
    | none ↦ (ok tt, n)
    | some service ↦ ((lan_adapter services.mdns service).stop, n)
  ]
