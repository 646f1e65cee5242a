-- ===== src/Node.antt =====
-- core/nexus-core/src/node.rs: the state of a node, its events, and the steps that its handlers
-- share. The broadcast channel is the list of the events sent. The bound of the channel, the
-- locks and the tasks of the runtime are not modelled: a handler runs to its end.
pub mod Kept
pub mod Client
pub mod Start
pub mod Server
pub mod Sound
pub mod Reach
pub mod Exchange
use nexus_p2p.Base.{
  ℕ, ◌+◌, ◌-◌, ◌%◌, ◌^◌, Bool, true, false, Option, none, some, List, [], ◌∷◌, ◌++◌, ◌==◌, nat_eq,
  list_eq, if◌then◌else◌,
}
use nexus_p2p.Base.Int.{ℤ}
use nexus_p2p.Base.Text.{Text, Bytes, codes}
use nexus_p2p.Base.Result.{Error, fail, panic, Result, ok, err}
use nexus_p2p.Base.Exec.{Exec, pure, lift, gets, modify, ensure, some_or, zoom, ◌>>=◌, ◌>>◌}
use nexus_p2p.External.{External, Env}
use nexus_p2p.Model.{
  DeviceId, PublicIdentity, identity_eq, PeerEndpoint, Peer, EventEnvelope, EventKind, kind_eq,
  ChatItem, DecryptedPayload, direct_stream_id,
}
use nexus_p2p.Identity.Local.{Machine}
use nexus_p2p.Transport.Discovery.{Advertisement}
use nexus_p2p.Crypto.{Identity, verify_and_decrypt}
use nexus_p2p.Storage.{Store}
use nexus_p2p.Storage.Peers.{peer}
use nexus_p2p.Storage.Manifests.{save_manifest}

pub data NodeEvent : Type 0 where
  ready : PublicIdentity → ℕ → NodeEvent
  peer_discovered : Peer → NodeEvent
  peer_lost : DeviceId → NodeEvent
  paired : Peer → NodeEvent
  message : ChatItem → NodeEvent
  file_progress : Text → ℕ → ℕ → NodeEvent
  file_complete : Text → Text → NodeEvent
  sync_complete : DeviceId → ℕ → NodeEvent
  error : Text → NodeEvent

-- `listen_port` is that of the configuration; `discovery` is what the adapter announces, where
-- there is one; `listening` tells whether a listener is bound.
pub record Node : Type 0 where
  pub machine : Machine
  pub open machine use *
  pub keys : Identity
  pub display_name : Text
  pub listen_port : ℕ
  pub started : Bool
  pub listening : Bool
  pub discovery : Option Advertisement
  pub sent : List NodeEvent

abbrev pub in_store : {A : Type 0} → Exec Store A → Exec Node A
in_store =
    zoom (λ n. n.machine.store)
      (λ store n. record n { machine = record n.machine { store = store } })

abbrev pub in_env : {A : Type 0} → Exec Env A → Exec Node A
in_env = zoom (λ n. n.machine.env) (λ env n. record n { machine = record n.machine { env = env } })

abbrev pub in_machine : {A : Type 0} → Exec Machine A → Exec Node A
in_machine = zoom (λ n. n.machine) (λ machine n. record n { machine = machine })

unfoldable pub emit : NodeEvent → Exec Node Unit
emit event = modify (λ n. record n { sent = n.sent ++ event ∷ [] })

-- `Node::identity`: the stored identity under the current display name.
unfoldable pub node_identity : Node → PublicIdentity
node_identity n = record n.keys.public { display_name = n.display_name }

-- `a - b` on `usize`, as a release build computes it.
abbrev pub usize_sub : ℕ → ℕ → ℕ
usize_sub a b = (a + 2 ^ 64 - b) % 2 ^ 64

-- who wrote an event, as far as this node can tell
unfoldable pub author_of : Node → PublicIdentity → EventEnvelope → PublicIdentity
author_of n peer event = if event.author == n.keys.public.device_id then node_identity n else peer

module _ (x : External) where
  unfoldable pub chat_item : PublicIdentity → EventEnvelope → Exec Node ChatItem
  chat_item peer event n =
      (do
        payload ← lift (verify_and_decrypt x n.keys peer (author_of n peer event) event)
        pure (record {
          event_id = event.id;
          author = event.author;
          created_at_ms = event.created_at_ms;
          payload = payload;
        }))
        n

  -- Only the manifest of an event of that kind is saved.
  save_payload : DeviceId → DecryptedPayload → Exec Node Unit
  save_payload peer_id (DecryptedPayload.file_manifest manifest) =
      in_store (save_manifest x peer_id manifest)
  save_payload peer_id _ = pure tt

  unfoldable pub process_manifest : DeviceId → PublicIdentity → EventEnvelope → Exec Node Unit
  unfolding save_payload
  process_manifest peer_id peer event =
      if event.kind == EventKind.file_manifest
      then (do item ← chat_item peer event; save_payload peer_id item.payload)
      else pure tt

  unfoldable pub require_sender_paired : PublicIdentity → Exec Node Peer
  require_sender_paired sender = do
    found ← in_store (peer x sender.device_id)
    known ← some_or (fail (codes "unknown sender")) found
    ensure known.paired (fail (codes "sender is not paired"))
    ensure (known.identity == sender) (fail (codes "paired identity changed"))
    pure known

  unfoldable pub require_reachable_peer : DeviceId → Exec Node Peer
  require_reachable_peer id = do
    found ← in_store (peer x id)
    known ← some_or (fail (codes "unknown peer " ++ id)) found
    some_or (fail (codes "peer " ++ (id ++ codes " is offline"))) known.endpoint
    pure known

  unfoldable pub require_paired_peer : DeviceId → Exec Node Peer
  require_paired_peer id = do
    known ← require_reachable_peer id
    ensure known.paired (fail (codes "peer " ++ (id ++ codes " is not paired")))
    pure known
