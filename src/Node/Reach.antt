-- ===== src/Node/Reach.antt =====
-- The life of a node of core/nexus-core/src/node.rs: the steps that it may take, in any order and
-- with any outcome, and the nodes that they reach. The other end of each call is any function.
pub mod Conversation
pub mod Restart
pub mod Paired
pub mod Remembered
pub mod Delivered
use nexus_p2p.Base.{ℕ, ◌≡◌, ◌≢◌, List, []}
use nexus_p2p.Base.Text.{Text, Bytes, trim}
use nexus_p2p.Base.Result.{Result, ok}
use nexus_p2p.Crypto.{Identity}
use nexus_p2p.External.{External, IsLawful, Env}
use nexus_p2p.Model.{
  DeviceId, PublicIdentity, PeerEndpoint, EventKind, EventEnvelope, DecryptedPayload,
}
use nexus_p2p.Protocol.{WireEnvelope}
use nexus_p2p.Identity.Local.{Machine, load_or_create}
use nexus_p2p.Crypto.{verify_and_decrypt}
use nexus_p2p.Crypto.Draws.{create_event}
use nexus_p2p.Crypto.RoundTrip.{verify_and_decrypt-create_event}
use nexus_p2p.Transport.{TransportEvent}
use nexus_p2p.Node.{Node, node_identity}
use nexus_p2p.Node.Kept.{IsKept}
use nexus_p2p.Node.Server.{handle_request, report_failure}
use nexus_p2p.Node.Server.Kept.{handle_request-IsKept, report_failure-IsKept}
use nexus_p2p.Node.Client.{set_display_name, remember_peer, handle_transport_event, send_text, chat}
use nexus_p2p.Node.Client.Files.{send_file, materialize_file}
use nexus_p2p.Node.Client.Sync.{sync, sync_discovered, pair}
use nexus_p2p.Node.Start.{NodeConfig, Services, new_node, start}
use nexus_p2p.Node.Start.Kept.{start-IsKept}
use nexus_p2p.Node.Sound.{IsSound, sound}
use nexus_p2p.Node.Sound.Names.{set_display_name-IsSound}
use nexus_p2p.Node.Sound.Peers.{
  remember_peer-IsSound, handle_transport_event-IsSound, sync-IsSound, sync_discovered-IsSound,
  pair-IsSound, chat-IsSound,
}
use nexus_p2p.Node.Sound.Sending.{send_text-IsSound, send_file-IsSound, materialize_file-IsKept}
use nexus_p2p.Node.Sound.Start.{IsFresh, new_node-IsSound, first_start-IsSound}

abbrev Transport : Type 0
Transport = ℕ → PeerEndpoint → WireEnvelope → Result WireEnvelope

-- A step of a node, whether it succeeds or fails, the task that a discovery spawns being a step of its
-- own; after a restart the node is another one on the
-- same machine.
pub data Step (x : External) : Node → Node → Type 0 where
  started : (services : Services) {n : Node} → Step x n (start services n).1
  restarted :
      (services : Services) (config : NodeConfig) {n k : Node}
      → (new_node x services config n.machine).0 ≡ ok k
      → Step x n k
  answered :
      (request : WireEnvelope) {n : Node} → Step x n (report_failure (handle_request x request n))
  discovered : (event : TransportEvent) {n : Node} → Step x n (handle_transport_event x event n).1
  renamed : (name : Text) {n : Node} → Step x n (set_display_name x name n).1
  remembered :
      (i : PublicIdentity) (e : PeerEndpoint) {n : Node} → Step x n (remember_peer x i e n).1
  paired :
      (transport : Transport) (fuel : ℕ) (id : DeviceId) {n : Node}
      → Step x n (pair x transport fuel id n).1
  synced :
      (transport : Transport) (fuel : ℕ) (id : DeviceId) {n : Node}
      → Step x n (sync x transport fuel id n).1
  synced_discovered :
      (transport : Transport) (fuel : ℕ) (id : DeviceId) {n : Node}
      → Step x n (sync_discovered x transport fuel id n).1
  sent_text :
      (transport : Transport) (id : DeviceId) (text : Text) {n : Node}
      → Step x n (send_text x transport id text n).1
  sent_file :
      (transport : Transport) (reads : Bytes → List Bytes) (id : DeviceId) (path media_type : Text)
      {n : Node}
      → Step x n (send_file x transport reads id path media_type n).1
  materialized :
      (id destination : Text) {n : Node} → Step x n (materialize_file x id destination n).1
  read_chat :
      (transport : Transport) (id : DeviceId) {n : Node} → Step x n (chat x transport id n).1

-- The nodes that a first start leads to, on a machine where nothing was stored and under a name that
-- is not blank; the first index is the node that it made.
pub data Reach (x : External) : Node → Node → Type 0 where
  first :
      (services : Services) (config : NodeConfig) (m : Machine) {n : Node}
      → IsFresh m.store
      → trim config.display_name ≢ []
      → (new_node x services config m).0 ≡ ok n
      → Reach x n n
  next : {n m k : Node} → Reach x n m → Step x m k → Reach x n k

module _ (x : External) (law : IsLawful x) (d : Identity) where
  step-IsSound : {n k : Node} → Step x n k → IsSound x d n → IsSound x d k
  unfolding IsSound IsKept
  step-IsSound (Step.started services) h = (start-IsKept x (sound x law d) services).at _ h
  step-IsSound (Step.restarted services config {n = n} made) h =
      new_node-IsSound x law d services config n h made
  step-IsSound (Step.answered request {n = n}) h =
      report_failure-IsKept x (sound x law d) (handle_request x request n)
        ((handle_request-IsKept x (sound x law d) request).at n h)
  step-IsSound (Step.discovered event) h = (handle_transport_event-IsSound x law d event).at _ h
  step-IsSound (Step.renamed name) h = (set_display_name-IsSound x law d name).at _ h
  step-IsSound (Step.remembered i e) h = (remember_peer-IsSound x law d i e).at _ h
  step-IsSound (Step.paired transport fuel id) h = (pair-IsSound x law d transport fuel id).at _ h
  step-IsSound (Step.synced transport fuel id) h = (sync-IsSound x law d transport fuel id).at _ h
  step-IsSound (Step.synced_discovered transport fuel id) h =
      (sync_discovered-IsSound x law d transport fuel id).at _ h
  step-IsSound (Step.sent_text transport id text) h =
      (send_text-IsSound x law d transport id text).at _ h
  step-IsSound (Step.sent_file transport reads id path media_type) h =
      (send_file-IsSound x law d transport reads id path media_type).at _ h
  step-IsSound (Step.materialized id destination) h =
      (materialize_file-IsKept x (sound x law d) id destination).at _ h
  step-IsSound (Step.read_chat transport id) h = (chat-IsSound x law d transport id).at _ h

module _ (x : External) (law : IsLawful x) where
  -- Under the laws of the crates, after any sequence of the steps of a node, successful or failed,
  -- restarts included, from its first start on a machine where nothing was stored and under a name
  -- that is not blank, whatever the other ends send and answer: every event of the log is signed
  -- by a valid identity that is its author, the ids of the log are distinct, the identity that the
  -- node shows is valid and has the public keys of its secrets, the id and the secrets are those
  -- of the first start, every peer of the table has an identity that is valid and has the id of
  -- its row, and a host and a port or neither, and what is saved loads as the secrets of the node
  -- under the identity that it shows.
  pub Reach-IsSound : {n k : Node} → Reach x n k → IsSound x n.keys k
  Reach-IsSound (Reach.first services config m f name made) =
      first_start-IsSound x law services config m f name made
  Reach-IsSound (Reach.next {n = n} run step) = step-IsSound x law n.keys step (Reach-IsSound run)
