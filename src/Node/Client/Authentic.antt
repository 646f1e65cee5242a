-- ===== src/Node/Client/Authentic.antt =====
-- `sync` of core/nexus-core/src/node.rs against the authenticity of the log.
use nexus_p2p.Base.{ℕ, ◌≡◌, some}
use nexus_p2p.Base.Result.{Result, ok}
use nexus_p2p.External.{External}
use nexus_p2p.Model.{DeviceId, PeerEndpoint, Peer}
use nexus_p2p.Protocol.{WireEnvelope}
use nexus_p2p.Identity.{validate_public_identity}
use nexus_p2p.Storage.Peers.{peer}
use nexus_p2p.Node.{Node, node_identity}
use nexus_p2p.Node.Kept.{IsKept}
use nexus_p2p.Node.Server.Authenticity.{IsAuthentic, authentic}
use nexus_p2p.Node.Client.Sync.{sync}
use nexus_p2p.Node.Client.Kept.{sync-IsKept}

module _ (x : External) (transport : ℕ → PeerEndpoint → WireEnvelope → Result WireEnvelope) where
  -- Whatever the other end answers, after a sync, whether it has ended, failed or still runs, the
  -- own identity of the node is valid and every event of its log is signed by a valid identity
  -- with the id of the author, if this held before and the identity that the store has for the
  -- peer is valid.
  pub sync-IsAuthentic :
      (fuel : ℕ) (id : DeviceId) (n : Node)
      → ((p : Peer)
          → (peer x id n.store).0 ≡ ok (some p)
          → validate_public_identity x p.identity ≡ ok tt)
      → IsAuthentic x n
      → IsAuthentic x (sync x transport fuel id n).1
  unfolding IsKept node_identity
  sync-IsAuthentic fuel id n valid h = sync-IsKept x (authentic x) transport fuel id n valid h
