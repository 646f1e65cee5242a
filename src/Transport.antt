-- ===== src/Transport.antt =====
-- core/nexus-core/src/transport: the events that discovery sends. The children have the frames of
-- the TCP transport, its addresses and the mDNS discovery of lan.rs.
pub mod Frames
pub mod Address
pub mod Discovery
pub mod Tcp
pub mod Adapters
use nexus_p2p.Model.{DeviceId, PublicIdentity, PeerEndpoint}

-- What `Discovered` carries is an endpoint and an announcement.
pub data TransportEvent : Type 0 where
  discovered : PeerEndpoint → PublicIdentity → TransportEvent
  lost : DeviceId → TransportEvent
