-- ===== src/Node/Server/Authenticity/Handlers.antt =====
-- Every run of requests, as core/nexus-core/src/node.rs answers them, against the authenticity of the
-- log.
use nexus_p2p.Base.{List}
use nexus_p2p.External.{External}
use nexus_p2p.Protocol.{WireEnvelope}
use nexus_p2p.Node.{Node, node_identity}
use nexus_p2p.Node.Kept.{IsKept}
use nexus_p2p.Node.Server.{serve}
use nexus_p2p.Node.Server.Kept.{serve-IsKept}
use nexus_p2p.Node.Server.Authenticity.{IsAuthentic, authentic}

-- If the node's own identity is valid and every event of its log is signed by a valid identity
-- with the id of the event's author, then both still hold after any run of requests, from anyone,
-- answered or refused.
pub serve-IsAuthentic :
    (x : External) (requests : List WireEnvelope) (n : Node)
    → IsAuthentic x n
    → IsAuthentic x (serve x requests n)
unfolding IsKept node_identity
serve-IsAuthentic x requests n h = serve-IsKept x (authentic x) requests n h
