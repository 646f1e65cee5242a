-- ===== src/Protocol.antt =====
-- The messages of core/nexus-core/src/protocol.rs.
use nexus_p2p.Base.{ℕ, Bool, List}
use nexus_p2p.Base.Text.{Text, Bytes}
use nexus_p2p.Model.{PublicIdentity, EventEnvelope}

pub record WireChunk : Type 0 where
  pub hash : Text
  pub nonce : Bytes
  pub bytes : Bytes

pub data WireMessage : Type 0 where
  hello : WireMessage
  pair_request : Text → WireMessage
  pair_response : Bool → WireMessage
  push_event : EventEnvelope → WireMessage
  ack : Text → WireMessage
  sync_exchange : Text → List Text → List EventEnvelope → WireMessage
  sync_result : List EventEnvelope → WireMessage
  chunk_request : Text → List Text → WireMessage
  chunk_result : Text → List WireChunk → WireMessage
  push_chunks : Text → List WireChunk → WireMessage
  error : Text → WireMessage

pub record WireEnvelope : Type 0 where
  pub version : ℕ
  pub sender : PublicIdentity
  pub body : WireMessage
