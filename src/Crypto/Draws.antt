-- ===== src/Crypto/Draws.antt =====
-- `create_event` and `encrypt_chunk` of core/nexus-core/src/crypto.rs, which draw an id, the time
-- and a nonce.
use nexus_p2p.Base.Text.{Text, Bytes}
use nexus_p2p.Base.Exec.{Exec, lift, ◌>>=◌}
use nexus_p2p.External.{External, Env, now_ms, fill_bytes, new_ulid}
use nexus_p2p.Model.{PublicIdentity, EventKind, EventEnvelope, DecryptedPayload}
use nexus_p2p.Crypto.{Identity, conversation_key, seal_event, seal_chunk}

module _ (x : External) where
  unfoldable pub create_event :
      Identity → PublicIdentity → Text → EventKind → DecryptedPayload → Exec Env EventEnvelope
  create_event identity peer stream_id kind payload = do
    id ← new_ulid
    created_at_ms ← now_ms
    key ← lift (conversation_key x identity peer stream_id)
    nonce ← fill_bytes 24
    lift (seal_event x identity stream_id kind payload id created_at_ms key nonce)

  unfoldable pub encrypt_chunk :
      Identity → PublicIdentity → Text → Text → Text → Bytes → Exec Env (Bytes × Bytes)
  encrypt_chunk identity peer stream_id manifest_id hash cleartext = do
    key ← lift (conversation_key x identity peer stream_id)
    nonce ← fill_bytes 24
    lift (seal_chunk x manifest_id hash cleartext key nonce)
