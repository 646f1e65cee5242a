-- ===== src/Crypto.antt =====
-- core/nexus-core/src/crypto.rs, and `verify` and the secret operations of identity.rs.
pub mod Draws
pub mod RoundTrip
pub mod Verified
pub mod Signed
use nexus_p2p.Base.{ℕ, ◌≡◌, List, [], ◌∷◌, ◌++◌, ◌==◌, list_eq, nat_eq}
use nexus_p2p.Base.Int.{ℤ}
use nexus_p2p.Base.Decimal.{int_decimal}
use nexus_p2p.Base.Text.{Text, Bytes, codes, utf8}
use nexus_p2p.Base.Result.{fail, Result, ok, err, map_err, ensure, ◌>>=◌, ◌>>◌}
use nexus_p2p.External.{External}
use nexus_p2p.Model.{
  PublicIdentity, EventKind, kind_code, EventEnvelope, SignableEvent, signable, DecryptedPayload,
}

-- `Identity`: the public half and the two secrets.
pub record Identity : Type 0 where
  pub public : PublicIdentity
  pub signing : Bytes
  pub exchange : Bytes

unfoldable pub aad : Text → Text → Text → ℤ → EventKind → Bytes
aad id stream_id author created_at_ms kind = utf8 (
    codes "nexus/v1/"
    ++ (id
        ++ (codes "/"
            ++ (stream_id
                ++ (codes "/"
                    ++ (author
                        ++ (codes "/"
                            ++ (int_decimal created_at_ms
                                ++ (codes "/" ++ int_decimal (kind_code kind))))))))))

unfoldable pub chunk_aad : Text → Text → Bytes
chunk_aad manifest_id hash = utf8 (codes "nexus/v1/chunk/" ++ (manifest_id ++ (codes "/" ++ hash)))

module _ (x : External) where
  unfoldable pub sign : Identity → Bytes → Bytes
  sign identity bytes = x.ed25519_sign identity.signing bytes

  unfoldable pub shared_secret : Identity → Bytes → Bytes
  shared_secret identity peer_exchange_key = x.x25519 identity.exchange peer_exchange_key

  unfoldable pub verify : PublicIdentity → Bytes → Bytes → Result (Unit {0})
  verify public message signature = do
    x.verifying_key public.signing_public_key
    x.signature_from_slice signature
    x.ed25519_verify public.signing_public_key message signature

  unfoldable pub conversation_key : Identity → PublicIdentity → Text → Result Bytes
  conversation_key identity peer stream_id =
      map_err (fail (codes "HKDF output length is invalid")) (
        x.hkdf_sha256 (utf8 (codes "nexus-p2p-v1"))
          (shared_secret identity peer.exchange_public_key) (utf8 stream_id))

  -- `create_event` after its last draw
  unfoldable pub seal_event :
      Identity
      → Text
      → EventKind
      → DecryptedPayload
      → Text
      → ℤ
      → Bytes
      → Bytes
      → Result EventEnvelope
  seal_event identity stream_id kind payload id created_at_ms key nonce = do
    cleartext ← x.payload_to_cbor payload
    ciphertext ← map_err (fail (codes "event encryption failed")) (
        x.xchacha_encrypt key nonce cleartext
          (aad id stream_id identity.public.device_id created_at_ms kind))
    let event : EventEnvelope = record {
      id = id;
      stream_id = stream_id;
      author = identity.public.device_id;
      created_at_ms = created_at_ms;
      kind = kind;
      nonce = nonce;
      ciphertext = ciphertext;
      signature = [];
    }
    bytes ← x.signable_to_bincode (signable event)
    ok (record event { signature = sign identity bytes })

  unfoldable pub verify_and_decrypt :
      Identity → PublicIdentity → PublicIdentity → EventEnvelope → Result DecryptedPayload
  verify_and_decrypt identity peer author event = do
    ensure (event.author == author.device_id) (fail (codes "event author mismatch"))
    bytes ← x.signable_to_bincode (signable event)
    verify author bytes event.signature
    key ← conversation_key identity peer event.stream_id
    cleartext ← map_err (fail (codes "event authentication failed")) (
        x.xchacha_decrypt key event.nonce event.ciphertext
          (aad event.id event.stream_id event.author event.created_at_ms event.kind))
    x.payload_from_cbor cleartext

  -- `encrypt_chunk` after its draw
  unfoldable pub seal_chunk : Text → Text → Bytes → Bytes → Bytes → Result (Bytes × Bytes)
  seal_chunk manifest_id hash cleartext key nonce = do
    bytes ←
        map_err (fail (codes "chunk encryption failed"))
          (x.xchacha_encrypt key nonce cleartext (chunk_aad manifest_id hash))
    ok (nonce, bytes)

  unfoldable pub decrypt_chunk :
      Identity → PublicIdentity → Text → Text → Text → Bytes → Bytes → Result Bytes
  decrypt_chunk identity peer stream_id manifest_id hash nonce ciphertext = do
    key ← conversation_key identity peer stream_id
    map_err (fail (codes "chunk authentication failed"))
        (x.xchacha_decrypt key nonce ciphertext (chunk_aad manifest_id hash))
