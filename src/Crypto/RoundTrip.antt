-- ===== src/Crypto/RoundTrip.antt =====
-- What one end seals the other end opens, and what it opens is bound to its author.
use nexus_p2p.Base.{◌≡◌, suc, inl, inr, ◌∙◌, arith, list_eq, nat_eq, sym}
use nexus_p2p.Base.Text.{Text, Bytes}
use nexus_p2p.Base.Int.{ℤ}
use nexus_p2p.Base.Result.{Result-cases, ok, >>=-eq-ok, map_err}
use nexus_p2p.External.{External, IsLawful, Env, new_ulid, now_ms, fill_bytes}
use nexus_p2p.Model.{PublicIdentity, EventKind, EventEnvelope, DecryptedPayload, signable}
use nexus_p2p.Crypto.{
  Identity, verify, verify_and_decrypt, conversation_key, shared_secret, seal_event, aad, sign,
}
use nexus_p2p.Crypto.Draws.{create_event}

-- The public half holds the public keys of the two secrets.
pub record HasOwnKeys (x : External) (i : Identity) : Type 0 where
  pub signing : i.public.signing_public_key ≡ x.ed25519_public i.signing
  pub exchange : i.public.exchange_public_key ≡ x.x25519_public i.exchange

module _ (x : External) (law : IsLawful x) where
  -- Under the laws of the crates, two devices that hold the public keys of their secrets derive
  -- one conversation key, each from its own secret and the public half of the other.
  conversation_key_comm :
      (a b : Identity) (stream_id : Text)
      → HasOwnKeys x a
      → HasOwnKeys x b
      → conversation_key x a b.public stream_id ≡ conversation_key x b a.public stream_id
  unfolding conversation_key shared_secret
  conversation_key_comm a b stream_id ha hb =
      rw (ha.exchange, hb.exchange, law.x25519_comm a.exchange b.exchange)

  pub verify-seal :
      (a : Identity) (bytes : Bytes)
      → HasOwnKeys x a
      → verify x a.public bytes (x.ed25519_sign a.signing bytes) ≡ ok tt
  unfolding verify
  verify-seal a bytes ha = rw (
    ha.signing,
    law.public-verifying_key a.signing,
    law.sign-signature a.signing bytes,
    law.sign-verify a.signing bytes,
  )

  opened :
      (r : Identity) (s : PublicIdentity) (a : Identity) (stream_id : Text) (kind : EventKind)
      (payload : DecryptedPayload) (id : Text) (now : ℤ) (key nonce : Bytes) (e : EventEnvelope)
      → HasOwnKeys x a
      → conversation_key x r s stream_id ≡ ok key
      → seal_event x a stream_id kind payload id now key nonce ≡ ok e
      → verify_and_decrypt x r s a.public e ≡ ok payload
  unfolding seal_event verify_and_decrypt sign signable
  opened r s a stream_id kind payload id now key nonce e ha hk h =
      let (cleartext, hc, h1) = >>=-eq-ok (x.payload_to_cbor payload) _ h in
      let (box, hx, h2) = >>=-eq-ok (map_err _ (x.xchacha_encrypt key nonce cleartext _)) _ h1 in
      let (bytes, hb, h3) = >>=-eq-ok (x.signable_to_bincode _) _ h2 in
      ground (
        arith,
        hc,
        hx,
        hb,
        h3,
        hk,
        verify-seal a bytes ha,
        law.payload_cbor payload {b = cleartext},
        law.decrypt-encrypt key nonce cleartext (aad id stream_id a.public.device_id now kind)
            {box = box},
      )

  -- Under the laws of the crates, an event that create_event returns for a peer, where both
  -- devices hold the public keys of their secrets, opens at that peer to the payload.
  pub verify_and_decrypt-create_event :
      (a b : Identity) (stream_id : Text) (kind : EventKind) (payload : DecryptedPayload)
      (env : Env) (env' : Env) (e : EventEnvelope)
      → HasOwnKeys x a
      → HasOwnKeys x b
      → create_event x a b.public stream_id kind payload env ≡ (ok e, env')
      → verify_and_decrypt x b a.public a.public e ≡ ok payload
  unfolding create_event new_ulid now_ms fill_bytes
  verify_and_decrypt-create_event a b stream_id kind payload env env' e ha hb h =
      elim (Result-cases (conversation_key x a b.public stream_id)) [
        | inl (key, hk) ↦
            opened b a.public a stream_id kind payload (env.ulid env.calls)
              (env.now (suc env.calls)) key (env.random (suc (suc env.calls)) 24) e ha
              (sym (conversation_key_comm a b stream_id ha hb) ∙ hk) (ground arith)
        | inr (er, hk) ↦ absurd (ground arith)
      ]
