-- ===== src/Crypto/Signed.antt =====
-- `create_event` of core/nexus-core/src/crypto.rs signs what it returns.
use mathlib.Core.Path.{subst}
use nexus_p2p.Base.{◌≡◌, suc, inl, inr, arith, list_eq, nat_eq, refl}
use nexus_p2p.Base.Text.{Text, Bytes}
use nexus_p2p.Base.Int.{ℤ}
use nexus_p2p.Base.Result.{Result-cases, ok, >>=-eq-ok, map_err}
use nexus_p2p.External.{External, IsLawful, Env, new_ulid, now_ms, fill_bytes}
use nexus_p2p.Model.{PublicIdentity, EventKind, EventEnvelope, DecryptedPayload, signable}
use nexus_p2p.Crypto.{Identity, verify, conversation_key, seal_event, sign}
use nexus_p2p.Crypto.Draws.{create_event}
use nexus_p2p.Crypto.Verified.{IsSignedBy}
use nexus_p2p.Crypto.RoundTrip.{HasOwnKeys, verify-seal}

module _ (x : External) (law : IsLawful x) (a : Identity) (own : HasOwnKeys x a) (name : Text) where
  -- the identity under a name
  abbrev author : PublicIdentity
  author = record a.public { display_name = name }

  verify_renamed : (bytes : Bytes) → verify x author bytes (x.ed25519_sign a.signing bytes) ≡ ok tt
  unfolding verify
  verify_renamed bytes = verify-seal x law a bytes own

  seal_event-IsSignedBy :
      (stream_id : Text) (kind : EventKind) (payload : DecryptedPayload) (id : Text) (now : ℤ)
      (key nonce : Bytes) {e : EventEnvelope}
      → seal_event x a stream_id kind payload id now key nonce ≡ ok e
      → IsSignedBy x author e × (e.kind ≡ kind)
  unfolding seal_event sign signable
  seal_event-IsSignedBy stream_id kind payload id now key nonce {e} h =
      let (cleartext, hc, h1) = >>=-eq-ok (x.payload_to_cbor payload) _ h in
      let (box, hx, h2) = >>=-eq-ok (map_err _ (x.xchacha_encrypt key nonce cleartext _)) _ h1 in
      let (bytes, hb, h3) = >>=-eq-ok (x.signable_to_bincode _) _ h2 in
      let event : EventEnvelope = record {
        id = id;
        stream_id = stream_id;
        author = a.public.device_id;
        created_at_ms = now;
        kind = kind;
        nonce = nonce;
        ciphertext = box;
        signature = x.ed25519_sign a.signing bytes;
      } in
      let same : event ≡ e = ground (arith, h3) in
      subst (λ (f : EventEnvelope). IsSignedBy x author f × (f.kind ≡ kind)) same
        (
          record { named = refl; bytes = bytes; encoded = hb; verified = verify_renamed bytes },
          refl,
        )

  -- Under the laws of the crates, an event that is created is signed by who created it, and has the
  -- kind that was asked for.
  pub create_event-IsSignedBy :
      (peer : PublicIdentity) (stream_id : Text) (kind : EventKind) (payload : DecryptedPayload)
      (env : Env) {e : EventEnvelope}
      → (create_event x a peer stream_id kind payload env).0 ≡ ok e
      → IsSignedBy x author e × (e.kind ≡ kind)
  unfolding create_event new_ulid now_ms fill_bytes
  create_event-IsSignedBy peer stream_id kind payload env h =
      elim (Result-cases (conversation_key x a peer stream_id)) [
        | inr (er, k) ↦ absurd (ground (arith, k))
        | inl (key, k) ↦
            seal_event-IsSignedBy stream_id kind payload (env.ulid env.calls)
              (env.now (suc env.calls)) key (env.random (suc (suc env.calls)) 24)
              (ground (arith, k, h))
      ]
