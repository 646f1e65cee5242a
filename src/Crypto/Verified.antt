-- ===== src/Crypto/Verified.antt =====
-- What is known of an event that opened: its author, and the signature over all its fields.
use nexus_p2p.Base.{◌≡◌, inl, inr, arith, Bool-cases, ◌==◌, list_eq, nat_eq, ==-true}
use nexus_p2p.Base.Text.{Bytes}
use nexus_p2p.Base.Result.{ok, Result-cases}
use nexus_p2p.External.{External}
use nexus_p2p.Model.{PublicIdentity, EventEnvelope, DecryptedPayload, signable}
use nexus_p2p.Crypto.{Identity, verify, verify_and_decrypt}

-- The event names the identity as its author, and carries a signature by its key.
pub record IsSignedBy (x : External) (author : PublicIdentity) (event : EventEnvelope)
    : Type 0 where
  pub named : event.author ≡ author.device_id
  pub bytes : Bytes
  pub encoded : x.signable_to_bincode (signable event) ≡ ok bytes
  pub verified : verify x author bytes event.signature ≡ ok tt

module _ (x : External) (keys : Identity) (peer author : PublicIdentity)
    (event : EventEnvelope) where
  -- An event that opens under an author names that author and is signed by that author over all
  -- its fields but the signature.
  pub verify_and_decrypt-IsSignedBy :
      {payload : DecryptedPayload}
      → verify_and_decrypt x keys peer author event ≡ ok payload
      → IsSignedBy x author event
  unfolding verify_and_decrypt
  verify_and_decrypt-IsSignedBy h = elim (Bool-cases (event.author == author.device_id)) [
    | inr n ↦ absurd (ground (arith, n))
    | inl e ↦ elim (Result-cases (x.signable_to_bincode (signable event))) [
      | inr (er, s) ↦ absurd (ground (arith, e, s))
      | inl (bytes, s) ↦ elim (Result-cases (verify x author bytes event.signature)) [
        | inr (er, v) ↦ absurd (ground (arith, e, s, v))
        | inl (u, v) ↦ record {
          named = ==-true event.author author.device_id e;
          bytes = bytes;
          encoded = s;
          verified = v;
        }
      ]
    ]
  ]
