-- ===== src/Tests/Messages.antt =====
-- An event that one device seals and the other opens.
use nexus_p2p.Base.{◌≡◌, refl, [], nat_eq, list_eq}
use nexus_p2p.Base.Int.{pos}
use nexus_p2p.Base.Text.{codes}
use nexus_p2p.Base.Result.{Result, ok}
use nexus_p2p.External.{Env, new_ulid, now_ms, fill_bytes}
use nexus_p2p.Model.{EventKind, EventEnvelope, DecryptedPayload}
use nexus_p2p.Crypto.{conversation_key, seal_event, verify_and_decrypt}
use nexus_p2p.Crypto.Draws.{create_event}
use nexus_p2p.Crypto.RoundTrip.{verify_and_decrypt-create_event}
use nexus_p2p.Tests.Crates.{crates, crates-IsLawful}
use nexus_p2p.Tests.Devices.{alice, bob, clock, value, alice-HasOwnKeys, bob-HasOwnKeys}

abbrev pub payload : DecryptedPayload
payload = DecryptedPayload.text (codes "hi")

abbrev pub sealed : Result EventEnvelope × Env
sealed = create_event crates alice bob.public (codes "dm:a:b") EventKind.text payload clock

abbrev nothing : EventEnvelope
nothing = record {
  id = [];
  stream_id = [];
  author = [];
  created_at_ms = pos 0;
  kind = EventKind.text;
  nonce = [];
  ciphertext = [];
  signature = [];
}

abbrev pub event : EventEnvelope
event = value nothing sealed.0

sealed_ok : sealed ≡ (ok event, sealed.1)
unfolding create_event new_ulid now_ms fill_bytes conversation_key seal_event
sealed_ok = refl

verify_and_decrypt-create_event_example :
    verify_and_decrypt crates bob alice.public alice.public event ≡ ok payload
verify_and_decrypt-create_event_example =
    verify_and_decrypt-create_event crates crates-IsLawful alice bob (codes "dm:a:b") EventKind.text
      payload clock sealed.1 event alice-HasOwnKeys bob-HasOwnKeys sealed_ok

pub opened : verify_and_decrypt crates bob alice.public alice.public event ≡ ok payload
opened =
    verify_and_decrypt-create_event crates crates-IsLawful alice bob (codes "dm:a:b") EventKind.text
      payload clock sealed.1 event alice-HasOwnKeys bob-HasOwnKeys sealed_ok
