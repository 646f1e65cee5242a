-- ===== src/External.antt =====
-- The crates that the core calls, as parameters: BLAKE3, Ed25519, X25519, HKDF-SHA256,
-- XChaCha20-Poly1305, hex, base64, JSON, CBOR and bincode; and the clock, the random source and
-- the ULID generator, as sequences that each call reads on. `IsLawful` holds what these crates
-- document, and each theorem that needs a law of it says so.
use nexus_p2p.Base.{◌≤◌, ◌<◌, ◌*◌, ◌⊎◌, All, ℕ, suc, ◌≡◌, length}
use nexus_p2p.Base.Int.{ℤ}
use nexus_p2p.Base.Text.{Text, Bytes}
use nexus_p2p.Base.Result.{Error, Result, ok}
use nexus_p2p.Base.Exec.{Exec}
use nexus_p2p.Model.{PublicIdentity, SignableEvent, DecryptedPayload, FileManifest}
use nexus_p2p.Protocol.{WireEnvelope}

pub record External : Type 0 where
  -- what `rusqlite` reports of a column that does not convert
  pub conversion_error : Error
  -- what `std::io` reports of a file that is not there
  pub not_found : Error
  -- what `tokio::io` reports of a stream that ends too early
  pub unexpected_eof : Error
  -- `blake3::hash(bytes).as_bytes()`
  pub blake3 : Bytes → Bytes
  pub hex_encode : Bytes → Text
  pub hex_decode : Text → Result Bytes
  pub base64_encode : Bytes → Text
  pub base64_decode : Text → Result Bytes
  -- `SigningKey::verifying_key`, `SigningKey::sign`
  pub ed25519_public : Bytes → Bytes
  pub ed25519_sign : Bytes → Bytes → Bytes
  -- `VerifyingKey::from_bytes`, `Signature::from_slice`, `Verifier::verify`
  pub verifying_key : Bytes → Result (Unit {0})
  pub signature_from_slice : Bytes → Result (Unit {0})
  pub ed25519_verify : Bytes → Bytes → Bytes → Result (Unit {0})
  -- `X25519PublicKey::from`, `StaticSecret::diffie_hellman`
  pub x25519_public : Bytes → Bytes
  pub x25519 : Bytes → Bytes → Bytes
  -- salt, input key, info
  pub hkdf_sha256 : Bytes → Bytes → Bytes → Result Bytes
  -- key, nonce, text, associated data
  pub xchacha_encrypt : Bytes → Bytes → Bytes → Bytes → Result Bytes
  pub xchacha_decrypt : Bytes → Bytes → Bytes → Bytes → Result Bytes
  pub signable_to_bincode : SignableEvent → Result Bytes
  pub secret_to_bincode : Bytes → Bytes → Result Bytes
  pub secret_from_bincode : Bytes → Result (Bytes × Bytes)
  pub payload_to_cbor : DecryptedPayload → Result Bytes
  pub payload_from_cbor : Bytes → Result DecryptedPayload
  pub envelope_to_cbor : WireEnvelope → Result Bytes
  pub envelope_from_cbor : Bytes → Result WireEnvelope
  pub text_to_json : Text → Result Text
  pub text_from_json : Text → Result Text
  pub identity_to_json : PublicIdentity → Result Text
  pub identity_from_json : Text → Result PublicIdentity
  pub manifest_to_json : FileManifest → Result Text
  pub manifest_from_json : Text → Result FileManifest

-- `hex` writes lower-case digits.
abbrev pub IsHexDigit : ℕ → Type 0
IsHexDigit c = (48 ≤ c) × (c ≤ 57) ⊎ (97 ≤ c) × (c ≤ 102)

abbrev pub IsByte : ℕ → Type 0
IsByte c = c < 256

-- What the crates document: decoding gives back what was encoded, an opened box gives back what
-- was sealed, a signature verifies under its own key, and both ends of an exchange agree.
pub record IsLawful (x : External) : Type 0 where
  pub hex_digits : (b : Bytes) → All IsHexDigit (x.hex_encode b)
  pub hex_length : (b : Bytes) → length (x.hex_encode b) ≡ 2 * length b
  pub blake3_length : (b : Bytes) → length (x.blake3 b) ≡ 32
  pub hex_bytes : (b : Bytes) → All IsByte b → x.hex_decode (x.hex_encode b) ≡ ok b
  pub envelope_cbor :
      (e : WireEnvelope) {b : Bytes} → x.envelope_to_cbor e ≡ ok b → x.envelope_from_cbor b ≡ ok e
  pub sign-verify :
      (secret message : Bytes)
      → x.ed25519_verify (x.ed25519_public secret) message (x.ed25519_sign secret message) ≡ ok tt
  pub sign-signature :
      (secret message : Bytes) → x.signature_from_slice (x.ed25519_sign secret message) ≡ ok tt
  pub public-verifying_key : (secret : Bytes) → x.verifying_key (x.ed25519_public secret) ≡ ok tt
  pub x25519_comm : (a b : Bytes) → x.x25519 a (x.x25519_public b) ≡ x.x25519 b (x.x25519_public a)
  pub decrypt-encrypt :
      (key nonce message aad : Bytes) {box : Bytes}
      → x.xchacha_encrypt key nonce message aad ≡ ok box
      → x.xchacha_decrypt key nonce box aad ≡ ok message
  pub payload_cbor :
      (p : DecryptedPayload) {b : Bytes} → x.payload_to_cbor p ≡ ok b → x.payload_from_cbor b ≡ ok p
  pub identity_json :
      (p : PublicIdentity) {s : Text} → x.identity_to_json p ≡ ok s → x.identity_from_json s ≡ ok p
  pub manifest_json :
      (m : FileManifest) {s : Text} → x.manifest_to_json m ≡ ok s → x.manifest_from_json s ≡ ok m
  pub secret_bincode :
      (a b : Bytes) {s : Bytes}
      → x.secret_to_bincode a b ≡ ok s
      → x.secret_from_bincode s ≡ ok (a, b)
  pub base64 : (b : Bytes) → x.base64_decode (x.base64_encode b) ≡ ok b
  pub text_json : (t : Text) {s : Text} → x.text_to_json t ≡ ok s → x.text_from_json s ≡ ok t

-- Each call of the clock, the random source or the ULID generator takes the next value.
pub record Env : Type 0 where
  pub now : ℕ → ℤ
  pub random : ℕ → ℕ → Bytes
  pub ulid : ℕ → Text
  pub calls : ℕ

unfoldable pub now_ms : Exec Env ℤ
now_ms e = (ok (e.now e.calls), record e { calls = suc e.calls })

-- `OsRng.fill_bytes` on a buffer of the given length
unfoldable pub fill_bytes : ℕ → Exec Env Bytes
fill_bytes n e = (ok (e.random e.calls n), record e { calls = suc e.calls })

unfoldable pub new_ulid : Exec Env Text
new_ulid e = (ok (e.ulid e.calls), record e { calls = suc e.calls })
