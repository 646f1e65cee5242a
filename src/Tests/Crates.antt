-- ===== src/Tests/Crates.antt =====
-- Small functions with the laws of the crates: a transparent cipher with a tag, a digest that pads,
-- a signature that repeats the message, and codecs by length prefixes.
use nexus_p2p.Base.{
  ℕ, zero, suc, ◌+◌, ◌-◌, ◌<◌, ◌*◌, ◌/◌, ◌%◌, ◌≡◌, refl, ap, sym, arith, [], ◌∷◌, ◌++◌, All, length,
  ◌==◌, nat_eq, list_eq, ltb, if◌then◌else◌, ==-refl,
}
use nexus_p2p.Base.Text.{Text, Bytes, codes}
use nexus_p2p.Base.Result.{Error, fail, Result, ok, err, ensure, ◌>>=◌}
use nexus_p2p.Model.{PublicIdentity, DecryptedPayload}
use nexus_p2p.Protocol.{WireMessage, WireEnvelope}
use nexus_p2p.External.{IsByte, External, IsHexDigit, IsLawful}

abbrev failed : Error
failed = fail (codes "failed")

abbrev digit : ℕ → ℕ
digit d = if ltb d 10 then 48 + d else 87 + d

abbrev hex : Bytes → Text
hex [] = []
hex (c ∷ b) = digit (c / 16 % 16) ∷ digit (c % 16) ∷ hex b

abbrev undigit : ℕ → ℕ
undigit d = if ltb d 58 then d - 48 else d - 87

abbrev unhex : Text → Bytes
unhex [] = []
unhex (a ∷ []) = []
unhex (a ∷ b ∷ t) = (16 * undigit a + undigit b) ∷ unhex t

abbrev pad : ℕ → Bytes → Bytes
pad zero b = []
pad (suc n) [] = 0 ∷ pad n []
pad (suc n) (c ∷ b) = c ∷ pad n b

abbrev total : Bytes → ℕ
total [] = 0
total (c ∷ b) = c + total b

-- a field with its length before it
abbrev put : Bytes → Bytes → Bytes
put a rest = length a ∷ (a ++ rest)

abbrev split : ℕ → Bytes → Bytes × Bytes
split zero b = ([], b)
split (suc n) [] = ([], [])
split (suc n) (c ∷ b) = let (l, r) = split n b in (c ∷ l, r)

abbrev get : Bytes → Result (Bytes × Bytes)
get [] = err failed
get (n ∷ b) = ok (split n b)

split_lem : (a rest : Bytes) → split (length a) (a ++ rest) ≡ (a, rest)
split_lem [] rest = refl
split_lem (c ∷ a) rest = rw (split_lem a rest)

get-put : (a rest : Bytes) → get (put a rest) ≡ ok (a, rest)
get-put a rest = rw (split_lem a rest)

abbrev encode_identity : PublicIdentity → Text
encode_identity p =
    put p.device_id (put p.display_name (put p.signing_public_key (put p.exchange_public_key [])))

abbrev decode_identity : Text → Result PublicIdentity
decode_identity t = do
  (id, t1) ← get t
  (name, t2) ← get t1
  (signing, t3) ← get t2
  (exchange, t4) ← get t3
  ok (record {
    device_id = id;
    display_name = name;
    signing_public_key = signing;
    exchange_public_key = exchange;
  })

-- Only a greeting is encoded.
abbrev encode_body : WireMessage → ℕ → PublicIdentity → Result Bytes
encode_body WireMessage.hello version sender = ok (version ∷ encode_identity sender)
encode_body _ version sender = err failed

abbrev encode_envelope : WireEnvelope → Result Bytes
encode_envelope e = encode_body e.body e.version e.sender

abbrev decode_envelope : Bytes → Result WireEnvelope
decode_envelope [] = err failed
decode_envelope (version ∷ b) = do
  sender ← decode_identity b
  ok (record { version = version; sender = sender; body = WireMessage.hello })

abbrev encode_secrets : Bytes → Bytes → Bytes
encode_secrets a b = put a (put b [])

abbrev decode_secrets : Bytes → Result (Bytes × Bytes)
decode_secrets t = do (a, t1) ← get t; (b, t2) ← get t1; ok (a, b)

abbrev encode_payload : DecryptedPayload → Result Bytes
encode_payload (DecryptedPayload.text t) = ok (0 ∷ t)
encode_payload (DecryptedPayload.system t) = ok (1 ∷ t)
encode_payload (DecryptedPayload.file_manifest m) = err failed

abbrev decode_payload : Bytes → Result DecryptedPayload
decode_payload (zero ∷ t) = ok (DecryptedPayload.text t)
decode_payload (suc zero ∷ t) = ok (DecryptedPayload.system t)
decode_payload _ = err failed

abbrev seal : Bytes → Bytes → Bytes → Bytes → Result Bytes
seal key nonce message aad = ok ((total key + total nonce + total aad) ∷ message)

abbrev open_box : Bytes → Bytes → Bytes → Bytes → Result Bytes
open_box key nonce [] aad = err failed
open_box key nonce (tag ∷ message) aad =
    if tag == total key + total nonce + total aad then ok message else err failed

abbrev pub crates : External
crates = record {
  conversion_error = failed;
  not_found = failed;
  unexpected_eof = failed;
  blake3 = pad 32;
  hex_encode = hex;
  hex_decode = λ t. ok (unhex t);
  base64_encode = λ b. b;
  base64_decode = λ t. ok t;
  ed25519_public = λ s. s;
  ed25519_sign = λ s m. s ++ m;
  verifying_key = λ k. ok tt;
  signature_from_slice = λ s. ok tt;
  ed25519_verify = λ k m s. ensure (s == k ++ m) failed;
  x25519_public = λ s. s;
  x25519 = λ a b. (total a + total b) ∷ [];
  hkdf_sha256 = λ salt key info. ok (key ++ info);
  xchacha_encrypt = seal;
  xchacha_decrypt = open_box;
  signable_to_bincode =
      λ e. ok (put e.id (put e.stream_id (put e.author (put e.nonce e.ciphertext))));
  secret_to_bincode = λ a b. ok (encode_secrets a b);
  secret_from_bincode = decode_secrets;
  payload_to_cbor = encode_payload;
  payload_from_cbor = decode_payload;
  envelope_to_cbor = encode_envelope;
  envelope_from_cbor = decode_envelope;
  text_to_json = λ t. ok t;
  text_from_json = λ t. ok t;
  identity_to_json = λ p. ok (encode_identity p);
  identity_from_json = decode_identity;
  manifest_to_json = λ m. err failed;
  manifest_from_json = λ t. err failed;
}

digit-IsHexDigit : (d : ℕ) → IsHexDigit (digit (d % 16))
digit-IsHexDigit d = ground arith

hex_digits : (b : Bytes) → All IsHexDigit (hex b)
hex_digits [] = tt
hex_digits (c ∷ b) = (digit-IsHexDigit (c / 16), (digit-IsHexDigit c, hex_digits b))

length-hex : (b : Bytes) → length (hex b) ≡ 2 * length b
length-hex [] = refl
length-hex (c ∷ b) = ground (arith, length-hex b)

length-pad : (n : ℕ) (b : Bytes) → length (pad n b) ≡ n
length-pad zero b = refl
length-pad (suc n) [] = ap suc (length-pad n [])
length-pad (suc n) (c ∷ b) = ap suc (length-pad n b)

payload_cbor :
    (p : DecryptedPayload) {b : Bytes} → encode_payload p ≡ ok b → decode_payload b ≡ ok p
payload_cbor (DecryptedPayload.text t) h = ground arith
payload_cbor (DecryptedPayload.system t) h = ground arith
payload_cbor (DecryptedPayload.file_manifest m) h = absurd (ground arith)

decode-encode_identity : (p : PublicIdentity) → decode_identity (encode_identity p) ≡ ok p
decode-encode_identity p = rw (
  split_lem p.device_id,
  split_lem p.display_name,
  split_lem p.signing_public_key,
  split_lem p.exchange_public_key,
)

decode-encode_secrets : (a b : Bytes) → decode_secrets (encode_secrets a b) ≡ ok (a, b)
decode-encode_secrets a b = rw (split_lem a, split_lem b)

-- What was encoded is what a function gives.
abbrev the_ok : Text → Result Text
the_ok t = ok t

from_ok {ℓ} :
    {A : Type ℓ} (decode : Text → Result A) {t s : Text} {a : A}
    → decode t ≡ ok a
    → the_ok t ≡ ok s
    → decode s ≡ ok a
from_ok decode {t} {s} h e = ground (arith, h)

undigit-digit : (d : ℕ) → d < 16 → undigit (digit d) ≡ d
undigit-digit d h = ground arith

unhex-hex : (b : Bytes) → All IsByte b → unhex (hex b) ≡ b
unhex-hex [] h = refl
unhex-hex (c ∷ b) h =
    rw
      (
        undigit-digit (c / 16 % 16) (omega arith),
        undigit-digit (c % 16) (omega arith),
        unhex-hex b h.1,
      )
      (ap (λ (d : ℕ). d ∷ b) (omega (arith, h.0)))

decode-encode_body :
    (body : WireMessage) (v : ℕ) (s : PublicIdentity) {b : Bytes}
    → encode_body body v s ≡ ok b
    → decode_envelope b ≡ ok (record { version = v; sender = s; body = body })
decode-encode_body WireMessage.hello v s h =
    from_ok decode_envelope (rw (decode-encode_identity s) refl) h
decode-encode_body (WireMessage.pair_request n) v s h = absurd cc
decode-encode_body (WireMessage.pair_response a) v s h = absurd cc
decode-encode_body (WireMessage.push_event e) v s h = absurd cc
decode-encode_body (WireMessage.ack i) v s h = absurd cc
decode-encode_body (WireMessage.sync_exchange i k e) v s h = absurd cc
decode-encode_body (WireMessage.sync_result e) v s h = absurd cc
decode-encode_body (WireMessage.chunk_request m c) v s h = absurd cc
decode-encode_body (WireMessage.chunk_result m c) v s h = absurd cc
decode-encode_body (WireMessage.push_chunks m c) v s h = absurd cc
decode-encode_body (WireMessage.error m) v s h = absurd cc

envelope_cbor : (e : WireEnvelope) {b : Bytes} → encode_envelope e ≡ ok b → decode_envelope b ≡ ok e
envelope_cbor e h = decode-encode_body e.body e.version e.sender h

pub crates-IsLawful : IsLawful crates
crates-IsLawful = record {
  hex_digits = hex_digits;
  hex_length = length-hex;
  blake3_length = length-pad 32;
  hex_bytes = λ b h. ap ok (unhex-hex b h);
  envelope_cbor = envelope_cbor;
  sign-verify = λ s m. rw (==-refl (s ++ m)) refl;
  sign-signature = λ s m. refl;
  public-verifying_key = λ s. refl;
  x25519_comm = λ a b. ground arith;
  decrypt-encrypt = λ key nonce message aad {box} h.
      from_ok (λ b. open_box key nonce b aad)
        (rw (==-refl {A = ℕ} (total key + total nonce + total aad)) refl) h;
  payload_cbor = payload_cbor;
  identity_json = λ p {s} h. from_ok decode_identity (decode-encode_identity p) h;
  manifest_json = λ m {s} h. absurd (ground arith);
  secret_bincode = λ a b {s} h. from_ok decode_secrets (decode-encode_secrets a b) h;
  base64 = λ b. refl;
  text_json = λ t {s} h. sym h;
}
