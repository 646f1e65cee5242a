-- ===== src/Model.antt =====
-- The data of core/nexus-core/src/model.rs and identity.rs: identities, peers, events, files.
pub mod StreamId
use nexus_p2p.Base.{
  ℕ, ◌*◌, ◌≡◌, refl, Bool, true, false, Option, none, some, List, [], ◌∷◌, ◌++◌, ite, arith, Eq,
  ◌==◌, nat_eq, list_eq, if◌then◌else◌,
}
use nexus_p2p.Base.Int.{ℤ, pos, negsuc}
use nexus_p2p.Base.Decimal.{int_decimal}
use nexus_p2p.Base.Text.{Text, Bytes, codes, text_leb}
use nexus_p2p.Base.Result.{Error, fail, Result, ok, err}
use mathlib.Core.Logic.{dite}
use native.Mathlib.Decide.{ℕ_discrete}

-- `pub struct DeviceId(pub String)`, with the derived order of its text
abbrev pub DeviceId : Type 0
DeviceId = Text

pub record PublicIdentity : Type 0 where
  pub device_id : DeviceId
  pub display_name : Text
  pub signing_public_key : Bytes
  pub exchange_public_key : Bytes

pub record PeerEndpoint : Type 0 where
  pub host : Text
  pub port : ℕ

pub record Peer : Type 0 where
  pub identity : PublicIdentity
  pub endpoint : Option PeerEndpoint
  pub paired : Bool
  pub last_seen_ms : ℤ

pub data EventKind : Type 0 where
  text file_manifest system : EventKind

-- `kind as i32`
unfoldable pub kind_code : EventKind → ℤ
kind_code text = pos 1
kind_code file_manifest = pos 2
kind_code system = pos 3

unknown_kind : ℤ → Result EventKind
unfolding int_decimal
unknown_kind value = err (fail (codes "unknown event kind " ++ int_decimal value))

-- `EventKind::try_from`
unfoldable pub kind_try_from : ℤ → Result EventKind
unfolding unknown_kind
kind_try_from (negsuc n) = unknown_kind (negsuc n)
kind_try_from (pos n) =
    if n == 1
    then ok text
    else if n == 2
    then ok file_manifest
    else if n == 3
    then ok system
    else unknown_kind (pos n)

pub record EventEnvelope : Type 0 where
  pub id : Text
  pub stream_id : Text
  pub author : DeviceId
  pub created_at_ms : ℤ
  pub kind : EventKind
  pub nonce : Bytes
  pub ciphertext : Bytes
  pub signature : Bytes

pub record SignableEvent : Type 0 where
  pub id : Text
  pub stream_id : Text
  pub author : DeviceId
  pub created_at_ms : ℤ
  pub kind : EventKind
  pub nonce : Bytes
  pub ciphertext : Bytes

unfoldable pub signable : EventEnvelope → SignableEvent
signable e = record {
  id = e.id;
  stream_id = e.stream_id;
  author = e.author;
  created_at_ms = e.created_at_ms;
  kind = e.kind;
  nonce = e.nonce;
  ciphertext = e.ciphertext;
}

pub record ChunkDescriptor : Type 0 where
  pub index : ℕ
  pub hash : Text
  pub size : ℕ

pub record FileManifest : Type 0 where
  pub id : Text
  pub name : Text
  pub media_type : Text
  pub size : ℕ
  pub chunk_size : ℕ
  pub chunks : List ChunkDescriptor
  pub file_hash : Text

-- `TextPayload` has the one field `text`.
pub data DecryptedPayload : Type 0 where
  text : Text → DecryptedPayload
  file_manifest : FileManifest → DecryptedPayload
  system : Text → DecryptedPayload

pub record ChatItem : Type 0 where
  pub event_id : Text
  pub author : DeviceId
  pub created_at_ms : ℤ
  pub payload : DecryptedPayload

-- `PROTOCOL_VERSION` and `FILE_CHUNK_SIZE`
abbrev pub protocol_version : ℕ
protocol_version = 1

abbrev pub file_chunk_size : ℕ
file_chunk_size = 256 * 1024

unfoldable pub direct_stream_id : DeviceId → DeviceId → Text
direct_stream_id a b =
    if text_leb a b
    then codes "dm:" ++ (a ++ (codes ":" ++ b))
    else codes "dm:" ++ (b ++ (codes ":" ++ a))

-- the derived `PartialEq`
identity_dec : Discrete PublicIdentity
identity_dec = hlevel ℕ_discrete

kind_dec : Discrete EventKind
kind_dec = hlevel

instance unfoldable pub identity_eq : Eq PublicIdentity
unfolding identity_dec
identity_eq = record { dec = identity_dec }

instance unfoldable pub kind_eq : Eq EventKind
unfolding kind_dec
kind_eq = record { dec = kind_dec }
