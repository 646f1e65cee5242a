-- ===== src/Node/Sound.antt =====
-- What every node of core/nexus-core/src/node.rs holds to, from its first start on.
pub mod Peers
pub mod Sending
pub mod Names
pub mod Start
use mathlib.Core.Path.{subst}
use nexus_p2p.Base.{◌≡◌, refl, some, All}
use nexus_p2p.Base.Sort.{Distinct}
use nexus_p2p.Base.Text.{Text}
use nexus_p2p.Base.Result.{ok}
use nexus_p2p.Crypto.{Identity}
use nexus_p2p.External.{External, IsLawful, Env}
use nexus_p2p.Model.{DeviceId, PublicIdentity, Peer, EventKind, EventEnvelope, DecryptedPayload}
use nexus_p2p.Identity.{validate_public_identity}
use nexus_p2p.Identity.Local.{Machine, load}
use nexus_p2p.Crypto.Draws.{create_event}
use nexus_p2p.Crypto.RoundTrip.{HasOwnKeys}
use nexus_p2p.Crypto.Signed.{create_event-IsSignedBy}
use nexus_p2p.Storage.{EventRow}
use nexus_p2p.Storage.Events.{event_row, insert_row}
use nexus_p2p.Storage.Events.Log.{insert_row-Distinct}
use nexus_p2p.Storage.Peers.{upsert_row, peer_row, peer}
use nexus_p2p.Storage.Peers.Known.{IsKnown, upsert_row-IsKnown, peer-valid}
use nexus_p2p.Node.{Node, node_identity}
use nexus_p2p.Node.Kept.{IsSigned, View, view, shown, Invariant, IsKept}
use nexus_p2p.Node.Server.Authenticity.{All-insert_row}

-- What is saved loads, on any machine, as the node's secrets under the identity that it shows.
abbrev pub IsSaved : External → View → Type 0
IsSaved x v =
    (public_json : Text) × (secret_json : Text) × (v.saved ≡ some (public_json, secret_json))
    × ((m : Machine)
        → load x public_json secret_json m ≡ (ok (record v.keys { public = shown v }), m))

-- The identity is that of the same device: it has its id and secrets.
pub record IsDevice (d : Identity) (i : Identity) : Type 0 where
  pub device_id : i.public.device_id ≡ d.public.device_id
  pub signing : i.signing ≡ d.signing
  pub exchange : i.exchange ≡ d.exchange

pub record Sound (x : External) (d : Identity) (v : View) : Type 0 where
  -- every event of the log is signed by a valid identity
  pub log : All (IsSigned x) v.rows
  pub distinct : Distinct (λ (row : EventRow). row.id) v.rows
  -- the identity that the node shows is valid and has the public keys of its secrets
  pub own : validate_public_identity x (shown v) ≡ ok tt
  pub keys : HasOwnKeys x v.keys
  pub device : IsDevice d v.keys
  pub peers : All (IsKnown x) v.peers
  pub saved : IsSaved x v

unfoldable pub IsSound : External → Identity → Node → Type 0
IsSound x d n = Sound x d (view n)

module _ (x : External) (law : IsLawful x) (d : Identity) where
  abbrev pub sound : Invariant x
  sound = record {
    Holds = Sound x d;
    own = λ v h. h.own;
    insert = λ v e h s. record {
      log = All-insert_row (IsSigned x) (event_row e) v.rows h.log s;
      distinct = insert_row-Distinct (event_row e) v.rows h.distinct;
      own = h.own;
      keys = h.keys;
      device = h.device;
      peers = h.peers;
      saved = h.saved;
    };
    upsert = λ v p json h valid e. record {
      log = h.log;
      distinct = h.distinct;
      own = h.own;
      keys = h.keys;
      device = h.device;
      peers = upsert_row-IsKnown x law p json valid e v.peers h.peers;
      saved = h.saved;
    };
  }

  pub known_valid :
      (id : DeviceId) (n : Node) (p : Peer)
      → IsKept x sound n
      → (peer x id n.store).0 ≡ ok (some p)
      → validate_public_identity x p.identity ≡ ok tt
  unfolding IsKept
  known_valid id n p h found = peer-valid x id n.store h.peers found

  pub created-IsSigned :
      (n : Node) (i : PublicIdentity) (stream_id : Text) (kind : EventKind)
      (payload : DecryptedPayload) (env : Env) (e : EventEnvelope)
      → IsKept x sound n
      → (create_event x n.keys i stream_id kind payload env).0 ≡ ok e
      → IsSigned x (event_row e)
  unfolding IsKept
  created-IsSigned n i stream_id kind payload env e h created = record {
    event = e;
    stored = refl;
    author = shown (view n);
    valid = h.own;
    signed =
        (create_event-IsSignedBy x law n.keys h.keys n.display_name i stream_id kind payload env
          created).0;
  }
