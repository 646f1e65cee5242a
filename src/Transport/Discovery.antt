-- ===== src/Transport/Discovery.antt =====
-- `LanMdnsAdapter` of core/nexus-core/src/transport/lan.rs: what a device announces of itself, and
-- what it makes of the services that the mDNS daemon, a crate, reports.
pub mod Announcements
use nexus_p2p.Base.{
  ℕ, Bool, true, false, not, Option, none, some, List, [], ◌∷◌, ◌++◌, ◌==◌, nat_eq, list_eq, length,
  if◌then◌else◌,
}
use nexus_p2p.Base.Decimal.{decimal}
use nexus_p2p.Base.Dict.{Dict}
use nexus_p2p.Base.Text.{Text, Bytes, codes, slice_to}
use nexus_p2p.Base.Result.{Result, ok, err, panic, some_or, ◌>>=◌}
use nexus_p2p.External.{External}
use nexus_p2p.Model.{DeviceId, PublicIdentity, PeerEndpoint, protocol_version}
use nexus_p2p.Transport.{TransportEvent}

-- `SERVICE_TYPE`
abbrev pub service_type : Text
service_type = codes "_nexus-p2p._tcp.local."

-- the arguments of `ServiceInfo::new`, less the service type and the address
pub record Advertisement : Type 0 where
  pub instance_name : Text
  pub host : Text
  pub port : ℕ
  pub properties : Dict Text Text

-- a service, as its getters show it
pub record ServiceInfo : Type 0 where
  pub hostname : Text
  pub port : ℕ
  pub property : Text → Option Text

-- A `ServiceRemoved` carries the type and the full name; other events are ignored.
pub data ServiceEvent : Type 0 where
  resolved : ServiceInfo → ServiceEvent
  removed : Text → Text → ServiceEvent
  other : ServiceEvent

-- `?` on an option, or `let Some(..) = .. else { continue }`
abbrev or_continue {ℓ} : {A B : Type ℓ} → Option A → (A → Option B) → Option B
or_continue none f = none
or_continue (some a) f = f a

abbrev to_option {ℓ} : {A : Type ℓ} → Result A → Option A
to_option (ok a) = some a
to_option (err e) = none

-- `trim_end_matches('.')`
unfoldable pub trim_dots : Text → Text
trim_dots [] = []
trim_dots (c ∷ s) =
    let rest = trim_dots s in
    elim rest [ [] ↦ (if c == 46 then [] else c ∷ []) | d ∷ r ↦ c ∷ d ∷ r ]

-- `strip_prefix`
unfoldable pub strip_prefix : Text → Text → Option Text
strip_prefix [] s = some s
strip_prefix (p ∷ ps) [] = none
strip_prefix (p ∷ ps) (c ∷ s) = let rest = strip_prefix ps s in if c == p then rest else none

-- `split('.').next()`
unfoldable pub before_dot : Text → Text
before_dot [] = []
before_dot (c ∷ s) = let rest = before_dot s in if c == 46 then [] else c ∷ rest

-- `Vec<u8>` into `[u8; 32]`
abbrev key_of : Bytes → Option Bytes
key_of bytes = if length bytes == 32 then some bytes else none

abbrev hex_key : External → Text → Option Bytes
hex_key x t = or_continue (to_option (x.hex_decode t)) key_of

unfoldable pub removed_event : Text → Option TransportEvent
removed_event fullname =
    or_continue (strip_prefix (codes "nexus-") fullname)
      (λ s. some (TransportEvent.lost (before_dot s)))

module _ (x : External) where
  abbrev pub advertisement : Text → PublicIdentity → ℕ → Advertisement
  advertisement short identity port = record {
    instance_name = codes "nexus-" ++ short;
    host = identity.device_id ++ codes ".local.";
    port = port;
    properties =
        (codes "id", identity.device_id)
        ∷ (codes "name", identity.display_name)
        ∷ (codes "sign", x.hex_encode identity.signing_public_key)
        ∷ (codes "exchange", x.hex_encode identity.exchange_public_key)
        ∷ (codes "v", decimal protocol_version)
        ∷ [];
  }

  -- `LanMdnsAdapter::new`, with the panic of `[..8]`
  unfoldable pub advertise : PublicIdentity → ℕ → Result Advertisement
  advertise identity port = do
    short ← some_or panic (slice_to 8 identity.device_id)
    ok (advertisement short identity port)

  -- The branch of a resolved service; `none` is its `continue`.
  unfoldable pub resolved_event : DeviceId → ServiceInfo → Option TransportEvent
  resolved_event local_id info = or_continue (info.property (codes "id")) λ id.
      if id == local_id
      then none
      else (or_continue (info.property (codes "name")) λ name.
          or_continue (info.property (codes "sign")) λ sign.
            or_continue (info.property (codes "exchange")) λ exchange.
              or_continue (hex_key x sign) λ signing_public_key.
                or_continue (hex_key x exchange) λ exchange_public_key.
                  let host = trim_dots info.hostname in
                  if host == []
                  then none
                  else some (
                      TransportEvent.discovered (record { host = host; port = info.port })
                        (record {
                          device_id = id;
                          display_name = name;
                          signing_public_key = signing_public_key;
                          exchange_public_key = exchange_public_key;
                        })))

  unfoldable pub service_event : DeviceId → ServiceEvent → Option TransportEvent
  service_event local_id (ServiceEvent.resolved info) = resolved_event local_id info
  service_event local_id (ServiceEvent.removed kind fullname) = removed_event fullname
  service_event local_id ServiceEvent.other = none

  -- The loop of `start` over the events of the daemon: what is sent to the node.
  unfoldable pub discovery_events : DeviceId → List ServiceEvent → List TransportEvent
  discovery_events local_id [] = []
  discovery_events local_id (event ∷ events) =
      let rest = discovery_events local_id events in
      elim (service_event local_id event) [ none ↦ rest | some e ↦ e ∷ rest ]
