-- ===== src/Transport/Discovery/Announcements.antt =====
-- From an announcement of core/nexus-core/src/transport/lan.rs to what another device is told.
use mathlib.Core.List.{nil≢cons, append_assoc}
use nexus_p2p.Base.{
  ℕ, zero, suc, ◌≤◌, ◌<◌, ◌≡◌, ◌≢◌, refl, sym, ap, ◌∙◌, inl, inr, some, [], ◌∷◌, ◌++◌, arith, All,
  Option-cases, ==-ne, ==-refl, nat_eq, list_eq, length, take, length-take,
}
use nexus_p2p.Base.Dict.{lookup}
use nexus_p2p.Base.Text.{Text, Bytes, codes, slice_to, utf8_width}
use nexus_p2p.Base.Result.{ok}
use nexus_p2p.External.{External, IsLawful, IsByte, IsHexDigit}
use nexus_p2p.Model.{DeviceId, PublicIdentity}
use nexus_p2p.Identity.{device_id_of}
use nexus_p2p.Transport.{TransportEvent}
use nexus_p2p.Transport.Adapters.{fullname_of}
use nexus_p2p.Transport.Discovery.{
  Advertisement, ServiceInfo, advertisement, service_type, advertise, resolved_event, removed_event,
  trim_dots, strip_prefix, before_dot,
}

-- The daemon shows a service as it was announced, in what the adapter reads of it.
pub record Shows (info : ServiceInfo) (ad : Advertisement) : Type 0 where
  pub hostname : info.hostname ≡ ad.host
  pub port : info.port ≡ ad.port
  pub id : info.property (codes "id") ≡ lookup (codes "id") ad.properties
  pub name : info.property (codes "name") ≡ lookup (codes "name") ad.properties
  pub sign : info.property (codes "sign") ≡ lookup (codes "sign") ad.properties
  pub exchange : info.property (codes "exchange") ≡ lookup (codes "exchange") ad.properties

-- 32 bytes
abbrev pub IsKey : Bytes → Type 0
IsKey k = (length k ≡ 32) × All IsByte k

trim_dots-local : (a : Text) → trim_dots (a ++ codes ".local.") ≡ a ++ codes ".local"
unfolding trim_dots nat_eq
trim_dots-local [] = refl
trim_dots-local (c ∷ []) = ground arith
trim_dots-local (c ∷ d ∷ a) = rw (trim_dots-local (d ∷ a)) refl

not_empty : (a : Text) → a ++ codes ".local" ≢ []
not_empty [] e = nil≢cons (sym e)
not_empty (c ∷ a) e = nil≢cons (sym e)

module _ (x : External) (p : PublicIdentity) (port : ℕ) (ad : Advertisement) where
  announced :
      advertise x p port ≡ ok ad
      → (short : Text) × (slice_to 8 p.device_id ≡ some short) × (ad ≡ advertisement x short p port)
  unfolding advertise
  announced h = elim (Option-cases (slice_to 8 p.device_id)) [
    | inl e ↦ absurd (ground (arith, e))
    | inr (short, e) ↦ (short, e, ground (arith, e))
  ]

  -- What the service shows of the announcement.
  module _ (info : ServiceInfo) (h : advertise x p port ≡ ok ad) (shows : Shows info ad) where
    abbrev same : ad ≡ advertisement x (announced h).0 p port
    same = (announced h).2

    shown_id : info.property (codes "id") ≡ some p.device_id
    unfolding lookup list_eq nat_eq
    shown_id = shows.id ∙ ap (λ (a : Advertisement). lookup (codes "id") a.properties) same

    shown_name : info.property (codes "name") ≡ some p.display_name
    unfolding lookup list_eq nat_eq
    shown_name = shows.name ∙ ap (λ (a : Advertisement). lookup (codes "name") a.properties) same

    shown_sign : info.property (codes "sign") ≡ some (x.hex_encode p.signing_public_key)
    unfolding lookup list_eq nat_eq
    shown_sign = shows.sign ∙ ap (λ (a : Advertisement). lookup (codes "sign") a.properties) same

    shown_exchange : info.property (codes "exchange") ≡ some (x.hex_encode p.exchange_public_key)
    unfolding lookup list_eq nat_eq
    shown_exchange =
        shows.exchange ∙ ap (λ (a : Advertisement). lookup (codes "exchange") a.properties) same

    shown_host : info.hostname ≡ p.device_id ++ codes ".local."
    shown_host = shows.hostname ∙ ap (λ (a : Advertisement). a.host) same

    shown_port : info.port ≡ port
    shown_port = shows.port ∙ ap (λ (a : Advertisement). a.port) same

  -- Under the laws of the crates, where a service is shown with the host, the port and the four
  -- properties that are read of it as a device announced them, another device discovers the
  -- identity that was announced, its keys being of 32 bytes, at the host that its id names and at
  -- its port.
  pub resolved_event-advertise :
      (law : IsLawful x) (local_id : DeviceId) (info : ServiceInfo)
      → advertise x p port ≡ ok ad
      → Shows info ad
      → p.device_id ≢ local_id
      → IsKey p.signing_public_key
      → IsKey p.exchange_public_key
      → resolved_event x local_id info
        ≡ some (
            TransportEvent.discovered
              (record { host = p.device_id ++ codes ".local"; port = port })
              p)
  unfolding resolved_event
  resolved_event-advertise law local_id info h shows n sk ek =
      rw
        (
          shown_id info h shows,
          ==-ne n,
          shown_name info h shows,
          shown_sign info h shows,
          shown_exchange info h shows,
          law.hex_bytes p.signing_public_key sk.1,
          sk.0,
          ==-refl {A = ℕ} 32,
          law.hex_bytes p.exchange_public_key ek.1,
          ek.0,
          ==-refl {A = ℕ} 32,
          shown_host info h shows,
          trim_dots-local p.device_id,
          ==-ne (not_empty p.device_id),
          shown_port info h shows,
        )
        refl

ascii_width : (c : ℕ) → c < 128 → utf8_width c ≡ 1
unfolding utf8_width
ascii_width c h = ground arith

slice_to-take :
    (n : ℕ) (s : Text) → All (λ c. c < 128) s → n ≤ length s → slice_to n s ≡ some (take n s)
unfolding slice_to utf8_width
slice_to-take zero [] h k = ground arith
slice_to-take zero (c ∷ s) h k = ground arith
slice_to-take (suc n) [] h k = absurd (omega (arith, k))
slice_to-take (suc n) (c ∷ s) h k =
    ground (arith, ascii_width c h.0, slice_to-take n s h.1 (omega (arith, k)))

before_dot-append : (a b : Text) → All (λ c. c ≢ 46) a → before_dot (a ++ 46 ∷ b) ≡ a
unfolding before_dot
before_dot-append [] b h = ground arith
before_dot-append (c ∷ a) b h = rw (before_dot-append a b h.1, ==-ne h.0) refl

strip_prefix_lem : (s : Text) → strip_prefix (codes "nexus-") (codes "nexus-" ++ s) ≡ some s
unfolding strip_prefix nat_eq
strip_prefix_lem s = refl

All-hex : (P : ℕ → Type 0) (t : Text) → ((c : ℕ) → IsHexDigit c → P c) → All IsHexDigit t → All P t
All-hex P [] f h = tt
All-hex P (c ∷ t) f h = (f c h.0, All-hex P t f h.1)

All-take : (P : ℕ → Type 0) (n : ℕ) (t : Text) → All P t → All P (take n t)
All-take P zero t h = tt
All-take P (suc n) [] h = tt
All-take P (suc n) (c ∷ t) h = (h.0, All-take P n t h.1)

module _ (x : External) (law : IsLawful x) (key : Bytes) where
  length-device_id_of : length (device_id_of x key) ≡ 32
  unfolding device_id_of
  length-device_id_of = omega (
    arith,
    law.hex_length (take 16 (x.blake3 key)),
    length-take 16 (x.blake3 key),
    law.blake3_length key,
  )

  device_id_of-hex : All IsHexDigit (device_id_of x key)
  unfolding device_id_of
  device_id_of-hex = law.hex_digits (take 16 (x.blake3 key))

  -- Under the laws of the crates, a device whose id is that of a key is announced, and when its
  -- service goes it is told lost under the first eight characters of its id, which are not its id.
  pub removed_event-advertise :
      (p : PublicIdentity) (port : ℕ)
      → p.device_id ≡ device_id_of x key
      → (ad : Advertisement) × (advertise x p port ≡ ok ad)
        × (removed_event (fullname_of ad) ≡ some (TransportEvent.lost (take 8 p.device_id)))
        × (take 8 p.device_id ≢ p.device_id)
  unfolding advertise removed_event
  removed_event-advertise p port e =
      let id = p.device_id in
      let hex : All IsHexDigit id = rw e device_id_of-hex in
      let long : length id ≡ 32 = ap length e ∙ length-device_id_of in
      let cut =
        slice_to-take 8 id (All-hex (λ c. c < 128) id (λ c h. omega arith) hex)
          (omega (arith, long)) in
      let plain = All-take (λ c. c ≢ 46) 8 id (All-hex (λ c. c ≢ 46) id (λ c h. omega arith) hex) in
      (
        advertisement x (take 8 id) p port,
        rw cut refl,
        rw
            (
              append_assoc (codes "nexus-") (take 8 id) (46 ∷ service_type),
              strip_prefix_lem (take 8 id ++ 46 ∷ service_type),
              before_dot-append (take 8 id) service_type plain,
            )
            refl,
        λ q. absurd (omega (arith, long, length-take 8 id, ap length q)),
      )
