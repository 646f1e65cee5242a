-- ===== src/Identity/Persistence.antt =====
-- A device keeps its identity: what the first start creates the next start loads.
use nexus_p2p.Base.{◌≡◌, sym, ◌∙◌, inl, inr, none, some, arith, list_eq, nat_eq, suc}
use nexus_p2p.Base.Text.{Text, Bytes}
use nexus_p2p.Base.Result.{ok, Result-cases}
use nexus_p2p.External.{External, IsLawful, fill_bytes}
use nexus_p2p.Identity.{device_id_of}
use nexus_p2p.Identity.Local.{Machine, load, create, load_or_create}
use nexus_p2p.Crypto.{Identity}
use nexus_p2p.Storage.Identities.{load_identity, save_identity}

module _ (x : External) (name : Text) (m : Machine) where
  abbrev pub signing : Bytes
  signing = m.env.random m.env.calls 32

  abbrev pub exchange : Bytes
  exchange = m.env.random (suc m.env.calls) 32

  -- the identity of the two secrets drawn
  abbrev pub fresh : Identity
  fresh = record {
    public = record {
      device_id = device_id_of x (x.ed25519_public signing);
      display_name = name;
      signing_public_key = x.ed25519_public signing;
      exchange_public_key = x.x25519_public exchange;
    };
    signing = signing;
    exchange = exchange;
  }

  -- what `create` has returned and saved
  pub created :
      (i : Identity) (n : Machine)
      → create x name m ≡ (ok i, n)
      → (secret : Bytes) × (secret_json : Text) × (public_json : Text) × (i ≡ fresh)
        × (x.secret_to_bincode signing exchange ≡ ok secret)
        × (x.text_to_json (x.base64_encode secret) ≡ ok secret_json)
        × (x.identity_to_json fresh.public ≡ ok public_json)
        × (n.store.local_identity ≡ some (public_json, secret_json))
  unfolding create fill_bytes save_identity
  created i n h = elim (Result-cases (x.secret_to_bincode signing exchange)) [
    | inr (er, a) ↦ absurd (ground (arith, a))
    | inl (secret, a) ↦ elim (Result-cases (x.text_to_json (x.base64_encode secret))) [
      | inr (er, b) ↦ absurd (ground (arith, a, b))
      | inl (secret_json, b) ↦ elim (Result-cases (x.identity_to_json fresh.public)) [
        | inr (er, c) ↦ absurd (ground (arith, a, b, c))
        | inl (public_json, c) ↦ (
          secret,
          secret_json,
          public_json,
          ground (arith, a, b, c),
          a,
          b,
          c,
          ground (arith, a, b, c),
        )
      ]
    ]
  ]

  pub first_start : m.store.local_identity ≡ none → load_or_create x name m ≡ create x name m
  unfolding load_or_create load_identity
  first_start new = simp new

  -- Under the laws of the crates, on a device that has no identity yet, the identity that the
  -- first start makes is the one that every later start loads, whatever name it is given.
  pub load_or_create-again :
      (law : IsLawful x) (other : Text) (i : Identity) (n : Machine)
      → m.store.local_identity ≡ none
      → load_or_create x name m ≡ (ok i, n)
      → load_or_create x other n ≡ (ok i, n)
  unfolding load_or_create load_identity load
  load_or_create-again law other i n new h =
      let (secret, secret_json, public_json, e, a, b, c, d) =
        created i n (sym (first_start new) ∙ h) in
      rw (
        d,
        law.identity_json fresh.public c,
        law.text_json (x.base64_encode secret) b,
        law.base64 secret,
        law.secret_bincode signing exchange a,
        e,
      )
