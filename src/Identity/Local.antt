-- ===== src/Identity/Local.antt =====
-- `Identity::load_or_create` of core/nexus-core/src/identity.rs, over the store and the sources of
-- randomness.
use nexus_p2p.Base.{Option, none, some}
use nexus_p2p.Base.Text.{Text}
use nexus_p2p.Base.Exec.{Exec, pure, lift, zoom, ◌>>=◌, ◌>>◌}
use nexus_p2p.External.{External, Env, fill_bytes}
use nexus_p2p.Model.{PublicIdentity}
use nexus_p2p.Identity.{device_id_of}
use nexus_p2p.Crypto.{Identity}
use nexus_p2p.Storage.{Store}
use nexus_p2p.Storage.Identities.{load_identity, save_identity}

-- The store, and the clock, random source and ULID generator.
pub record Machine : Type 0 where
  pub store : Store
  pub env : Env

abbrev pub in_store : {A : Type 0} → Exec Store A → Exec Machine A
in_store = zoom (λ m. m.store) (λ store m. record m { store = store })

abbrev pub in_env : {A : Type 0} → Exec Env A → Exec Machine A
in_env = zoom (λ m. m.env) (λ env m. record m { env = env })

module _ (x : External) where
  unfoldable pub load : Text → Text → Exec Machine Identity
  load public_json secret_json = do
    public ← lift (x.identity_from_json public_json)
    encoded ← lift (x.text_from_json secret_json)
    bytes ← lift (x.base64_decode encoded)
    (signing, exchange) ← lift (x.secret_from_bincode bytes)
    pure (record { public = public; signing = signing; exchange = exchange })

  unfoldable pub create : Text → Exec Machine Identity
  create display_name = do
    signing ← in_env (fill_bytes 32)
    exchange ← in_env (fill_bytes 32)
    let public : PublicIdentity = record {
      device_id = device_id_of x (x.ed25519_public signing);
      display_name = display_name;
      signing_public_key = x.ed25519_public signing;
      exchange_public_key = x.x25519_public exchange;
    }
    secret ← lift (x.secret_to_bincode signing exchange)
    secret_json ← lift (x.text_to_json (x.base64_encode secret))
    public_json ← lift (x.identity_to_json public)
    in_store (save_identity public_json secret_json)
    pure (record { public = public; signing = signing; exchange = exchange })

  abbrev load_or : Text → Option (Text × Text) → Exec Machine Identity
  load_or display_name none = create display_name
  load_or display_name (some (public_json, secret_json)) = load public_json secret_json

  unfoldable pub load_or_create : Text → Exec Machine Identity
  load_or_create display_name = do saved ← in_store load_identity; load_or display_name saved
