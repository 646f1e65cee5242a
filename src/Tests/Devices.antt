-- ===== src/Tests/Devices.antt =====
-- Two devices and their first start.
use nexus_p2p.Base.{◌+◌, ◌≡◌, ◌⊎◌, refl, arith, none, [], ◌∷◌, nat_eq, list_eq}
use nexus_p2p.Base.Int.{pos}
use nexus_p2p.Base.Text.{Text, Bytes, codes, text_leb}
use nexus_p2p.Base.Result.{Result, ok, err}
use nexus_p2p.External.{Env, fill_bytes}
use nexus_p2p.Model.{direct_stream_id}
use nexus_p2p.Model.StreamId.{direct_stream_id-inj}
use nexus_p2p.Crypto.{Identity}
use nexus_p2p.Crypto.RoundTrip.{HasOwnKeys}
use nexus_p2p.Identity.{device_id_of}
use nexus_p2p.Identity.Local.{Machine, create, load_or_create}
use nexus_p2p.Identity.Persistence.{load_or_create-again}
use nexus_p2p.Storage.{Store}
use nexus_p2p.Storage.Identities.{load_identity, save_identity}
use nexus_p2p.Tests.Crates.{crates, crates-IsLawful}

abbrev pub value {ℓ} : {A : Type ℓ} → A → Result A → A
value a (ok b) = b
value a (err e) = a

abbrev pub clock : Env
clock = record {
  now = λ c. pos (100 + c);
  random = λ c n. (c + 1) ∷ n ∷ [];
  ulid = λ c. (97 + c) ∷ [];
  calls = 0;
}

abbrev pub empty_store : Store
empty_store = record {
  local_identity = none;
  peer_rows = [];
  event_rows = [];
  manifest_rows = [];
  chunk_rows = [];
  disk = [];
  blob_dir = codes "blobs";
}

-- the device of two secrets
abbrev pub device : Text → Bytes → Bytes → Identity
device name signing exchange = record {
  public = record {
    device_id = device_id_of crates signing;
    display_name = name;
    signing_public_key = signing;
    exchange_public_key = exchange;
  };
  signing = signing;
  exchange = exchange;
}

abbrev pub alice : Identity
alice = device (codes "alice") (1 ∷ []) (2 ∷ [])

abbrev pub bob : Identity
bob = device (codes "bob") (3 ∷ []) (4 ∷ [])

pub alice-HasOwnKeys : HasOwnKeys crates alice
alice-HasOwnKeys = record { signing = refl; exchange = refl }

pub bob-HasOwnKeys : HasOwnKeys crates bob
bob-HasOwnKeys = record { signing = refl; exchange = refl }

same_stream :
    direct_stream_id (codes "ab") (codes "01") ≡ direct_stream_id (codes "01") (codes "ab")
unfolding direct_stream_id text_leb
same_stream = refl

direct_stream_id-inj_example :
    ((codes "ab" ≡ codes "01") × (codes "01" ≡ codes "ab"))
    ⊎ ((codes "ab" ≡ codes "ab") × (codes "01" ≡ codes "01"))
direct_stream_id-inj_example =
    direct_stream_id-inj (codes "ab") (codes "01") (codes "01") (codes "ab") (search arith)
      (search arith) (search arith) (search arith) same_stream

abbrev new_machine : Machine
new_machine = record { store = empty_store; env = clock }

abbrev started : Result Identity × Machine
started = create crates (codes "alice") new_machine

abbrev first_identity : Identity
first_identity = value alice started.0

created : started ≡ (ok first_identity, started.1)
unfolding create fill_bytes save_identity
created = refl

abbrev opened : Result Identity × Machine
opened = load_or_create crates (codes "alice") new_machine

loaded : opened ≡ (ok (value alice opened.0), opened.1)
unfolding load_or_create load_identity create fill_bytes save_identity
loaded = refl

load_or_create-again_example :
    load_or_create crates (codes "laptop") opened.1 ≡ (ok (value alice opened.0), opened.1)
load_or_create-again_example =
    load_or_create-again crates (codes "alice") new_machine crates-IsLawful (codes "laptop")
      (value alice opened.0) opened.1 refl loaded
