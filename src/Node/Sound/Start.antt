-- ===== src/Node/Sound/Start.antt =====
-- The first start of a node of core/nexus-core/src/node.rs, and a start on what another left.
use mathlib.Core.Path.{subst}
use nexus_p2p.Base.{
  ◌≡◌, ◌≢◌, refl, sym, ap, ◌∙◌, none, [], arith, ==-ne, ==-refl, ℕ, list_eq, nat_eq,
}
use nexus_p2p.Base.Text.{Text, Bytes, trim}
use nexus_p2p.Base.Result.{Result, ok}
use nexus_p2p.Base.Exec.Keeps.{Keeps, keeps_rules}
use nexus_p2p.External.{External, IsLawful, fill_bytes}
use nexus_p2p.Identity.{validate_public_identity}
use nexus_p2p.Identity.Local.{Machine, load, create, load_or_create, in_store, in_env}
use nexus_p2p.Identity.Persistence.{signing, exchange, fresh, created, first_start}
use nexus_p2p.Crypto.{Identity}
use nexus_p2p.Storage.{Store}
use nexus_p2p.Storage.Identities.{save_identity}
use nexus_p2p.Node.{Node}
use nexus_p2p.Node.Kept.{View, view, shown}
use nexus_p2p.Node.Start.{NodeConfig, Services, new_node}
use nexus_p2p.Node.Start.Kept.{new_node-eq-ok}
use nexus_p2p.Node.Client.Names.{load_or_create_saved}
use nexus_p2p.Node.Sound.{Sound, IsSound}

-- Nothing was ever stored.
pub record IsFresh (s : Store) : Type 0 where
  pub saved : s.local_identity ≡ none
  pub log : s.event_rows ≡ []
  pub peers : s.peer_rows ≡ []

-- the view of a machine's store under an identity
abbrev view_of : Machine → Identity → View
view_of m keys = record {
  rows = m.store.event_rows;
  peers = m.store.peer_rows;
  saved = m.store.local_identity;
  keys = keys;
  display_name = keys.public.display_name;
}

module _ (x : External) (services : Services) (config : NodeConfig) where
  -- The view of a node that is made is that of the store and the identity.
  new_view :
      (m m' : Machine) {n : Node} {keys : Identity}
      → (new_node x services config m).0 ≡ ok n
      → load_or_create x config.display_name m ≡ (ok keys, m')
      → view_of m' keys ≡ view n
  new_view m m' {n} {keys} h loaded =
      let (got, found, machine, same, name) = new_node-eq-ok x services config m h in
      let e : got ≡ keys = ground (arith, found, loaded) in
      let left : n.machine ≡ m' = machine ∙ ap (λ (r : Result Identity × Machine). r.1) loaded in
      let held : n.keys ≡ keys = same ∙ e in
      let shows : n.display_name ≡ keys.public.display_name =
        name ∙ ap (λ (i : Identity). i.public.display_name) e in
      rw (left, held, shows)

module _ (x : External) (law : IsLawful x) (d : Identity) (services : Services)
    (config : NodeConfig) where
  -- A start on what a sound node left makes a sound node.
  pub new_node-IsSound :
      (n : Node) {k : Node}
      → IsSound x d n
      → (new_node x services config n.machine).0 ≡ ok k
      → IsSound x d k
  unfolding IsSound
  new_node-IsSound n {k} h made =
      let (public_json, secret_json, stored, loads) = h.saved in
      let keys : Identity = record n.keys { public = shown (view n) } in
      let loaded : load_or_create x config.display_name n.machine ≡ (ok keys, n.machine) =
        load_or_create_saved x config.display_name public_json secret_json n.machine stored
        ∙ loads n.machine in
      subst (Sound x d) (new_view x services config n.machine n.machine made loaded) (record {
        log = h.log;
        distinct = h.distinct;
        own = h.own;
        keys = record { signing = h.keys.signing; exchange = h.keys.exchange };
        device = record {
          device_id = h.device.device_id;
          signing = h.device.signing;
          exchange = h.device.exchange;
        };
        peers = h.peers;
        saved = (public_json, secret_json, stored, loads);
      })

module _ (x : External) (law : IsLawful x) (services : Services) (config : NodeConfig) where
  abbrev HasEmptyTables : Machine → Type 0
  HasEmptyTables m = (m.store.event_rows ≡ []) × (m.store.peer_rows ≡ [])

  drawn : (k : ℕ) → Keeps HasEmptyTables (in_env (fill_bytes k))
  drawn k = record { at = λ m h. h }

  written : (a b : Text) → Keeps HasEmptyTables (in_store (save_identity a b))
  unfolding save_identity
  written a b = record { at = λ m h. h }

  create-HasEmptyTables : Keeps HasEmptyTables (create x config.display_name)
  unfolding create
  create-HasEmptyTables = search (keeps_rules, drawn, written) depth 16

  load_created :
      (m m' : Machine) (public_json secret_json : Text) {secret : Bytes}
      → x.secret_to_bincode (signing x config.display_name m) (exchange x config.display_name m)
        ≡ ok secret
      → x.text_to_json (x.base64_encode secret) ≡ ok secret_json
      → x.identity_to_json (fresh x config.display_name m).public ≡ ok public_json
      → load x public_json secret_json m' ≡ (ok (fresh x config.display_name m), m')
  unfolding load
  load_created m m' public_json secret_json {secret} a b c = rw (
    law.identity_json (fresh x config.display_name m).public c,
    law.text_json (x.base64_encode secret) b,
    law.base64 secret,
    law.secret_bincode _ _ a,
  )

  fresh_valid :
      (m : Machine)
      → trim config.display_name ≢ []
      → validate_public_identity x (fresh x config.display_name m).public ≡ ok tt
  unfolding validate_public_identity
  fresh_valid m n =
      rw (law.public-verifying_key (signing x config.display_name m), ==-refl _, ==-ne n)

  -- The first start makes a sound node, where the name is not blank.
  pub first_start-IsSound :
      (m : Machine) {n : Node}
      → IsFresh m.store
      → trim config.display_name ≢ []
      → (new_node x services config m).0 ≡ ok n
      → IsSound x n.keys n
  unfolding IsSound
  first_start-IsSound m {n} f name made =
      let (i, found, _, same, _) = new_node-eq-ok x services config m made in
      let m' = (load_or_create x config.display_name m).1 in
      let loaded : load_or_create x config.display_name m ≡ (ok i, m') = ap (λ r. (r, m')) found in
      let (secret, secret_json, public_json, e, a, b, c, d) =
        created x config.display_name m i m'
          (sym (first_start x config.display_name m f.saved) ∙ loaded) in
      let (log, peers) : HasEmptyTables m' =
        subst (λ (r : Result Identity × Machine). HasEmptyTables r.1)
          (sym (first_start x config.display_name m f.saved))
          (create-HasEmptyTables.at m (f.log, f.peers)) in
      let sound : Sound x i (view n) =
        subst (Sound x i) (new_view x services config m m' made loaded) (record {
          log = rw log tt;
          distinct = rw log tt;
          own = rw e (fresh_valid m name);
          keys = rw e (record { signing = refl; exchange = refl });
          device = record { device_id = refl; signing = refl; exchange = refl };
          peers = rw peers tt;
          saved = (
            public_json,
            secret_json,
            d,
            λ k.
                load_created m k public_json secret_json a b c
                ∙ ap (λ (j : Identity). (ok j, k)) (sym e),
          );
        }) in
      subst (λ (j : Identity). Sound x j (view n)) (sym same) sound
