-- ===== src/Node/Reach/Conversation.antt =====
-- Two nodes of core/nexus-core/src/node.rs that talk, each after a life of its own.
use nexus_p2p.Base.{◌≡◌, refl, sym, ◌∙◌}
use nexus_p2p.Base.Text.{Text}
use nexus_p2p.Base.Result.{ok}
use nexus_p2p.External.{External, IsLawful, Env}
use nexus_p2p.Model.{PublicIdentity, EventKind, EventEnvelope, DecryptedPayload}
use nexus_p2p.Identity.Local.{Machine, load_or_create}
use nexus_p2p.Crypto.{
  Identity, verify_and_decrypt, conversation_key, seal_event, sign, shared_secret,
}
use nexus_p2p.Crypto.Draws.{create_event}
use nexus_p2p.Crypto.RoundTrip.{HasOwnKeys, verify_and_decrypt-create_event}
use nexus_p2p.Node.{Node, node_identity}
use nexus_p2p.Node.Client.Names.{load_or_create_saved}
use nexus_p2p.Node.Sound.{IsSound, IsDevice}
use nexus_p2p.Node.Reach.{Reach, Reach-IsSound}

-- the keys of a node under the identity that it shows
abbrev pub shown_keys : Node → Identity
shown_keys n = record n.keys { public = node_identity n }

module _ (x : External) where
  create_event_shown :
      (a : Node) (i : PublicIdentity) (stream_id : Text) (kind : EventKind)
      (payload : DecryptedPayload) (env : Env)
      → create_event x a.keys i stream_id kind payload env
        ≡ create_event x (shown_keys a) i stream_id kind payload env
  unfolding create_event node_identity conversation_key seal_event sign shared_secret
  create_event_shown a i stream_id kind payload env = refl

module _ (x : External) (law : IsLawful x) where
  shown-HasOwnKeys : (d : Identity) (n : Node) → IsSound x d n → HasOwnKeys x (shown_keys n)
  unfolding IsSound node_identity
  shown-HasOwnKeys d n h = record { signing = h.keys.signing; exchange = h.keys.exchange }

  -- Under the laws of the crates, where two nodes have each been reached from a first start of
  -- their own, an event that one creates for the identity that the other shows opens at the other,
  -- under the identity that the one shows, to the payload.
  pub verify_and_decrypt-Reach :
      {first_a first_b a b : Node}
      → Reach x first_a a
      → Reach x first_b b
      → (stream_id : Text) (kind : EventKind) (payload : DecryptedPayload) (env env' : Env)
        (e : EventEnvelope)
      → create_event x a.keys (node_identity b) stream_id kind payload env ≡ (ok e, env')
      → verify_and_decrypt x b.keys (node_identity a) (node_identity a) e ≡ ok payload
  unfolding verify_and_decrypt conversation_key shared_secret node_identity
  verify_and_decrypt-Reach {first_a} {first_b} {a} {b} ra rb stream_id kind payload env env' e h =
      verify_and_decrypt-create_event x law (shown_keys a) (shown_keys b) stream_id kind payload env
        env' e (shown-HasOwnKeys first_a.keys a (Reach-IsSound x law ra))
        (shown-HasOwnKeys first_b.keys b (Reach-IsSound x law rb))
        (sym (create_event_shown x a (node_identity b) stream_id kind payload env) ∙ h)

  -- Under the laws of the crates, at every node that is reached from a first start, another start
  -- loads, under whatever name it is given, the id and the secrets of the first start under the
  -- At every node that is reached, a start on its store loads the first identity under the name that
  -- the node shows.
  pub load_or_create-Reach :
      {origin k : Node} (name : Text) (env : Env)
      → Reach x origin k
      → let m : Machine = record { store = k.store; env = env } in
        (load_or_create x name m ≡ (ok (shown_keys k), m)) × IsDevice origin.keys (shown_keys k)
  unfolding IsSound node_identity
  load_or_create-Reach {origin} {k} name env run =
      let h = Reach-IsSound x law run in
      let (public_json, secret_json, stored, loads) = h.saved in
      let m : Machine = record { store = k.store; env = env } in
      (
        load_or_create_saved x name public_json secret_json m stored ∙ loads m,
        record {
          device_id = h.device.device_id;
          signing = h.device.signing;
          exchange = h.device.exchange;
        },
      )
