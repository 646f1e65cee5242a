-- ===== src/Node/Reach/Delivered.antt =====
-- A text that a node of core/nexus-core/src/node.rs pushes to another.
use mathlib.Core.List.{Memᴰ}
use mathlib.Core.List.Memᴰ
use mathlib.Core.Path.{subst}
use nexus_p2p.Base.{
  ◌≡◌, ◌≢◌, refl, sym, ap, ◌∙◌, true, false, arith, ◌==◌, ==-refl, ==-ne, list_eq, nat_eq, contains,
  List, length,
}
use nexus_p2p.Base.Text.{Text}
use nexus_p2p.Base.Result.{Result, ok}
use nexus_p2p.External.{External, IsLawful, Env}
use nexus_p2p.Model.{
  PublicIdentity, identity_eq, Peer, EventKind, kind_eq, EventEnvelope, DecryptedPayload, ChatItem,
  protocol_version,
}
use nexus_p2p.Protocol.{WireMessage, WireEnvelope}
use nexus_p2p.Crypto.{verify_and_decrypt}
use nexus_p2p.Crypto.Draws.{create_event}
use nexus_p2p.Crypto.Signed.{create_event-IsSignedBy}
use nexus_p2p.Storage.{Store, EventRow}
use nexus_p2p.Storage.Events.{event_row, row_ids, insert_row, insert_event}
use nexus_p2p.Storage.Events.Log.{insert_row_new}
use nexus_p2p.Storage.Events.Held.{HasEvent, event_of_row-event_row}
use nexus_p2p.Node.{
  Node, NodeEvent, emit, node_identity, author_of, chat_item, process_manifest,
  require_sender_paired,
}
use nexus_p2p.Node.Server.{handle_push_event, announce_event, handle_message, handle_request}
use nexus_p2p.Node.Server.Authorization.{IsPaired, peer_state}
use nexus_p2p.Node.Sound.{IsSound}
use nexus_p2p.Node.Reach.{Reach, Reach-IsSound}
use nexus_p2p.Node.Reach.Conversation.{verify_and_decrypt-Reach}

text-ne-file : EventKind.text ≢ EventKind.file_manifest
text-ne-file e = ground (arith, e)

module _ (x : External) (sender : PublicIdentity) (e : EventEnvelope) (b : Node) where
  chat_item_opened :
      (payload : DecryptedPayload)
      → (e.author == b.keys.public.device_id) ≡ false
      → verify_and_decrypt x b.keys sender sender e ≡ ok payload
      → (item : ChatItem) × (chat_item x sender e b ≡ (ok item, b))
  unfolding chat_item author_of
  chat_item_opened payload other opened = (
    record {
      event_id = e.id;
      author = e.author;
      created_at_ms = e.created_at_ms;
      payload = payload;
    },
    rw (other, opened),
  )

  require_sender_paired_ok :
      IsPaired x sender b
      → (known : Peer) × (known.identity ≡ sender)
        × (require_sender_paired x sender b ≡ (ok known, b))
  unfolding require_sender_paired
  require_sender_paired_ok (known, found, paired, same) =
      let state = peer_state x sender.device_id b.store in
      let right : (known.identity == sender) ≡ true = rw same (==-refl sender) in
      (known, same, rw (found, paired, right, state))

module _ (x : External) (sender : PublicIdentity) (e : EventEnvelope)
    (payload : DecryptedPayload) where
  announce_run :
      (b : Node)
      → (e.author == b.keys.public.device_id) ≡ false
      → e.kind ≡ EventKind.text
      → verify_and_decrypt x b.keys sender sender e ≡ ok payload
      → (b' : Node) × (announce_event x sender e b ≡ (ok tt, b')) × (b'.store ≡ b.store)
  unfolding announce_event process_manifest emit kind_eq
  announce_run b other kind opened =
      let (item, chat) = chat_item_opened x sender e b payload other opened in
      let plain : (e.kind == EventKind.file_manifest) ≡ false =
        ap (λ k. k == EventKind.file_manifest) kind ∙ ==-ne text-ne-file in
      ((emit (NodeEvent.message item) b).1, rw (plain, chat), refl)

  -- A new text event that opens is logged and acknowledged.
  push_run :
      (b : Node)
      → IsPaired x sender b
      → e.author ≡ sender.device_id
      → (e.author == b.keys.public.device_id) ≡ false
      → e.kind ≡ EventKind.text
      → verify_and_decrypt x b.keys sender sender e ≡ ok payload
      → contains (row_ids b.store.event_rows) e.id ≡ false
      → (b' : Node) × (handle_push_event x sender e b ≡ (ok (WireMessage.ack e.id), b'))
        × (b'.store.event_rows ≡ insert_row (event_row e) b.store.event_rows)
  unfolding handle_push_event insert_event
  push_run b paired named other kind opened new =
      let (known, same, run) = require_sender_paired_ok x sender e b paired in
      let (item, chat) = chat_item_opened x sender e b payload other opened in
      let right : (e.author == sender.device_id) ≡ true = rw named (==-refl sender.device_id) in
      let b2 : Node = record b {
        machine = record b.machine {
          store = record b.store { event_rows = insert_row (event_row e) b.store.event_rows };
        };
      } in
      let (b3, told, left) = announce_run b2 other kind opened in
      (b3, rw (run, right, same, chat, new, told), ap (λ (s : Store). s.event_rows) left)

  -- The event can be read from the log that it was inserted into.
  logged_lem :
      (rows : List EventRow)
      → contains (row_ids rows) e.id ≡ false
      → length e.nonce ≡ 24
      → HasEvent x e (insert_row (event_row e) rows)
  unfolding event_row
  logged_lem rows new long = record {
    row = event_row e;
    there =
        subst (Memᴰ (event_row e)) (sym (insert_row_new (event_row e) rows new))
          (Memᴰ.append_right rows (Memᴰ.head refl));
    stream = refl;
    read = event_of_row-event_row x e long;
  }

module _ (x : External) (law : IsLawful x) where
  -- Under the laws of the crates, where two nodes with different ids have each been reached from a
  -- first start of their own and the one is paired at the other under the identity that it shows,
  -- a text that the one creates for the identity that the other shows, with a nonce of 24 bytes
  -- and an id that is not in the log of the other, and pushes to it is acknowledged with its id,
  -- and the log of the other has after that a row of its stream that is read as this event, with
  -- all its parts.
  pub handle_request-HasEvent :
      {origin_a origin_b a b : Node} (stream_id text : Text) (env env' : Env) (e : EventEnvelope)
      → Reach x origin_a a
      → Reach x origin_b b
      → IsPaired x (node_identity a) b
      → a.keys.public.device_id ≢ b.keys.public.device_id
      → create_event x a.keys
          (node_identity b)
          stream_id
          EventKind.text
          (DecryptedPayload.text text)
          env
        ≡ (ok e, env')
      → length e.nonce ≡ 24
      → contains (row_ids b.store.event_rows) e.id ≡ false
      → let asked : WireEnvelope = record {
        version = protocol_version;
        sender = node_identity a;
        body = WireMessage.push_event e;
      } in
        (answer : WireEnvelope) × ((handle_request x asked b).0 ≡ ok answer)
        × (answer.body ≡ WireMessage.ack e.id)
        × HasEvent x e (handle_request x asked b).1.store.event_rows
  unfolding IsSound handle_request handle_message node_identity
  handle_request-HasEvent {a = a} {b = b} stream_id text env env' e ra rb paired apart h long new =
      let sound = Reach-IsSound x law ra in
      let (signed, kind) =
        create_event-IsSignedBy x law a.keys sound.keys a.display_name (node_identity b) stream_id
          EventKind.text (DecryptedPayload.text text) env
          (ap (λ (r : Result EventEnvelope × Env). r.0) h) in
      let opened =
        verify_and_decrypt-Reach x law ra rb stream_id EventKind.text (DecryptedPayload.text text)
          env env' e h in
      let other : (e.author == b.keys.public.device_id) ≡ false = rw signed.named (==-ne apart) in
      let (b', pushed, log) =
        push_run x (node_identity a) e (DecryptedPayload.text text) b paired signed.named other kind
          opened new in
      let there : HasEvent x e b'.store.event_rows = subst (HasEvent x e) (sym log) (
        logged_lem x (node_identity a) e (DecryptedPayload.text text) b.store.event_rows new
          long) in
      let asked : WireEnvelope = record {
        version = protocol_version;
        sender = node_identity a;
        body = WireMessage.push_event e;
      } in
      let answer : WireEnvelope = record {
        version = protocol_version;
        sender = node_identity b';
        body = WireMessage.ack e.id;
      } in
      let done : handle_request x asked b ≡ (ok answer, b') = ground (arith, sound.own, pushed) in
      (
        answer,
        ap (λ (r : Result WireEnvelope × Node). r.0) done,
        refl,
        subst (λ (r : Result WireEnvelope × Node). HasEvent x e r.1.store.event_rows) (sym done)
            there,
      )
