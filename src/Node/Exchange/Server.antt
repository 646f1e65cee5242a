-- ===== src/Node/Exchange/Server.antt =====
-- What `handle_sync_exchange` of core/nexus-core/src/node.rs has done where it answers.
use mathlib.Core.Path.{subst}
use nexus_p2p.Base.{
  ◌≡◌, ◌≢◌, refl, sym, ap, ◌∙◌, inl, inr, Bool, List, arith, Bool-cases, ◌==◌, nat_eq, list_eq,
  if◌then◌else◌,
}
use nexus_p2p.Base.Text.{Text, codes}
use nexus_p2p.Base.Result.{Result, ok, err, fail, panic, Result-cases}
use nexus_p2p.Base.Exec.{Exec, for_each, lift, pure, gets, ensure, ◌>>=◌, ◌>>◌}
use nexus_p2p.Base.Exec.Keeps.{
  Keeps, keeps_rules, Keeps-traverse, Keeps-lift, Keeps-if, Keeps-pure, Keeps-ensure,
}
use nexus_p2p.Base.Exec.Success.{>>=-eq-ok, unit-eq}
use nexus_p2p.External.{External}
use nexus_p2p.Model.{DeviceId, PublicIdentity, EventEnvelope, protocol_version}
use nexus_p2p.Protocol.{WireMessage, WireEnvelope}
use nexus_p2p.Identity.{validate_public_identity}
use nexus_p2p.Storage.{Store, EventRow}
use nexus_p2p.Storage.Frame
use nexus_p2p.Storage.Peers.{peer}
use nexus_p2p.Storage.Events.{events, event_of_row, select_events, insert_event}
use nexus_p2p.Storage.Events.Merge.{insert_rows}
use nexus_p2p.Node.{
  Node, in_store, node_identity, chat_item, process_manifest, require_sender_paired,
}
use nexus_p2p.Node.Server.{
  stream_with, accept_event, missing_events, handle_sync_exchange, handle_message, handle_request,
  answer_error,
}
use nexus_p2p.Node.Exchange.{
  Accepts, Log, authored, rows_of, in_store-Log, inserted, process_manifest-Log, for_each-Log,
}

ok-inj : {A : Type 0} {a b : A} → ok a ≡ ok b → a ≡ b
ok-inj e = ground (arith, e)

module _ (x : External) where
  -- The read of the log changes nothing.
  pub events_state : (stream_id : Text) (s : Store) → (events x stream_id s).1 ≡ s
  unfolding events
  events_state stream_id s =
      (Keeps-traverse {P = λ t. t ≡ s} (λ row. lift (event_of_row x stream_id row))
          (select_events stream_id s.event_rows)
          (λ row. Keeps-lift (event_of_row x stream_id row))).at
        s refl

module _ (x : External) (rows : List EventRow) (sender : PublicIdentity) where
  peer-Log : (id : DeviceId) → Keeps (Log rows) (in_store (peer x id))
  peer-Log id = in_store-Log x rows _ (λ R. Frame.peer-OnRows x R id)

  require_sender_paired-Log : Keeps (Log rows) (require_sender_paired x sender)
  unfolding require_sender_paired
  require_sender_paired-Log = search (keeps_rules, peer-Log) depth 9

module _ (x : External) (sender : PublicIdentity) where
  accepts : Accepts x sender.device_id (accept_event x sender)
  unfolding accept_event insert_rows
  accepts = record {
    stored = λ e n a h. elim (Bool-cases (e.author == sender.device_id)) [
      | inr t ↦ rw t refl
      | inl t ↦
          let f : Bool → Exec Node Unit =
            λ new. if new then process_manifest x sender.device_id sender e else pure tt in
          let same : accept_event x sender e n
              ≡ (chat_item x sender e >> (in_store (insert_event e) >>= f)) n =
            rw t in
          rw t (
            inserted x sender e f n {a = a}
              (λ new rows.
                Keeps-if new _ _ (process_manifest-Log x rows sender.device_id sender e)
                  (Keeps-pure tt))
              (sym (ap (λ (r : Result (Unit {0}) × Node). r.0) same) ∙ h))
    ];
  }

  -- What the exchange that ends in a node has done.
  abbrev pub Exchanged :
      Text → List Text → List EventEnvelope → List EventRow → Node → WireMessage → Type 0
  Exchanged stream_id known_ids incoming rows n body =
      (logged : List EventEnvelope) × ((events x stream_id n.store).0 ≡ ok logged)
      × (body ≡ WireMessage.sync_result (missing_events x sender n known_ids logged))
      × Log (insert_rows (rows_of (authored sender.device_id incoming)) rows) n

  abbrev tail : Text → List Text → List EventEnvelope → Exec Node WireMessage
  tail stream_id known_ids incoming =
      for_each (accept_event x sender) incoming
      >> (in_store (events x stream_id) >>= λ logged.
          gets (λ n. missing_events x sender n known_ids logged) >>= λ missing.
          pure (WireMessage.sync_result missing))

  tail-Exchanged :
      (stream_id : Text) (known_ids : List Text) (incoming : List EventEnvelope) (n : Node)
      {body : WireMessage}
      → (tail stream_id known_ids incoming n).0 ≡ ok body
      → Exchanged stream_id known_ids incoming n.store.event_rows
          (tail stream_id known_ids incoming n).1
          body
  tail-Exchanged stream_id known_ids incoming n {body} h =
      let (u, ran, h1, s1) = >>=-eq-ok (for_each (accept_event x sender) incoming) _ n h in
      let n1 = (for_each (accept_event x sender) incoming n).1 in
      let left = for_each-Log x sender.device_id (accept_event x sender) accepts incoming n ran in
      let (logged, read, h2, s2) = >>=-eq-ok (in_store (events x stream_id)) _ n1 h1 in
      let same : (in_store (events x stream_id) n1).1 ≡ n1 =
        ap (λ (t : Store). record n1 { machine = record n1.machine { store = t } })
          (events_state x stream_id n1.store) in
      subst (λ k. Exchanged stream_id known_ids incoming n.store.event_rows k body)
        (sym (s1 ∙ s2 ∙ same))
        (
          logged,
          read,
          sym (ok-inj h2)
              ∙ ap
                  (λ (k : Node).
                    WireMessage.sync_result (missing_events x sender k known_ids logged))
                  same,
          left,
        )

  -- Where the exchange succeeds, the events of the sender have been inserted, and the answer is the
  -- events that the sender does not know.
  pub handle_sync_exchange-eq-ok :
      (stream_id : Text) (known_ids : List Text) (incoming : List EventEnvelope) (n : Node)
      {body : WireMessage}
      → (handle_sync_exchange x sender stream_id known_ids incoming n).0 ≡ ok body
      → Exchanged stream_id known_ids incoming n.store.event_rows
          (handle_sync_exchange x sender stream_id known_ids incoming n).1
          body
  unfolding handle_sync_exchange
  handle_sync_exchange-eq-ok stream_id known_ids incoming n {body} h =
      let (known, ran, h1, s1) = >>=-eq-ok (require_sender_paired x sender) _ n h in
      let n1 = (require_sender_paired x sender n).1 in
      let rows = n.store.event_rows in
      let kept1 = (require_sender_paired-Log x rows sender).at n refl in
      let guard =
        ensure {S = Node} (stream_id == stream_with sender n1) (fail (codes "invalid stream id")) in
      let (u, right, h2, s2) = >>=-eq-ok guard _ n1 h1 in
      let kept2 =
        (Keeps-ensure {P = Log rows} (stream_id == stream_with sender n1) _).at n1 kept1 in
      subst2 kept2 (s1 ∙ s2) (tail-Exchanged stream_id known_ids incoming (guard n1).1 h2)
    where
      subst2 :
          {others : List EventRow} {k n' : Node} {body : WireMessage}
          → others ≡ n.store.event_rows
          → n' ≡ k
          → Exchanged stream_id known_ids incoming others k body
          → Exchanged stream_id known_ids incoming n.store.event_rows n' body
      subst2 {k = k} {body = body} e state out =
          subst (λ m. Exchanged stream_id known_ids incoming n.store.event_rows m body) (sym state)
            (subst (λ r. Exchanged stream_id known_ids incoming r k body) e out)

-- A request that succeeds with an answer that reports no error.
pub record IsAnswered (x : External) (request : WireEnvelope) (n : Node) (answer : WireEnvelope)
    : Type 0 where
  pub valid : validate_public_identity x request.sender ≡ ok tt
  pub handled : (handle_message x request.sender request.body n).0 ≡ ok answer.body
  pub left : (handle_request x request n).1 ≡ (handle_message x request.sender request.body n).1
  pub sender : answer.sender ≡ node_identity (handle_message x request.sender request.body n).1

answer_error-eq-ok :
    (r : Result WireMessage) (n : Node) {body : WireMessage}
    → (answer_error (r, n)).0 ≡ ok body
    → ((message : Text) → body ≢ WireMessage.error message)
    → (r ≡ ok body) × ((answer_error (r, n)).1 ≡ n)
answer_error-eq-ok (ok body) n h good = (h, refl)
answer_error-eq-ok (err (fail message)) n h good = absurd (good message (sym (ok-inj h)))
answer_error-eq-ok (err panic) n h good = absurd (ground (arith, h))

module _ (x : External) where
  -- `handle_request` after its two checks
  abbrev answering : WireEnvelope → Exec Node WireEnvelope
  answering request =
      (λ n. answer_error (handle_message x request.sender request.body n)) >>= λ body.
      gets node_identity >>= λ me.
      pure (record { version = protocol_version; sender = me; body = body })

  handle_request_passed :
      (request : WireEnvelope) (n : Node) {answer : WireEnvelope}
      → (handle_request x request n).0 ≡ ok answer
      → (validate_public_identity x request.sender ≡ ok tt)
        × (handle_request x request n ≡ answering request n)
  unfolding handle_request
  handle_request_passed request n h = elim (Bool-cases (request.version == protocol_version)) [
    | inr v ↦ absurd (ground (arith, v))
    | inl v ↦ elim (Result-cases (validate_public_identity x request.sender)) [
      | inr (er, i) ↦ absurd (ground (arith, v, i))
      | inl (u, i) ↦ (i ∙ ap ok (unit-eq u), rw (v, i))
    ]
  ]

  pub handle_request-IsAnswered :
      (request : WireEnvelope) (n : Node) {answer : WireEnvelope}
      → (handle_request x request n).0 ≡ ok answer
      → ((message : Text) → answer.body ≢ WireMessage.error message)
      → IsAnswered x request n answer
  handle_request-IsAnswered request n {answer} h good =
      let (valid, same) = handle_request_passed request n h in
      let handled = handle_message x request.sender request.body n in
      let (body, ran, h1, s1) =
        >>=-eq-ok (λ m. answer_error (handle_message x request.sender request.body m)) _ n
          (sym (ap (λ (r : Result WireEnvelope × Node). r.0) same) ∙ h) in
      let made = ok-inj h1 in
      let named : body ≡ answer.body = ap (λ (e : WireEnvelope). e.body) made in
      let (done, left) =
        answer_error-eq-ok handled.0 handled.1 {body = body} ran
          (λ message e. good message (sym named ∙ e)) in
      record {
        valid = valid;
        handled = done ∙ ap ok named;
        left = ap (λ (r : Result WireEnvelope × Node). r.1) same ∙ s1 ∙ left;
        sender = sym (ap (λ (e : WireEnvelope). e.sender) made) ∙ ap node_identity left;
      }
