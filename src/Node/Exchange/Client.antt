-- ===== src/Node/Exchange/Client.antt =====
-- What `exchange_events` of core/nexus-core/src/node.rs has done where it succeeds.
use mathlib.Core.Path.{subst}
use nexus_p2p.Base.{
  ℕ, ◌≡◌, refl, sym, ap, ◌∙◌, inl, inr, Bool, List, arith, Bool-cases, ◌==◌, nat_eq, list_eq,
  if◌then◌else◌, map,
}
use nexus_p2p.Base.Text.{Text}
use nexus_p2p.Base.Result.{Result, ok, Result-cases}
use nexus_p2p.Base.Exec.{Exec, traverse, pure, ◌>>=◌, ◌>>◌}
use nexus_p2p.Base.Exec.Keeps.{Keeps-if, Keeps-pure, Keeps-then}
use nexus_p2p.Base.Exec.Success.{>>=-eq-ok}
use nexus_p2p.External.{External}
use nexus_p2p.Model.{DeviceId, PeerEndpoint, Peer, EventEnvelope, protocol_version}
use nexus_p2p.Protocol.{WireMessage, WireEnvelope}
use nexus_p2p.Storage.{Store}
use nexus_p2p.Storage.Events.{events, event_ids, insert_event}
use nexus_p2p.Storage.Events.Merge.{insert_rows}
use nexus_p2p.Node.{Node, in_store, node_identity, chat_item, process_manifest}
use nexus_p2p.Node.Client.{stream_of, request, received_events, receive_event, exchange_events}
use nexus_p2p.Node.Client.Answers.{IsAnswer, request-eq-ok}
use nexus_p2p.Node.Exchange.{
  Accepts, Log, authored, rows_of, inserted, process_manifest-Log, traverse-Log,
}
use nexus_p2p.Node.Exchange.Server.{events_state}

-- the request of an exchange
abbrev pub sync_request : Node → Text → List Text → List EventEnvelope → WireEnvelope
sync_request n stream_id known_ids logged = record {
  version = protocol_version;
  sender = node_identity n;
  body = WireMessage.sync_exchange stream_id known_ids (authored n.keys.public.device_id logged);
}

module _ (x : External) (transport : ℕ → PeerEndpoint → WireEnvelope → Result WireEnvelope)
    (p : Peer) where
  accepts : Accepts x p.identity.device_id (receive_event x transport p)
  unfolding receive_event insert_rows
  accepts = record {
    stored = λ e n a h. elim (Bool-cases (e.author == p.identity.device_id)) [
      | inr t ↦ rw t refl
      | inl t ↦
          let f : Bool → Exec Node ℕ = λ new.
            if new
            then (process_manifest x p.identity.device_id p.identity e >> pure 1)
            else pure 0 in
          let same : receive_event x transport p e n
              ≡ (chat_item x p.identity e >> (in_store (insert_event e) >>= f)) n =
            rw t in
          rw t (
            inserted x p.identity e f n {a = a}
              (λ new rows.
                Keeps-if new _ _
                  (Keeps-then _ _ (process_manifest-Log x rows p.identity.device_id p.identity e)
                    (Keeps-pure 1))
                  (Keeps-pure 0))
              (sym (ap (λ (r : Result ℕ × Node). r.0) same) ∙ h))
    ];
  }

-- What an exchange that succeeds has done: it asked with the events of its log, and has
-- inserted the events of the peer that the answer held.
pub record Asked (x : External) (transport : ℕ → PeerEndpoint → WireEnvelope → Result WireEnvelope)
    (id : DeviceId) (p : Peer) (n n' : Node) : Type 0 where
  pub logged : List EventEnvelope
  pub read : (events x (stream_of id n) n.store).0 ≡ ok logged
  pub endpoint : PeerEndpoint
  pub answer : WireEnvelope
  pub answered :
      transport n.env.calls endpoint
        (sync_request n (stream_of id n) (map (λ (e : EventEnvelope). e.id) logged) logged)
      ≡ ok answer
  pub good : IsAnswer x transport p answer
  pub incoming : List EventEnvelope
  pub body : answer.body ≡ WireMessage.sync_result incoming
  pub stored :
      Log (insert_rows (rows_of (authored p.identity.device_id incoming)) n.store.event_rows) n'

module _ (x : External) (transport : ℕ → PeerEndpoint → WireEnvelope → Result WireEnvelope) where
  received_events-eq-ok :
      (body : WireMessage) (n : Node) {es : List EventEnvelope}
      → (received_events x transport body n).0 ≡ ok es
      → (body ≡ WireMessage.sync_result es) × ((received_events x transport body n).1 ≡ n)
  unfolding received_events
  received_events-eq-ok body n h = ground (arith, h)

  -- `exchange_events` after its reads of the log
  abbrev asking : DeviceId → Peer → List EventEnvelope → Exec Node (List ℕ)
  asking id p logged n =
      (request x transport p
            (sync_request n (stream_of id n) (map (λ (e : EventEnvelope). e.id) logged) logged).body
          >>= λ response. received_events x transport response.body >>= λ incoming.
              traverse (receive_event x transport p) incoming)
        n

  exchange_events_read :
      (id : DeviceId) (p : Peer) (n : Node) {counts : List ℕ}
      → (exchange_events x transport id p n).0 ≡ ok counts
      → (logged : List EventEnvelope) × ((events x (stream_of id n) n.store).0 ≡ ok logged)
        × (exchange_events x transport id p n ≡ asking id p logged n)
  unfolding exchange_events event_ids
  exchange_events_read id p n h =
      let same = events_state x (stream_of id n) n.store in
      elim (Result-cases (events x (stream_of id n) n.store).0) [
        | inr (er, r) ↦ absurd (ground (arith, h, r))
        | inl (logged, r) ↦
            let read : events x (stream_of id n) n.store ≡ (ok logged, n.store) =
              ground (arith, same, r) in
            (logged, r, rw (read, read))
      ]

  asking-Asked :
      (id : DeviceId) (p : Peer) (logged : List EventEnvelope) (n : Node) {counts : List ℕ}
      → (events x (stream_of id n) n.store).0 ≡ ok logged
      → (asking id p logged n).0 ≡ ok counts
      → Asked x transport id p n (asking id p logged n).1
  asking-Asked id p logged n read h =
      let s = stream_of id n in
      let body = (sync_request n s (map (λ (e : EventEnvelope). e.id) logged) logged).body in
      let (answer, asked, h1, s1) = >>=-eq-ok (request x transport p body) _ n h in
      let n1 = (request x transport p body n).1 in
      let (store, good, (endpoint, reply)) = request-eq-ok x transport p body n asked in
      let (incoming, got, h2, s2) = >>=-eq-ok (received_events x transport answer.body) _ n1 h1 in
      let (held, same) = received_events-eq-ok answer.body n1 got in
      let n2 = (received_events x transport answer.body n1).1 in
      let take = receive_event x transport p in
      let end : (asking id p logged n).1 ≡ (traverse take incoming n2).1 = s1 ∙ s2 in
      record {
        logged = logged;
        read = read;
        endpoint = endpoint;
        answer = answer;
        answered = reply;
        good = good;
        incoming = incoming;
        body = held;
        stored =
            ap (λ (k : Node). k.store.event_rows) end
            ∙ traverse-Log x p.identity.device_id take (accepts x transport p) incoming n2 h2
            ∙ ap
                (λ (k : Store).
                  insert_rows (rows_of (authored p.identity.device_id incoming)) k.event_rows)
                (ap (λ (k : Node). k.store) same ∙ store);
      }

  -- What is there after an exchange that succeeds.
  pub exchange_events-Asked :
      (id : DeviceId) (p : Peer) (n : Node) {counts : List ℕ}
      → (exchange_events x transport id p n).0 ≡ ok counts
      → Asked x transport id p n (exchange_events x transport id p n).1
  exchange_events-Asked id p n h =
      let (logged, read, same) = exchange_events_read id p n h in
      subst (λ (r : Result (List ℕ) × Node). Asked x transport id p n r.1) (sym same)
        (asking-Asked id p logged n read (sym (ap (λ (r : Result (List ℕ) × Node). r.0) same) ∙ h))
