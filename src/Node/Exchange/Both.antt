-- ===== src/Node/Exchange/Both.antt =====
-- An exchange between two nodes of core/nexus-core/src/node.rs: what one asks the other answers.
use mathlib.Core.List.Memᴰ
use mathlib.Core.Path.{subst}
use nexus_p2p.Base.{
  ◌≡◌, refl, sym, ap, ◌∙◌, inl, inr, arith, List, [], ◌∷◌, Bool-cases, ◌==◌, nat_eq, list_eq, ℕ,
  map, All, All-filter, contains, true,
}
use nexus_p2p.Base.Sort.{Distinct}
use nexus_p2p.Base.Text.{Text}
use nexus_p2p.Base.Result.{Result, ok}
use nexus_p2p.External.{External, IsLawful}
use nexus_p2p.Model.{DeviceId, PublicIdentity, PeerEndpoint, Peer, EventEnvelope}
use nexus_p2p.Protocol.{WireMessage, WireEnvelope}
use nexus_p2p.Storage.{EventRow}
use nexus_p2p.Storage.Events.{event_row, events}
use nexus_p2p.Storage.Events.Merge.{insert_rows, insert_rows-Distinct}
use nexus_p2p.Storage.Events.Held.{
  HasEvent, HasEvents, Agree, Distinct-Agree, Agree-insert_rows, All-insert_rows, insert_rows_keeps,
}
use nexus_p2p.Node.{Node, node_identity}
use nexus_p2p.Node.Sound.{IsSound}
use nexus_p2p.Node.Reach.{Reach, Reach-IsSound}
use nexus_p2p.Node.Client.{stream_of, exchange_events}
use nexus_p2p.Node.Server.{handle_request, handle_message, handle_sync_exchange, missing_events}
use nexus_p2p.Node.Exchange.{Log, authored, rows_of}
use nexus_p2p.Node.Exchange.Server.{handle_request-IsAnswered, handle_sync_exchange-eq-ok}
use nexus_p2p.Node.Exchange.Client.{sync_request, exchange_events-Asked}
use nexus_p2p.Node.Exchange.Known.{
  IsRead, unknown, known_or_sent, contains-row, events-IsRead, rows_of-there, rows_of-HasEvents,
  read-HasEvent,
}

abbrev ids : List EventEnvelope → List Text
ids = map (λ (e : EventEnvelope). e.id)

-- After an exchange, each of the two nodes has the events of the stream that the other had written:
-- `theirs` are those of the log of the other node once it has answered.
abbrev pub HaveExchanged : External → Text → DeviceId → Node → Node → Node → Type 0
HaveExchanged x stream_id peer_id before after other =
    (mine theirs : List EventEnvelope) × ((events x stream_id before.store).0 ≡ ok mine)
    × (let answered = (handle_request x (sync_request before stream_id (ids mine) mine) other).1 in
        ((events x stream_id answered.store).0 ≡ ok theirs)
        × HasEvents x (authored before.keys.public.device_id mine) answered.store.event_rows
        × HasEvents x (authored peer_id theirs) after.store.event_rows)

sync_result-inj :
    {es fs : List EventEnvelope} → WireMessage.sync_result es ≡ WireMessage.sync_result fs → es ≡ fs
sync_result-inj e = ground (arith, e)

authored-twice :
    (id : DeviceId) (es : List EventEnvelope) → authored id (authored id es) ≡ authored id es
authored-twice id [] = refl
authored-twice id (e ∷ es) = elim (Bool-cases (e.author == id)) [
  | inl t ↦ rw t (rw t (ap (λ r. e ∷ r) (authored-twice id es)))
  | inr t ↦ rw t (authored-twice id es)
]

module _ (x : External) (p : Peer) (b : Node) where
  -- What the other node has done with the request, and what its answer holds.
  answered_lem :
      (asked answer : WireEnvelope) (stream_id : Text) (known : List Text)
      (sent incoming : List EventEnvelope)
      → asked.body ≡ WireMessage.sync_exchange stream_id known sent
      → (handle_request x asked b).0 ≡ ok answer
      → answer.body ≡ WireMessage.sync_result incoming
      → answer.sender.device_id ≡ p.identity.device_id
      → let b' = (handle_request x asked b).1 in
        (theirs : List EventEnvelope) × ((events x stream_id b'.store).0 ≡ ok theirs)
        × (incoming ≡ unknown p.identity.device_id known theirs)
        × Log (insert_rows (rows_of (authored asked.sender.device_id sent)) b.store.event_rows) b'
  unfolding handle_message missing_events node_identity
  answered_lem asked answer stream_id known sent incoming body h held who =
      let done =
        handle_request-IsAnswered x asked b h (λ message e. absurd (ground (arith, e, held))) in
      let same : handle_message x asked.sender asked.body b
          ≡ handle_sync_exchange x asked.sender stream_id known sent b =
        ap (λ w. handle_message x asked.sender w b) body in
      let state : (handle_request x asked b).1
          ≡ (handle_sync_exchange x asked.sender stream_id known sent b).1 =
        done.left ∙ ap (λ (r : Result WireMessage × Node). r.1) same in
      let (theirs, read, said, left) =
        handle_sync_exchange-eq-ok x asked.sender stream_id known sent b
          (sym (ap (λ (r : Result WireMessage × Node). r.0) same) ∙ done.handled) in
      let k = (handle_sync_exchange x asked.sender stream_id known sent b).1 in
      let answers : answer.sender.device_id ≡ k.keys.public.device_id =
        ap (λ (i : PublicIdentity). i.device_id) done.sender
        ∙ ap (λ (r : Result WireMessage × Node). r.1.keys.public.device_id) same in
      let told : incoming ≡ missing_events x asked.sender k known theirs =
        sync_result-inj (sym held ∙ said) in
      subst
        (λ (k : Node).
          (theirs : List EventEnvelope) × ((events x stream_id k.store).0 ≡ ok theirs)
          × (incoming ≡ unknown p.identity.device_id known theirs)
          × Log (insert_rows (rows_of (authored asked.sender.device_id sent)) b.store.event_rows) k)
        (sym state)
        (theirs, read, told ∙ ap (λ d. unknown d known theirs) (sym answers ∙ who), left)

module _ (x : External) (id : DeviceId) (rows others : List EventRow) (one : Agree rows rows)
    (agree : Agree rows others) where
  -- The events of a log that agrees with another are there once they are inserted into the other.
  sent-HasEvents :
      (es : List EventEnvelope)
      → All (IsRead x rows) es
      → HasEvents x (authored id es) (insert_rows (rows_of (authored id es)) others)
  sent-HasEvents es read =
      let batch = rows_of (authored id es) in
      rows_of-HasEvents x rows (insert_rows batch others) (authored id es)
        (All-filter (IsRead x rows) (λ e. e.author == id) es read)
        (All-insert_rows rows one batch others (rows_of-there x id rows es read) agree)

  -- The events whose ids the other log has are there already.
  known-HasEvents :
      (mine es : List EventEnvelope) (batch : List EventRow)
      → All (IsRead x others) mine
      → All (IsRead x rows) es
      → All (λ e. contains (ids mine) e.id ≡ true → HasEvent x e (insert_rows batch others)) es
  unfolding event_row
  known-HasEvents mine [] batch m a = tt
  known-HasEvents mine (e ∷ es) batch m a = (
    λ c.
        let (s, there, same) = contains-row x others mine e.id m c in
        let row = agree (event_row e) s a.0.there there (sym same) in
        read-HasEvent x rows (insert_rows batch others) e a.0
          (insert_rows_keeps batch others (Memᴰ.cast row there)),
    known-HasEvents mine es batch m a.1,
  )

  -- The events that the other log is sent, besides those that it knows, make all of them.
  exchanged-HasEvents :
      (mine es : List EventEnvelope)
      → All (IsRead x others) mine
      → All (IsRead x rows) es
      → HasEvents x
          (authored id es)
          (insert_rows (rows_of (authored id (unknown id (ids mine) es))) others)
  exchanged-HasEvents mine es m a =
      let batch = rows_of (authored id (unknown id (ids mine) es)) in
      let sent = All-filter (IsRead x rows) _ es a in
      known_or_sent (λ e. HasEvent x e (insert_rows batch others)) id (ids mine) es
        (known-HasEvents mine es batch m a) (sent-HasEvents (unknown id (ids mine) es) sent)

module _ (x : External) (law : IsLawful x)
    (transport : ℕ → PeerEndpoint → WireEnvelope → Result WireEnvelope) where
  -- Under the laws of the crates, where two nodes have each been reached from a first start of
  -- their own, the transport gives a node what the handler of the other answers, and rows of the
  -- two logs with the same id are the same, after an exchange of events that succeeds the log of
  -- the other has a row that is read as each event that the node had written in their stream, with
  -- all its parts, and the log of the node has such a row for each event of that stream that the
  -- peer has written and the other holds.
  pub exchange_events-HaveExchanged :
      (id : DeviceId) (p : Peer) {origin_a origin_b a b : Node} {counts : List ℕ}
      → Reach x origin_a a
      → Reach x origin_b b
      → ((endpoint : PeerEndpoint) (asked : WireEnvelope)
          → transport a.env.calls endpoint asked ≡ (handle_request x asked b).0)
      → Agree a.store.event_rows b.store.event_rows
      → (exchange_events x transport id p a).0 ≡ ok counts
      → HaveExchanged x
          (stream_of id a)
          p.identity.device_id
          a
          (exchange_events x transport id p a).1
          b
  unfolding IsSound node_identity
  exchange_events-HaveExchanged id p {a = a} {b = b} ra rb honest agree h =
      let one_a = Distinct-Agree a.store.event_rows (Reach-IsSound x law ra).distinct in
      let done = exchange_events-Asked x transport id p a h in
      let stream = stream_of id a in
      let own = a.keys.public.device_id in
      let known = ids done.logged in
      let asked = sync_request a stream known done.logged in
      let (theirs, read, sent, left) =
        answered_lem x p b asked done.answer stream known (authored own done.logged) done.incoming
          refl (sym (honest done.endpoint asked) ∙ done.answered) done.body done.good.sender in
      let b' = (handle_request x asked b).1 in
      let batch = rows_of (authored own done.logged) in
      let log : Log (insert_rows batch b.store.event_rows) b' =
        left
        ∙ ap (λ es. insert_rows (rows_of es) b.store.event_rows) (authored-twice own done.logged) in
      let mine = events-IsRead x stream a.store done.read in
      let agreed = subst (Agree a.store.event_rows) (sym log) (
        Agree-insert_rows a.store.event_rows one_a batch b.store.event_rows
          (rows_of-there x own a.store.event_rows done.logged mine) agree) in
      let one_b = Distinct-Agree b'.store.event_rows (
        subst (Distinct (λ (r : EventRow). r.id)) (sym log)
          (insert_rows-Distinct batch b.store.event_rows (Reach-IsSound x law rb).distinct)) in
      (
        done.logged,
        theirs,
        done.read,
        (
          read,
          subst (HasEvents x (authored own done.logged)) (sym log) (
              sent-HasEvents x own a.store.event_rows b.store.event_rows one_a agree done.logged
                mine),
          subst (HasEvents x (authored p.identity.device_id theirs))
              (sym (
                done.stored
                ∙ ap
                    (λ es.
                      insert_rows (rows_of (authored p.identity.device_id es)) a.store.event_rows)
                    sent))
              (exchanged-HasEvents x p.identity.device_id b'.store.event_rows a.store.event_rows
                one_b (λ r s mr ms e. sym (agreed s r ms mr (sym e))) done.logged theirs mine
                (events-IsRead x stream b'.store read)),
        ),
      )
