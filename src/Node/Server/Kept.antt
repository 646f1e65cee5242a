-- ===== src/Node/Server/Kept.antt =====
-- Each handler of core/nexus-core/src/node.rs against an invariant of a node.
use nexus_p2p.Base.{
  ◌≡◌, ap, ◌∙◌, inl, inr, arith, none, some, List, [], ◌∷◌, ◌==◌, list_eq, nat_eq, if◌then◌else◌,
}
use nexus_p2p.Base.Text.{Text}
use nexus_p2p.Base.Result.{fail, panic, Result, ok, err, Result-cases}
use nexus_p2p.Base.Exec.{Exec, lift, ensure, pure}
use nexus_p2p.Base.Exec.Success.{unit-eq}
use nexus_p2p.Base.Exec.Keeps.{
  Keeps, Keeps-bind, Keeps-bind-ok, Keeps-then, Keeps-if, Keeps-pure, Keeps-raise, Keeps-lift,
  Keeps-ensure, keeps_rules,
}
use nexus_p2p.External.{External}
use nexus_p2p.Model.{protocol_version, PublicIdentity, identity_eq, Peer, EventEnvelope}
use nexus_p2p.Protocol.{WireChunk, WireMessage, WireEnvelope}
use nexus_p2p.Identity.{validate_public_identity}
use nexus_p2p.Storage.Frame
use nexus_p2p.Storage.Peers
use nexus_p2p.Node.{Node, NodeEvent, require_sender_paired}
use nexus_p2p.Node.Kept.{
  Invariant, IsKept, in_store-IsKept, emit-IsKept, chat_item-IsKept, checked_insert,
  process_manifest-IsKept, set_peer_paired-IsKept, kept_rules,
}
use nexus_p2p.Node.Server.{
  handle_pair_request, announce_event, handle_push_event, accept_event, handle_sync_exchange,
  serve_chunk, handle_chunk_request, store_chunk, handle_push_chunks, handle_message,
  handle_request, report_failure, serve, answer_error,
}

module _ (x : External) (I : Invariant x) where
  require-IsKept : (p : PublicIdentity) → Keeps (IsKept x I) (require_sender_paired x p)
  unfolding require_sender_paired
  require-IsKept p =
      Keeps-bind _ _ (in_store-IsKept x I _ (λ R. Frame.peer-OnRows x R p.device_id))
        (λ found. search keeps_rules depth 9)

  -- The peer that `require_sender_paired` returns has the identity of the sender.
  require_sender_paired-identity :
      (p : PublicIdentity) (n : Node) {known : Peer}
      → (require_sender_paired x p n).0 ≡ ok known
      → known.identity ≡ p
  unfolding require_sender_paired
  require_sender_paired-identity p n {known} h =
      elim (Result-cases (Peers.peer x p.device_id n.store).0) [
        | inr (er, r) ↦ absurd (ground (arith, r))
        | inl (none, r) ↦ absurd (ground (arith, r))
        | inl (some found, r) ↦ ground (arith, r)
      ]

ruleset served_rules = (kept_rules, require-IsKept, set_peer_paired-IsKept)

module _ (x : External) (I : Invariant x) (sender : PublicIdentity)
    (valid : validate_public_identity x sender ≡ ok tt) where
  announce-IsKept : (e : EventEnvelope) → Keeps (IsKept x I) (announce_event x sender e)
  unfolding announce_event
  announce-IsKept e = search (keeps_rules, process_manifest-IsKept, chat_item-IsKept, emit-IsKept)

  accept_event-IsKept : (e : EventEnvelope) → Keeps (IsKept x I) (accept_event x sender e)
  unfolding accept_event
  accept_event-IsKept e =
      Keeps-if _ _ _
        (checked_insert x I sender e _ valid (λ new.
          Keeps-if new _ _ (process_manifest-IsKept x I sender.device_id sender e) (Keeps-pure tt)))
        (Keeps-pure tt)

  push_event-IsKept : (e : EventEnvelope) → Keeps (IsKept x I) (handle_push_event x sender e)
  unfolding handle_push_event
  push_event-IsKept e =
      Keeps-bind-ok (require_sender_paired x sender) _ (require-IsKept x I sender)
        (λ n known h found.
          (Keeps-then (ensure (e.author == sender.device_id) _) _ (search keeps_rules) (
              checked_insert x I known.identity e _
                (rw (require_sender_paired-identity x I sender n found) valid)
                (λ new.
                  Keeps-then (if new then announce_event x sender e else pure tt) _
                    (Keeps-if new _ _ (announce-IsKept e) (search keeps_rules))
                    (search keeps_rules)))).at
            (require_sender_paired x sender n).1 ((require-IsKept x I sender).at n h))

  pair_request-IsKept : Keeps (IsKept x I) (handle_pair_request x sender)
  unfolding handle_pair_request
  pair_request-IsKept = search served_rules depth 16

  sync_exchange-IsKept :
      (stream_id : Text) (known_ids : List Text) (incoming : List EventEnvelope)
      → Keeps (IsKept x I) (handle_sync_exchange x sender stream_id known_ids incoming)
  unfolding handle_sync_exchange
  sync_exchange-IsKept stream_id known_ids incoming =
      search (served_rules, accept_event-IsKept) depth 16

  serve_chunk-IsKept :
      (p : Peer) (s m : Text) (allowed : List Text) (hash : Text)
      → Keeps (IsKept x I) (serve_chunk x sender p s m allowed hash)
  unfolding serve_chunk
  serve_chunk-IsKept p s m allowed hash = search served_rules depth 16

  chunk_request-IsKept :
      (m : Text) (hashes : List Text) → Keeps (IsKept x I) (handle_chunk_request x sender m hashes)
  unfolding handle_chunk_request
  chunk_request-IsKept m hashes = search (served_rules, serve_chunk-IsKept) depth 16

  store_chunk-IsKept :
      (p : Peer) (s m : Text) (allowed : List Text) (chunk : WireChunk)
      → Keeps (IsKept x I) (store_chunk x sender p s m allowed chunk)
  unfolding store_chunk
  store_chunk-IsKept p s m allowed chunk = search served_rules depth 16

  push_chunks-IsKept :
      (m : Text) (chunks : List WireChunk)
      → Keeps (IsKept x I) (handle_push_chunks x sender m chunks)
  unfolding handle_push_chunks
  push_chunks-IsKept m chunks = search (served_rules, store_chunk-IsKept) depth 20

  handle_message-IsKept : (body : WireMessage) → Keeps (IsKept x I) (handle_message x sender body)
  unfolding handle_message
  handle_message-IsKept WireMessage.hello = Keeps-pure _
  handle_message-IsKept (WireMessage.pair_request nonce) = pair_request-IsKept
  handle_message-IsKept (WireMessage.push_event e) = push_event-IsKept e
  handle_message-IsKept (WireMessage.sync_exchange s k i) = sync_exchange-IsKept s k i
  handle_message-IsKept (WireMessage.chunk_request m h) = chunk_request-IsKept m h
  handle_message-IsKept (WireMessage.push_chunks m c) = push_chunks-IsKept m c
  handle_message-IsKept _ = Keeps-raise _

Keeps-answer_error :
    {P : Node → Type 0} (m : Exec Node WireMessage) → Keeps P m → Keeps P (λ n. answer_error (m n))
Keeps-answer_error {P} m k = record { at = λ n h. let (r, n') = m n in answered r n' (k.at n h) }
  where
    answered : (r : Result WireMessage) (n : Node) → P n → P (answer_error (r, n)).1
    answered (ok body) n h = h
    answered (err (fail message)) n h = h
    answered (err panic) n h = h

module _ (x : External) (I : Invariant x) where
  -- Answering any request, from anyone, keeps the invariant.
  pub handle_request-IsKept :
      (request : WireEnvelope) → Keeps (IsKept x I) (handle_request x request)
  unfolding handle_request
  handle_request-IsKept request =
      Keeps-then (ensure (request.version == protocol_version) _) _ (Keeps-ensure _ _) (
        Keeps-bind-ok (lift (validate_public_identity x request.sender)) _ (Keeps-lift _)
          λ n u h valid.
            (Keeps-bind (λ m. answer_error (handle_message x request.sender request.body m)) _
                (Keeps-answer_error _ (
                  handle_message-IsKept x I request.sender (valid ∙ ap ok (unit-eq u))
                    request.body))
                (λ body. search keeps_rules)).at
              n h)

  pub report_failure-IsKept :
      (r : Result WireEnvelope × Node) → IsKept x I r.1 → IsKept x I (report_failure r)
  report_failure-IsKept (ok reply, n) h = h
  report_failure-IsKept (err (fail message), n) h =
      (emit-IsKept x I (NodeEvent.error message)).at n h
  report_failure-IsKept (err panic, n) h = h

  -- Every run of requests keeps the invariant.
  pub serve-IsKept :
      (requests : List WireEnvelope) (n : Node) → IsKept x I n → IsKept x I (serve x requests n)
  unfolding serve
  serve-IsKept [] n h = h
  serve-IsKept (request ∷ rest) n h =
      serve-IsKept rest (report_failure (handle_request x request n)) (
        report_failure-IsKept (handle_request x request n) ((handle_request-IsKept request).at n h))
