-- ===== src/Node/Client/Kept.antt =====
-- What a node of core/nexus-core/src/node.rs asks of others, whatever the other end answers, against
-- an invariant of the node.
use nexus_p2p.Base.{
  ℕ, zero, suc, ◌≡◌, inl, inr, true, false, none, some, List, [], ◌∷◌, arith, Option-cases, nat_eq,
  list_eq, if◌then◌else◌,
}
use nexus_p2p.Base.Text.{Text}
use nexus_p2p.Base.Result.{Result, ok, Result-cases}
use nexus_p2p.Base.Exec.{pure, ◌>>=◌}
use nexus_p2p.Base.Exec.Keeps.{
  Keeps, Keeps-continue, Keeps-bind, Keeps-then, Keeps-if, Keeps-pure, Keeps-raise,
}
use nexus_p2p.External.{External}
use nexus_p2p.Model.{DeviceId, PeerEndpoint, Peer, EventEnvelope, FileManifest}
use nexus_p2p.Protocol.{WireChunk, WireMessage, WireEnvelope}
use nexus_p2p.Identity.{validate_public_identity}
use nexus_p2p.Storage.Peers.{peer}
use nexus_p2p.Node.{Node, require_paired_peer, require_reachable_peer}
use nexus_p2p.Node.Kept.{
  Invariant, IsKept, checked_insert, process_manifest-IsKept, missing_chunks-IsKept,
  incomplete_manifests-IsKept, kept_rules,
}
use nexus_p2p.Node.Client.{
  request, accept_answer, refuse_error, received_events, receive_event, exchange_events,
}
use nexus_p2p.Node.Client.Files.{
  receive_chunk, received_chunks, take_chunks, fetch_chunks, fetch_all, finish_file, resume_all,
  resume_files,
}
use nexus_p2p.Node.Client.Sync.{sync, report_sync}

module _ (x : External) (I : Invariant x)
    (transport : ℕ → PeerEndpoint → WireEnvelope → Result WireEnvelope) where
  refuse_error-IsKept : (body : WireMessage) → Keeps (IsKept x I) (refuse_error x transport body)
  unfolding refuse_error
  refuse_error-IsKept (WireMessage.error message) = Keeps-raise _
  refuse_error-IsKept WireMessage.hello = Keeps-pure _
  refuse_error-IsKept (WireMessage.pair_request nonce) = Keeps-pure _
  refuse_error-IsKept (WireMessage.pair_response a) = Keeps-pure _
  refuse_error-IsKept (WireMessage.push_event e) = Keeps-pure _
  refuse_error-IsKept (WireMessage.ack i) = Keeps-pure _
  refuse_error-IsKept (WireMessage.sync_exchange i k e) = Keeps-pure _
  refuse_error-IsKept (WireMessage.sync_result e) = Keeps-pure _
  refuse_error-IsKept (WireMessage.chunk_request m c) = Keeps-pure _
  refuse_error-IsKept (WireMessage.chunk_result m c) = Keeps-pure _
  refuse_error-IsKept (WireMessage.push_chunks m c) = Keeps-pure _

  accept_answer-IsKept :
      (p : Peer) (r : WireEnvelope) → Keeps (IsKept x I) (accept_answer x transport p r)
  unfolding accept_answer
  accept_answer-IsKept p r = search (kept_rules, refuse_error-IsKept) depth 12

  pub request-IsKept :
      (p : Peer) (body : WireMessage) → Keeps (IsKept x I) (request x transport p body)
  unfolding request
  request-IsKept p body = search (kept_rules, accept_answer-IsKept) depth 12

  received_events-IsKept :
      (body : WireMessage) → Keeps (IsKept x I) (received_events x transport body)
  unfolding received_events
  received_events-IsKept (WireMessage.sync_result e) = Keeps-pure _
  received_events-IsKept _ = Keeps-raise _

  module _ (p : Peer) (valid : validate_public_identity x p.identity ≡ ok tt) where
    receive_event-IsKept : (e : EventEnvelope) → Keeps (IsKept x I) (receive_event x transport p e)
    unfolding receive_event
    receive_event-IsKept e =
        Keeps-if _ _ _
          (checked_insert x I p.identity e _ valid (λ new.
            Keeps-if new _ _
              (Keeps-then _ _ (process_manifest-IsKept x I p.identity.device_id p.identity e)
                (Keeps-pure 1))
              (Keeps-pure 0)))
          (Keeps-pure 0)

    exchange_events-IsKept : (id : DeviceId) → Keeps (IsKept x I) (exchange_events x transport id p)
    unfolding exchange_events
    exchange_events-IsKept id =
        search (kept_rules, request-IsKept, received_events-IsKept, receive_event-IsKept) depth 16

  received_chunks-IsKept :
      (body : WireMessage) → Keeps (IsKept x I) (received_chunks x transport body)
  unfolding received_chunks
  received_chunks-IsKept (WireMessage.chunk_result m c) = Keeps-pure _
  received_chunks-IsKept _ = Keeps-raise _

  receive_chunk-IsKept :
      (p : Peer) (s m : Text) (c : WireChunk)
      → Keeps (IsKept x I) (receive_chunk x transport p s m c)
  unfolding receive_chunk
  receive_chunk-IsKept p s m c = search kept_rules depth 12

  take_chunks-IsKept :
      (p : Peer) (m : FileManifest) (a : Text × List WireChunk)
      → Keeps (IsKept x I) (take_chunks x transport p m a)
  unfolding take_chunks
  take_chunks-IsKept p m (id, chunks) = search (kept_rules, receive_chunk-IsKept) depth 16

  fetch_chunks-IsKept :
      (p : Peer) (m : FileManifest) (missing : List Text)
      → Keeps (IsKept x I) (fetch_chunks x transport p m missing)
  unfolding fetch_chunks
  fetch_chunks-IsKept p m missing =
      search (kept_rules, request-IsKept, received_chunks-IsKept, take_chunks-IsKept) depth 12

  fetch_all-IsKept :
      (fuel : ℕ) (p : Peer) (m : FileManifest) → Keeps (IsKept x I) (fetch_all x transport fuel p m)
  unfolding fetch_all
  fetch_all-IsKept zero p m = Keeps-pure false
  fetch_all-IsKept (suc fuel) p m = Keeps-bind _ _ (missing_chunks-IsKept x I m.id) (λ missing.
      Keeps-if _ _ _ (Keeps-pure true)
        (Keeps-then _ _ (fetch_chunks-IsKept p m missing) (fetch_all-IsKept fuel p m)))

  finish_file-IsKept : (m : FileManifest) → Keeps (IsKept x I) (finish_file x transport m)
  unfolding finish_file
  finish_file-IsKept m = search kept_rules depth 12

  resume_all-IsKept :
      (fuel : ℕ) (p : Peer) (ms : List FileManifest)
      → Keeps (IsKept x I) (resume_all x transport fuel p ms)
  unfolding resume_all
  resume_all-IsKept fuel p [] = Keeps-pure true
  resume_all-IsKept fuel p (m ∷ ms) = Keeps-bind _ _ (fetch_all-IsKept fuel p m) (λ ended.
      Keeps-if ended _ _ (Keeps-then _ _ (finish_file-IsKept m) (resume_all-IsKept fuel p ms))
        (Keeps-pure false))

  resume_files-IsKept : (fuel : ℕ) (p : Peer) → Keeps (IsKept x I) (resume_files x transport fuel p)
  unfolding resume_files
  resume_files-IsKept fuel p =
      Keeps-bind _ _ (incomplete_manifests-IsKept x I p.identity.device_id)
        (λ ms. resume_all-IsKept fuel p ms)

  -- Who is returned is who the store has.
  require_paired_peer-peer :
      (id : DeviceId) (n : Node) {p : Peer}
      → (require_paired_peer x id n).0 ≡ ok p
      → (peer x id n.store).0 ≡ ok (some p)
  unfolding require_paired_peer require_reachable_peer
  require_paired_peer-peer id n {p} h = elim (Result-cases (peer x id n.store).0) [
    | inr (e, r) ↦ absurd (ground (arith, r))
    | inl (none, r) ↦ absurd (ground (arith, r))
    | inl (some found, r) ↦ elim (Option-cases found.endpoint) [
      | inl e ↦ absurd (ground (arith, r, e))
      | inr (endpoint, e) ↦ ground (arith, r, e)
    ]
  ]

  pub require_paired_peer-IsKept : (id : DeviceId) → Keeps (IsKept x I) (require_paired_peer x id)
  unfolding require_paired_peer require_reachable_peer
  require_paired_peer-IsKept id = search (kept_rules) depth 16

  -- `sync` after its guard
  after_guard :
      (fuel : ℕ) (id : DeviceId) (p : Peer)
      → validate_public_identity x p.identity ≡ ok tt
      → Keeps (IsKept x I) (
          exchange_events x transport id p >>= λ received.
          resume_files x transport fuel p >>= λ ended.
          if ended then report_sync x transport id received else pure false)
  after_guard fuel id p valid = Keeps-bind _ _ (exchange_events-IsKept p valid id) (λ received.
      Keeps-bind _ _ (resume_files-IsKept fuel p)
        (λ ended. Keeps-if ended _ _ (search kept_rules) (Keeps-pure false)))

  -- A sync keeps the invariant, where the identity that the store has for the peer is valid.
  pub sync-IsKept :
      (fuel : ℕ) (id : DeviceId) (n : Node)
      → ((p : Peer)
          → (peer x id n.store).0 ≡ ok (some p)
          → validate_public_identity x p.identity ≡ ok tt)
      → IsKept x I n
      → IsKept x I (sync x transport fuel id n).1
  unfolding sync
  sync-IsKept fuel id n valid h =
      let guard = require_paired_peer x id in
      Keeps-continue (IsKept x I) (guard n).0 _ (guard n).1 ((require_paired_peer-IsKept id).at n h)
        (λ p found.
          (after_guard fuel id p (valid p (require_paired_peer-peer id n found))).at (guard n).1
            ((require_paired_peer-IsKept id).at n h))
