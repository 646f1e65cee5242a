-- ===== src/Node/Sound/Peers.antt =====
-- `remember_peer`, `handle_transport_event`, `sync`, `pair` and `chat` of core/nexus-core/src/node.rs
-- on a sound node.
use nexus_p2p.Base.{ℕ, ◌≡◌, refl, ap, ◌∙◌, true, false, none, some, Bool}
use nexus_p2p.Base.Text.{codes}
use nexus_p2p.Base.Result.{fail, panic, Result, ok, err}
use nexus_p2p.Base.Exec.{Exec, lift, some_or, ◌>>=◌, ◌>>◌}
use nexus_p2p.Base.Exec.Keeps.{
  Keeps, Keeps-bind, Keeps-bind-ok, Keeps-lift, Keeps-pure, Keeps-raise,
}
use nexus_p2p.Base.Exec.Success.{unit-eq}
use nexus_p2p.Crypto.{Identity}
use nexus_p2p.External.{External, IsLawful, fill_bytes, now_ms}
use nexus_p2p.Model.{DeviceId, PublicIdentity, PeerEndpoint, Peer}
use nexus_p2p.Protocol.{WireMessage, WireEnvelope}
use nexus_p2p.Identity.{validate_public_identity}
use nexus_p2p.Storage.Peers.{peer, upsert_peer, set_peer_paired}
use nexus_p2p.Transport.{TransportEvent}
use nexus_p2p.Node.{Node, NodeEvent, in_store, in_env, emit, require_reachable_peer}
use nexus_p2p.Node.Kept.{
  Invariant, IsKept, upsert_peer-IsKept, set_peer_paired-IsKept, emit-IsKept, peer-IsKept,
  in_env-IsKept, kept_rules,
}
use nexus_p2p.Node.Client.{
  is_paired, reported, or_report, known_peer, announce_peer, remember_peer, handle_transport_event,
  request, chat,
}
use nexus_p2p.Node.Client.Answers.{request-eq-ok}
use nexus_p2p.Node.Client.Kept.{request-IsKept, require_paired_peer-IsKept, sync-IsKept}
use nexus_p2p.Node.Client.Sync.{sync, sync_discovered, reported_end, pair, pair_answer}
use nexus_p2p.Node.Sound.{sound, known_valid}

module _ (x : External) (I : Invariant x) where
  Keeps-or_report :
      {A : Type 0} (a : A) (m : Exec Node Unit) (next : Exec Node A)
      → Keeps (IsKept x I) m
      → ((n : Node) (u : Unit) → IsKept x I n → (m n).0 ≡ ok u → IsKept x I (next (m n).1).1)
      → Keeps (IsKept x I) (or_report a m next)
  unfolding emit
  Keeps-or_report {A} a m next km kn = record {
    at = λ n h. reported_lem (m n).0 (m n).1 (km.at n h) (λ u e. kn n u h e);
  }
    where
      reported_lem :
          (r : Result (Unit {0})) (n : Node)
          → IsKept x I n
          → ((u : Unit) → r ≡ ok u → IsKept x I (next n).1)
          → IsKept x I (reported a r next n).1
      reported_lem (ok tt) n h k = k tt refl
      reported_lem (err (fail message)) n h k = (emit-IsKept x I (NodeEvent.error message)).at n h
      reported_lem (err panic) n h k = h

module _ (x : External) (law : IsLawful x) (d : Identity) where
  pub remember_peer-IsSound :
      (i : PublicIdentity) (e : PeerEndpoint)
      → Keeps (IsKept x (sound x law d)) (remember_peer x i e)
  unfolding remember_peer
  remember_peer-IsSound i e =
      Keeps-bind-ok (lift (validate_public_identity x i)) _ (Keeps-lift _) (λ n u h v.
        let valid : validate_public_identity x i ≡ ok tt = v ∙ ap ok (unit-eq u) in
        (Keeps-bind (in_store (peer x i.device_id)) _ (peer-IsKept x (sound x law d) i.device_id)
            (λ known.
              Keeps-bind (in_env now_ms) _ (in_env-IsKept x (sound x law d) now_ms)
                (λ now. upsert_peer-IsKept x (sound x law d) _ valid))).at
          n h)

  require_reachable_peer-IsSound :
      (id : DeviceId) → Keeps (IsKept x (sound x law d)) (require_reachable_peer x id)
  unfolding require_reachable_peer
  require_reachable_peer-IsSound id = search kept_rules depth 16

  pub sync-IsSound :
      (transport : ℕ → PeerEndpoint → WireEnvelope → Result WireEnvelope) (fuel : ℕ) (id : DeviceId)
      → Keeps (IsKept x (sound x law d)) (sync x transport fuel id)
  sync-IsSound transport fuel id = record {
    at = λ n h.
        sync-IsKept x (sound x law d) transport fuel id n (λ p. known_valid x law d id n p h) h;
  }

  -- The task that a discovery spawns.
  pub sync_discovered-IsSound :
      (transport : ℕ → PeerEndpoint → WireEnvelope → Result WireEnvelope) (fuel : ℕ) (id : DeviceId)
      → Keeps (IsKept x (sound x law d)) (sync_discovered x transport fuel id)
  unfolding sync_discovered emit
  sync_discovered-IsSound transport fuel id = record {
    at = λ n h.
        let (r, n') = sync x transport fuel id n in
        reported_lem r n' ((sync-IsSound transport fuel id).at n h);
  }
    where
      reported_lem :
          (r : Result Bool) (n : Node)
          → IsKept x (sound x law d) n
          → IsKept x (sound x law d) (reported_end r n).1
      reported_lem (ok ended) n h = h
      reported_lem (err (fail message)) n h =
          (emit-IsKept x (sound x law d) (NodeEvent.error message)).at n h
      reported_lem (err panic) n h = h

  known_peer-IsSound : (id : DeviceId) → Keeps (IsKept x (sound x law d)) (known_peer x id)
  unfolding known_peer
  known_peer-IsSound id = record { at = λ n h. (peer-IsKept x (sound x law d) id).at n h }

  announce_peer-IsSound :
      (p : Peer)
      → validate_public_identity x p.identity ≡ ok tt
      → Keeps (IsKept x (sound x law d)) (announce_peer x p)
  unfolding announce_peer emit
  announce_peer-IsSound p valid =
      Keeps-or_report x (sound x law d) none (in_store (upsert_peer x p)) _
        (upsert_peer-IsKept x (sound x law d) p valid)
        (λ n u h e.
          (emit-IsKept x (sound x law d) _).at _
            ((upsert_peer-IsKept x (sound x law d) p valid).at n h))

  pub handle_transport_event-IsSound :
      (e : TransportEvent) → Keeps (IsKept x (sound x law d)) (handle_transport_event x e)
  unfolding handle_transport_event known_peer announce_peer emit
  handle_transport_event-IsSound (TransportEvent.lost id) = record {
    at = (emit-IsKept x (sound x law d) (NodeEvent.peer_lost id)).at;
  }
  handle_transport_event-IsSound (TransportEvent.discovered endpoint i) =
      Keeps-or_report x (sound x law d) none (lift (validate_public_identity x i)) _ (Keeps-lift _)
        (λ n u h v.
          (Keeps-bind (known_peer x i.device_id) _ (known_peer-IsSound i.device_id) (λ known.
              Keeps-bind (in_env now_ms) _ (in_env-IsKept x (sound x law d) now_ms) (λ now.
                announce_peer-IsSound
                  (record {
                    identity = i;
                    endpoint = some endpoint;
                    paired = is_paired known;
                    last_seen_ms = now;
                  })
                  (v ∙ ap ok (unit-eq u))))).at
            n h)

  module _ (transport : ℕ → PeerEndpoint → WireEnvelope → Result WireEnvelope) where
    pair_answer-IsSound :
        (body : WireMessage) → Keeps (IsKept x (sound x law d)) (pair_answer x transport body)
    unfolding pair_answer
    pair_answer-IsSound (WireMessage.pair_response true) = Keeps-pure tt
    pair_answer-IsSound (WireMessage.pair_response false) = Keeps-raise _
    pair_answer-IsSound _ = Keeps-raise _

    -- `pair` after the answer of a valid identity
    pair_rest-IsSound :
        (fuel : ℕ) (id : DeviceId) (p : Peer) (response : WireEnvelope)
        → validate_public_identity x response.sender ≡ ok tt
        → Keeps (IsKept x (sound x law d)) (
            pair_answer x transport response.body
            >> (in_env now_ms >>= λ now.
                in_store (set_peer_paired x response.sender p.endpoint now)
                >> (in_store (peer x id) >>= λ found.
                    some_or (fail (codes "paired peer missing")) found >>= λ paired.
                    emit (NodeEvent.paired paired) >> sync x transport fuel id)))
    pair_rest-IsSound fuel id p response valid =
        search (kept_rules, pair_answer-IsSound, set_peer_paired-IsKept, sync-IsSound) depth 16

    pub pair-IsSound :
        (fuel : ℕ) (id : DeviceId) → Keeps (IsKept x (sound x law d)) (pair x transport fuel id)
    unfolding pair
    pair-IsSound fuel id = Keeps-bind _ _ (require_reachable_peer-IsSound id) (λ p.
        Keeps-bind _ _ (in_env-IsKept x (sound x law d) (fill_bytes 6)) (λ bytes.
          let asked = WireMessage.pair_request (x.hex_encode bytes) in
          let kept = request-IsKept x (sound x law d) transport p asked in
          Keeps-bind-ok (request x transport p asked) _ kept (λ n response h answered.
            (pair_rest-IsSound fuel id p response
                (request-eq-ok x transport p asked n answered).1.valid).at
              (request x transport p asked n).1 (kept.at n h))))

    pub chat-IsSound : (id : DeviceId) → Keeps (IsKept x (sound x law d)) (chat x transport id)
    unfolding chat
    chat-IsSound id = search (kept_rules, require_paired_peer-IsKept) depth 16
