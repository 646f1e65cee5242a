-- ===== src/Node/Client/Answers.antt =====
-- Which answers `request` takes, and that it changes nothing of the store.
use mathlib.Core.Path.{subst}
use nexus_p2p.Base.{
  ℕ, suc, ◌≡◌, ◌≢◌, refl, ap, ◌∙◌, inl, inr, arith, Bool-cases, Option-cases, ◌==◌, nat_eq, list_eq,
  ==-true,
}
use nexus_p2p.Base.Text.{Text}
use nexus_p2p.Base.Result.{Result, ok, Result-cases}
use nexus_p2p.Base.Exec.Success.{unit-eq}
use nexus_p2p.External.{External}
use nexus_p2p.Model.{PeerEndpoint, Peer, protocol_version}
use nexus_p2p.Identity.{validate_public_identity}
use nexus_p2p.Protocol.{WireMessage, WireEnvelope}
use nexus_p2p.Node.{Node, node_identity}
use nexus_p2p.Node.Client.{request, send, accept_answer, refuse_error}

module _ (x : External) (transport : ℕ → PeerEndpoint → WireEnvelope → Result WireEnvelope) where
  refuse_error_state : (body : WireMessage) (n : Node) → (refuse_error x transport body n).1 ≡ n
  unfolding refuse_error
  refuse_error_state (WireMessage.error message) n = refl
  refuse_error_state WireMessage.hello n = refl
  refuse_error_state (WireMessage.pair_request nonce) n = refl
  refuse_error_state (WireMessage.pair_response accepted) n = refl
  refuse_error_state (WireMessage.push_event e) n = refl
  refuse_error_state (WireMessage.ack id) n = refl
  refuse_error_state (WireMessage.sync_exchange s k e) n = refl
  refuse_error_state (WireMessage.sync_result e) n = refl
  refuse_error_state (WireMessage.chunk_request m h) n = refl
  refuse_error_state (WireMessage.chunk_result m c) n = refl
  refuse_error_state (WireMessage.push_chunks m c) n = refl

  -- An answer that is accepted of a peer.
  pub record IsAnswer (p : Peer) (answer : WireEnvelope) : Type 0 where
    pub version : answer.version ≡ protocol_version
    pub valid : validate_public_identity x answer.sender ≡ ok tt
    pub sender : answer.sender.device_id ≡ p.identity.device_id
    pub no_error : (message : Text) → answer.body ≢ WireMessage.error message

  refuse_error-eq-ok :
      (body : WireMessage) (n : Node) {u : Unit {0}}
      → (refuse_error x transport body n).0 ≡ ok u
      → (message : Text) → body ≢ WireMessage.error message
  unfolding refuse_error
  refuse_error-eq-ok body n h message e = ground (arith, e, h)

  accept_answer-eq-ok :
      (p : Peer) (response : WireEnvelope) (n : Node) {answer : WireEnvelope}
      → (accept_answer x transport p response n).0 ≡ ok answer
      → (response ≡ answer) × ((accept_answer x transport p response n).1 ≡ n) × IsAnswer p response
  unfolding accept_answer
  accept_answer-eq-ok p response n h = elim (Bool-cases (response.version == protocol_version)) [
    | inr v ↦ absurd (ground (arith, v))
    | inl v ↦ elim (Result-cases (validate_public_identity x response.sender)) [
      | inr (er, i) ↦ absurd (ground (arith, v, i))
      | inl (u, i) ↦ elim (Bool-cases (response.sender.device_id == p.identity.device_id)) [
        | inr d ↦ absurd (ground (arith, v, i, d))
        | inl d ↦ elim (Result-cases (refuse_error x transport response.body n).0) [
          | inr (er, r) ↦ absurd (ground (arith, v, i, d, r))
          | inl (w, r) ↦ (
            ground (arith, v, i, d, r),
            rw (v, i, d, r) (refuse_error_state response.body n),
            record {
              version = ==-true response.version protocol_version v;
              valid = i ∙ ap ok (unit-eq u);
              sender = ==-true response.sender.device_id p.identity.device_id d;
              no_error = refuse_error-eq-ok response.body n r;
            },
          )
        ]
      ]
    ]
  ]

  -- A request that succeeds changes nothing of the store, and returns an answer of its next
  -- call of the transport to the envelope of the node with its body.
  pub request-eq-ok :
      (p : Peer) (body : WireMessage) (n : Node) {answer : WireEnvelope}
      → (request x transport p body n).0 ≡ ok answer
      → ((request x transport p body n).1.store ≡ n.store)
        × IsAnswer p answer
        × ((endpoint : PeerEndpoint) × (transport n.env.calls endpoint
                (record { version = protocol_version; sender = node_identity n; body = body })
              ≡ ok answer))
  unfolding request send
  request-eq-ok p body n {answer} h = elim (Option-cases p.endpoint) [
    | inl e ↦ absurd (ground (arith, e))
    | inr (endpoint, e) ↦
        let asked : WireEnvelope = record { version = 1; sender = node_identity n; body = body } in
        elim (Result-cases (transport n.env.calls endpoint asked)) [
          | inr (er, t) ↦ absurd (ground (arith, e, t))
          | inl (got, t) ↦
              let n1 : Node = record n {
                machine = record n.machine { env = record n.env { calls = suc n.env.calls } };
              } in
              let taken : (accept_answer x transport p got n1).0 ≡ ok answer =
                ground (arith, h, e, t) in
              let (same, state, good) = accept_answer-eq-ok p got n1 taken in
              simp (e, t)
                (
                  ap (λ (m : Node). m.store) state,
                  subst (IsAnswer p) same good,
                  (endpoint, t ∙ ap ok same),
                )
        ]
  ]
