-- ===== src/Node/Client/Sync.antt =====
-- `sync` and `pair` of core/nexus-core/src/node.rs, whole. The fuel is that of `resume_files`; a
-- loop that still runs is `false`, and nothing after it is done.
use nexus_p2p.Base.{ℕ, ◌+◌, Bool, true, false, List, [], ◌∷◌, if◌then◌else◌}
use nexus_p2p.Base.Text.{codes}
use nexus_p2p.Base.Result.{fail, panic, Result, ok, err}
use nexus_p2p.Base.Exec.{Exec, pure, raise, some_or, ◌>>=◌, ◌>>◌}
use nexus_p2p.External.{External, now_ms, fill_bytes}
use nexus_p2p.Model.{DeviceId, PeerEndpoint}
use nexus_p2p.Protocol.{WireMessage, WireEnvelope}
use nexus_p2p.Storage.Peers.{peer, set_peer_paired}
use nexus_p2p.Node.{
  Node, NodeEvent, in_store, in_env, emit, require_reachable_peer, require_paired_peer,
}
use nexus_p2p.Node.Client.{request, exchange_events}
use nexus_p2p.Node.Client.Files.{resume_files}

-- `received`
abbrev sum : List ℕ → ℕ
sum [] = 0
sum (n ∷ ns) = n + sum ns

-- `if let Err(error) = .. { node.emit_error(error); }`: a panic ends the task in silence.
abbrev pub reported_end : Result Bool → Exec Node Bool
reported_end (ok ended) = pure ended
reported_end (err (fail message)) = emit (NodeEvent.error message) >> pure true
reported_end (err panic) = raise panic

module _ (x : External) (transport : ℕ → PeerEndpoint → WireEnvelope → Result WireEnvelope) where
  abbrev pub report_sync : DeviceId → List ℕ → Exec Node Bool
  report_sync peer_id received = emit (NodeEvent.sync_complete peer_id (sum received)) >> pure true

  unfoldable pub sync : ℕ → DeviceId → Exec Node Bool
  sync fuel peer_id = do
    p ← require_paired_peer x peer_id
    received ← exchange_events x transport peer_id p
    ended ← resume_files x transport fuel p
    if ended then report_sync peer_id received else pure false

  -- The task that `handle_transport_event` spawns for a paired peer.
  unfoldable pub sync_discovered : ℕ → DeviceId → Exec Node Bool
  sync_discovered fuel peer_id n = let (r, n') = sync fuel peer_id n in reported_end r n'

  -- The match on the body of the answer.
  unfoldable pub pair_answer : WireMessage → Exec Node Unit
  pair_answer (WireMessage.pair_response true) = pure tt
  pair_answer (WireMessage.pair_response false) = raise (fail (codes "pair request rejected"))
  pair_answer _ = raise (fail (codes "unexpected pair response"))

  unfoldable pub pair : ℕ → DeviceId → Exec Node Bool
  pair fuel peer_id = do
    p ← require_reachable_peer x peer_id
    bytes ← in_env (fill_bytes 6)
    response ← request x transport p (WireMessage.pair_request (x.hex_encode bytes))
    pair_answer response.body
    now ← in_env now_ms
    in_store (set_peer_paired x response.sender p.endpoint now)
    found ← in_store (peer x peer_id)
    paired ← some_or (fail (codes "paired peer missing")) found
    emit (NodeEvent.paired paired)
    sync fuel peer_id
