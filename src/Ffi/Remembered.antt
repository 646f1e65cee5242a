-- ===== src/Ffi/Remembered.antt =====
-- What an answer to the command `remember_peer` of core/nexus-core/src/ffi.rs vouches for.
use mathlib.Core.Path.{subst}
use nexus_p2p.Base.{
  ℕ, ◌≡◌, ◌≢◌, refl, sym, ap, ◌∙◌, inl, inr, Option, none, some, List, [], arith, Bool-cases,
  Option-cases, ◌==◌, nat_eq, list_eq,
}
use nexus_p2p.Base.Text.{Text, Bytes, codes, trim}
use nexus_p2p.Base.Result.{fail, panic, Result, ok, err, Result-cases}
use nexus_p2p.Base.Exec.Success.{unit-eq}
use nexus_p2p.External.{External, IsLawful}
use nexus_p2p.Model.{PublicIdentity, PeerEndpoint, Peer}
use nexus_p2p.Protocol.{WireEnvelope}
use nexus_p2p.Identity.{validate_public_identity}
use nexus_p2p.Storage.{Store}
use nexus_p2p.Storage.Peers.{peer}
use nexus_p2p.Storage.Peers.Known.{peer-known, known-whole}
use nexus_p2p.Node.{Node, NodeEvent}
use nexus_p2p.Node.Client.{remember_peer, is_paired}
use nexus_p2p.Node.Client.Pairing.{peer-remember_peer}
use nexus_p2p.Node.Start.{Services}
use nexus_p2p.Node.Sound.{IsSound}
use nexus_p2p.Node.Reach.{Reach, Reach-IsSound}
use nexus_p2p.Ffi.{
  Command, Data, Response, Strings, Handle, read_string, respond, call_remember_peer, dispatch,
  execute, nexus_call,
}

respond-succeeded :
    (r : Result Data) {d : Data} → respond r ≡ ok (Response.succeeded d) → (e : Data) × (r ≡ ok e)
unfolding respond
respond-succeeded (ok e) h = (e, refl)
respond-succeeded (err (fail message)) h = absurd cc
respond-succeeded (err panic) h = absurd cc

abbrev node_of : {R : Type 0} → Node → Option (Handle R) → Node
node_of n none = n
node_of n (some h) = h.node

module _ (x : External) where
  -- What the operation has checked and done.
  called :
      (c : Command) (n : Node) {d : Data}
      → (call_remember_peer x c n).0 ≡ ok d
      → (identity : PublicIdentity) × (c.identity ≡ some identity)
        × (trim c.host ≢ [])
        × (c.port ≢ 0)
        × ((remember_peer x identity (record { host = c.host; port = c.port }) n).0 ≡ ok tt)
        × ((call_remember_peer x c n).1
            ≡ (remember_peer x identity (record { host = c.host; port = c.port }) n).1)
  unfolding call_remember_peer
  called c n h = elim (Option-cases c.identity) [
    | inl i ↦ absurd (ground (arith, i))
    | inr (who, i) ↦ elim (Bool-cases (trim c.host == [])) [
      | inl t ↦ absurd (ground (arith, i, t))
      | inr t ↦ elim (Bool-cases (c.port == 0)) [
        | inl p ↦ absurd (ground (arith, i, t, p))
        | inr p ↦
            elim (Result-cases
              (remember_peer x who (record { host = c.host; port = c.port }) n).0) [
                | inr (e, r) ↦ absurd (ground (arith, i, t, p, r))
                | inl (u, r) ↦ (
                  who,
                  i,
                  (λ e. absurd (ground (arith, t, e))),
                  (λ e. absurd (ground (arith, p, e))),
                  r ∙ ap ok (unit-eq u),
                  ground (arith, i, t, p, r),
                )
              ]
      ]
    ]
  ]

  module _ {R : Type 0} (transport : ℕ → PeerEndpoint → WireEnvelope → Result WireEnvelope)
      (reads : Bytes → List Bytes) (services : Services) (strings : Strings)
      (try_recv : List NodeEvent → R → Option NodeEvent × R) (fuel : ℕ) where
    executed :
        (command_json : Bytes) (text : Text) (c : Command) (h : Handle R)
        → strings.to_str command_json ≡ ok text
        → strings.command_from_json text ≡ ok c
        → c.op ≡ codes "remember_peer"
        → execute x transport reads services strings try_recv fuel (some command_json) h
          ≡ (let (r, n) = call_remember_peer x c h.node in (r, record h { node = n }))
    unfolding execute dispatch read_string list_eq nat_eq
    executed command_json text c h a b e = rw (a, b, e) refl

    -- What the device has after a call that succeeds.
    abbrev IsRemembered : Command → Node → Node → Type 0
    IsRemembered c n n' =
        (who : PublicIdentity) × (c.identity ≡ some who)
        × (trim c.host ≢ [])
        × (c.port ≢ 0)
        × (validate_public_identity x who ≡ ok tt)
        × ((old : Option Peer) × ((peer x who.device_id n.store).0 ≡ ok old)
            × (known : Peer) × ((peer x who.device_id n'.store).0 ≡ ok (some known))
            × (known.identity ≡ who)
            × (known.endpoint ≡ some (record { host = c.host; port = c.port }))
            × (known.paired ≡ is_paired old))

    called-IsRemembered :
        (law : IsLawful x) {origin : Node} (c : Command) (n : Node) {d : Data}
        → Reach x origin n
        → (call_remember_peer x c n).0 ≡ ok d
        → IsRemembered c n (call_remember_peer x c n).1
    unfolding IsSound
    called-IsRemembered law c n reached ran =
        let peers = (Reach-IsSound x law reached).peers in
        let (who, named, host, port, succeeded, state) = called c n ran in
        let endpoint : PeerEndpoint = record { host = c.host; port = c.port } in
        let (old, read) = peer-known x who.device_id n.store peers in
        let (valid, (known, found, identity, place, paired)) =
          peer-remember_peer x who endpoint n (call_remember_peer x c n).1 law old
            (known-whole x n.store.peer_rows peers) read (λ i. (succeeded i, sym state i)) in
        (
          who,
          named,
          host,
          port,
          valid,
          (
            old,
            ap (λ (r : Result (Option Peer) × Store). r.0) read,
            known,
            ap (λ (r : Result (Option Peer) × Store). r.0) found,
            identity,
            place,
            paired,
          ),
        )

    -- Under the laws of the crates, at a node that was reached from a first start, a command
    -- remember_peer of the C interface that is answered with success had an identity that is
    -- valid, a host that is not blank and a port that is not 0, and the device then has that
    -- identity and endpoint, and is paired if and only if it was.
    pub nexus_call-remember_peer :
        (law : IsLawful x) {origin : Node} (command_json : Bytes) (text : Text) (c : Command)
        (h h' : Handle R) (d : Data)
        → strings.to_str command_json ≡ ok text
        → strings.command_from_json text ≡ ok c
        → c.op ≡ codes "remember_peer"
        → Reach x origin h.node
        → nexus_call x transport reads services strings try_recv fuel (some h) (some command_json)
          ≡ (ok (Response.succeeded d), some h')
        → (who : PublicIdentity) × (c.identity ≡ some who)
          × (trim c.host ≢ [])
          × (c.port ≢ 0)
          × (validate_public_identity x who ≡ ok tt)
          × ((old : Option Peer) × ((peer x who.device_id h.node.store).0 ≡ ok old)
              × (known : Peer) × ((peer x who.device_id h'.node.store).0 ≡ ok (some known))
              × (known.identity ≡ who)
              × (known.endpoint ≡ some (record { host = c.host; port = c.port }))
              × (known.paired ≡ is_paired old))
    unfolding nexus_call
    nexus_call-remember_peer law command_json text c h h' d a b e reached done =
        let run = executed command_json text c h a b e in
        let (d', r) =
          respond-succeeded
            (execute x transport reads services strings try_recv fuel (some command_json) h).0
            (ap (λ (p : Result Response × Option (Handle R)). p.0) done) in
        let ran : (call_remember_peer x c h.node).0 ≡ ok d' =
          sym (ap (λ (p : Result Data × Handle R). p.0) run) ∙ r in
        let left : (execute x transport reads services strings try_recv fuel (some command_json)
              h).1.node
            ≡ h'.node =
          ap (λ (p : Result Response × Option (Handle R)). node_of h.node p.1) done in
        subst (IsRemembered c h.node)
          (sym (ap (λ (p : Result Data × Handle R). p.1.node) run) ∙ left)
          (called-IsRemembered law c h.node reached ran)
