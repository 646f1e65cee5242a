-- ===== src/Node/Start/Once.antt =====
-- What a first and a second `start` do.
use nexus_p2p.Base.{◌≡◌, false, true, arith, inl, inr, ap, ◌∙◌, Bool-cases, Option-cases}
use nexus_p2p.Base.Result.{Result, Error, ok, err, Result-cases}
use nexus_p2p.Transport.Adapters.{lan_adapter}
use nexus_p2p.Node.{Node, emit}
use nexus_p2p.Node.Start.{Services, start, start_first}

start_started : (services : Services) (n : Node) → n.started ≡ true → start services n ≡ (ok tt, n)
unfolding start
start_started services n s = ground (arith, s)

-- No branch takes the flag back.
start_sets : (services : Services) (n : Node) → (start services n).1.started ≡ true
unfolding start start_first emit
start_sets services n = elim (Bool-cases n.started) [
  | inl s ↦ ground (arith, s)
  | inr s ↦ elim (Result-cases (services.bind n.listen_port)) [
    | inr (e, b) ↦ ground (arith, s, b)
    | inl (u, b) ↦ elim (Option-cases n.discovery) [
      | inl d ↦ ground (arith, s, b, d)
      | inr (service, d) ↦ elim (Result-cases (lan_adapter services.mdns service).start) [
        | inr (e, a) ↦ ground (arith, s, b, d, a)
        | inl (w, a) ↦ ground (arith, s, b, d, a)
      ]
    ]
  ]
]

module _ (services others : Services) (n : Node) where
  -- Whatever the first start met, and whether it returned or failed, a start after it returns at
  -- once and changes nothing.
  start-again : start others (start services n).1 ≡ (ok tt, (start services n).1)
  start-again = start_started others (start services n).1 (start_sets services n)

  -- A first start whose port is taken fails and sets the flag all the same, so that the next one
  -- returns although nothing was bound.
  pub start-bind_fails :
      (e : Error)
      → n.started ≡ false
      → services.bind n.listen_port ≡ err e
      → (start services n ≡ (err e, record n { started = true }))
        × (start others (start services n).1 ≡ (ok tt, record n { started = true }))
  unfolding start start_first
  start-bind_fails e s b =
      let first : start services n ≡ (err e, record n { started = true }) = ground (arith, s, b) in
      (first, start-again ∙ ap (λ (r : Result (Unit {0}) × Node). (ok tt, r.1)) first)
