-- ===== src/Tests/Starts.antt =====
-- A start of a node whose port is taken.
use nexus_p2p.Base.{◌≡◌, refl, true, false}
use nexus_p2p.Base.Text.{codes}
use nexus_p2p.Base.Result.{Error, fail, ok, err}
use nexus_p2p.Node.{Node}
use nexus_p2p.Node.Start.{Services, start}
use nexus_p2p.Node.Start.Once.{start-bind_fails}
use nexus_p2p.Tests.Nodes.{node}

abbrev taken : Error
taken = fail (codes "address in use")

abbrev pub working : Services
working = record {
  daemon = ok tt;
  service_info = λ ad. ok tt;
  bind = λ port. ok tt;
  mdns = record {
    register = λ ad. ok tt;
    browse = λ kind. ok tt;
    unregister = λ name. ok tt;
    shutdown = ok tt;
  };
}

abbrev blocked : Services
blocked = record working { bind = λ port. err taken }

abbrev fresh : Node
fresh = record node { started = false; listening = false }

start-bind_fails_example :
    (start blocked fresh ≡ (err taken, record fresh { started = true }))
    × (start working (start blocked fresh).1 ≡ (ok tt, record fresh { started = true }))
start-bind_fails_example = start-bind_fails blocked working fresh taken refl refl
