-- ===== src/Node/Start/Kept.antt =====
-- `Node::new` and `Node::start` of core/nexus-core/src/node.rs against an invariant of a node.
use nexus_p2p.Base.{
  refl, ◌≡◌, ◌∙◌, sym, ap, Bool, true, false, [], Option, none, some, arith, if◌then◌else◌,
}
use nexus_p2p.Base.Result.{Result, ok}
use nexus_p2p.Base.Exec.{modify}
use nexus_p2p.Base.Exec.Keeps.{Keeps, Keeps-pure, Keeps-lift}
use nexus_p2p.Base.Exec.Success.{>>=-eq-ok}
use nexus_p2p.External.{External}
use nexus_p2p.Model.{PublicIdentity}
use nexus_p2p.Identity.Local.{Machine, load_or_create}
use nexus_p2p.Crypto.{Identity}
use nexus_p2p.Transport.Discovery.{Advertisement}
use nexus_p2p.Node.{Node}
use nexus_p2p.Node.Kept.{Invariant, IsKept, kept_rules}
use nexus_p2p.Node.Start.{
  NodeConfig, Services, adapter, new_node, start_discovery, start_first, start,
}

module _ (x : External) (services : Services) where
  adapter_state :
      (config : NodeConfig) (i : PublicIdentity) (m : Machine)
      → (adapter x services config i m).1 ≡ m
  unfolding adapter
  adapter_state config i m = ground arith

  -- A node that is made has the identity that was loaded or created, and what that has left.
  pub new_node-eq-ok :
      (config : NodeConfig) (m : Machine) {n : Node}
      → (new_node x services config m).0 ≡ ok n
      → (keys : Identity) × ((load_or_create x config.display_name m).0 ≡ ok keys)
        × (n.machine ≡ (load_or_create x config.display_name m).1)
        × (n.keys ≡ keys)
        × (n.display_name ≡ keys.public.display_name)
  unfolding new_node
  new_node-eq-ok config m {n} h =
      let (keys, loaded, h1, _) = >>=-eq-ok (load_or_create x config.display_name) _ m h in
      let m1 = (load_or_create x config.display_name m).1 in
      let (discovery, found, h2, _) = >>=-eq-ok (adapter x services config keys.public) _ m1 h1 in
      let made : Node = record {
        machine = (adapter x services config keys.public m1).1;
        keys = keys;
        display_name = keys.public.display_name;
        listen_port = config.listen_port;
        started = false;
        listening = false;
        discovery = discovery;
        sent = [];
      } in
      let same : made ≡ n = ground (arith, h2) in
      (
        keys,
        loaded,
        sym (ap (λ (k : Node). k.machine) same) ∙ adapter_state config keys.public m1,
        sym (ap (λ (k : Node). k.keys) same),
        sym (ap (λ (k : Node). k.display_name) same),
      )

module _ (x : External) (I : Invariant x) (services : Services) where
  modify-started : Keeps (IsKept x I) (modify (λ (n : Node). record n { started = true }))
  unfolding IsKept
  modify-started = record { at = λ n h. h }

  modify-listening : Keeps (IsKept x I) (modify (λ (n : Node). record n { listening = true }))
  unfolding IsKept
  modify-listening = record { at = λ n h. h }

  start_discovery-IsKept :
      (o : Option Advertisement) → Keeps (IsKept x I) (start_discovery services o)
  start_discovery-IsKept none = Keeps-pure tt
  start_discovery-IsKept (some service) = Keeps-lift _

  start_first-IsKept : Keeps (IsKept x I) (start_first services)
  unfolding start_first
  start_first-IsKept =
      search (kept_rules, modify-started, modify-listening, start_discovery-IsKept) depth 16

  either :
      (b : Bool) (r t : Result (Unit {0}) × Node)
      → IsKept x I r.1
      → IsKept x I t.1
      → IsKept x I (if b then r else t).1
  either true r t h k = h
  either false r t h k = k

  pub start-IsKept : Keeps (IsKept x I) (start services)
  unfolding start
  start-IsKept = record {
    at = λ n h. either n.started (ok tt, n) (start_first services n) h (start_first-IsKept.at n h);
  }

module _ (x : External) (services : Services) where
  -- Without discovery, a node is made of the identity that is loaded or created.
  pub new_node_plain :
      (config : NodeConfig) (m m' : Machine) (keys : Identity)
      → config.enable_mdns ≡ false
      → load_or_create x config.display_name m ≡ (ok keys, m')
      → (n : Node) × ((new_node x services config m).0 ≡ ok n)
        × (n.machine ≡ m')
        × (n.keys ≡ keys)
        × (n.display_name ≡ keys.public.display_name)
  unfolding new_node adapter
  new_node_plain config m m' keys off loaded = (
    record {
      machine = m';
      keys = keys;
      display_name = keys.public.display_name;
      listen_port = config.listen_port;
      started = false;
      listening = false;
      discovery = none;
      sent = [];
    },
    rw (loaded, off),
    refl,
    refl,
    refl,
  )
