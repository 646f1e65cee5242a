-- ===== src/Node/Reach/Restart.antt =====
-- A start of a node of core/nexus-core/src/node.rs from what another left on the disk.
use mathlib.Core.Path.{subst}
use nexus_p2p.Base.{◌≡◌, sym, ap, ◌∙◌, false}
use nexus_p2p.Base.Text.{codes}
use nexus_p2p.Base.Result.{ok}
use nexus_p2p.External.{External, IsLawful, Env}
use nexus_p2p.Identity.Local.{Machine}
use nexus_p2p.Storage.{Store}
use nexus_p2p.Storage.Path.{join}
use nexus_p2p.Storage.Open.{Disk, left, open_store-left}
use nexus_p2p.Node.{Node, node_identity}
use nexus_p2p.Node.Start.{NodeConfig, Services, new_node, open_node}
use nexus_p2p.Node.Start.Kept.{new_node_plain}
use nexus_p2p.Node.Sound.{IsDevice}
use nexus_p2p.Node.Reach.{Reach}
use nexus_p2p.Node.Reach.Conversation.{shown_keys, load_or_create-Reach}

module _ (x : External) (law : IsLawful x) (services : Services) (config : NodeConfig) where
  -- Under the laws of the crates, where the store of a node that was reached from a first start is
  -- left on the disk, Node::new without discovery succeeds, under whatever name it is given, and
  -- the node that it makes has that store, the id and the secrets of the first start, and shows
  -- the identity that the other showed.
  pub open_node-Reach :
      {origin k : Node} (disk : Disk) (env : Env)
      → Reach x origin k
      → config.enable_mdns ≡ false
      → k.store.blob_dir ≡ join config.data_dir (codes "blobs")
      → (n : Node) × ((open_node x services config (left config.data_dir k.store disk) env).0
          ≡ ok n)
        × (n.store ≡ k.store)
        × IsDevice origin.keys n.keys
        × (node_identity n ≡ node_identity k)
  unfolding open_node node_identity
  open_node-Reach {origin} {k} disk env run off place =
      let m : Machine = record { store = k.store; env = env } in
      let (loaded, device) = load_or_create-Reach x law config.display_name env run in
      let (n, made, machine, keys, name) =
        new_node_plain x services config m m (shown_keys k) off loaded in
      (
        n,
        ap (λ (s : Store). (new_node x services config (record { store = s; env = env })).0)
              (open_store-left config.data_dir k.store disk place)
            ∙ made,
        ap (λ (t : Machine). t.store) machine,
        subst (IsDevice origin.keys) (sym keys) device,
        rw (keys, name),
      )
