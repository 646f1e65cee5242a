-- ===== src/Storage/Peers.antt =====
-- The table `peers`: `upsert_peer`, `set_peer_paired`, `peer` and `peers` of
-- core/nexus-core/src/storage.rs.
pub mod Merge
pub mod Known
use nexus_p2p.Base.{
  ℕ, max, Bool, true, false, not, Option, none, some, List, [], ◌∷◌, map, ◌==◌, nat_eq, list_eq,
  find?, if◌then◌else◌,
}
use nexus_p2p.Base.Int.{ℤ, int_leb}
use nexus_p2p.Base.Sort.{sort_by}
use nexus_p2p.Base.Text.{Text, codes}
use nexus_p2p.Base.Result.{fail, map_err}
use nexus_p2p.Base.Exec.{Exec, pure, lift, gets, modify, some_or, traverse, ◌>>=◌}
use nexus_p2p.External.{External}
use nexus_p2p.Model.{DeviceId, PublicIdentity, PeerEndpoint, Peer}
use nexus_p2p.Storage.{Store, PeerRow}

-- `COALESCE(a, b)`
unfoldable pub coalesce {ℓ} : {A : Type ℓ} → Option A → Option A → Option A
coalesce none b = b
coalesce (some a) b = some a

-- `ON CONFLICT(device_id) DO UPDATE SET`
unfoldable pub merge_peer : PeerRow → PeerRow → PeerRow
merge_peer old excluded = record {
  device_id = old.device_id;
  identity_json = excluded.identity_json;
  paired = max old.paired excluded.paired;
  host = coalesce excluded.host old.host;
  port = coalesce excluded.port old.port;
  last_seen_ms = excluded.last_seen_ms;
}

unfoldable pub upsert_row : PeerRow → List PeerRow → List PeerRow
upsert_row row [] = row ∷ []
upsert_row row (old ∷ rows) =
    if row.device_id == old.device_id then merge_peer old row ∷ rows else old ∷ upsert_row row rows

-- `i32::from(paired)`
abbrev pub from_bool : Bool → ℕ
from_bool true = 1
from_bool false = 0

abbrev host_of : Option PeerEndpoint → Option Text
host_of none = none
host_of (some e) = some e.host

abbrev port_of : Option PeerEndpoint → Option ℕ
port_of none = none
port_of (some e) = some e.port

-- `host.zip(port)`
abbrev zip_endpoint : Option Text → Option ℕ → Option PeerEndpoint
zip_endpoint none p = none
zip_endpoint (some h) none = none
zip_endpoint (some h) (some p) = some (record { host = h; port = p })

abbrev pub peer_row : Text → Peer → PeerRow
peer_row identity_json peer = record {
  device_id = peer.identity.device_id;
  identity_json = identity_json;
  paired = from_bool peer.paired;
  host = host_of peer.endpoint;
  port = port_of peer.endpoint;
  last_seen_ms = peer.last_seen_ms;
}

abbrev pub peer_of_row : PeerRow → PublicIdentity → Peer
peer_of_row row identity = record {
  identity = identity;
  endpoint = zip_endpoint row.host row.port;
  paired = not (row.paired == 0);
  last_seen_ms = row.last_seen_ms;
}

-- the row with an id
unfoldable pub find_row : DeviceId → List PeerRow → Option PeerRow
find_row id = find? (λ row. row.device_id == id)

module _ (x : External) where
  unfoldable pub upsert_peer : Peer → Exec Store Unit
  upsert_peer peer = do
    identity_json ← lift (x.identity_to_json peer.identity)
    modify (λ s. record s { peer_rows = upsert_row (peer_row identity_json peer) s.peer_rows })

  -- The last argument is the time, `now_ms()`.
  unfoldable pub set_peer_paired : PublicIdentity → Option PeerEndpoint → ℤ → Exec Store Unit
  set_peer_paired identity endpoint now =
      upsert_peer
        (record { identity = identity; endpoint = endpoint; paired = true; last_seen_ms = now })

  unfoldable pub read_row : Option PeerRow → Exec Store (Option Peer)
  read_row none = pure none
  read_row (some row) = do
    identity ← lift (map_err x.conversion_error (x.identity_from_json row.identity_json))
    pure (some (peer_of_row row identity))

  unfoldable pub peer : DeviceId → Exec Store (Option Peer)
  unfolding read_row
  peer id s = read_row (find_row id s.peer_rows) s

  -- `ORDER BY last_seen_ms DESC`; SQL leaves the order of equal times open.
  unfoldable pub peers : Exec Store (List Peer)
  peers = do
    ids ← gets (λ s.
        map (λ row. row.device_id)
          (sort_by (λ (a b : PeerRow). int_leb b.last_seen_ms a.last_seen_ms) s.peer_rows))
    traverse (λ id. peer id >>= some_or (fail (codes "peer disappeared"))) ids
