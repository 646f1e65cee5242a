-- ===== src/Storage/Peers/Merge.antt =====
-- `upsert_peer` against the table as a map from ids to peers: the identity is replaced, a known
-- endpoint and the pairing are kept.
use mathlib.Core.Path.{subst}
use nexus_p2p.Base.{
  ◌≡◌, ◌≢◌, ◌↔◌, refl, ap, ◌∙◌, inl, inr, ◌||◌, Option, none, some, List, [], ◌∷◌, arith, All,
  Bool-cases, ◌==◌, list_eq, nat_eq, if◌then◌else◌, ==-refl, ==-ne,
}
use nexus_p2p.Base.Text.{Text}
use nexus_p2p.Base.Result.{ok, Result-cases}
use nexus_p2p.External.{External, IsLawful}
use nexus_p2p.Model.{DeviceId, PublicIdentity, Peer}
use nexus_p2p.Storage.{Store, PeerRow}
use nexus_p2p.Storage.Peers.{
  read_row, coalesce, merge_peer, upsert_row, peer_row, peer_of_row, find_row, upsert_peer, peer,
}

-- the row of an id after an upsert
abbrev merged_row : Option PeerRow → PeerRow → PeerRow
merged_row none row = row
merged_row (some old) row = merge_peer old row

pub find_row-upsert_row :
    (id : DeviceId) (row : PeerRow) (rows : List PeerRow)
    → find_row id (upsert_row row rows)
      ≡ (if row.device_id == id then some (merged_row (find_row id rows) row) else find_row id rows)
unfolding find_row upsert_row merge_peer
find_row-upsert_row id row [] = ground arith
find_row-upsert_row id row (old ∷ rows) = ground (arith, find_row-upsert_row id row rows)

-- A row has both a host and a port, or neither.
abbrev pub HasWholeEndpoint : PeerRow → Type 0
HasWholeEndpoint row = (row.host ≡ none) ↔ (row.port ≡ none)

-- The peer of an id after an upsert: what is stored of an old peer is its endpoint, where the new
-- one has none, and its pairing.
abbrev pub merge : Option Peer → Peer → Peer
merge none new = new
merge (some old) new = record new {
  endpoint = coalesce new.endpoint old.endpoint;
  paired = old.paired || new.paired;
}

merge_peer_lem :
    (row : PeerRow) (i : PublicIdentity) (json : Text) (p : Peer)
    → HasWholeEndpoint row
    → peer_of_row (merge_peer row (peer_row json p)) p.identity ≡ merge (some (peer_of_row row i)) p
unfolding merge_peer coalesce
merge_peer_lem row i json p whole = ground (arith, whole)

peer_of_row_lem : (json : Text) (p : Peer) → peer_of_row (peer_row json p) p.identity ≡ p
peer_of_row_lem json p = ground arith

pub All-find_row :
    (P : PeerRow → Type 0) (id : DeviceId) (rows : List PeerRow) {row : PeerRow}
    → All P rows
    → find_row id rows ≡ some row
    → P row
unfolding find_row
All-find_row P id [] h e = absurd (ground arith)
All-find_row P id (old ∷ rows) h e = elim (Bool-cases (old.device_id == id)) [
  | inl t ↦ subst P (ground (arith, e, t)) h.0
  | inr t ↦ All-find_row P id rows h.1 (ground (arith, e, t))
]

module _ (x : External) where
  read_row_fst : (o : Option PeerRow) (s t : Store) → (read_row x o s).0 ≡ (read_row x o t).0
  unfolding read_row
  read_row_fst none s t = refl
  read_row_fst (some row) s t = ground arith

  -- A row is read with the identity that its JSON holds.
  read_row_ok :
      (row : PeerRow) (i : PublicIdentity) (s : Store)
      → x.identity_from_json row.identity_json ≡ ok i
      → read_row x (some row) s ≡ (ok (some (peer_of_row row i)), s)
  unfolding read_row
  read_row_ok row i s e = rw e

  -- What a row was read to.
  read_row-some :
      (row : PeerRow) (old : Option Peer) (s : Store)
      → read_row x (some row) s ≡ (ok old, s)
      → (i : PublicIdentity) × (old ≡ some (peer_of_row row i))
  unfolding read_row
  read_row-some row old s h = elim (Result-cases (x.identity_from_json row.identity_json)) [
    | inl (i, e) ↦ (i, ground (arith, e))
    | inr (er, e) ↦ absurd (ground (arith, e))
  ]

module _ (x : External) (p : Peer) (s t : Store) where
  upsert_peer_rows :
      upsert_peer x p s ≡ (ok tt, t)
      → (json : Text) × (x.identity_to_json p.identity ≡ ok json)
        × (t.peer_rows ≡ upsert_row (peer_row json p) s.peer_rows)
  unfolding upsert_peer
  upsert_peer_rows h = elim (Result-cases (x.identity_to_json p.identity)) [
    | inl (json, e) ↦ (json, e, ground (arith, e))
    | inr (er, e) ↦ absurd (ground (arith, e))
  ]

  merged_row_peer :
      (json : Text) (found : Option PeerRow) (old : Option Peer)
      → ((row : PeerRow) → found ≡ some row → HasWholeEndpoint row)
      → read_row x found s ≡ (ok old, s)
      → ((merged_row found (peer_row json p)).identity_json ≡ json)
        × (peer_of_row (merged_row found (peer_row json p)) p.identity ≡ merge old p)
  unfolding merge_peer read_row
  merged_row_peer json none old whole h =
      let gone : old ≡ none = ground arith in (refl, rw gone (peer_of_row_lem json p))
  merged_row_peer json (some row) old whole h =
      let (i, e) = read_row-some x row old s h in
      (refl, rw e (merge_peer_lem row i json p (whole row refl)))

  -- Under the laws of the crates, where every row has a whole endpoint and the old peer is read,
  -- after an upsert of a peer that succeeds its id has that peer, with the old endpoint where it
  -- has none, and paired if either was.
  pub peer-upsert_peer :
      (law : IsLawful x) (old : Option Peer)
      → All HasWholeEndpoint s.peer_rows
      → peer x p.identity.device_id s ≡ (ok old, s)
      → upsert_peer x p s ≡ (ok tt, t)
      → peer x p.identity.device_id t ≡ (ok (some (merge old p)), t)
  unfolding peer
  peer-upsert_peer law old whole before h =
      let id = p.identity.device_id in
      let (json, e, rows) = upsert_peer_rows h in
      let found : find_row id t.peer_rows
          ≡ some (merged_row (find_row id s.peer_rows) (peer_row json p)) =
        ap (find_row id) rows
        ∙ find_row-upsert_row id (peer_row json p) s.peer_rows
        ∙ rw (==-refl id) in
      let (same, merged) =
        merged_row_peer json (find_row id s.peer_rows) old
          (λ row q. All-find_row HasWholeEndpoint id s.peer_rows whole q) before in
      ap (λ o. read_row x o t) found
      ∙ read_row_ok x (merged_row (find_row id s.peer_rows) (peer_row json p)) p.identity t
          (rw same (law.identity_json p.identity e))
      ∙ rw merged

  -- An upsert that succeeds leaves what every other id reads as it was.
  pub peer-upsert_peer_ne :
      (id : DeviceId)
      → p.identity.device_id ≢ id
      → upsert_peer x p s ≡ (ok tt, t)
      → (peer x id t).0 ≡ (peer x id s).0
  unfolding peer
  peer-upsert_peer_ne id n h =
      let (json, e, rows) = upsert_peer_rows h in
      let same : find_row id t.peer_rows ≡ find_row id s.peer_rows =
        ap (find_row id) rows
        ∙ find_row-upsert_row id (peer_row json p) s.peer_rows
        ∙ rw (==-ne n) in
      ap (λ o. (read_row x o t).0) same ∙ read_row_fst x _ t s
