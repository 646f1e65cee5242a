-- ===== src/Storage/Peers/Known.antt =====
-- The peers that the table holds: each has a whole endpoint, and an identity that reads back, is
-- valid, and has the id of the row.
use nexus_p2p.Base.{
  ◌≡◌, refl, ap, inl, inr, Option, none, some, List, [], ◌∷◌, arith, All, Bool-cases, Option-cases,
  ◌==◌, list_eq, nat_eq, ==-true,
}
use nexus_p2p.Base.Text.{Text}
use nexus_p2p.Base.Result.{ok}
use nexus_p2p.External.{External, IsLawful}
use nexus_p2p.Model.{DeviceId, PublicIdentity, Peer}
use nexus_p2p.Identity.{validate_public_identity}
use nexus_p2p.Storage.{Store, PeerRow}
use nexus_p2p.Storage.Peers.{
  read_row, coalesce, merge_peer, upsert_row, peer_row, peer_of_row, find_row, peer,
}
use nexus_p2p.Storage.Peers.Merge.{HasWholeEndpoint, All-find_row}

pub record IsKnown (x : External) (row : PeerRow) : Type 0 where
  pub whole : HasWholeEndpoint row
  pub identity : PublicIdentity
  pub decoded : x.identity_from_json row.identity_json ≡ ok identity
  pub valid : validate_public_identity x identity ≡ ok tt
  pub named : identity.device_id ≡ row.device_id

peer_row-whole : (json : Text) (p : Peer) → HasWholeEndpoint (peer_row json p)
peer_row-whole json p = elim (Option-cases p.endpoint) [
  | inl e ↦ rw e (λ h. refl, λ h. refl)
  | inr (endpoint, e) ↦ rw e (λ h. absurd (ground (arith, h)), λ h. absurd (ground (arith, h)))
]

merge_peer-whole :
    (old : PeerRow) (json : Text) (p : Peer)
    → HasWholeEndpoint old
    → HasWholeEndpoint (merge_peer old (peer_row json p))
unfolding merge_peer coalesce
merge_peer-whole old json p h = elim (Option-cases p.endpoint) [
  | inl e ↦ rw e h
  | inr (endpoint, e) ↦ rw e (λ h. absurd (ground (arith, h)), λ h. absurd (ground (arith, h)))
]

module _ (x : External) (law : IsLawful x) (p : Peer) (json : Text)
    (valid : validate_public_identity x p.identity ≡ ok tt)
    (encoded : x.identity_to_json p.identity ≡ ok json) where
  pub upsert_row-IsKnown :
      (rows : List PeerRow)
      → All (IsKnown x) rows
      → All (IsKnown x) (upsert_row (peer_row json p) rows)
  unfolding upsert_row merge_peer
  upsert_row-IsKnown [] h = (
    record {
      whole = peer_row-whole json p;
      identity = p.identity;
      decoded = law.identity_json p.identity encoded;
      valid = valid;
      named = refl;
    },
    tt,
  )
  upsert_row-IsKnown (old ∷ rows) (k, h) =
      elim (Bool-cases (p.identity.device_id == old.device_id)) [
        | inl e ↦ rw e (
          record {
            whole = merge_peer-whole old json p k.whole;
            identity = p.identity;
            decoded = law.identity_json p.identity encoded;
            valid = valid;
            named = ==-true p.identity.device_id old.device_id e;
          },
          h,
        )
        | inr e ↦ rw e (k, upsert_row-IsKnown rows h)
      ]

module _ (x : External) (id : DeviceId) (s : Store) (known : All (IsKnown x) s.peer_rows) where
  read_row-valid :
      (row : PeerRow) {p : Peer}
      → IsKnown x row
      → (read_row x (some row) s).0 ≡ ok (some p)
      → validate_public_identity x p.identity ≡ ok tt
  unfolding read_row
  read_row-valid row {p} k h =
      let same : peer_of_row row k.identity ≡ p = ground (arith, h, k.decoded) in
      rw (← ap (λ (q : Peer). q.identity) same) k.valid

  found_valid :
      (o : Option PeerRow) {p : Peer}
      → ((row : PeerRow) → o ≡ some row → IsKnown x row)
      → (read_row x o s).0 ≡ ok (some p)
      → validate_public_identity x p.identity ≡ ok tt
  unfolding read_row
  found_valid none k h = absurd (ground arith)
  found_valid (some row) k h = read_row-valid row (k row refl) h

  -- A peer that is read is a peer of a valid identity.
  pub peer-valid :
      {p : Peer} → (peer x id s).0 ≡ ok (some p) → validate_public_identity x p.identity ≡ ok tt
  unfolding peer
  peer-valid h =
      found_valid (find_row id s.peer_rows)
        (λ row e. All-find_row (IsKnown x) id s.peer_rows known e) h

module _ (x : External) (id : DeviceId) (s : Store) where
  read_row-known :
      (o : Option PeerRow)
      → ((row : PeerRow) → o ≡ some row → IsKnown x row)
      → (old : Option Peer) × (read_row x o s ≡ (ok old, s))
  unfolding read_row
  read_row-known none k = (none, refl)
  read_row-known (some row) k =
      let known = k row refl in (some (peer_of_row row known.identity), rw known.decoded)

  -- A table of known peers is read without an error.
  pub peer-known : All (IsKnown x) s.peer_rows → (old : Option Peer) × (peer x id s ≡ (ok old, s))
  unfolding peer
  peer-known known =
      read_row-known (find_row id s.peer_rows)
        (λ row e. All-find_row (IsKnown x) id s.peer_rows known e)

pub known-whole :
    (x : External) (rows : List PeerRow) → All (IsKnown x) rows → All HasWholeEndpoint rows
known-whole x [] h = tt
known-whole x (row ∷ rows) (k, h) = (k.whole, known-whole x rows h)
