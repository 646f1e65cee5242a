-- ===== src/Node/Kept.antt =====
-- What the handlers of core/nexus-core/src/node.rs may do to the parts of a node that its invariants
-- speak of: insert an event that is signed, and store a peer whose identity is valid.
use mathlib.Core.Path.{subst}
use nexus_p2p.Base.{
  ◌≡◌, refl, sym, inl, inr, arith, Bool, Option, List, Bool-cases, ◌==◌, list_eq, nat_eq,
}
use nexus_p2p.Base.Int.{ℤ}
use nexus_p2p.Base.Text.{Text, Bytes}
use nexus_p2p.Base.Result.{ok, Result-cases}
use nexus_p2p.Base.Exec.{Exec, ◌>>=◌, ◌>>◌}
use nexus_p2p.Base.Exec.Keeps.{Keeps, Keeps-bind, Keeps-bind-ok, keeps_rules}
use nexus_p2p.External.{External, Env}
use nexus_p2p.Model.{
  DeviceId, PublicIdentity, PeerEndpoint, Peer, EventEnvelope, kind_eq, DecryptedPayload, ChatItem,
}
use nexus_p2p.Identity.{validate_public_identity}
use nexus_p2p.Crypto.{Identity, verify_and_decrypt}
use nexus_p2p.Crypto.Verified.{IsSignedBy, verify_and_decrypt-IsSignedBy}
use nexus_p2p.Storage.{Store, EventRow, PeerRow}
use nexus_p2p.Storage.Events.{event_row, insert_row, insert_event, event_ids, events}
use nexus_p2p.Storage.Peers.{upsert_row, peer_row}
use nexus_p2p.Storage.Peers
use nexus_p2p.Storage.Blobs
use nexus_p2p.Storage.Manifests
use nexus_p2p.Storage.Frame
use nexus_p2p.Storage.Frame.{OnRows}
use nexus_p2p.Node.{
  Node, NodeEvent, in_store, in_env, emit, node_identity, author_of, chat_item, process_manifest,
  save_payload,
}

-- The row is that of an event signed by a valid identity with the author's id.
pub record IsSigned (x : External) (row : EventRow) : Type 0 where
  pub event : EventEnvelope
  pub stored : event_row event ≡ row
  pub author : PublicIdentity
  pub valid : validate_public_identity x author ≡ ok tt
  pub signed : IsSignedBy x author event

-- the parts of a node that an invariant speaks of
pub record View : Type 0 where
  pub rows : List EventRow
  pub peers : List PeerRow
  pub saved : Option (Text × Text)
  pub keys : Identity
  pub display_name : Text

abbrev pub view : Node → View
view n = record {
  rows = n.store.event_rows;
  peers = n.store.peer_rows;
  saved = n.store.local_identity;
  keys = n.keys;
  display_name = n.display_name;
}

-- the identity that the node shows
abbrev pub shown : View → PublicIdentity
shown v = record v.keys.public { display_name = v.display_name }

-- An invariant with what the handlers do to a view.
pub record Invariant (x : External) : Type 1 where
  pub Holds : View → Type 0
  pub own : (v : View) → Holds v → validate_public_identity x (shown v) ≡ ok tt
  pub insert :
      (v : View) (e : EventEnvelope)
      → Holds v
      → IsSigned x (event_row e)
      → Holds (record v { rows = insert_row (event_row e) v.rows })
  pub upsert :
      (v : View) (p : Peer) (json : Text)
      → Holds v
      → validate_public_identity x p.identity ≡ ok tt
      → x.identity_to_json p.identity ≡ ok json
      → Holds (record v { peers = upsert_row (peer_row json p) v.peers })

module _ (x : External) where
  pub chat_item_state :
      (p : PublicIdentity) (e : EventEnvelope) (n : Node) → (chat_item x p e n).1 ≡ n
  unfolding chat_item
  chat_item_state p e n = elim (Result-cases (verify_and_decrypt x n.keys p (author_of n p e) e)) [
    | inl (payload, v) ↦ rw v
    | inr (er, v) ↦ rw v
  ]

module _ (x : External) (I : Invariant x) where
  unfoldable pub IsKept : Node → Type 0
  IsKept n = I.Holds (view n)

  pub in_store-IsKept :
      {A : Type 0} (m : Exec Store A)
      → ((R : List EventRow → List PeerRow → Option (Text × Text) → Type 0) → Keeps (OnRows R) m)
      → Keeps IsKept (in_store m)
  unfolding IsKept
  in_store-IsKept m k = record {
    at = λ n h.
        (k (λ rows peers saved. I.Holds (record {
          rows = rows;
          peers = peers;
          saved = saved;
          keys = n.keys;
          display_name = n.display_name;
        }))).at
          n.store h;
  }

  pub in_env-IsKept : {A : Type 0} (m : Exec Env A) → Keeps IsKept (in_env m)
  unfolding IsKept
  in_env-IsKept m = record { at = λ n h. h }

  pub emit-IsKept : (e : NodeEvent) → Keeps IsKept (emit e)
  unfolding emit IsKept
  emit-IsKept e = record { at = λ n h. h }

  chat_item-IsSignedBy :
      (p : PublicIdentity) (e : EventEnvelope) (n : Node) {item : ChatItem}
      → (chat_item x p e n).0 ≡ ok item
      → IsSignedBy x (author_of n p e) e
  unfolding chat_item
  chat_item-IsSignedBy p e n h =
      elim (Result-cases (verify_and_decrypt x n.keys p (author_of n p e) e)) [
        | inl (payload, v) ↦ verify_and_decrypt-IsSignedBy x n.keys p (author_of n p e) e v
        | inr (er, v) ↦ absurd (ground (arith, v))
      ]

  pub chat_item-IsKept : (p : PublicIdentity) (e : EventEnvelope) → Keeps IsKept (chat_item x p e)
  chat_item-IsKept p e = record { at = λ n h. subst IsKept (sym (chat_item_state x p e n)) h }

  author_of-valid :
      (n : Node) (p : PublicIdentity) (e : EventEnvelope)
      → IsKept n
      → validate_public_identity x p ≡ ok tt
      → validate_public_identity x (author_of n p e) ≡ ok tt
  unfolding author_of IsKept node_identity
  author_of-valid n p e h v = elim (Bool-cases (e.author == n.keys.public.device_id)) [
    | inl t ↦ rw t (I.own (view n) h)
    | inr t ↦ rw t v
  ]

  pub insert_event-IsKept :
      (e : EventEnvelope) (n : Node)
      → IsKept n
      → IsSigned x (event_row e)
      → IsKept (in_store (insert_event e) n).1
  unfolding insert_event IsKept
  insert_event-IsKept e n h s = I.insert (view n) e h s

  -- A chain that looks at an event by `chat_item` may insert it.
  pub checked_insert :
      (p : PublicIdentity) (e : EventEnvelope) {A : Type 0} (f : Bool → Exec Node A)
      → validate_public_identity x p ≡ ok tt
      → ((new : Bool) → Keeps IsKept (f new))
      → Keeps IsKept (chat_item x p e >> (in_store (insert_event e) >>= f))
  unfolding insert_event
  checked_insert p e f v k =
      Keeps-bind-ok (chat_item x p e) (λ _. in_store (insert_event e) >>= f) (chat_item-IsKept p e)
        (λ n item h ok_item.
          let n' = (chat_item x p e n).1 in
          let h' = (chat_item-IsKept p e).at n h in
          let inserted : IsKept (in_store (insert_event e) n').1 =
            insert_event-IsKept e n' h' (record {
              event = e;
              stored = refl;
              author = author_of n p e;
              valid = author_of-valid n p e h v;
              signed = chat_item-IsSignedBy p e n ok_item;
            }) in
          (k _).at (in_store (insert_event e) n').1 inserted)

  pub upsert_peer-IsKept :
      (p : Peer)
      → validate_public_identity x p.identity ≡ ok tt
      → Keeps IsKept (in_store (Peers.upsert_peer x p))
  unfolding Peers.upsert_peer IsKept
  upsert_peer-IsKept p v = record {
    at = λ n h. elim (Result-cases (x.identity_to_json p.identity)) [
      | inl (json, e) ↦ rw e (I.upsert (view n) p json h v e)
      | inr (er, e) ↦ rw e h
    ];
  }

  pub set_peer_paired-IsKept :
      (i : PublicIdentity) (e : Option PeerEndpoint) (now : ℤ)
      → validate_public_identity x i ≡ ok tt
      → Keeps IsKept (in_store (Peers.set_peer_paired x i e now))
  unfolding Peers.set_peer_paired
  set_peer_paired-IsKept i e now v = upsert_peer-IsKept _ v

  pub peer-IsKept : (id : DeviceId) → Keeps IsKept (in_store (Peers.peer x id))
  peer-IsKept id = in_store-IsKept _ (λ R. Frame.peer-OnRows x R id)

  pub events-IsKept : (s : Text) → Keeps IsKept (in_store (events x s))
  events-IsKept s = in_store-IsKept _ (λ R. Frame.events-OnRows x R s)

  pub event_ids-IsKept : (s : Text) → Keeps IsKept (in_store (event_ids x s))
  event_ids-IsKept s = in_store-IsKept _ (λ R. Frame.event_ids-OnRows x R s)

  pub get_blob-IsKept : (h : Text) → Keeps IsKept (in_store (Blobs.get_blob x h))
  get_blob-IsKept h = in_store-IsKept _ (λ R. Frame.get_blob-OnRows x R h)

  pub put_blob-IsKept : (h : Text) (b : Bytes) → Keeps IsKept (in_store (Blobs.put_blob x h b))
  put_blob-IsKept h b = in_store-IsKept _ (λ R. Frame.put_blob-OnRows x R h b)

  pub manifest-IsKept : (m : Text) → Keeps IsKept (in_store (Manifests.manifest x m))
  manifest-IsKept m = in_store-IsKept _ (λ R. Frame.manifest-OnRows x R m)

  pub missing_chunks-IsKept : (m : Text) → Keeps IsKept (in_store (Manifests.missing_chunks m))
  missing_chunks-IsKept m = in_store-IsKept _ (λ R. Frame.missing_chunks-OnRows x R m)

  pub incomplete_manifests-IsKept :
      (p : DeviceId) → Keeps IsKept (in_store (Manifests.incomplete_manifests_for_peer x p))
  incomplete_manifests-IsKept p = in_store-IsKept _ (λ R. Frame.incomplete_manifests-OnRows x R p)

  pub refresh-IsKept : (m : Text) → Keeps IsKept (in_store (Manifests.refresh_manifest_complete m))
  refresh-IsKept m = in_store-IsKept _ (λ R. Frame.refresh-OnRows x R m)

  save_payload-IsKept : (id : DeviceId) (p : DecryptedPayload) → Keeps IsKept (save_payload x id p)
  unfolding save_payload
  save_payload-IsKept id (DecryptedPayload.file_manifest m) =
      in_store-IsKept _ (λ R. Frame.save_manifest-OnRows x R id m)
  save_payload-IsKept id (DecryptedPayload.text t) = search keeps_rules
  save_payload-IsKept id (DecryptedPayload.system t) = search keeps_rules

  pub process_manifest-IsKept :
      (id : DeviceId) (p : PublicIdentity) (e : EventEnvelope)
      → Keeps IsKept (process_manifest x id p e)
  unfolding process_manifest
  process_manifest-IsKept id p e = search (keeps_rules, chat_item-IsKept, save_payload-IsKept)

pub ruleset kept_rules = (
  keeps_rules, in_env-IsKept, emit-IsKept, chat_item-IsKept, process_manifest-IsKept, peer-IsKept,
  events-IsKept, event_ids-IsKept, get_blob-IsKept, put_blob-IsKept, manifest-IsKept,
  missing_chunks-IsKept, refresh-IsKept, incomplete_manifests-IsKept,
)
