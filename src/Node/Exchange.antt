-- ===== src/Node/Exchange.antt =====
-- Which events a node of core/nexus-core/src/node.rs has: what the two ends of a `SyncExchange` do
-- to its log.
pub mod Server
pub mod Client
pub mod Known
pub mod Both
use mathlib.Core.Path.{subst}
use nexus_p2p.Base.{
  ◌≡◌, refl, sym, ap, ◌∙◌, inl, inr, Bool, Option, List, [], ◌∷◌, arith, filter, map, Bool-cases,
  ◌==◌, nat_eq, list_eq,
}
use nexus_p2p.Base.Text.{Text}
use nexus_p2p.Base.Result.{ok}
use nexus_p2p.Base.Exec.{Exec, traverse, for_each, ◌>>=◌, ◌>>◌}
use nexus_p2p.Base.Exec.Keeps.{Keeps, keeps_rules}
use nexus_p2p.Base.Exec.Success.{>>=-eq-ok}
use nexus_p2p.External.{External}
use nexus_p2p.Model.{DeviceId, PublicIdentity, EventEnvelope, DecryptedPayload}
use nexus_p2p.Storage.{Store, EventRow, PeerRow}
use nexus_p2p.Storage.Frame
use nexus_p2p.Storage.Frame.{OnRows}
use nexus_p2p.Storage.Events.{event_row, insert_row, insert_event}
use nexus_p2p.Storage.Events.Merge.{insert_rows}
use nexus_p2p.Node.{Node, in_store, chat_item, save_payload, process_manifest}
use nexus_p2p.Node.Kept.{chat_item_state}

-- the events of an author
abbrev pub authored : DeviceId → List EventEnvelope → List EventEnvelope
authored id = filter (λ e. e.author == id)

-- the rows of events
abbrev pub rows_of : List EventEnvelope → List EventRow
rows_of = map event_row

-- The log of a node holds these rows.
abbrev pub Log : List EventRow → Node → Type 0
Log rows n = n.store.event_rows ≡ rows

module _ (x : External) (rows : List EventRow) where
  pub in_store-Log :
      {A : Type 0} (m : Exec Store A)
      → ((R : List EventRow → List PeerRow → Option (Text × Text) → Type 0) → Keeps (OnRows R) m)
      → Keeps (Log rows) (in_store m)
  in_store-Log m k = record { at = λ n h. (k (λ r _ _. r ≡ rows)).at n.store h }

  chat_item-Log : (p : PublicIdentity) (e : EventEnvelope) → Keeps (Log rows) (chat_item x p e)
  chat_item-Log p e = record { at = λ n h. subst (Log rows) (sym (chat_item_state x p e n)) h }

  save_payload-Log : (id : DeviceId) (p : DecryptedPayload) → Keeps (Log rows) (save_payload x id p)
  unfolding save_payload
  save_payload-Log id (DecryptedPayload.file_manifest m) =
      in_store-Log _ (λ R. Frame.save_manifest-OnRows x R id m)
  save_payload-Log id (DecryptedPayload.text t) = search keeps_rules
  save_payload-Log id (DecryptedPayload.system t) = search keeps_rules

  -- A manifest of the log is saved beside it.
  pub process_manifest-Log :
      (id : DeviceId) (p : PublicIdentity) (e : EventEnvelope)
      → Keeps (Log rows) (process_manifest x id p e)
  unfolding process_manifest
  process_manifest-Log id p e = search (keeps_rules, chat_item-Log, save_payload-Log)

module _ (x : External) where
  -- An event that opened is inserted into the log, and what follows leaves the log alone.
  pub inserted :
      {A : Type 0} (p : PublicIdentity) (e : EventEnvelope) (f : Bool → Exec Node A) (n : Node)
      {a : A}
      → ((new : Bool) (rows : List EventRow) → Keeps (Log rows) (f new))
      → ((chat_item x p e >> (in_store (insert_event e) >>= f)) n).0 ≡ ok a
      → Log
          (insert_row (event_row e) n.store.event_rows)
          ((chat_item x p e >> (in_store (insert_event e) >>= f)) n).1
  unfolding insert_event
  inserted p e f n k h =
      let (item, opened, rest, state) = >>=-eq-ok (chat_item x p e) _ n h in
      let n' = (chat_item x p e n).1 in
      let same : n'.store.event_rows ≡ n.store.event_rows =
        ap (λ (m : Node). m.store.event_rows) (chat_item_state x p e n) in
      subst (Log (insert_row (event_row e) n.store.event_rows)) (sym state)
        ((k _ _).at (in_store (insert_event e) n').1 (ap (insert_row (event_row e)) same))

-- What accepts an event leaves, where it succeeds, the log with the event in it, if the event is of
-- the author, and else the log that there was.
pub record Accepts (x : External) (id : DeviceId) {A : Type 0} (f : EventEnvelope → Exec Node A)
    : Type 0 where
  pub stored :
      (e : EventEnvelope) (n : Node) (a : A)
      → (f e n).0 ≡ ok a
      → Log (insert_rows (rows_of (authored id (e ∷ []))) n.store.event_rows) (f e n).1

module _ (x : External) (id : DeviceId) where
  insert_rows-authored :
      (e : EventEnvelope) (es : List EventEnvelope) (rows : List EventRow)
      → insert_rows (rows_of (authored id es)) (insert_rows (rows_of (authored id (e ∷ []))) rows)
        ≡ insert_rows (rows_of (authored id (e ∷ es))) rows
  unfolding insert_rows
  insert_rows-authored e es rows = elim (Bool-cases (e.author == id)) [
    | inl t ↦ rw t refl
    | inr t ↦ rw t refl
  ]

  -- A loop over events that succeeds inserts those of the author, in their order.
  pub traverse-Log :
      {A : Type 0} (f : EventEnvelope → Exec Node A) (accepts : Accepts x id f)
      (es : List EventEnvelope) (n : Node) {out : List A}
      → (traverse f es n).0 ≡ ok out
      → Log (insert_rows (rows_of (authored id es)) n.store.event_rows) (traverse f es n).1
  unfolding insert_rows
  traverse-Log f accepts [] n h = refl
  traverse-Log f accepts (e ∷ es) n h =
      let (a, ran, h1, state) = >>=-eq-ok (f e) _ n h in
      let n1 = (f e n).1 in
      let (out, ran_rest, h2, state1) = >>=-eq-ok (traverse f es) _ n1 h1 in
      let rows = insert_rows (rows_of (authored id es)) in
      ap (λ (k : Node). k.store.event_rows) (state ∙ state1)
      ∙ traverse-Log f accepts es n1 ran_rest
      ∙ ap rows (accepts.stored e n a ran)
      ∙ insert_rows-authored e es n.store.event_rows

  pub for_each-Log :
      (f : EventEnvelope → Exec Node Unit) (accepts : Accepts x id f) (es : List EventEnvelope)
      (n : Node) {u : Unit {0}}
      → (for_each f es n).0 ≡ ok u
      → Log (insert_rows (rows_of (authored id es)) n.store.event_rows) (for_each f es n).1
  unfolding insert_rows
  for_each-Log f accepts [] n h = refl
  for_each-Log f accepts (e ∷ es) n h =
      let (a, ran, h1, state) = >>=-eq-ok (f e) _ n h in
      let n1 = (f e n).1 in
      let rows = insert_rows (rows_of (authored id es)) in
      ap (λ (k : Node). k.store.event_rows) state
      ∙ for_each-Log f accepts es n1 h1
      ∙ ap rows (accepts.stored e n a ran)
      ∙ insert_rows-authored e es n.store.event_rows
