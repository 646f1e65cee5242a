-- ===== src/Node/Exchange/Known.antt =====
-- The events that a log of core/nexus-core/src/node.rs reads are those of its rows, and so are those
-- that a `SyncExchange` sends.
use mathlib.Core.List.{Memᴰ}
use mathlib.Core.List.Memᴰ
use mathlib.Core.Path.{subst}
use nexus_p2p.Base.{
  ◌≡◌, refl, sym, ap, ◌∙◌, inl, inr, true, not, ◌&&◌, List, [], ◌∷◌, arith, All, filter, contains,
  Bool-cases, ◌==◌, ==-true, nat_eq, list_eq, map, length,
}
use nexus_p2p.Base.Sort.{All-sort_by}
use nexus_p2p.Base.Text.{Text}
use nexus_p2p.Base.Result.{ok, Result-cases, map_err}
use nexus_p2p.Base.Exec.{traverse, lift}
use nexus_p2p.Base.Exec.Success.{>>=-eq-ok}
use nexus_p2p.External.{External}
use nexus_p2p.Model.{DeviceId, EventEnvelope, kind_try_from}
use nexus_p2p.Storage.{Store, EventRow}
use nexus_p2p.Storage.Events.{event_row, events, event_of_row, select_events, event_leb}
use nexus_p2p.Storage.Events.Held.{HasEvent, HasEvents, event_row-event_of_row}
use nexus_p2p.Node.Exchange.{authored, rows_of}

-- The row of an event is there, and is read as the event.
pub record IsRead (x : External) (rows : List EventRow) (e : EventEnvelope) : Type 0 where
  pub there : Memᴰ (event_row e) rows
  pub read : event_of_row x e.stream_id (event_row e) ≡ ok e

module _ (P : EventRow → Type 0) where
  All-of : (rows : List EventRow) → ((r : EventRow) → Memᴰ r rows → P r) → All P rows
  All-of [] h = tt
  All-of (r ∷ rows) h = (h r (Memᴰ.head refl), All-of rows (λ s m. h s (Memᴰ.tail m)))

-- What a stream selects are rows of the stream that are there.
filter_rows :
    (stream_id : Text) (all rows : List EventRow)
    → All (λ r. Memᴰ r all) rows
    → All
        (λ r. Memᴰ r all × (r.stream_id ≡ stream_id))
        (filter (λ (r : EventRow). r.stream_id == stream_id) rows)
filter_rows stream_id all [] h = tt
filter_rows stream_id all (r ∷ rows) h = elim (Bool-cases (r.stream_id == stream_id)) [
  | inl t ↦ rw t ((h.0, ==-true r.stream_id stream_id t), filter_rows stream_id all rows h.1)
  | inr t ↦ rw t (filter_rows stream_id all rows h.1)
]

selected :
    (stream_id : Text) (rows : List EventRow)
    → All (λ r. Memᴰ r rows × (r.stream_id ≡ stream_id)) (select_events stream_id rows)
unfolding select_events
selected stream_id rows =
    All-sort_by event_leb _ _
      (filter_rows stream_id rows rows (All-of (λ r. Memᴰ r rows) rows (λ r m. m)))

module _ (x : External) (stream_id : Text) where
  event_of_row-stream_id :
      (row : EventRow) {e : EventEnvelope}
      → event_of_row x stream_id row ≡ ok e
      → e.stream_id ≡ stream_id
  unfolding event_of_row
  event_of_row-stream_id row {e} h = elim (Bool-cases (length row.nonce == 24)) [
    | inr n ↦ absurd (ground (arith, n))
    | inl n ↦ elim (Result-cases (map_err x.conversion_error (kind_try_from row.kind))) [
      | inr (er, k) ↦ absurd (ground (arith, n, k))
      | inl (kind, k) ↦ ground (arith, n, k, h)
    ]
  ]

  read_row :
      (rows : List EventRow) (row : EventRow) {e : EventEnvelope}
      → Memᴰ row rows × (row.stream_id ≡ stream_id)
      → event_of_row x stream_id row ≡ ok e
      → IsRead x rows e
  read_row rows row {e} (m, s) h =
      let same = event_row-event_of_row x stream_id row h s in
      record {
        there = Memᴰ.cast same m;
        read =
            subst (λ t. event_of_row x t (event_row e) ≡ ok e) (sym (event_of_row-stream_id row h))
              (ap (event_of_row x stream_id) same ∙ h);
      }

  read_all :
      (all rows : List EventRow) (s : Store) {es : List EventEnvelope}
      → All (λ r. Memᴰ r all × (r.stream_id ≡ stream_id)) rows
      → (traverse (λ row. lift (event_of_row x stream_id row)) rows s).0 ≡ ok es
      → All (IsRead x all) es
  read_all all [] s {es} a h =
      let out : [] ≡ es = ground (arith, h) in subst (All (IsRead x all)) out tt
  read_all all (row ∷ rows) s {es} a h =
      let read = λ (row : EventRow). lift {S = Store} (event_of_row x stream_id row) in
      let (e, got, h1, _) = >>=-eq-ok (read row) _ s h in
      let (rest, more, h2, _) = >>=-eq-ok (traverse read rows) _ (read row s).1 h1 in
      let out : (e ∷ rest) ≡ es = ground (arith, h2) in
      subst (All (IsRead x all)) out (read_row all row a.0 got, read_all all rows s a.1 more)

  -- The events that a stream of the log reads are those of its rows.
  pub events-IsRead :
      (s : Store) {logged : List EventEnvelope}
      → (events x stream_id s).0 ≡ ok logged
      → All (IsRead x s.event_rows) logged
  unfolding events
  events-IsRead s h =
      read_all s.event_rows (select_events stream_id s.event_rows) s
        (selected stream_id s.event_rows) h

-- The rows of the events that an author has among them are there.
pub rows_of-there :
    (x : External) (id : DeviceId) (rows : List EventRow) (es : List EventEnvelope)
    → All (IsRead x rows) es
    → All (λ r. Memᴰ r rows) (rows_of (authored id es))
rows_of-there x id rows [] a = tt
rows_of-there x id rows (e ∷ es) a = elim (Bool-cases (e.author == id)) [
  | inl t ↦ rw t (a.0.there, rows_of-there x id rows es a.1)
  | inr t ↦ rw t (rows_of-there x id rows es a.1)
]

-- The log that holds the row of an event that can be read has the event.
pub read-HasEvent :
    (x : External) (rows others : List EventRow) (e : EventEnvelope)
    → IsRead x rows e
    → Memᴰ (event_row e) others
    → HasEvent x e others
unfolding event_row
read-HasEvent x rows others e r m = record {
  row = event_row e;
  there = m;
  stream = refl;
  read = r.read;
}

pub rows_of-HasEvents :
    (x : External) (rows others : List EventRow) (es : List EventEnvelope)
    → All (IsRead x rows) es
    → All (λ r. Memᴰ r others) (rows_of es)
    → HasEvents x es others
rows_of-HasEvents x rows others [] a m = tt
rows_of-HasEvents x rows others (e ∷ es) a m =
    (read-HasEvent x rows others e a.0 m.0, rows_of-HasEvents x rows others es a.1 m.1)

-- The row of an id that is among those of the events that are read.
pub contains-row :
    (x : External) (rows : List EventRow) (es : List EventEnvelope) (i : Text)
    → All (IsRead x rows) es
    → contains (map (λ (e : EventEnvelope). e.id) es) i ≡ true
    → (row : EventRow) × Memᴰ row rows × (row.id ≡ i)
unfolding event_row
contains-row x rows [] i a h = absurd (ground (arith, h))
contains-row x rows (e ∷ es) i a h = elim (Bool-cases (i == e.id)) [
  | inl t ↦ (event_row e, a.0.there, sym (==-true i e.id t))
  | inr t ↦ contains-row x rows es i a.1 (ground (arith, t, h))
]

-- The events of an author that the other end does not know.
abbrev pub unknown : DeviceId → List Text → List EventEnvelope → List EventEnvelope
unknown author known = filter (λ e. e.author == author && not (contains known e.id))

-- What holds of all of an author's events that were sent, and of those that were known, holds of all.
pub known_or_sent :
    (P : EventEnvelope → Type 0) (author : DeviceId) (known : List Text) (es : List EventEnvelope)
    → All (λ e. contains known e.id ≡ true → P e) es
    → All P (authored author (unknown author known es))
    → All P (authored author es)
known_or_sent P author known [] k h = tt
known_or_sent P author known (e ∷ es) k h =
    let sent = λ (es : List EventEnvelope). authored author (unknown author known es) in
    elim (Bool-cases (e.author == author)) [
      | inr t ↦
          let same : sent (e ∷ es) ≡ sent es = ground (arith, t) in
          rw t (known_or_sent P author known es k.1 (subst (All P) same h))
      | inl t ↦ elim (Bool-cases (contains known e.id)) [
        | inl c ↦
            let same : sent (e ∷ es) ≡ sent es = ground (arith, t, c) in
            rw t (k.0 c, known_or_sent P author known es k.1 (subst (All P) same h))
        | inr c ↦
            let same : sent (e ∷ es) ≡ e ∷ sent es = ground (arith, t, c) in
            let (here, rest) = subst (All P) same h in
            rw t (here, known_or_sent P author known es k.1 rest)
      ]
    ]
