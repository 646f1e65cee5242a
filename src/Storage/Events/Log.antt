-- ===== src/Storage/Events/Log.antt =====
-- The event log as a grow-only set: insertion is idempotent and keeps one row for
-- an id.
use mathlib.Core.List.{Permᴰ, append_assoc}
use mathlib.Core.List.Permᴰ
use mathlib.Core.List
use nexus_p2p.Base.{
  ◌≡◌, ◌≢◌, ◌∙◌, true, false, List, [], ◌∷◌, ◌++◌, ◌==◌, ◌||◌, nat_eq, list_eq, arith, All,
  All-append, contains, contains-append, Bool-cases, inl, inr,
}
use nexus_p2p.Base.Sort.{Distinct}
use nexus_p2p.Base.Text.{Text}
use nexus_p2p.Base.Result.{ok}
use nexus_p2p.Model.{EventEnvelope}
use nexus_p2p.Storage.{Store, EventRow}
use nexus_p2p.Storage.Events.{event_row, row_ids, insert_row, insert_event}

row_ids-append : (xs ys : List EventRow) → row_ids (xs ++ ys) ≡ row_ids xs ++ row_ids ys
row_ids-append = List.map-append (λ (row : EventRow). row.id)

-- After an insertion the log has the ids that it had, and that of the new row.
pub contains-insert_row :
    (row : EventRow) (rows : List EventRow) (i : Text)
    → contains (row_ids (insert_row row rows)) i ≡ (i == row.id || contains (row_ids rows) i)
unfolding insert_row
contains-insert_row row rows i = elim (Bool-cases (contains (row_ids rows) row.id)) [
  | inl e ↦ rw e (ground (arith, e))
  | inr e ↦
      rw (e, row_ids-append, contains-append)
        (ground (arith, contains-append (row_ids rows) (row.id ∷ []) i))
]

pub insert_row_known :
    (row : EventRow) (rows : List EventRow)
    → contains (row_ids rows) row.id ≡ true
    → insert_row row rows ≡ rows
unfolding insert_row
insert_row_known row rows h = rw h

pub insert_row_new :
    (row : EventRow) (rows : List EventRow)
    → contains (row_ids rows) row.id ≡ false
    → insert_row row rows ≡ rows ++ row ∷ []
unfolding insert_row
insert_row_new row rows h = rw h

-- A second insertion of an event with the same id reports that nothing is new, and changes
-- nothing.
insert_event-again :
    (e f : EventEnvelope) (s : Store)
    → e.id ≡ f.id
    → let t = (insert_event e s).1 in insert_event f t ≡ (ok false, t)
unfolding insert_event event_row
insert_event-again e f s same =
    let known : contains (row_ids (insert_row (event_row e) s.event_rows)) f.id ≡ true =
      contains-insert_row (event_row e) s.event_rows f.id ∙ ground arith in
    rw (known, insert_row_known (event_row f) (insert_row (event_row e) s.event_rows) known)

-- Every id has one row, before and after.
absent :
    (row : EventRow) (rows : List EventRow)
    → contains (row_ids rows) row.id ≡ false
    → All (λ old. old.id ≢ row.id) rows
absent row [] h = tt
absent row (old ∷ rows) h = (λ e. ground arith, absent row rows (ground arith))

Distinct-append :
    (row : EventRow) (rows : List EventRow)
    → All (λ old. old.id ≢ row.id) rows
    → Distinct (λ (r : EventRow). r.id) rows
    → Distinct (λ (r : EventRow). r.id) (rows ++ row ∷ [])
Distinct-append row [] h d = (tt, tt)
Distinct-append row (old ∷ rows) (n, h) (a, d) = (
  All-append (λ (r : EventRow). old.id ≢ r.id) rows (row ∷ []) a (n, tt),
  Distinct-append row rows h d,
)

-- An insertion keeps the ids of the log distinct.
pub insert_row-Distinct :
    (row : EventRow) (rows : List EventRow)
    → Distinct (λ (r : EventRow). r.id) rows
    → Distinct (λ (r : EventRow). r.id) (insert_row row rows)
unfolding insert_row
insert_row-Distinct row rows d = elim (Bool-cases (contains (row_ids rows) row.id)) [
  | inl e ↦ rw e d
  | inr e ↦ rw e (Distinct-append row rows (absent row rows e) d)
]
