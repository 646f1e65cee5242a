-- ===== src/Storage/Events.antt =====
-- The table `events`: `insert_event`, `events` and `event_ids` of core/nexus-core/src/storage.rs.
pub mod Order
pub mod Log
pub mod Merge
pub mod Held
use nexus_p2p.Base.{
  Bool, true, false, Option, none, some, List, [], ◌∷◌, ◌++◌, map, ◌==◌, nat_eq, list_eq, contains,
  filter, length, if◌then◌else◌,
}
use nexus_p2p.Base.Int.{ℤ, int_leb}
use nexus_p2p.Base.Sort.{sort_by}
use nexus_p2p.Base.Text.{Text, text_leb}
use nexus_p2p.Base.Result.{Result, ok, map_err, ensure, ◌>>=◌, ◌>>◌}
use nexus_p2p.Base.Exec.{Exec}
use nexus_p2p.Base.Exec
use nexus_p2p.External.{External}
use nexus_p2p.Model.{EventEnvelope, kind_code, kind_try_from}
use nexus_p2p.Storage.{Store, EventRow}

unfoldable pub event_row : EventEnvelope → EventRow
event_row e = record {
  id = e.id;
  stream_id = e.stream_id;
  author = e.author;
  created_at_ms = e.created_at_ms;
  kind = kind_code e.kind;
  nonce = e.nonce;
  ciphertext = e.ciphertext;
  signature = e.signature;
}

abbrev pub row_ids : List EventRow → List Text
row_ids = map (λ row. row.id)

-- `INSERT OR IGNORE`: an id that is there already is left as it is, and no row has changed.
unfoldable pub insert_row : EventRow → List EventRow → List EventRow
insert_row row rows = if contains (row_ids rows) row.id then rows else rows ++ row ∷ []

unfoldable pub insert_event : EventEnvelope → Exec Store Bool
insert_event event s = (
  ok (if contains (row_ids s.event_rows) event.id then false else true),
  record s { event_rows = insert_row (event_row event) s.event_rows },
)

-- `ORDER BY created_at_ms, id`
unfoldable pub event_leb : EventRow → EventRow → Bool
event_leb a b =
    if int_leb a.created_at_ms b.created_at_ms
    then (if int_leb b.created_at_ms a.created_at_ms then text_leb a.id b.id else true)
    else false

-- `SELECT ... WHERE stream_id=?1 ORDER BY created_at_ms, id`
unfoldable pub select_events : Text → List EventRow → List EventRow
select_events stream_id rows = sort_by event_leb (filter (λ row. row.stream_id == stream_id) rows)

module _ (x : External) where
  -- The columns are read in the order of the closure: the nonce, then the kind.
  unfoldable pub event_of_row : Text → EventRow → Result EventEnvelope
  event_of_row stream_id row = do
    ensure (length row.nonce == 24) x.conversion_error
    kind ← map_err x.conversion_error (kind_try_from row.kind)
    ok (record {
      id = row.id;
      stream_id = stream_id;
      author = row.author;
      created_at_ms = row.created_at_ms;
      kind = kind;
      nonce = row.nonce;
      ciphertext = row.ciphertext;
      signature = row.signature;
    })

  unfoldable pub events : Text → Exec Store (List EventEnvelope)
  events stream_id s =
      Exec.traverse (λ row. Exec.lift (event_of_row stream_id row))
        (select_events stream_id s.event_rows) s

  -- The set of ids, as a list.
  unfoldable pub event_ids : Text → Exec Store (List Text)
  event_ids stream_id = Exec.◌>>=◌ (events stream_id) (λ found. Exec.pure (map (λ e. e.id) found))
