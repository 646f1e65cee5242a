-- ===== src/Storage/Events/Held.antt =====
-- What it is for the log of core/nexus-core/src/storage.rs to have an event, and which events it has
-- after a batch of insertions.
use mathlib.Core.List.{Memᴰ}
use mathlib.Core.List.Memᴰ
use mathlib.Core.Path.{subst}
use nexus_p2p.Base.{
  ◌≡◌, ◌≢◌, refl, sym, ap, ◌∙◌, ◌⊎◌, inl, inr, true, List, [], ◌∷◌, arith, All, contains,
  Bool-cases, ◌==◌, ==-true, nat_eq, list_eq, length,
}
use nexus_p2p.Base.Int.{ℤ, pos, negsuc}
use nexus_p2p.Base.Sort.{Distinct}
use nexus_p2p.Base.Text.{Text}
use nexus_p2p.Base.Result.{Error, Result, ok, err, Result-cases, map_err}
use nexus_p2p.External.{External}
use nexus_p2p.Model.{EventKind, EventEnvelope, kind_code, kind_try_from}
use nexus_p2p.Storage.{EventRow}
use nexus_p2p.Storage.Events.{event_row, row_ids, insert_row, event_of_row}
use nexus_p2p.Storage.Events.Log.{insert_row_known, insert_row_new}
use nexus_p2p.Storage.Events.Merge.{insert_rows}

-- The log has an event: a row of the event's stream is read as this event, with all its parts.
pub record HasEvent (x : External) (e : EventEnvelope) (rows : List EventRow) : Type 0 where
  pub row : EventRow
  pub there : Memᴰ row rows
  pub stream : row.stream_id ≡ e.stream_id
  pub read : event_of_row x e.stream_id row ≡ ok e

abbrev pub HasEvents : External → List EventEnvelope → List EventRow → Type 0
HasEvents x events rows = All (λ e. HasEvent x e rows) events

-- Rows of the two logs with the same id are the same.
abbrev pub Agree : List EventRow → List EventRow → Type 0
Agree rows others = (r s : EventRow) → Memᴰ r rows → Memᴰ s others → r.id ≡ s.id → r ≡ s

map_err-eq-ok : {A : Type 0} (er : Error) (r : Result A) {a : A} → map_err er r ≡ ok a → r ≡ ok a
map_err-eq-ok er (ok b) h = h
map_err-eq-ok er (err e) h = absurd (ground (arith, h))

kind_code-kind_try_from :
    (k : ℤ) {kind : EventKind} → kind_try_from k ≡ ok kind → kind_code kind ≡ k
unfolding kind_try_from kind_code
kind_code-kind_try_from (negsuc n) h = absurd (ground (arith, h))
kind_code-kind_try_from (pos n) h = ground (arith, h)

kind_try_from-kind_code : (kind : EventKind) → kind_try_from (kind_code kind) ≡ ok kind
unfolding kind_try_from kind_code nat_eq
kind_try_from-kind_code EventKind.text = refl
kind_try_from-kind_code EventKind.file_manifest = refl
kind_try_from-kind_code EventKind.system = refl

module _ (x : External) where
  -- A row is the row of the event that it is read as.
  pub event_row-event_of_row :
      (stream_id : Text) (row : EventRow) {e : EventEnvelope}
      → event_of_row x stream_id row ≡ ok e
      → row.stream_id ≡ stream_id
      → event_row e ≡ row
  unfolding event_of_row event_row
  event_row-event_of_row stream_id row {e} h s = elim (Bool-cases (length row.nonce == 24)) [
    | inr n ↦ absurd (ground (arith, n))
    | inl n ↦ elim (Result-cases (map_err x.conversion_error (kind_try_from row.kind))) [
      | inr (er, k) ↦ absurd (ground (arith, n, k, h))
      | inl (kind, k) ↦
          let event : EventEnvelope = record {
            id = row.id;
            stream_id = stream_id;
            author = row.author;
            created_at_ms = row.created_at_ms;
            kind = kind;
            nonce = row.nonce;
            ciphertext = row.ciphertext;
            signature = row.signature;
          } in
          let same : event ≡ e = ground (arith, n, k, h) in
          let code =
            kind_code-kind_try_from row.kind
              (map_err-eq-ok x.conversion_error (kind_try_from row.kind) k) in
          subst (λ (f : EventEnvelope). event_row f ≡ row) same
            (λ i. record row { stream_id = sym s i; kind = code i })
    ]
  ]

  -- An event with a nonce of 24 bytes is read back from its row.
  pub event_of_row-event_row :
      (e : EventEnvelope) → length e.nonce ≡ 24 → event_of_row x e.stream_id (event_row e) ≡ ok e
  unfolding event_of_row event_row nat_eq
  event_of_row-event_row e h = rw (h, kind_try_from-kind_code e.kind) refl

pub All-Memᴰ :
    (P : EventRow → Type 0) (r : EventRow) (rows : List EventRow) → All P rows → Memᴰ r rows → P r
All-Memᴰ P r [] a m = absurd (Memᴰ.not-nil m)
All-Memᴰ P r (q ∷ rows) a m = elim (Memᴰ.cases_cons m) [
  | inl e ↦ subst P (sym e) a.0
  | inr n ↦ All-Memᴰ P r rows a.1 n
]

-- In a log with distinct ids a row is determined by its id.
pub Distinct-Agree :
    (rows : List EventRow) → Distinct (λ (r : EventRow). r.id) rows → Agree rows rows
Distinct-Agree [] d r s mr ms e = absurd (Memᴰ.not-nil mr)
Distinct-Agree (old ∷ rows) d r s mr ms e =
    let apart = All-Memᴰ (λ (q : EventRow). old.id ≢ q.id) in
    elim (Memᴰ.cases_cons mr) [
      | inl a ↦ elim (Memᴰ.cases_cons ms) [
        | inl b ↦ a ∙ sym b
        | inr b ↦ absurd (apart s rows d.0 b (ap (λ (q : EventRow). q.id) (sym a) ∙ e))
      ]
      | inr a ↦ elim (Memᴰ.cases_cons ms) [
        | inl b ↦ absurd (apart r rows d.0 a (ap (λ (q : EventRow). q.id) (sym b) ∙ sym e))
        | inr b ↦ Distinct-Agree rows d.1 r s a b e
      ]
    ]

-- The row of an id that is there.
row_of :
    (i : Text) (rows : List EventRow)
    → contains (row_ids rows) i ≡ true
    → (row : EventRow) × Memᴰ row rows × (row.id ≡ i)
row_of i [] h = absurd (ground (arith, h))
row_of i (row ∷ rows) h = elim (Bool-cases (i == row.id)) [
  | inl t ↦ (row, Memᴰ.head refl, sym (==-true i row.id t))
  | inr t ↦ let (r, m, e) = row_of i rows (ground (arith, t, h)) in (r, Memᴰ.tail m, e)
]

module _ (row : EventRow) (rows : List EventRow) where
  insert_row_keeps : {old : EventRow} → Memᴰ old rows → Memᴰ old (insert_row row rows)
  insert_row_keeps {old} m = elim (Bool-cases (contains (row_ids rows) row.id)) [
    | inl t ↦ subst (Memᴰ old) (sym (insert_row_known row rows t)) m
    | inr t ↦ subst (Memᴰ old) (sym (insert_row_new row rows t)) (Memᴰ.append_left _ m)
  ]

  insert_row_cases : {r : EventRow} → Memᴰ r (insert_row row rows) → Memᴰ r rows ⊎ (r ≡ row)
  insert_row_cases {r} m = elim (Bool-cases (contains (row_ids rows) row.id)) [
    | inl t ↦ inl (subst (Memᴰ r) (insert_row_known row rows t) m)
    | inr t ↦ elim (Memᴰ.append_cases rows (subst (Memᴰ r) (insert_row_new row rows t) m)) [
      | inl n ↦ inl n
      | inr n ↦ inr (Memᴰ.eq_of_singleton n)
    ]
  ]

  -- A new row is there after its insertion, and so is one that is there already.
  Memᴰ-insert_row :
      ((s : EventRow) → Memᴰ s rows → row.id ≡ s.id → row ≡ s) → Memᴰ row (insert_row row rows)
  Memᴰ-insert_row same = elim (Bool-cases (contains (row_ids rows) row.id)) [
    | inr t ↦
        subst (Memᴰ row) (sym (insert_row_new row rows t)) (Memᴰ.append_right rows (Memᴰ.head refl))
    | inl t ↦
        let (s, m, e) = row_of row.id rows t in
        subst (Memᴰ row) (sym (insert_row_known row rows t)) (Memᴰ.cast (same s m (sym e)) m)
  ]

pub insert_rows_keeps :
    (batch : List EventRow) (rows : List EventRow) {old : EventRow}
    → Memᴰ old rows
    → Memᴰ old (insert_rows batch rows)
unfolding insert_rows
insert_rows_keeps [] rows m = m
insert_rows_keeps (row ∷ batch) rows m =
    insert_rows_keeps batch (insert_row row rows) (insert_row_keeps row rows m)

-- Rows of a log that agrees with another are inserted into the other.
module _ (rows : List EventRow) (one : Agree rows rows) where
  Agree-insert_row :
      (row : EventRow) (others : List EventRow)
      → Memᴰ row rows
      → Agree rows others
      → Agree rows (insert_row row others)
  Agree-insert_row row others m a r s mr ms e = elim (insert_row_cases row others ms) [
    | inl n ↦ a r s mr n e
    | inr same ↦ one r row mr m (e ∙ ap (λ (q : EventRow). q.id) same) ∙ sym same
  ]

  pub Agree-insert_rows :
      (batch others : List EventRow)
      → All (λ r. Memᴰ r rows) batch
      → Agree rows others
      → Agree rows (insert_rows batch others)
  unfolding insert_rows
  Agree-insert_rows [] others m a = a
  Agree-insert_rows (row ∷ batch) others m a =
      Agree-insert_rows batch (insert_row row others) m.1 (Agree-insert_row row others m.0 a)

  -- Afterwards they are all there.
  pub All-insert_rows :
      (batch others : List EventRow)
      → All (λ r. Memᴰ r rows) batch
      → Agree rows others
      → All (λ r. Memᴰ r (insert_rows batch others)) batch
  unfolding insert_rows
  All-insert_rows [] others m a = tt
  All-insert_rows (row ∷ batch) others m a = (
    insert_rows_keeps batch (insert_row row others)
        (Memᴰ-insert_row row others (λ s n e. a row s m.0 n e)),
    All-insert_rows batch (insert_row row others) m.1 (Agree-insert_row row others m.0 a),
  )
