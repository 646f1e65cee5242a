-- ===== src/Storage/Events/Merge.antt =====
-- What a stream shows does not depend on the order in which events arrived: the merge of two logs
-- is that of grow-only sets.
use mathlib.Core.List.{Permᴰ, append_assoc}
use mathlib.Core.List.Permᴰ
use mathlib.Core.Path.{subst₂}
use nexus_p2p.Base.{
  ◌≡◌, ◌≢◌, refl, sym, ◌∙◌, Bool, true, false, List, [], ◌∷◌, ◌==◌, nat_eq, list_eq, arith,
  All-filter, filter, contains, Bool-cases, inl, inr,
}
use nexus_p2p.Base.Sort.{Distinct, Distinct-perm, IsSorted, sort_by-perm, sort_by-IsSorted}
use nexus_p2p.Base.Text.{Text}
use nexus_p2p.Storage.{EventRow}
use nexus_p2p.Storage.Events.{row_ids, insert_row, event_leb, select_events}
use nexus_p2p.Storage.Events.Log.{
  insert_row_known, insert_row_new, contains-insert_row, insert_row-Distinct,
}
use nexus_p2p.Storage.Events.Order.{event_leb-total, event_leb_trans, event_leb-apart}

contains-perm :
    {rows others : List EventRow} (i : Text)
    → Permᴰ rows others
    → contains (row_ids rows) i ≡ contains (row_ids others) i
contains-perm i Permᴰ.nil = refl
contains-perm i (Permᴰ.cons e p) = rw (e, contains-perm i p)
contains-perm i (Permᴰ.swap {a = a} {b = b} {l = l} e f) = rw (← e, ← f) (ground arith)
contains-perm i (Permᴰ.trans p q) = contains-perm i p ∙ contains-perm i q

insert_row-perm :
    {rows others : List EventRow} (row : EventRow)
    → Permᴰ rows others
    → Permᴰ (insert_row row rows) (insert_row row others)
unfolding insert_row
insert_row-perm {rows} {others} row p = elim (Bool-cases (contains (row_ids rows) row.id)) [
  | inl e ↦ rw (e, sym (contains-perm row.id p) ∙ e) p
  | inr e ↦ rw (e, sym (contains-perm row.id p) ∙ e) (Permᴰ.append_right (row ∷ []) p)
]

-- The log after a batch of rows.
unfoldable pub insert_rows : List EventRow → List EventRow → List EventRow
insert_rows [] rows = rows
insert_rows (row ∷ batch) rows = insert_rows batch (insert_row row rows)

insert_rows-perm :
    (batch : List EventRow) {rows others : List EventRow}
    → Permᴰ rows others
    → Permᴰ (insert_rows batch rows) (insert_rows batch others)
unfolding insert_rows
insert_rows-perm [] p = p
insert_rows-perm (row ∷ batch) p = insert_rows-perm batch (insert_row-perm row p)

still_known :
    (a b : EventRow) (rows : List EventRow)
    → contains (row_ids rows) a.id ≡ true
    → contains (row_ids (insert_row b rows)) a.id ≡ true
still_known a b rows h = contains-insert_row b rows a.id ∙ ground (arith, h)

still_new :
    (a b : EventRow) (rows : List EventRow)
    → a.id ≢ b.id
    → contains (row_ids rows) a.id ≡ false
    → contains (row_ids (insert_row b rows)) a.id ≡ false
still_new a b rows n h = contains-insert_row b rows a.id ∙ ground (arith, h, n)

insert_row_comm :
    (a b : EventRow) (rows : List EventRow)
    → a.id ≢ b.id
    → Permᴰ (insert_row b (insert_row a rows)) (insert_row a (insert_row b rows))
insert_row_comm a b rows n = elim (Bool-cases (contains (row_ids rows) a.id)) [
  | inl ka ↦
      rw
        (
          insert_row_known a rows ka,
          insert_row_known a (insert_row b rows) (still_known a b rows ka),
        )
        (Permᴰ.refl _)
  | inr na ↦ elim (Bool-cases (contains (row_ids rows) b.id)) [
    | inl kb ↦
        rw
          (
            insert_row_known b rows kb,
            insert_row_known b (insert_row a rows) (still_known b a rows kb),
          )
          (Permᴰ.refl _)
    | inr nb ↦
        rw
          (
            insert_row_new b (insert_row a rows) (still_new b a rows (λ e. n (sym e)) nb),
            insert_row_new a (insert_row b rows) (still_new a b rows n na),
            insert_row_new a rows na,
            insert_row_new b rows nb,
            append_assoc,
            append_assoc,
          )
          (Permᴰ.append_left rows (Permᴰ.swap refl refl))
  ]
]

batch-perm :
    {batch other : List EventRow} (rows : List EventRow)
    → Permᴰ batch other
    → Distinct (λ (r : EventRow). r.id) batch
    → Permᴰ (insert_rows batch rows) (insert_rows other rows)
unfolding insert_rows
batch-perm rows Permᴰ.nil d = Permᴰ.refl rows
batch-perm rows (Permᴰ.cons {a = a} e p) d = rw (← e) (batch-perm (insert_row a rows) p d.1)
batch-perm rows (Permᴰ.swap {a = a} {b = b} {l = l} e f) d =
    subst₂
      (λ u v.
        Permᴰ (insert_rows l (insert_row b (insert_row a rows)))
          (insert_rows l (insert_row v (insert_row u rows))))
      f e (insert_rows-perm l (insert_row_comm a b rows d.0.0))
batch-perm rows (Permᴰ.trans p q) d =
    Permᴰ.trans (batch-perm rows p d) (batch-perm rows q (Distinct-perm _ p d))

filter-perm :
    (p : EventRow → Bool) {l m : List EventRow} → Permᴰ l m → Permᴰ (filter p l) (filter p m)
filter-perm p Permᴰ.nil = Permᴰ.nil
filter-perm p (Permᴰ.cons {a = a} e q) = elim (Bool-cases (p a)) [
  | inl t ↦ rw (← e, t) (Permᴰ.cons refl (filter-perm p q))
  | inr t ↦ rw (← e, t) (filter-perm p q)
]
filter-perm p (Permᴰ.swap {a = a} {b = b} {l = l} e f) =
    subst₂ (λ u v. Permᴰ (filter p (a ∷ b ∷ l)) (filter p (u ∷ v ∷ l))) f e (filter_swap p a b l)
  where
    filter_swap :
        (p : EventRow → Bool) (a b : EventRow) (l : List EventRow)
        → Permᴰ (filter p (a ∷ b ∷ l)) (filter p (b ∷ a ∷ l))
    filter_swap p a b l = elim (Bool-cases (p a)) [
      | inl s ↦ elim (Bool-cases (p b)) [
        | inl t ↦ rw (s, t) (Permᴰ.swap refl refl)
        | inr t ↦ rw (s, t) (Permᴰ.refl _)
      ]
      | inr s ↦ rw s (Permᴰ.refl _)
    ]
filter-perm p (Permᴰ.trans q r) = Permᴰ.trans (filter-perm p q) (filter-perm p r)

Distinct-filter :
    (p : EventRow → Bool) (l : List EventRow)
    → Distinct (λ (r : EventRow). r.id) l
    → Distinct (λ (r : EventRow). r.id) (filter p l)
Distinct-filter p [] d = tt
Distinct-filter p (a ∷ l) d = elim (Bool-cases (p a)) [
  | inl e ↦ rw e (All-filter _ p l d.0, Distinct-filter p l d.1)
  | inr e ↦ rw e (Distinct-filter p l d.1)
]

pub insert_rows-Distinct :
    (batch rows : List EventRow)
    → Distinct (λ (r : EventRow). r.id) rows
    → Distinct (λ (r : EventRow). r.id) (insert_rows batch rows)
unfolding insert_rows
insert_rows-Distinct [] rows d = d
insert_rows-Distinct (row ∷ batch) rows d =
    insert_rows-Distinct batch (insert_row row rows) (insert_row-Distinct row rows d)

-- Two logs with the same rows show the same events of a stream, in the same order.
pub select_events-perm :
    (stream_id : Text) {rows others : List EventRow}
    → Permᴰ rows others
    → Distinct (λ (r : EventRow). r.id) rows
    → select_events stream_id rows ≡ select_events stream_id others
unfolding select_events
select_events-perm stream_id {rows} p d =
    sort_by-perm event_leb event_leb-total event_leb_trans (λ (r : EventRow). r.id) event_leb-apart
      (filter-perm (λ row. row.stream_id == stream_id) p)
      (Distinct-filter (λ row. row.stream_id == stream_id) rows d)

-- Events with distinct ids, delivered in any order to a log with distinct ids, some of them known
-- there or not, leave every stream with the same events in the same order.
pub select_events-insert_rows :
    (stream_id : Text) {batch other : List EventRow} (rows : List EventRow)
    → Permᴰ batch other
    → Distinct (λ (r : EventRow). r.id) batch
    → Distinct (λ (r : EventRow). r.id) rows
    → select_events stream_id (insert_rows batch rows)
      ≡ select_events stream_id (insert_rows other rows)
select_events-insert_rows stream_id {batch} rows p d dr =
    select_events-perm stream_id (batch-perm rows p d) (insert_rows-Distinct batch rows dr)

-- What a stream shows is sorted by time and then by id.
select_events-IsSorted :
    (stream_id : Text) (rows : List EventRow) → IsSorted event_leb (select_events stream_id rows)
unfolding select_events
select_events-IsSorted stream_id rows = sort_by-IsSorted event_leb event_leb-total event_leb_trans _
