-- ===== src/Node/Server/Authenticity.antt =====
-- The authenticity of the log as an invariant of a node of core/nexus-core/src/node.rs.
pub mod Handlers
use nexus_p2p.Base.{
  ◌≡◌, inl, inr, List, [], ◌∷◌, ◌++◌, All, All-append, Bool-cases, contains, nat_eq, list_eq,
  if◌then◌else◌,
}
use nexus_p2p.Base.Result.{ok}
use nexus_p2p.External.{External}
use nexus_p2p.Model.{EventEnvelope}
use nexus_p2p.Identity.{validate_public_identity}
use nexus_p2p.Storage.{EventRow}
use nexus_p2p.Storage.Events.{event_row, row_ids, insert_row}
use nexus_p2p.Node.{Node, node_identity}
use nexus_p2p.Node.Kept.{IsSigned, View, shown, Invariant}

-- The node's own identity is valid, and every row of its log is signed.
abbrev pub IsAuthentic : External → Node → Type 0
IsAuthentic x n =
    All (IsSigned x) n.store.event_rows × (validate_public_identity x (node_identity n) ≡ ok tt)

pub All-insert_row :
    (P : EventRow → Type 0) (row : EventRow) (rows : List EventRow)
    → All P rows
    → P row
    → All P (insert_row row rows)
unfolding insert_row
All-insert_row P row rows h p = elim (Bool-cases (contains (row_ids rows) row.id)) [
  | inl t ↦ rw t h
  | inr t ↦ rw t (All-append P rows (row ∷ []) h (p, tt))
]

abbrev pub authentic : (x : External) → Invariant x
authentic x = record {
  Holds = λ v. All (IsSigned x) v.rows × (validate_public_identity x (shown v) ≡ ok tt);
  own = λ v h. h.1;
  insert = λ v e h s. (All-insert_row (IsSigned x) (event_row e) v.rows h.0 s, h.1);
  upsert = λ v p json h valid e. h;
}
