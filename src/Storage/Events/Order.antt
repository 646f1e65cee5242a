-- ===== src/Storage/Events/Order.antt =====
-- The display order `(created_at_ms, id)` is total, and decides between different ids.
use mathlib.Core.Logic.{◌⊎◌}
use nexus_p2p.Base.{◌≡◌, true, arith}
use nexus_p2p.Base.Int.{int_leb-total, int_leb_trans}
use nexus_p2p.Base.Text.{text_leb-total, text_leb_trans, text_leb_antisymm}
use nexus_p2p.Storage.{EventRow}
use nexus_p2p.Storage.Events.{event_leb}

pub event_leb-total : (a b : EventRow) → (event_leb a b ≡ true) ⊎ (event_leb b a ≡ true)
unfolding event_leb
event_leb-total a b =
    ground (arith, int_leb-total a.created_at_ms b.created_at_ms, text_leb-total a.id b.id)

pub event_leb_trans :
    (a b c : EventRow) → event_leb a b ≡ true → event_leb b c ≡ true → event_leb a c ≡ true
unfolding event_leb
event_leb_trans a b c h k =
    let s = a.created_at_ms in
    let t = b.created_at_ms in
    let u = c.created_at_ms in
    ground (
      arith,
      h,
      k,
      int_leb_trans s t u,
      int_leb_trans u s t,
      int_leb_trans t u s,
      text_leb_trans a.id b.id c.id,
    )

pub event_leb-apart : (a b : EventRow) → event_leb a b ≡ true → event_leb b a ≡ true → a.id ≡ b.id
unfolding event_leb
event_leb-apart a b h k = ground (arith, text_leb_antisymm a.id b.id)
