-- ===== src/Ffi/Drained.antt =====
-- The fuel of the loop of the operation `events` of core/nexus-core/src/ffi.rs.
use nexus_p2p.Base.{
  ℕ, zero, suc, ◌≤◌, ◌<◌, ◌≡◌, refl, sym, ap, ◌∙◌, inl, inr, Option, some, List, ◌∷◌, arith,
  Option-cases,
}
use nexus_p2p.Node.{NodeEvent}
use nexus_p2p.Ffi.{drain}

-- A receiver that gives an event has fewer to give after it.
abbrev IsFinite :
    {R : Type 0} → (List NodeEvent → R → Option NodeEvent × R) → (List NodeEvent → R → ℕ) → Type 0
IsFinite {R} try_recv pending =
    (sent : List NodeEvent) (r : R) (event : NodeEvent)
    → (try_recv sent r).0 ≡ some event
    → suc (pending sent (try_recv sent r).1) ≤ pending sent r

module _ {R : Type 0} (try_recv : List NodeEvent → R → Option NodeEvent × R)
    (pending : List NodeEvent → R → ℕ) (finite : IsFinite try_recv pending) where
  drain-some :
      (k : ℕ) (sent : List NodeEvent) (r : R) (event : NodeEvent)
      → (try_recv sent r).0 ≡ some event
      → drain try_recv (suc k) sent r
        ≡ (let (more, r') = drain try_recv k sent (try_recv sent r).1 in (event ∷ more, r'))
  unfolding drain
  drain-some k sent r event e = rw (e, drain) refl

  -- More fuel than there are events to give changes nothing.
  drain-fuel :
      (k : ℕ) (sent : List NodeEvent) (r : R)
      → pending sent r < k
      → drain try_recv (suc k) sent r ≡ drain try_recv k sent r
  unfolding drain
  drain-fuel zero sent r h = absurd (omega (arith, h))
  drain-fuel (suc k) sent r h = elim (Option-cases (try_recv sent r).0) [
    | inl e ↦ ground (arith, e)
    | inr (event, e) ↦
        let less = finite sent r event e in
        let rest = drain-fuel k sent (try_recv sent r).1 (omega (arith, less, h)) in
        drain-some (suc k) sent r event e
        ∙ ap (λ (p : List NodeEvent × R). (event ∷ p.0, p.1)) rest
        ∙ sym (drain-some k sent r event e)
  ]
