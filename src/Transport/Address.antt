-- ===== src/Transport/Address.antt =====
-- `format_address` of core/nexus-core/src/transport/lan.rs.
use mathlib.Core.List.{tail-eq_of_cons-eq, head-eq_of_cons-eq, append_cancel_right, append_assoc}
use mathlib.Core.Path.{subst}
use nexus_p2p.Base.{
  ◌≡◌, ◌≢◌, refl, sym, ap, ◌∙◌, inl, inr, true, false, [], ◌∷◌, ◌++◌, arith, Bool-cases, nat_eq,
  contains, contains-append, if◌then◌else◌,
}
use nexus_p2p.Base.Decimal.{decimal, decimal_digits, decimal_inj}
use nexus_p2p.Base.Text.{Text, codes}
use nexus_p2p.Model.{PeerEndpoint}
use nexus_p2p.Model.StreamId.{HasNoColon}

unfoldable pub format_address : PeerEndpoint → Text
format_address endpoint =
    if contains endpoint.host 58
    then codes "[" ++ (endpoint.host ++ (codes "]:" ++ decimal endpoint.port))
    else endpoint.host ++ (codes ":" ++ decimal endpoint.port)

no_colon : (b d : Text) → HasNoColon (b ++ 58 ∷ d) → ⊥
no_colon [] d h = h.0 refl
no_colon (z ∷ b) d h = no_colon b d h.1

-- The text splits in one way at its last colon.
last_colon :
    (a b c d : Text) → HasNoColon c → HasNoColon d → a ++ 58 ∷ c ≡ b ++ 58 ∷ d → (a ≡ b) × (c ≡ d)
last_colon [] [] c d hc hd e = (refl, tail-eq_of_cons-eq e)
last_colon [] (y ∷ b) c d hc hd e =
    absurd (no_colon b d (subst HasNoColon (tail-eq_of_cons-eq e) hc))
last_colon (y ∷ a) [] c d hc hd e =
    absurd (no_colon a c (subst HasNoColon (sym (tail-eq_of_cons-eq e)) hd))
last_colon (y ∷ a) (z ∷ b) c d hc hd e =
    let (p, q) = last_colon a b c d hc hd (tail-eq_of_cons-eq e) in
    (λ i. head-eq_of_cons-eq e i ∷ p i, q)

bracketed : Text → Text
bracketed host = 91 ∷ (host ++ 93 ∷ [])

contains-bracketed : (host : Text) → contains host 58 ≡ true → contains (bracketed host) 58 ≡ true
unfolding bracketed
contains-bracketed host h = rw (contains-append host (93 ∷ []) 58, h) (ground arith)

-- the host as the address shows it
shown : PeerEndpoint → Text
shown e = if contains e.host 58 then bracketed e.host else e.host

format_address-shown : (e : PeerEndpoint) → format_address e ≡ shown e ++ 58 ∷ decimal e.port
unfolding format_address shown bracketed
format_address-shown e = elim (Bool-cases (contains e.host 58)) [
  | inl h ↦ rw h (ap (◌∷◌ 91) (sym (append_assoc e.host (93 ∷ []) (58 ∷ decimal e.port))))
  | inr h ↦ rw h refl
]

shown_colon : (e : PeerEndpoint) → contains e.host 58 ≡ true → shown e ≡ bracketed e.host
unfolding shown
shown_colon e h = rw h

shown_plain : (e : PeerEndpoint) → contains e.host 58 ≡ false → shown e ≡ e.host
unfolding shown
shown_plain e h = rw h

true-ne-false : true ≢ false
true-ne-false e = cc

bracketed_inj : (a b : Text) → bracketed a ≡ bracketed b → a ≡ b
unfolding bracketed
bracketed_inj a b e = append_cancel_right a b (93 ∷ []) (tail-eq_of_cons-eq e)

-- A host with no colon is not what is shown of one with a colon.
unlike : (a b : Text) → contains a 58 ≡ true → contains b 58 ≡ false → bracketed a ≢ b
unlike a b h k e =
    true-ne-false (sym (contains-bracketed a h) ∙ ap (λ (t : Text). contains t 58) e ∙ k)

shown_inj : (e f : PeerEndpoint) → shown e ≡ shown f → e.host ≡ f.host
shown_inj e f h = elim (Bool-cases (contains e.host 58)) [
  | inl a ↦ elim (Bool-cases (contains f.host 58)) [
    | inl b ↦ bracketed_inj e.host f.host (sym (shown_colon e a) ∙ h ∙ shown_colon f b)
    | inr b ↦ absurd (unlike e.host f.host a b (sym (shown_colon e a) ∙ h ∙ shown_plain f b))
  ]
  | inr a ↦ elim (Bool-cases (contains f.host 58)) [
    | inl b ↦ absurd (unlike f.host e.host b a (sym (shown_colon f b) ∙ sym h ∙ shown_plain e a))
    | inr b ↦ sym (shown_plain e a) ∙ h ∙ shown_plain f b
  ]
]

-- Endpoints with one address are the same, those with a colon in the host included.
pub format_address-inj : (e f : PeerEndpoint) → format_address e ≡ format_address f → e ≡ f
format_address-inj e f h =
    let (p, q) =
      last_colon (shown e) (shown f) (decimal e.port) (decimal f.port) (decimal_digits e.port)
        (decimal_digits f.port) (sym (format_address-shown e) ∙ h ∙ format_address-shown f) in
    λ i. record { host = shown_inj e f p i; port = decimal_inj e.port f.port q i }
