-- ===== src/Model/StreamId.antt =====
-- The stream of a conversation: both ends compute the same name, and two pairs of devices share
-- none.
use mathlib.Core.List.{head-eq_of_cons-eq, tail-eq_of_cons-eq, append_cancel_left}
use nexus_p2p.Base.{◌≡◌, ◌≢◌, refl, sym, arith, [], ◌∷◌, ◌++◌, All, ◌⊎◌, inl, inr, Bool-cases, ◌∙◌}
use nexus_p2p.Base.Text.{Text, codes, text_leb, text_leb-total, text_leb_antisymm}
use nexus_p2p.Model.{DeviceId, direct_stream_id}

-- Both ends of a conversation name its stream alike.
direct_stream_id_comm : (a b : DeviceId) → direct_stream_id a b ≡ direct_stream_id b a
unfolding direct_stream_id
direct_stream_id_comm a b = ground (arith, text_leb-total a b, text_leb_antisymm a b)

-- no `:` in a device id
abbrev pub HasNoColon : Text → Type 0
HasNoColon = All (λ c. c ≢ 58)

split_colon :
    (a b : Text) {s t : Text}
    → HasNoColon a
    → HasNoColon b
    → a ++ 58 ∷ s ≡ b ++ 58 ∷ t
    → (a ≡ b) × (s ≡ t)
split_colon [] [] ha hb e = (refl, tail-eq_of_cons-eq e)
split_colon [] (y ∷ b) ha hb e = absurd (hb.0 (sym (head-eq_of_cons-eq e)))
split_colon (x ∷ a) [] ha hb e = absurd (ha.0 (head-eq_of_cons-eq e))
split_colon (x ∷ a) (y ∷ b) ha hb e =
    let (p, q) = split_colon a b ha.1 hb.1 (tail-eq_of_cons-eq e) in
    (λ i. head-eq_of_cons-eq e i ∷ p i, q)

-- the text of an ordered pair
named : DeviceId → DeviceId → Text
named a b = codes "dm:" ++ (a ++ (codes ":" ++ b))

named_inj :
    (a b c d : DeviceId) → HasNoColon a → HasNoColon c → named a b ≡ named c d → (a ≡ c) × (b ≡ d)
unfolding named
named_inj a b c d ha hc e = split_colon a c ha hc (append_cancel_left (codes "dm:") _ _ e)

direct_stream_id-eq_named :
    (a b : DeviceId) → (direct_stream_id a b ≡ named a b) ⊎ (direct_stream_id a b ≡ named b a)
unfolding direct_stream_id named
direct_stream_id-eq_named a b = elim (Bool-cases (text_leb a b)) [
  | inl h ↦ inl (rw h)
  | inr h ↦ inr (rw h)
]

-- Two pairs of devices whose ids hold no colon share a stream only if they are the same two
-- devices.
pub direct_stream_id-inj :
    (a b c d : DeviceId)
    → HasNoColon a
    → HasNoColon b
    → HasNoColon c
    → HasNoColon d
    → direct_stream_id a b ≡ direct_stream_id c d
    → ((a ≡ c) × (b ≡ d)) ⊎ ((a ≡ d) × (b ≡ c))
direct_stream_id-inj a b c d ha hb hc hd e = elim (direct_stream_id-eq_named a b) [
  | inl p ↦ elim (direct_stream_id-eq_named c d) [
    | inl q ↦ inl (named_inj a b c d ha hc (sym p ∙ e ∙ q))
    | inr q ↦ inr (named_inj a b d c ha hd (sym p ∙ e ∙ q))
  ]
  | inr p ↦ elim (direct_stream_id-eq_named c d) [
    | inl q ↦ let (x, y) = named_inj b a c d hb hc (sym p ∙ e ∙ q) in inr (y, x)
    | inr q ↦ let (x, y) = named_inj b a d c hb hd (sym p ∙ e ∙ q) in inl (y, x)
  ]
]
