-- ===== src/Base/Text/Blank.antt =====
-- Texts of whitespace only, which `str::trim` leaves nothing of.
use Prim.Native.Nat.{ℕ}
use mathlib.Core.Path.{◌≡◌, refl, ap, sym, ◌∙◌}
use mathlib.Core.Logic.{◌≢◌, inl, inr}
use mathlib.Core.Bool.{Bool, true, ◌&&◌}
use mathlib.Core.List.{[], ◌∷◌}
use native.Mathlib.Omega.{arith}
use nexus_p2p.Base.Tests.{if◌then◌else◌, Bool-cases}
use nexus_p2p.Base.Equality.{list_eq, nat_eq}
use nexus_p2p.Base.Text.{Text, is_whitespace, trim_start, trim_end, trim}

unfoldable blank : Text → Bool
blank [] = true
blank (c ∷ s) = is_whitespace c && blank s

blank-trim_start : (s : Text) → blank (trim_start s) ≡ blank s
unfolding blank trim_start
blank-trim_start [] = refl
blank-trim_start (c ∷ s) = elim (Bool-cases (is_whitespace c)) [
  | inl w ↦ rw w (blank-trim_start s)
  | inr w ↦ rw w (rw w refl)
]

end_step :
    (c : ℕ) (rest : Text)
    → blank (elim rest as (λ _. Text) [
      | [] ↦ if is_whitespace c then [] else c ∷ []
      | x ∷ xs ↦ c ∷ x ∷ xs
    ])
      ≡ (is_whitespace c && blank rest)
unfolding blank
end_step c [] = elim (Bool-cases (is_whitespace c)) [ inl w ↦ rw w refl | inr w ↦ rw w (rw w refl) ]
end_step c (x ∷ xs) = refl

blank-trim_end : (s : Text) → blank (trim_end s) ≡ blank s
unfolding blank trim_end
blank-trim_end [] = refl
blank-trim_end (c ∷ s) = end_step c (trim_end s) ∙ ap (λ b. is_whitespace c && b) (blank-trim_end s)

trim_start-blank : (s : Text) → blank s ≡ true → trim_start s ≡ []
unfolding blank trim_start
trim_start-blank [] b = refl
trim_start-blank (c ∷ s) b = ground (arith, b, trim_start-blank s)

-- A text that `trim` leaves something of is not trimmed to nothing by a second `trim`.
pub trim-trim_ne : (s : Text) → trim s ≢ [] → trim (trim s) ≢ []
unfolding trim blank
trim-trim_ne s n e =
    let twice : blank (trim (trim s)) ≡ blank s =
      blank-trim_end (trim_start (trim s))
      ∙ blank-trim_start (trim s)
      ∙ blank-trim_end (trim_start s)
      ∙ blank-trim_start s in
    n (ap trim_end (trim_start-blank s (sym twice ∙ ap blank e)))
