-- ===== src/Base/Sort.antt =====
-- `ORDER BY`: a stable sort by a Boolean order, and what a total order gives.
use mathlib.Core.Path.{◌≡◌, refl, ◌∙◌, sym, subst₂}
use mathlib.Core.Logic.{◌≢◌, ◌⊎◌, inl, inr}
use mathlib.Core.Bool.{Bool, true}
use mathlib.Core.List.{List, [], ◌∷◌, Permᴰ}
use native.Mathlib.Omega.{arith}
use nexus_p2p.Base.Tests.{Bool-cases, if◌then◌else◌}
use nexus_p2p.Base.Lists.{All}

module _ {ℓ} {A : Type ℓ} (le : A → A → Bool) where
  unfoldable pub insert_by : A → List A → List A
  insert_by a [] = a ∷ []
  insert_by a (b ∷ l) = let rest = insert_by a l in if le a b then a ∷ b ∷ l else b ∷ rest

  unfoldable pub sort_by : List A → List A
  unfolding insert_by
  sort_by [] = []
  sort_by (a ∷ l) = insert_by a (sort_by l)

  abbrev pub IsSorted : List A → Type 0
  IsSorted [] = Unit
  IsSorted (a ∷ l) = All (λ b. le a b ≡ true) l × IsSorted l

module _ {ℓ} {A K : Type ℓ} (key : A → K) where
  -- No two elements have one key.
  abbrev pub Distinct : List A → Type ℓ
  Distinct [] = Unit
  Distinct (a ∷ l) = All (λ b. key a ≢ key b) l × Distinct l

  All-perm : (P : A → Type ℓ) {l m : List A} → Permᴰ l m → All P l → All P m
  All-perm P Permᴰ.nil h = h
  All-perm P (Permᴰ.cons e p) (x, h) = (rw (← e) x, All-perm P p h)
  All-perm P (Permᴰ.swap e f) (x, (y, h)) = (rw (← f) y, (rw (← e) x, h))
  All-perm P (Permᴰ.trans p q) h = All-perm P q (All-perm P p h)

  pub Distinct-perm : {l m : List A} → Permᴰ l m → Distinct l → Distinct m
  Distinct-perm Permᴰ.nil h = h
  Distinct-perm (Permᴰ.cons e p) (x, h) = (rw (← e) (All-perm _ p x), Distinct-perm p h)
  Distinct-perm (Permᴰ.swap {l = l} e f) ((x, xs), (ys, h)) =
      subst₂ (λ u v. Distinct (u ∷ v ∷ l)) f e ((λ q. x (sym q), ys), (xs, h))
  Distinct-perm (Permᴰ.trans p q) h = Distinct-perm q (Distinct-perm p h)

module _ {ℓ} {A : Type ℓ} (le : A → A → Bool) where
  All-insert_by : (P : A → Type 0) (a : A) (l : List A) → P a → All P l → All P (insert_by le a l)
  unfolding insert_by
  All-insert_by P a [] x h = (x, h)
  All-insert_by P a (b ∷ l) x h = elim (Bool-cases (le a b)) [
    | inl e ↦ rw e (x, h)
    | inr e ↦ rw e (h.0, All-insert_by P a l x h.1)
  ]

  pub All-sort_by : (P : A → Type 0) (l : List A) → All P l → All P (sort_by le l)
  unfolding sort_by
  All-sort_by P [] h = tt
  All-sort_by P (a ∷ l) h = All-insert_by P a (sort_by le l) h.0 (All-sort_by P l h.1)

module _ {ℓ} {A : Type ℓ} (le : A → A → Bool)
    (total : (a b : A) → (le a b ≡ true) ⊎ (le b a ≡ true))
    (trans : (a b c : A) → le a b ≡ true → le b c ≡ true → le a c ≡ true) where
  All-weaken :
      (a b : A) (l : List A)
      → le a b ≡ true
      → All (λ c. le b c ≡ true) l
      → All (λ c. le a c ≡ true) l
  All-weaken a b [] x h = tt
  All-weaken a b (c ∷ l) x h = (trans a b c x h.0, All-weaken a b l x h.1)

  insert_by-IsSorted : (a : A) (l : List A) → IsSorted le l → IsSorted le (insert_by le a l)
  unfolding insert_by
  insert_by-IsSorted a [] h = (tt, tt)
  insert_by-IsSorted a (b ∷ l) h = elim (Bool-cases (le a b)) [
    | inl e ↦ rw e ((e, All-weaken a b l e h.0), h)
    | inr e ↦ rw e (
      All-insert_by le (λ c. le b c ≡ true) a l (ground (arith, total a b)) h.0,
      insert_by-IsSorted a l h.1,
    )
  ]

  pub sort_by-IsSorted : (l : List A) → IsSorted le (sort_by le l)
  unfolding sort_by
  sort_by-IsSorted [] = tt
  sort_by-IsSorted (a ∷ l) = insert_by-IsSorted a (sort_by le l) (sort_by-IsSorted l)

  -- Two elements of which the order decides are inserted in either order.
  insert_by_comm :
      (a b : A) (l : List A)
      → (le a b ≡ true → le b a ≡ true → ⊥)
      → insert_by le a (insert_by le b l) ≡ insert_by le b (insert_by le a l)
  unfolding insert_by
  insert_by_comm a b [] h = ground (arith, total a b, h)
  insert_by_comm a b (c ∷ l) h = ground (
    arith,
    h,
    total a b,
    total a c,
    total b c,
    trans a b c,
    trans b a c,
    trans a c b,
    trans b c a,
    insert_by_comm a b l h,
  )

  -- The result does not depend on the order of the arguments, if no two share a key.
  module _ {K : Type ℓ} (key : A → K)
      (apart : (a b : A) → le a b ≡ true → le b a ≡ true → key a ≡ key b) where
    pub sort_by-perm : {l m : List A} → Permᴰ l m → Distinct key l → sort_by le l ≡ sort_by le m
    unfolding sort_by
    sort_by-perm Permᴰ.nil h = refl
    sort_by-perm (Permᴰ.cons e p) h = rw (e, sort_by-perm p h.1)
    sort_by-perm (Permᴰ.swap {a = a} {b = b} {l = l} e f) h =
        insert_by_comm a b (sort_by le l) (λ x y. h.0.0 (apart a b x y)) ∙ rw (e, f)
    sort_by-perm (Permᴰ.trans p q) h = sort_by-perm p h ∙ sort_by-perm q (Distinct-perm key p h)
