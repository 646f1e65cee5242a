-- ===== src/Base/Exec.antt =====
-- Fallible code over a state: an action returns or fails, and what it wrote before it failed
-- stays written.
pub mod Keeps
pub mod Success
use mathlib.Core.Path.{◌≡◌, refl}
use mathlib.Core.Bool.{Bool, true, false}
use mathlib.Core.Option.{Option, none, some}
use mathlib.Core.List.{List, [], ◌∷◌}
use nexus_p2p.Base.Result.{Error, Result, ok, err}

abbrev pub Exec {ℓ} : Type ℓ → Type ℓ → Type ℓ
Exec S A = S → Result A × S

module _ {ℓ} {S A : Type ℓ} where
  abbrev pub pure : A → Exec S A
  pure value state = (ok value, state)

  abbrev pub raise : Error → Exec S A
  raise failure state = (err failure, state)

  abbrev pub lift : Result A → Exec S A
  lift result state = (result, state)

  abbrev pub gets : (S → A) → Exec S A
  gets read state = (ok (read state), state)

  -- `ok_or_else`
  abbrev pub some_or : Error → Option A → Exec S A
  some_or e none s = (err e, s)
  some_or e (some a) s = (ok a, s)

module _ {ℓ} {S A B : Type ℓ} where
  abbrev pub continue : Result A → (A → Exec S B) → Exec S B
  continue (ok a) f s = f a s
  continue (err e) f s = (err e, s)

  infixl 10 ◌>>=◌ ◌>>◌
  abbrev pub ◌>>=◌ : Exec S A → (A → Exec S B) → Exec S B
  ◌>>=◌ m f s = let (r, s') = m s in continue r f s'

  abbrev pub ◌>>◌ : Exec S A → Exec S B → Exec S B
  m >> n = m >>= λ _. n

module _ {S : Type 0} where
  abbrev pub modify : (S → S) → Exec S Unit
  modify f s = (ok tt, f s)

  -- `anyhow::ensure!`
  abbrev pub ensure : Bool → Error → Exec S Unit
  ensure true e s = (ok tt, s)
  ensure false e s = (err e, s)

-- A component of the state runs an action of its own.
abbrev pub zoom {ℓ} : {S T A : Type ℓ} → (S → T) → (T → S → S) → Exec T A → Exec S A
zoom get put m s = let (r, t) = m (get s) in (r, put t s)

-- `iter().map(f).collect::<Result<Vec<_>, _>>()`: the first error stops the loop.
abbrev pub traverse {ℓ} : {S A B : Type ℓ} → (A → Exec S B) → List A → Exec S (List B)
traverse f [] = pure []
traverse f (x ∷ xs) = let rest = traverse f xs in f x >>= λ y. rest >>= λ ys. pure (y ∷ ys)

-- A `for` loop whose body may fail.
abbrev pub for_each : {S A : Type 0} → (A → Exec S Unit) → List A → Exec S Unit
for_each f [] = pure tt
for_each f (x ∷ xs) = let rest = for_each f xs in f x >> rest

-- What fails inside a transaction is rolled back.
abbrev pub transaction {ℓ} : {S A : Type ℓ} → Exec S A → Exec S A
transaction m s = let (r, s') = m s in elim r [ ok a ↦ (ok a, s') | err e ↦ (err e, s) ]
