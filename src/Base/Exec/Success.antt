-- ===== src/Base/Exec/Success.antt =====
-- What a chain of actions that succeeds has done.
use mathlib.Core.Path.{◌≡◌, refl}
use mathlib.Core.Bool.{Bool, true, false}
use mathlib.Core.Option.{Option, none, some}
use native.Mathlib.Omega.{arith}
use nexus_p2p.Base.Result.{Error, Result, ok, err}
use nexus_p2p.Base.Exec.{Exec, ensure, some_or, continue, ◌>>=◌}

module _ {S A B : Type 0} where
  continue-eq-ok :
      (r : Result A) (f : A → Exec S B) (s : S) {b : B}
      → (continue r f s).0 ≡ ok b
      → (a : A) × (r ≡ ok a) × ((f a s).0 ≡ ok b) × ((continue r f s).1 ≡ (f a s).1)
  continue-eq-ok (ok a) f s h = (a, refl, h, refl)
  continue-eq-ok (err e) f s h = cc

  -- Each action of a chain that succeeds has succeeded.
  pub >>=-eq-ok :
      (m : Exec S A) (f : A → Exec S B) (s : S) {b : B}
      → ((m >>= f) s).0 ≡ ok b
      → (a : A) × ((m s).0 ≡ ok a) × ((f a (m s).1).0 ≡ ok b) × (((m >>= f) s).1 ≡ (f a (m s).1).1)
  >>=-eq-ok m f s h = continue-eq-ok (m s).0 f (m s).1 h

pub ensure-eq-ok :
    {S : Type 0} (b : Bool) (e : Error) (s : S) {u : Unit {0}}
    → (ensure b e s).0 ≡ ok u
    → (b ≡ true) × ((ensure b e s).1 ≡ s)
ensure-eq-ok true e s h = (refl, refl)
ensure-eq-ok false e s h = cc

pub some_or-eq-ok :
    {S A : Type 0} (e : Error) (o : Option A) (s : S) {a : A}
    → (some_or e o s).0 ≡ ok a
    → (o ≡ some a) × ((some_or e o s).1 ≡ s)
some_or-eq-ok e none s h = cc
some_or-eq-ok e (some a) s h = (ground arith, refl)

pub unit-eq : (u : Unit {0}) → u ≡ tt
unit-eq tt = refl
