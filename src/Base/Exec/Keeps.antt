-- ===== src/Base/Exec/Keeps.antt =====
-- Invariants of actions, whether they return or fail, with a rule for each way to build an action.
use mathlib.Core.Path.{◌≡◌, refl}
use mathlib.Core.Bool.{Bool, true, false}
use mathlib.Core.Option.{Option, none, some}
use mathlib.Core.List.{List, [], ◌∷◌}
use nexus_p2p.Base.Tests.{if◌then◌else◌}
use nexus_p2p.Base.Result.{Error, Result, ok, err}
use nexus_p2p.Base.Exec.{
  Exec, pure, raise, lift, gets, some_or, continue, modify, ensure, zoom, traverse, for_each,
  transaction, ◌>>=◌, ◌>>◌,
}

pub record Keeps {S A : Type 0} (P : S → Type 0) (m : Exec S A) : Type 0 where
  pub at : (s : S) → P s → P (m s).1

module _ {S A : Type 0} {P : S → Type 0} where
  pub Keeps-pure : (a : A) → Keeps P (pure a)
  Keeps-pure a = record { at = λ state holds. holds }

  pub Keeps-raise : (e : Error) → Keeps P (raise {A = A} e)
  Keeps-raise e = record { at = λ state holds. holds }

  pub Keeps-lift : (r : Result A) → Keeps P (lift r)
  Keeps-lift r = record { at = λ state holds. holds }

  pub Keeps-gets : (f : S → A) → Keeps P (gets f)
  Keeps-gets f = record { at = λ state holds. holds }

  pub Keeps-some_or : (e : Error) (o : Option A) → Keeps P (some_or e o)
  Keeps-some_or e none = record { at = λ state holds. holds }
  Keeps-some_or e (some a) = record { at = λ state holds. holds }

  pub Keeps-if : (b : Bool) (m n : Exec S A) → Keeps P m → Keeps P n → Keeps P (if b then m else n)
  Keeps-if true m n km kn = km
  Keeps-if false m n km kn = kn

  pub Keeps-transaction : (m : Exec S A) → Keeps P m → Keeps P (transaction m)
  Keeps-transaction m km = record { at = λ s h. let (r, s') = m s in rolled r s' (km.at s h) s h }
    where
      rolled :
          (r : Result A) (t : S)
          → P t
          → (s : S) → P s
          → P (elim r as (λ _. Result A × S) [ ok a ↦ (ok a, t) | err e ↦ (err e, s) ]).1
      rolled (ok a) t ht s h = ht
      rolled (err e) t ht s h = h

module _ {S A B : Type 0} where
  pub Keeps-continue :
      (P : S → Type 0) (r : Result A) (f : A → Exec S B) (s : S)
      → P s
      → ((a : A) → r ≡ ok a → P (f a s).1)
      → P (continue r f s).1
  Keeps-continue P (ok a) f s h k = k a refl
  Keeps-continue P (err e) f s h k = h

module _ {S A B : Type 0} {P : S → Type 0} where
  pub Keeps-bind :
      (m : Exec S A) (f : A → Exec S B) → Keeps P m → ((a : A) → Keeps P (f a)) → Keeps P (m >>= f)
  Keeps-bind m f km kf = record {
    at = λ s h.
        Keeps-continue P (m s).0 f (m s).1 (km.at s h) (λ a _. (kf a).at (m s).1 (km.at s h));
  }

  pub Keeps-then : (m : Exec S A) (n : Exec S B) → Keeps P m → Keeps P n → Keeps P (m >> n)
  Keeps-then m n km kn = Keeps-bind m (λ _. n) km (λ _. kn)

  -- The rest of the block may use what a success of the first action shows.
  pub Keeps-bind-ok :
      (m : Exec S A) (f : A → Exec S B)
      → Keeps P m
      → ((s : S) (a : A) → P s → (m s).0 ≡ ok a → P (f a (m s).1).1)
      → Keeps P (m >>= f)
  Keeps-bind-ok m f km kf = record {
    at = λ s h. Keeps-continue P (m s).0 f (m s).1 (km.at s h) (λ a e. kf s a h e);
  }

module _ {S A B : Type 0} {P : S → Type 0} where
  pub Keeps-traverse :
      (f : A → Exec S B) (xs : List A) → ((a : A) → Keeps P (f a)) → Keeps P (traverse f xs)
  Keeps-traverse f [] kf = record { at = λ state holds. holds }
  Keeps-traverse f (x ∷ xs) kf =
      Keeps-bind (f x) _ (kf x)
        (λ y. Keeps-bind (traverse f xs) _ (Keeps-traverse f xs kf) (λ ys. Keeps-pure (y ∷ ys)))

module _ {S : Type 0} {P : S → Type 0} where
  pub Keeps-modify : (f : S → S) → ((s : S) → P s → P (f s)) → Keeps P (modify f)
  Keeps-modify f h = record { at = h }

  pub Keeps-ensure : (b : Bool) (e : Error) → Keeps P (ensure b e)
  Keeps-ensure true e = record { at = λ state holds. holds }
  Keeps-ensure false e = record { at = λ state holds. holds }

  pub Keeps-for_each :
      {A : Type 0} (f : A → Exec S Unit) (xs : List A)
      → ((a : A) → Keeps P (f a))
      → Keeps P (for_each f xs)
  Keeps-for_each f [] kf = record { at = λ state holds. holds }
  Keeps-for_each f (x ∷ xs) kf = Keeps-then (f x) (for_each f xs) (kf x) (Keeps-for_each f xs kf)

pub Keeps-zoom :
    {S T A : Type 0} {P : S → Type 0} (get : S → T) (put : T → S → S) (m : Exec T A)
    → ((s : S) → P s → P (put (m (get s)).1 s))
    → Keeps P (zoom get put m)
Keeps-zoom get put m h = record { at = λ s p. h s p }

pub ruleset keeps_rules = (
  Keeps-pure, Keeps-raise, Keeps-lift, Keeps-gets, Keeps-some_or, Keeps-if, Keeps-ensure,
  Keeps-modify, Keeps-bind, Keeps-then, Keeps-traverse, Keeps-for_each, Keeps-transaction,
)
