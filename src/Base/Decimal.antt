-- ===== src/Base/Decimal.antt =====
-- Integers as `Display` writes them.
use Prim.Native.Nat.{ℕ, zero, suc, ◌+◌, ◌*◌, ◌-◌, ◌/◌, ◌%◌, ◌<◌}
use mathlib.Core.Path.{◌≡◌, sym, ap, ◌∙◌}
use mathlib.Core.List.{[], ◌∷◌}
use native.Mathlib.Omega.{arith}
use mathlib.Core.Logic.{◌≢◌, inl, inr}
use nexus_p2p.Base.Lists.{All}
use nexus_p2p.Base.Tests.{Bool-cases, ltb, if◌then◌else◌}
use nexus_p2p.Base.Text.{Text}
use nexus_p2p.Base.Int.{ℤ, pos, negsuc}

-- The digits of `n` before `rest`; the fuel is above `n`, which falls in each round.
digits : ℕ → ℕ → Text → Text
digits zero n rest = rest
digits (suc f) n rest =
    let more = digits f (n / 10) ((48 + n % 10) ∷ rest) in
    if ltb n 10 then (48 + n) ∷ rest else more

unfoldable pub decimal : ℕ → Text
unfolding digits
decimal n = digits (suc n) n []

unfoldable pub int_decimal : ℤ → Text
unfolding decimal
int_decimal (pos n) = decimal n
int_decimal (negsuc n) = 45 ∷ decimal (suc n)

-- The number that a string of digits stands for, after a number read before it.
pub read : ℕ → Text → ℕ
read acc [] = acc
read acc (c ∷ s) = read (acc * 10 + (c - 48)) s

read-digits : (f n : ℕ) (rest : Text) → n < f → read 0 (digits f n rest) ≡ read n rest
unfolding digits read
read-digits zero n rest h = elim h [ ]
read-digits (suc f) n rest h = ground (arith, read-digits f (n / 10) ((48 + n % 10) ∷ rest))

-- The fuel is enough: the digits of a number read back as the number.
pub read-decimal : (n : ℕ) → read 0 (decimal n) ≡ n
unfolding decimal read
read-decimal n = read-digits (suc n) n [] (omega arith)

digits_plain :
    (f n : ℕ) (rest : Text) → All (λ c. c ≢ 58) rest → All (λ c. c ≢ 58) (digits f n rest)
unfolding digits
digits_plain zero n rest h = h
digits_plain (suc f) n rest h = elim (Bool-cases (ltb n 10)) [
  | inl l ↦ rw l (ground (arith, l), h)
  | inr l ↦ rw l (digits_plain f (n / 10) ((48 + n % 10) ∷ rest) (omega arith, h))
]

-- No digit is a colon.
pub decimal_digits : (n : ℕ) → All (λ c. c ≢ 58) (decimal n)
unfolding decimal
decimal_digits n = digits_plain (suc n) n [] tt

pub decimal_inj : (m n : ℕ) → decimal m ≡ decimal n → m ≡ n
decimal_inj m n e = sym (read-decimal m) ∙ ap (read 0) e ∙ read-decimal n
