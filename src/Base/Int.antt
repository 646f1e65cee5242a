-- ===== src/Base/Int.antt =====
-- `i64` timestamps as integers over the native numbers: `negsuc n` is -(n + 1).
use Prim.Native.Nat.{ℕ}
use mathlib.Core.Path.{◌≡◌}
use mathlib.Core.Logic.{◌⊎◌}
use mathlib.Core.Bool.{Bool, true, false}
use native.Mathlib.Omega.{arith}
use nexus_p2p.Base.Tests.{leb}

pub data ℤ : Type 0 where
  pos : ℕ → ℤ
  negsuc : ℕ → ℤ

-- a ≤ b
unfoldable pub int_leb : ℤ → ℤ → Bool
int_leb (pos a) (pos b) = leb a b
int_leb (pos a) (negsuc b) = false
int_leb (negsuc a) (pos b) = true
int_leb (negsuc a) (negsuc b) = leb b a

pub int_leb-total : (a b : ℤ) → (int_leb a b ≡ true) ⊎ (int_leb b a ≡ true)
unfolding int_leb
int_leb-total a b = grind arith

pub int_leb_trans : (a b c : ℤ) → int_leb a b ≡ true → int_leb b c ≡ true → int_leb a c ≡ true
unfolding int_leb
int_leb_trans a b c h k = ground arith

pub int_leb_antisymm : (a b : ℤ) → int_leb a b ≡ true → int_leb b a ≡ true → a ≡ b
unfolding int_leb
int_leb_antisymm a b h k = ground arith
