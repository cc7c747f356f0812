-- ===== src/Prelude/Int.antt =====
-- The values of a C `int`, compared through their positive and negative parts.
use Prim.Native.Nat.{ℕ, suc, ◌+◌}
use mathlib.Core.Path.{◌≡◌, refl}
use mathlib.Core.Bool.{Bool, true}
use mathlib.Core.Logic.{◌⊎◌, inl, inr}
use native.Mathlib.Omega.{arith}
use jungle_w8_minisql_server.Prelude.Tests.{ltb, leb, ◌==◌}

-- `negsuc n` is -(n + 1).
pub data ℤ : Type 0 where
  pos : ℕ → ℤ
  negsuc : ℕ → ℤ

unfoldable pub pos_part : ℤ → ℕ
pos_part (pos n) = n
pos_part (negsuc n) = 0

unfoldable pub neg_part : ℤ → ℕ
neg_part (pos n) = 0
neg_part (negsuc n) = suc n

-- The tests `<`, `<=` and `==`. The parts are shut, so that the tactics read these as linear
-- arithmetic over the parts.
abbrev pub ltz : ℤ → ℤ → Bool
ltz a b = ltb (pos_part a + neg_part b) (pos_part b + neg_part a)

abbrev pub lez : ℤ → ℤ → Bool
lez a b = leb (pos_part a + neg_part b) (pos_part b + neg_part a)

abbrev pub eqz : ℤ → ℤ → Bool
eqz a b = (pos_part a + neg_part b) == (pos_part b + neg_part a)

pub parts_bound : (a : ℤ) → (pos_part a ≡ 0) ⊎ (neg_part a ≡ 0)
unfolding pos_part neg_part
parts_bound (pos n) = inr refl
parts_bound (negsuc n) = inl refl

pub eqz_refl : (a : ℤ) → eqz a a ≡ true
eqz_refl a = ground arith

pub eq_of_eqz : (a b : ℤ) → eqz a b ≡ true → a ≡ b
unfolding pos_part neg_part
eq_of_eqz (pos a) (pos b) h = ground arith
eq_of_eqz (pos a) (negsuc b) h = absurd (ground arith)
eq_of_eqz (negsuc a) (pos b) h = absurd (ground arith)
eq_of_eqz (negsuc a) (negsuc b) h = ground arith
