-- ===== src/Base/Float.antt =====
-- Python's float, which the language implements in hardware: its operations as the program uses
-- them, with the facts of IEEE 754 arithmetic that the scores rest on.
pub mod Fixed
use Prim.Native.Nat.{ℕ, ◌+◌, ◌^◌, ◌≤◌}
use mathlib.Core.Path.{◌≡◌}
use mathlib.Core.Bool.{Bool}
use krkn.Base.Int.{ℤ, pos, pos_part, neg_part, ◌≤ℤ◌, ◌*ℤ◌}

-- An integer that a 64-bit float holds without rounding.
abbrev pub IsExact : ℤ → Type 0
IsExact a = pos_part a + neg_part a ≤ 2 ^ 53

pub record Float : Type 1 where
  pub F : Type 0
  infix 50 ◌≤F◌
  pub ◌≤F◌ : F → F → Type 0
  pub of_int : ℤ → F
  -- `a / b` of two ints, with `b` not zero
  pub div : ℤ → ℤ → F
  -- `x * k` of a float and an int
  pub mul : F → ℤ → F
  -- `int(x)`
  pub trunc : F → ℤ
  -- `x > 0` and `x == 0`
  pub gt_zero : F → Bool
  pub eq_zero : F → Bool
  -- Division of ints is correctly rounded: it keeps the order, and is exact where it can be.
  pub div_mono : (a b c : ℤ) → a ≤ℤ b → pos 1 ≤ℤ c → div a c ≤F div b c
  pub div_exact : (k c : ℤ) → pos 1 ≤ℤ c → IsExact k → div (k *ℤ c) c ≡ of_int k
  -- So is the product with an int that is not negative.
  pub mul_mono : (x y : F) (k : ℕ) → x ≤F y → mul x (pos k) ≤F mul y (pos k)
  pub mul_exact :
      (a k : ℤ) → IsExact a → IsExact k → IsExact (a *ℤ k) → mul (of_int a) k ≡ of_int (a *ℤ k)
  -- Truncation keeps the order, and gives an exact integer back.
  pub trunc_mono : (x y : F) → x ≤F y → trunc x ≤ℤ trunc y
  pub trunc_of_int : (a : ℤ) → IsExact a → trunc (of_int a) ≡ a
