-- ===== src/Base/Float/Fixed.antt =====
-- Numbers in thousandths: an arithmetic that meets what is asked of the floats, to run the scores on.
use Prim.Native.Nat.{ℕ, suc, ◌+◌, ◌-◌, ◌*◌, ◌/◌, ◌≤◌, ◌<◌}
use mathlib.Core.Path.{◌≡◌, refl, ap}
use mathlib.Core.Bool.{Bool, false}
use native.Mathlib.Omega.{arith}
use native.Mathlib.Nat.{
  le_trans, le-div_iff_mul-le, div-mul-le_self, mul-div_cancel, mul-le-mul_right, div-eq_of_lt-le,
}
use krkn.Base.Tests.{ltb}
use krkn.Base.Int.{
  ℤ, pos, negsuc, pos_part, neg_part, sub_ℕ, ◌≤ℤ◌, ◌*ℤ◌, ◌-ℤ◌, is_zero, *ℤ_parts, eq_of_parts,
}
use krkn.Base.Float.{Float, IsExact}

-- The quotient rounded down, by a divisor that is not zero.
abbrev floor_div : ℤ → ℕ → ℤ
floor_div (pos a) c = pos (a / c)
floor_div (negsuc a) c = negsuc (a / c)

abbrev thousand : ℤ → ℤ
thousand (pos n) = pos (1000 * n)
thousand (negsuc n) = negsuc (1000 * n + 999)

abbrev fixed_div : ℤ → ℤ → ℤ
fixed_div a (pos c) = floor_div (thousand a) c
fixed_div a (negsuc c) = floor_div (thousand (pos 0 -ℤ a)) (suc c)

abbrev fixed_trunc : ℤ → ℤ
fixed_trunc (pos a) = pos (a / 1000)
fixed_trunc (negsuc a) = sub_ℕ 0 (suc a / 1000)

abbrev fixed_gt_zero : ℤ → Bool
fixed_gt_zero (pos a) = ltb 0 a
fixed_gt_zero (negsuc _) = false

div-le-div : (a b c : ℕ) → 1 ≤ c → a ≤ b → a / c ≤ b / c
div-le-div a b c h le = (le-div_iff_mul-le h).1 (le_trans (div-mul-le_self a c) le)

floor_div-mono : (a b : ℤ) (c : ℕ) → 1 ≤ c → a ≤ℤ b → floor_div a c ≤ℤ floor_div b c
floor_div-mono (pos a) (pos b) c h le = omega (arith, div-le-div a b c h (omega arith))
floor_div-mono (pos a) (negsuc b) c h le = absurd (omega arith)
floor_div-mono (negsuc a) (pos b) c h le = omega arith
floor_div-mono (negsuc a) (negsuc b) c h le = omega (arith, div-le-div b a c h (omega arith))

thousand-mono : (a b : ℤ) → a ≤ℤ b → thousand a ≤ℤ thousand b
thousand-mono (pos a) (pos b) le = omega arith
thousand-mono (pos a) (negsuc b) le = absurd (omega arith)
thousand-mono (negsuc a) (pos b) le = omega arith
thousand-mono (negsuc a) (negsuc b) le = omega arith

pub fixed_div-mono : (a b c : ℤ) → a ≤ℤ b → pos 1 ≤ℤ c → fixed_div a c ≤ℤ fixed_div b c
fixed_div-mono a b (pos c) le h =
    floor_div-mono (thousand a) (thousand b) c (omega arith) (thousand-mono a b le)
fixed_div-mono a b (negsuc c) le h = absurd (omega arith)

pub fixed_div_exact : (k c : ℤ) → pos 1 ≤ℤ c → IsExact k → fixed_div (k *ℤ c) c ≡ thousand k
unfolding ◌*ℤ◌
fixed_div_exact k (negsuc c) h e = absurd (omega arith)
fixed_div_exact (pos k) (pos c) h e =
    let shape : thousand (pos k *ℤ pos c) ≡ pos (1000 * k * c) = ground arith in
    rw shape (ap pos (mul-div_cancel (1000 * k) (omega arith)))
fixed_div_exact (negsuc k) (pos c) h e =
    let shape : thousand (negsuc k *ℤ pos c) ≡ negsuc (1000 * suc k * c - 1) = ground arith in
    let low : (1000 * k + 999) * c ≤ 1000 * suc k * c - 1 = ground arith in
    let high : 1000 * suc k * c - 1 < (1000 * k + 999 + 1) * c = ground arith in
    rw shape (ap negsuc (div-eq_of_lt-le _ low high))

pub fixed_mul_mono : (x y : ℤ) (k : ℕ) → x ≤ℤ y → x *ℤ pos k ≤ℤ y *ℤ pos k
fixed_mul_mono x y k le =
    let scaled : (pos_part x + neg_part y) * k ≤ (pos_part y + neg_part x) * k =
      mul-le-mul_right k le in
    omega (arith, *ℤ_parts x (pos k), *ℤ_parts y (pos k))

thousand_pos : (a : ℤ) → pos_part (thousand a) ≡ 1000 * pos_part a
thousand_pos (pos n) = refl
thousand_pos (negsuc n) = refl

thousand_neg : (a : ℤ) → neg_part (thousand a) ≡ 1000 * neg_part a
thousand_neg (pos n) = refl
thousand_neg (negsuc n) = omega arith

pub fixed_mul_exact : (a k : ℤ) → thousand a *ℤ k ≡ thousand (a *ℤ k)
fixed_mul_exact a k =
    let left = *ℤ_parts (thousand a) k in
    let left' = rw (thousand_pos a, thousand_neg a) at left in
    eq_of_parts _ _
      (rw (thousand_pos (a *ℤ k), thousand_neg (a *ℤ k)) (omega (arith, *ℤ_parts a k)))

pub fixed_trunc-mono : (x y : ℤ) → x ≤ℤ y → fixed_trunc x ≤ℤ fixed_trunc y
fixed_trunc-mono (pos a) (pos b) le = omega arith
fixed_trunc-mono (pos a) (negsuc b) le = absurd (omega arith)
fixed_trunc-mono (negsuc a) (pos b) le = ground arith
fixed_trunc-mono (negsuc a) (negsuc b) le = ground arith

pub fixed_trunc_exact : (a : ℤ) → fixed_trunc (thousand a) ≡ a
fixed_trunc_exact (pos n) = ground arith
fixed_trunc_exact (negsuc n) = ground arith

abbrev pub fixed : Float
fixed = record {
  F = ℤ;
  ◌≤F◌ = ◌≤ℤ◌;
  of_int = thousand;
  div = fixed_div;
  mul = ◌*ℤ◌;
  trunc = fixed_trunc;
  gt_zero = fixed_gt_zero;
  eq_zero = is_zero;
  div_mono = fixed_div-mono;
  div_exact = fixed_div_exact;
  mul_mono = fixed_mul_mono;
  mul_exact = λ a k _ _ _. fixed_mul_exact a k;
  trunc_mono = fixed_trunc-mono;
  trunc_of_int = λ a _. fixed_trunc_exact a;
}
