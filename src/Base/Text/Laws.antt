-- ===== src/Base/Text/Laws.antt =====
-- Digits and suffixes: what printing, splitting and slicing rely on.
use Prim.Native.Nat.{ℕ, zero, suc, ◌+◌, ◌-◌, ◌*◌, ◌/◌, ◌%◌, ◌<◌}
use mathlib.Core.Path.{◌≡◌, refl, ap, ◌∙◌}
use mathlib.Core.Logic.{inl, inr}
use mathlib.Core.Bool.{Bool, true, false, ◌&&◌}
use mathlib.Core.List.{[], ◌∷◌, ◌++◌}
use native.Mathlib.Omega.{arith}
use krkn.Base.Tests.{ltb, Bool-cases}
use krkn.Base.Lists.{all, is_empty, length, take, length-append}
use krkn.Base.Text.{
  Text, text_eq_refl, is_digit, isdigit, decimal_from, decimal, digits_from, ends_with, drop_last,
}

pub all-append : (p : ℕ → Bool) (s t : Text) → all p (s ++ t) ≡ (all p s && all p t)
all-append p [] t = refl
all-append p (c ∷ s) t = ground (arith, all-append p s t)

pub all_mono :
    (p q : ℕ → Bool)
    → ((c : ℕ) → p c ≡ true → q c ≡ true)
    → (s : Text) → all p s ≡ true
    → all q s ≡ true
all_mono p q f [] h = refl
all_mono p q f (c ∷ s) h = ground (arith, all_mono p q f s, f c)

decimal_from-digits : (fuel n : ℕ) → all is_digit (decimal_from fuel n) ≡ true
unfolding decimal_from
decimal_from-digits zero n = refl
decimal_from-digits (suc fuel) n = ground (
  arith,
  decimal_from-digits fuel (n / 10),
  all-append is_digit (decimal_from fuel (n / 10)) ((b'0' + n % 10) ∷ []),
)

is_empty-append_one : (s : Text) (c : ℕ) → is_empty (s ++ c ∷ []) ≡ false
is_empty-append_one [] c = refl
is_empty-append_one (d ∷ s) c = refl

pub isdigit-decimal : (n : ℕ) → isdigit (decimal n) ≡ true
unfolding isdigit decimal
isdigit-decimal n = ground (
  arith,
  decimal_from-digits (suc n) n,
  is_empty-append_one (decimal_from n (n / 10)) (b'0' + n % 10),
)

digits_from-append_one :
    (acc c : ℕ) (s : Text) → digits_from acc (s ++ c ∷ []) ≡ digits_from acc s * 10 + (c - b'0')
unfolding digits_from
digits_from-append_one acc c [] = refl
digits_from-append_one acc c (d ∷ s) = digits_from-append_one (acc * 10 + (d - b'0')) c s

digits_from-decimal_from : (fuel n : ℕ) → n < fuel → digits_from 0 (decimal_from fuel n) ≡ n
unfolding decimal_from digits_from
digits_from-decimal_from zero n h = elim h [ ]
digits_from-decimal_from (suc fuel) n h = elim (Bool-cases (ltb n 10)) [
  | inl small ↦ rw small (omega arith)
  | inr large ↦
      let smaller : n / 10 < fuel = ground arith in
      let ih = digits_from-decimal_from fuel (n / 10) smaller in
      rw large (digits_from-append_one 0 (b'0' + n % 10) (decimal_from fuel (n / 10)) ∙ omega arith)
]

-- Reading back what was printed.
pub digits_from-decimal : (n : ℕ) → digits_from 0 (decimal n) ≡ n
unfolding decimal
digits_from-decimal n = digits_from-decimal_from (suc n) n (omega arith)

pub ends_with-append : (suffix s : Text) → ends_with suffix (s ++ suffix) ≡ true
unfolding ends_with
ends_with-append [] [] = refl
ends_with-append (c ∷ suffix) [] = rw (text_eq_refl (c ∷ suffix))
ends_with-append suffix (c ∷ s) = ground (arith, ends_with-append suffix s)

take-append : (s t : Text) → take (length s) (s ++ t) ≡ s
take-append [] t = refl
take-append (c ∷ s) t = ap (λ (l : Text). c ∷ l) (take-append s t)

-- `(s + suffix)[:-n]` for a suffix of length n.
pub drop_last-append : (n : ℕ) (s suffix : Text) → length suffix ≡ n → drop_last n (s ++ suffix) ≡ s
unfolding drop_last
drop_last-append n s suffix h =
    let e : length (s ++ suffix) - n ≡ length s = omega (arith, length-append {0} s suffix) in
    rw e (take-append s suffix)
