-- ===== src/Debversion/Loop.antt =====
-- The loop of compareVersionPart ends, and more fuel changes nothing.
use bitacora.Base.{ℕ, zero, suc, ◌+◌, ◌≤◌, ◌≡◌, refl, ap, ◌∙◌, sym, [], ◌∷◌, length, arith}
use bitacora.Base.Text.{Text}
use bitacora.Debversion.{
  Comparison, equal, or_then, non_digits, from_digit, digits, from_non_digit, compare_non_digit_run,
  compare_digit_run, compare_round, compare_loop, compare_version_part,
}

-- what a round leaves of a string
abbrev pub rest_of : Text → Text
rest_of s = from_non_digit (from_digit s)

from_non_digit-length : (s : Text) → length (from_non_digit s) ≤ length s
from_non_digit-length [] = omega arith
from_non_digit-length (x ∷ s) = ground (arith, from_non_digit-length s)

from_digit-length : (s : Text) → length (from_digit s) ≤ length s
from_digit-length [] = omega arith
from_digit-length (x ∷ s) = ground (arith, from_digit-length s)

rest_of-length : (x : ℕ) (s : Text) → length (rest_of (x ∷ s)) ≤ length s
rest_of-length x s =
    ground
      (arith, from_non_digit-length s, from_digit-length s, from_non_digit-length (from_digit s))

compare_loop_nil : (f : ℕ) → compare_loop f [] [] ≡ equal
unfolding compare_loop
compare_loop_nil zero = refl
compare_loop_nil (suc f) = refl

-- with a byte left, or none, one unit of fuel is one round
pub compare_loop-suc :
    (f : ℕ) (a b : Text) → compare_loop (suc f) a b ≡ compare_round (compare_loop f) a b
unfolding compare_loop compare_non_digit_run compare_digit_run
compare_loop-suc f [] [] = sym (compare_loop_nil f)
compare_loop-suc f (x ∷ a) b = refl
compare_loop-suc f [] (y ∷ b) = refl

compare_round-ap :
    (f g : Text → Text → Comparison) (a b : Text)
    → f (rest_of a) (rest_of b) ≡ g (rest_of a) (rest_of b)
    → compare_round f a b ≡ compare_round g a b
compare_round-ap f g a b e =
    ap
      (λ r.
        or_then (compare_non_digit_run (non_digits a) (non_digits b))
          (or_then (compare_digit_run (digits (from_digit a)) (digits (from_digit b))) r))
      e

compare_loop_fuel :
    (f g : ℕ) (a b : Text)
    → length a + length b ≤ f
    → length a + length b ≤ g
    → compare_loop f a b ≡ compare_loop g a b
compare_loop_fuel f g [] [] h k = compare_loop_nil f ∙ sym (compare_loop_nil g)
compare_loop_fuel zero g (x ∷ a) b h k = absurd (omega arith)
compare_loop_fuel zero g [] (y ∷ b) h k = absurd (omega arith)
compare_loop_fuel (suc f) zero (x ∷ a) b h k = absurd (omega arith)
compare_loop_fuel (suc f) zero [] (y ∷ b) h k = absurd (omega arith)
compare_loop_fuel (suc f) (suc g) (x ∷ a) b h k =
    compare_loop-suc f (x ∷ a) b
    ∙ compare_round-ap (compare_loop f) (compare_loop g) (x ∷ a) b
        (compare_loop_fuel f g (rest_of (x ∷ a)) (rest_of b) (shorter f h) (shorter g k))
    ∙ sym (compare_loop-suc g (x ∷ a) b)
  where
    shorter :
        (n : ℕ)
        → suc (length a) + length b ≤ suc n
        → length (rest_of (x ∷ a)) + length (rest_of b) ≤ n
    shorter n h =
        omega (arith, rest_of-length x a, from_non_digit-length (from_digit b), from_digit-length b)
compare_loop_fuel (suc f) (suc g) [] (y ∷ b) h k =
    compare_loop-suc f [] (y ∷ b)
    ∙ compare_round-ap (compare_loop f) (compare_loop g) [] (y ∷ b) (
        compare_loop_fuel f g [] (rest_of (y ∷ b)) (omega (arith, rest_of-length y b))
          (omega (arith, rest_of-length y b)))
    ∙ sym (compare_loop-suc g [] (y ∷ b))

-- The loop of compareVersionPart ends within as many rounds as the two strings have bytes: with any
-- fuel that is at least that number it gives the same answer.
pub compare_loop_enough :
    (f : ℕ) (a b : Text) → length a + length b ≤ f → compare_loop f a b ≡ compare_version_part a b
unfolding compare_version_part
compare_loop_enough f a b h = compare_loop_fuel f (length a + length b) a b h (omega arith)
