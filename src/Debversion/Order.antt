-- ===== src/Debversion/Order.antt =====
-- Compare is a total preorder.
use bitacora.Base.{ℕ, zero, suc, ◌+◌, ◌≡◌, refl, ap, ◌∙◌, sym, [], ◌∷◌, length, arith}
use mathlib.Core.Path.{ap₂}
use bitacora.Base.Int.{ℤ}
use bitacora.Base.Text.{Text}
use bitacora.Debversion.{
  Comparison, less, equal, greater, or_then, char_order, compare_order, trim_zeros, split_epoch,
  split_upstream_revision, non_digits, from_digit, digits, compare_non_digit_run, compare_digit_run,
  compare_loop, compare_version_part, compare,
}
use bitacora.Debversion.Loop.{rest_of, compare_loop-suc, compare_loop_enough}
use bitacora.Debversion.Compositions.{
  flip, Composes, or_then-Composes, or_then-flip, compare_order-Composes, compare_order-flip,
  compare_trimmed-Composes, compare_trimmed-flip,
}

compare_digit_run-Composes :
    (a b c : Text)
    → Composes (compare_digit_run a b) (compare_digit_run b c) (compare_digit_run a c)
unfolding compare_digit_run
compare_digit_run-Composes a b c =
    compare_trimmed-Composes (trim_zeros a) (trim_zeros b) (trim_zeros c)

compare_digit_run-flip : (a b : Text) → compare_digit_run b a ≡ flip (compare_digit_run a b)
unfolding compare_digit_run
compare_digit_run-flip a b = compare_trimmed-flip (trim_zeros a) (trim_zeros b)

compare_non_digit_run-Composes :
    (a b c : Text)
    → Composes (compare_non_digit_run a b) (compare_non_digit_run b c) (compare_non_digit_run a c)
unfolding compare_non_digit_run char_order
compare_non_digit_run-Composes [] [] [] = refl
compare_non_digit_run-Composes [] [] (z ∷ c) = refl
compare_non_digit_run-Composes (x ∷ a) [] [] =
    or_then-Composes _ _ _ _ _ _
      (compare_order-Composes (char_order x) (char_order 0) (char_order 0))
      (compare_non_digit_run-Composes a [] [])
compare_non_digit_run-Composes [] (y ∷ b) [] =
    or_then-Composes _ _ _ _ _ _
      (compare_order-Composes (char_order 0) (char_order y) (char_order 0))
      (compare_non_digit_run-Composes [] b [])
compare_non_digit_run-Composes (x ∷ a) (y ∷ b) [] =
    or_then-Composes _ _ _ _ _ _
      (compare_order-Composes (char_order x) (char_order y) (char_order 0))
      (compare_non_digit_run-Composes a b [])
compare_non_digit_run-Composes [] (y ∷ b) (z ∷ c) =
    or_then-Composes _ _ _ _ _ _
      (compare_order-Composes (char_order 0) (char_order y) (char_order z))
      (compare_non_digit_run-Composes [] b c)
compare_non_digit_run-Composes (x ∷ a) [] (z ∷ c) =
    or_then-Composes _ _ _ _ _ _
      (compare_order-Composes (char_order x) (char_order 0) (char_order z))
      (compare_non_digit_run-Composes a [] c)
compare_non_digit_run-Composes (x ∷ a) (y ∷ b) (z ∷ c) =
    or_then-Composes _ _ _ _ _ _
      (compare_order-Composes (char_order x) (char_order y) (char_order z))
      (compare_non_digit_run-Composes a b c)

flip_step :
    (x y : ℤ) (u v : Comparison)
    → v ≡ flip u
    → or_then (compare_order y x) v ≡ flip (or_then (compare_order x y) u)
flip_step x y u v e = ap₂ or_then (compare_order-flip x y) e ∙ or_then-flip (compare_order x y) u

compare_non_digit_run-flip :
    (a b : Text) → compare_non_digit_run b a ≡ flip (compare_non_digit_run a b)
unfolding compare_non_digit_run
compare_non_digit_run-flip [] [] = refl
compare_non_digit_run-flip (x ∷ a) [] =
    flip_step (char_order x) (char_order 0) _ _ (compare_non_digit_run-flip a [])
compare_non_digit_run-flip [] (y ∷ b) =
    flip_step (char_order 0) (char_order y) _ _ (compare_non_digit_run-flip [] b)
compare_non_digit_run-flip (x ∷ a) (y ∷ b) =
    flip_step (char_order x) (char_order y) _ _ (compare_non_digit_run-flip a b)

compare_loop-Composes :
    (f : ℕ) (a b c : Text) → Composes (compare_loop f a b) (compare_loop f b c) (compare_loop f a c)
unfolding compare_loop
compare_loop-Composes zero a b c = rw (out_of_fuel a b, out_of_fuel b c, out_of_fuel a c) refl
  where
    out_of_fuel : (a b : Text) → compare_loop zero a b ≡ equal
    out_of_fuel [] [] = refl
    out_of_fuel (x ∷ a) b = refl
    out_of_fuel [] (y ∷ b) = refl
compare_loop-Composes (suc f) a b c =
    rw (compare_loop-suc f a b, compare_loop-suc f b c, compare_loop-suc f a c)
      (or_then-Composes _ _ _ _ _ _
        (compare_non_digit_run-Composes (non_digits a) (non_digits b) (non_digits c))
        (or_then-Composes _ _ _ _ _ _
          (compare_digit_run-Composes (digits (from_digit a)) (digits (from_digit b))
            (digits (from_digit c)))
          (compare_loop-Composes f (rest_of a) (rest_of b) (rest_of c))))

compare_version_part-Composes :
    (a b c : Text)
    → Composes (compare_version_part a b) (compare_version_part b c) (compare_version_part a c)
compare_version_part-Composes a b c =
    let f = length a + length b + length c in
    rw
      (
        sym (compare_loop_enough f a b (omega arith)),
        sym (compare_loop_enough f b c (omega arith)),
        sym (compare_loop_enough f a c (omega arith)),
      )
      (compare_loop-Composes f a b c)

-- The comparison of a version with a third follows from those with one in between: less than or
-- equal is transitive, and versions that compare equal stand in the same place among all others.
pub compare-Composes : (a b c : Text) → Composes (compare a b) (compare b c) (compare a c)
unfolding compare
compare-Composes a b c =
    let (epoch_a, rest_a) = split_epoch a in
    let (epoch_b, rest_b) = split_epoch b in
    let (epoch_c, rest_c) = split_epoch c in
    let (upstream_a, revision_a) = split_upstream_revision rest_a in
    let (upstream_b, revision_b) = split_upstream_revision rest_b in
    let (upstream_c, revision_c) = split_upstream_revision rest_c in
    or_then-Composes _ _ _ _ _ _ (compare_digit_run-Composes epoch_a epoch_b epoch_c) (
      or_then-Composes _ _ _ _ _ _ (compare_version_part-Composes upstream_a upstream_b upstream_c)
        (compare_version_part-Composes revision_a revision_b revision_c))

or_then_flipped :
    (x y x' y' : Comparison) → x' ≡ flip x → y' ≡ flip y → or_then x' y' ≡ flip (or_then x y)
or_then_flipped x y x' y' e e' = ap₂ or_then e e' ∙ or_then-flip x y

compare_loop-flip : (f : ℕ) (a b : Text) → compare_loop f b a ≡ flip (compare_loop f a b)
unfolding compare_loop
compare_loop-flip zero [] [] = refl
compare_loop-flip zero (x ∷ a) [] = refl
compare_loop-flip zero [] (y ∷ b) = refl
compare_loop-flip zero (x ∷ a) (y ∷ b) = refl
compare_loop-flip (suc f) a b =
    rw (compare_loop-suc f a b, compare_loop-suc f b a)
      (or_then_flipped _ _ _ _ (compare_non_digit_run-flip (non_digits a) (non_digits b)) (
        or_then_flipped _ _ _ _
          (compare_digit_run-flip (digits (from_digit a)) (digits (from_digit b)))
          (compare_loop-flip f (rest_of a) (rest_of b))))

compare_version_part-flip :
    (a b : Text) → compare_version_part b a ≡ flip (compare_version_part a b)
compare_version_part-flip a b =
    sym (compare_loop_enough (length a + length b) b a (omega arith))
    ∙ compare_loop-flip (length a + length b) a b
    ∙ ap flip (compare_loop_enough (length a + length b) a b (omega arith))

-- Comparing two versions the other way round gives the opposite answer; a version compares equal to
-- itself.
pub compare-flip : (a b : Text) → (compare b a ≡ flip (compare a b)) × (compare a a ≡ equal)
unfolding compare
compare-flip a b = (flipped a b, self (compare a a) (flipped a a))
  where
    flipped : (a b : Text) → compare b a ≡ flip (compare a b)
    flipped a b =
        let (epoch_a, rest_a) = split_epoch a in
        let (epoch_b, rest_b) = split_epoch b in
        let (upstream_a, revision_a) = split_upstream_revision rest_a in
        let (upstream_b, revision_b) = split_upstream_revision rest_b in
        or_then_flipped _ _ _ _ (compare_digit_run-flip epoch_a epoch_b) (
          or_then_flipped _ _ _ _ (compare_version_part-flip upstream_a upstream_b)
            (compare_version_part-flip revision_a revision_b))

    self : (c : Comparison) → c ≡ flip c → c ≡ equal
    self equal e = refl
    self less e = cc
    self greater e = cc
