-- ===== src/Debversion/Compositions.antt =====
-- How comparisons compose, and the comparison of two numbers.
use bitacora.Base.{ℕ, ◌≡◌, refl, if◌then◌else◌, length, arith, ltb}
use bitacora.Base.Int.{ℤ}
use bitacora.Base.Text.{Text, text_ltb, text_ltb_asymm, text_ltb_antisymm, text_ltb_trans}
use bitacora.Debversion.{Comparison, less, equal, greater, or_then, compare_order, compare_trimmed}

abbrev pub flip : Comparison → Comparison
flip less = greater
flip equal = equal
flip greater = less

-- what the comparisons of a with b and of b with c say of that of a with c
abbrev pub Composes : Comparison → Comparison → Comparison → Type 0
Composes equal y z = z ≡ y
Composes less equal z = z ≡ less
Composes less less z = z ≡ less
Composes less greater z = Unit
Composes greater equal z = z ≡ greater
Composes greater greater z = z ≡ greater
Composes greater less z = Unit

pub or_then-Composes :
    (x y z x' y' z' : Comparison)
    → Composes x y z
    → Composes x' y' z'
    → Composes (or_then x x') (or_then y y') (or_then z z')
or_then-Composes equal equal z x' y' z' h k = rw h k
or_then-Composes equal less z equal y' z' h k = rw h refl
or_then-Composes equal less z less y' z' h k = rw h refl
or_then-Composes equal less z greater y' z' h k = tt
or_then-Composes equal greater z equal y' z' h k = rw h refl
or_then-Composes equal greater z less y' z' h k = tt
or_then-Composes equal greater z greater y' z' h k = rw h refl
or_then-Composes less equal z x' equal z' h k = rw h refl
or_then-Composes less equal z x' less z' h k = rw h refl
or_then-Composes less equal z x' greater z' h k = tt
or_then-Composes less less z x' y' z' h k = rw h refl
or_then-Composes less greater z x' y' z' h k = tt
or_then-Composes greater equal z x' equal z' h k = rw h refl
or_then-Composes greater equal z x' less z' h k = tt
or_then-Composes greater equal z x' greater z' h k = rw h refl
or_then-Composes greater greater z x' y' z' h k = rw h refl
or_then-Composes greater less z x' y' z' h k = tt

pub or_then-flip : (x y : Comparison) → or_then (flip x) (flip y) ≡ flip (or_then x y)
or_then-flip less y = refl
or_then-flip equal y = refl
or_then-flip greater y = refl

pub compare_order-Composes :
    (x y z : ℤ) → Composes (compare_order x y) (compare_order y z) (compare_order x z)
compare_order-Composes x y z = ground arith

pub compare_order-flip : (x y : ℤ) → compare_order y x ≡ flip (compare_order x y)
compare_order-flip x y = ground arith

abbrev pub compare_ℕ : ℕ → ℕ → Comparison
compare_ℕ m n = if ltb m n then less else if ltb n m then greater else equal

abbrev pub compare_text : Text → Text → Comparison
compare_text a b = if text_ltb a b then less else if text_ltb b a then greater else equal

compare_ℕ-Composes : (m n k : ℕ) → Composes (compare_ℕ m n) (compare_ℕ n k) (compare_ℕ m k)
compare_ℕ-Composes m n k = ground arith

compare_text-Composes :
    (a b c : Text) → Composes (compare_text a b) (compare_text b c) (compare_text a c)
compare_text-Composes a b c = ground (
  arith,
  text_ltb_trans a b c,
  text_ltb_trans c b a,
  text_ltb_asymm a b,
  text_ltb_asymm b c,
  text_ltb_asymm a c,
  text_ltb_asymm c a,
  text_ltb_antisymm a b,
  text_ltb_antisymm b c,
)

compare_trimmed_lem :
    (a b : Text)
    → compare_trimmed a b ≡ or_then (compare_ℕ (length a) (length b)) (compare_text a b)
compare_trimmed_lem a b = ground arith

pub compare_trimmed-Composes :
    (a b c : Text) → Composes (compare_trimmed a b) (compare_trimmed b c) (compare_trimmed a c)
compare_trimmed-Composes a b c =
    rw (compare_trimmed_lem a b, compare_trimmed_lem b c, compare_trimmed_lem a c)
      (or_then-Composes _ _ _ _ _ _ (compare_ℕ-Composes (length a) (length b) (length c))
        (compare_text-Composes a b c))

pub compare_trimmed-flip : (a b : Text) → compare_trimmed b a ≡ flip (compare_trimmed a b)
compare_trimmed-flip a b = ground (arith, text_ltb_asymm a b, text_ltb_asymm b a)
