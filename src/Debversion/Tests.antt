-- ===== src/Debversion/Tests.antt =====
-- Debian's worked examples, and the theorems at concrete versions.
use bitacora.Base.{◌≡◌, refl}
use bitacora.Base.Text.{codes}
use bitacora.Debversion.{
  less, equal, greater, compare, compare_loop, compare_version_part, split_epoch,
  split_upstream_revision, compare_digit_run, compare_non_digit_run, char_order,
}
use bitacora.Debversion.Order.{compare-Composes, compare-flip}
use bitacora.Debversion.Compositions.{Composes, flip}

numeric : compare (codes "1.9") (codes "1.10") ≡ less
unfolding compare split_epoch split_upstream_revision compare_digit_run compare_version_part
    compare_loop compare_non_digit_run char_order
numeric = refl

tilde_first : compare (codes "1.0~beta1") (codes "1.0") ≡ less
unfolding compare split_epoch split_upstream_revision compare_digit_run compare_version_part
    compare_loop compare_non_digit_run char_order
tilde_first = refl

epoch_first : compare (codes "1:0.1-1") (codes "9.9-9") ≡ greater
unfolding compare split_epoch split_upstream_revision compare_digit_run compare_version_part
    compare_loop compare_non_digit_run char_order
epoch_first = refl

compare-Composes_example :
    Composes
      (compare (codes "1.0~b") (codes "1.0"))
      (compare (codes "1.0") (codes "1.1-1"))
      (compare (codes "1.0~b") (codes "1.1-1"))
compare-Composes_example = compare-Composes (codes "1.0~b") (codes "1.0") (codes "1.1-1")

compare-flip_example :
    (compare (codes "1.1") (codes "1.0") ≡ flip (compare (codes "1.0") (codes "1.1")))
    × (compare (codes "1.0") (codes "1.0") ≡ equal)
compare-flip_example = compare-flip (codes "1.0") (codes "1.1")
