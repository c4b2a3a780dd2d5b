-- ===== src/Debversion.antt =====
-- internal/debversion/debversion.go: the order of Debian's package versions.
-- The results -1, 0 and 1 are `less`, `equal` and `greater`. The loop of compareVersionPart runs on
-- fuel, the number of bytes of both strings: each round takes at least one byte.
pub mod Loop
pub mod Compositions
pub mod Order
mod Tests
use bitacora.Base.{
  ℕ, zero, suc, ◌+◌, ◌≡◌, Bool, true, false, not, ◌&&◌, ◌||◌, Option, none, some, List, [], ◌∷◌,
  if◌then◌else◌, length, ltb, leb, ◌==◌,
}
use bitacora.Base.Int.{ℤ, pos, negsuc, ltb_ℤ}
use bitacora.Base.Text.{Text, codes, text_ltb}

pub data Comparison : Type 0 where
  less equal greater : Comparison

-- the first comparison that is not 0, as after `if c := ...; c != 0 { return c }`
abbrev pub or_then : Comparison → Comparison → Comparison
or_then less c = less
or_then greater c = greater
or_then equal c = c

-- `strings.IndexByte` and what stands before and behind
abbrev pub cut_first : ℕ → Text → Option (Text × Text)
cut_first c [] = none
cut_first c (x ∷ s) =
    let rest : Option (Text × Text) = elim (cut_first c s) [
      | none ↦ none
      | some (l, r) ↦ some (x ∷ l, r)
    ] in
    if x == c then some ([], s) else rest

-- `strings.LastIndexByte` and what stands before and behind
abbrev pub cut_last : ℕ → Text → Option (Text × Text)
cut_last c [] = none
cut_last c (x ∷ s) = elim (cut_last c s) [
  | none ↦ if x == c then some ([], s) else none
  | some (l, r) ↦ some (x ∷ l, r)
]

pub split_epoch : Text → Text × Text
split_epoch v = elim (cut_first b':' v) [
  | none ↦ (codes "0", v)
  | some (epoch, rest) ↦ (epoch, rest)
]

pub split_upstream_revision : Text → Text × Text
split_upstream_revision v = elim (cut_last b'-' v) [
  | none ↦ (v, [])
  | some (upstream, revision) ↦ (upstream, revision)
]

abbrev pub is_digit : ℕ → Bool
is_digit c = leb b'0' c && leb c b'9'

abbrev pub is_letter : ℕ → Bool
is_letter c = leb b'a' c && leb c b'z' || leb b'A' c && leb c b'Z'

pub char_order : ℕ → ℤ
char_order c =
    if c == b'~'
    then negsuc 0
    else if c == 0
    then pos 0
    else if is_letter c
    then pos c
    else pos (c + 256)

abbrev pub compare_order : ℤ → ℤ → Comparison
compare_order x y = if ltb_ℤ x y then less else if ltb_ℤ y x then greater else equal

-- the loop over `k`, with the sentinel 0 past the end of the shorter run
pub compare_non_digit_run : Text → Text → Comparison
compare_non_digit_run [] [] = equal
compare_non_digit_run (x ∷ a) [] =
    or_then (compare_order (char_order x) (char_order 0)) (compare_non_digit_run a [])
compare_non_digit_run [] (y ∷ b) =
    or_then (compare_order (char_order 0) (char_order y)) (compare_non_digit_run [] b)
compare_non_digit_run (x ∷ a) (y ∷ b) =
    or_then (compare_order (char_order x) (char_order y)) (compare_non_digit_run a b)

-- `strings.TrimLeft(a, "0")`
abbrev pub trim_zeros : Text → Text
trim_zeros [] = []
trim_zeros (x ∷ a) = let rest = trim_zeros a in if x == b'0' then rest else x ∷ a

-- the comparison of two runs without leading zeros
abbrev pub compare_trimmed : Text → Text → Comparison
compare_trimmed a b =
    if ltb (length a) (length b)
    then less
    else if ltb (length b) (length a)
    then greater
    else if text_ltb a b
    then less
    else if text_ltb b a
    then greater
    else equal

pub compare_digit_run : Text → Text → Comparison
compare_digit_run a b = compare_trimmed (trim_zeros a) (trim_zeros b)

-- the bytes before the first digit, and from there on
abbrev pub non_digits : Text → Text
non_digits [] = []
non_digits (x ∷ s) = let rest = non_digits s in if is_digit x then [] else x ∷ rest

abbrev pub from_digit : Text → Text
from_digit [] = []
from_digit (x ∷ s) = let rest = from_digit s in if is_digit x then x ∷ s else rest

-- the bytes before the first that is not a digit, and from there on
abbrev pub digits : Text → Text
digits [] = []
digits (x ∷ s) = let rest = digits s in if is_digit x then x ∷ rest else []

abbrev pub from_non_digit : Text → Text
from_non_digit [] = []
from_non_digit (x ∷ s) = let rest = from_non_digit s in if is_digit x then rest else x ∷ s

-- one round of the loop, with what the rounds after it answer
abbrev pub compare_round : (Text → Text → Comparison) → Text → Text → Comparison
compare_round next a b =
    let a' = from_digit a in
    let b' = from_digit b in
    or_then (compare_non_digit_run (non_digits a) (non_digits b)) (
      or_then (compare_digit_run (digits a') (digits b'))
        (next (from_non_digit a') (from_non_digit b')))

pub compare_loop : ℕ → Text → Text → Comparison
compare_loop fuel [] [] = equal
compare_loop zero a b = equal
compare_loop (suc fuel) a b = compare_round (compare_loop fuel) a b

pub compare_version_part : Text → Text → Comparison
unfolding compare_loop
compare_version_part a b = compare_loop (length a + length b) a b

pub compare : Text → Text → Comparison
unfolding split_epoch split_upstream_revision compare_digit_run compare_version_part
compare a b =
    let (epoch_a, rest_a) = split_epoch a in
    let (epoch_b, rest_b) = split_epoch b in
    let (upstream_a, revision_a) = split_upstream_revision rest_a in
    let (upstream_b, revision_b) = split_upstream_revision rest_b in
    or_then (compare_digit_run epoch_a epoch_b) (
      or_then (compare_version_part upstream_a upstream_b)
        (compare_version_part revision_a revision_b))
