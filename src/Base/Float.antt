-- ===== src/Base/Float.antt =====
-- Go's float64, as its IEEE 754 bit pattern, with the comparisons that the program makes.
use bitacora.Base.{ℕ, ◌*◌, ◌%◌, ◌^◌, Bool, not, ◌&&◌, ltb, if◌then◌else◌}
use bitacora.Base.Int.{ℤ, pos, sub_ℕ, ltb_ℤ}

abbrev pub Float64 : Type 0
Float64 = ℕ

abbrev pub magnitude : Float64 → ℕ
magnitude x = x % 2 ^ 63

-- the exponent is all ones and the fraction is not zero
abbrev pub is_nan : Float64 → Bool
is_nan x = ltb (2047 * 2 ^ 52) (magnitude x)

-- the bit patterns of one sign are ordered as their magnitudes are; both zeros are 0
abbrev pub order : Float64 → ℤ
order x = if ltb x (2 ^ 63) then pos (magnitude x) else sub_ℕ 0 (magnitude x)

-- `x < y`; false if either is not a number
abbrev pub float_lt : Float64 → Float64 → Bool
float_lt x y = not (is_nan x) && (not (is_nan y) && ltb_ℤ (order x) (order y))
