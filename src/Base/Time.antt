-- ===== src/Base/Time.antt =====
-- Go's `time.Time` and `time.Duration`. An instant is the number of nanoseconds since Go's zero
-- time (1 January of year 1), so `IsZero` tests for 0; a duration is an integer of nanoseconds.
use bitacora.Base.{ℕ, ◌+◌, ◌%◌, leb, ◌-◌, ◌^◌, Bool, ltb, ◌==◌, if◌then◌else◌}
use bitacora.Base.Int.{ℤ, pos, negsuc, sub_ℕ, ltb_ℤ, ◌+ℤ◌, ◌-ℤ◌, ◌*ℤ◌}

abbrev pub Time : Type 0
Time = ℕ

abbrev pub Duration : Type 0
Duration = ℤ

abbrev pub max_duration : Duration
max_duration = pos (2 ^ 63 - 1)

abbrev pub min_duration : Duration
min_duration = negsuc (2 ^ 63 - 1)

abbrev pub is_zero : Time → Bool
is_zero t = t == 0

abbrev pub after : Time → Time → Bool
after t u = ltb u t

abbrev pub before : Time → Time → Bool
before t u = ltb t u

-- `t.Sub(u)`: the difference, saturated at the ends of a 64-bit duration
abbrev pub sub : Time → Time → Duration
sub t u =
    let d = sub_ℕ t u in
    if ltb_ℤ max_duration d then max_duration else if ltb_ℤ d min_duration then min_duration else d

-- the sum of two durations, which wraps round at 64 bits
abbrev pub add_duration : Duration → Duration → Duration
add_duration d e =
    let s = d +ℤ e in
    if ltb_ℤ max_duration s
    then s -ℤ pos (2 ^ 64)
    else if ltb_ℤ s min_duration
    then s +ℤ pos (2 ^ 64)
    else s

-- an integer, wrapped round at 64 bits
abbrev pub wrap : ℤ → ℤ
wrap (pos n) = let r = n % 2 ^ 64 in if ltb r (2 ^ 63) then pos r else sub_ℕ r (2 ^ 64)
wrap (negsuc n) = let r = (n + 1) % 2 ^ 64 in if leb r (2 ^ 63) then sub_ℕ 0 r else pos (2 ^ 64 - r)

-- the product of two durations, which wraps round at 64 bits
unfoldable pub mul_duration : Duration → Duration → Duration
mul_duration d e = wrap (d *ℤ e)
