-- ===== src/Base/Numbers.antt =====
-- Numbers and fields in texts: the parts of `strconv` and `strings` that the parsers use, on ASCII.
use bitacora.Base.{
  ℕ, suc, ◌+◌, ◌-◌, ◌*◌, ◌^◌, ◌/◌, ◌%◌, Bool, true, false, ◌&&◌, ◌||◌, Option, none, some, List, [],
  ◌∷◌, leb, ltb, ◌==◌, if◌then◌else◌, zero,
}
use bitacora.Base.Int.{ℤ, pos, negsuc, sub_ℕ}
use bitacora.Base.Text.{Text}

-- the value of digits, behind those read already; `none` at anything else
unfoldable pub digits_value : ℕ → Text → Option ℕ
digits_value n [] = some n
digits_value n (c ∷ s) =
    let rest = digits_value (n * 10 + (c - b'0')) s in
    if leb b'0' c && leb c b'9' then rest else none

abbrev pub unsigned : Text → Option ℕ
unsigned [] = none
unsigned (c ∷ s) = digits_value 0 (c ∷ s)

abbrev pub in_int64 : Bool → Option ℕ → Option ℤ
in_int64 negative none = none
in_int64 true (some n) = if leb n (2 ^ 63) then some (sub_ℕ 0 n) else none
in_int64 false (some n) = if ltb n (2 ^ 63) then some (pos n) else none

-- `strconv.Atoi(s)`; `none` is an error
unfoldable pub atoi : Text → Option ℤ
unfolding digits_value
atoi [] = none
atoi (c ∷ s) =
    if c == b'-'
    then in_int64 true (unsigned s)
    else if c == b'+'
    then in_int64 false (unsigned s)
    else in_int64 false (unsigned (c ∷ s))

abbrev pub is_space : ℕ → Bool
is_space c = c == b' ' || leb 9 c && leb c 13

-- leading spaces dropped
abbrev pub trim_left : Text → Text
trim_left [] = []
trim_left (c ∷ s) = let rest = trim_left s in if is_space c then rest else c ∷ s

-- trailing spaces dropped
abbrev pub trim_right : Text → Text
trim_right [] = []
trim_right (c ∷ s) =
    let rest = trim_right s in
    elim rest [ [] ↦ if is_space c then [] else c ∷ [] | d ∷ t ↦ c ∷ d ∷ t ]

-- `strings.TrimSpace(s)`
unfoldable pub trim_space : Text → Text
trim_space s = trim_right (trim_left s)

-- the word that ends before the text, and the words behind it
abbrev pub words : Text → Text × List Text
words [] = ([], [])
words (c ∷ s) =
    let (w, ws) = words s in
    if is_space c then ([], elim w [ [] ↦ ws | d ∷ t ↦ (d ∷ t) ∷ ws ]) else (c ∷ w, ws)

-- `strings.Fields(s)`
unfoldable pub text_fields : Text → List Text
text_fields s = let (w, ws) = words s in elim w [ [] ↦ ws | d ∷ t ↦ (d ∷ t) ∷ ws ]

-- what follows the last of a byte: `s[strings.LastIndex(s, c)+1:]`; `none` without one
unfoldable pub after_last : ℕ → Text → Option Text
after_last c [] = none
after_last c (x ∷ s) =
    let rest = after_last c s in
    elim rest [ some t ↦ some t | none ↦ if x == c then some s else none ]

-- the pieces between separators: `strings.Split(s, sep)` for a single byte
unfoldable pub split : ℕ → Text → List Text
split c [] = [] ∷ []
split c (x ∷ s) =
    let rest = split c s in
    if x == c then [] ∷ rest else elim rest [ [] ↦ (x ∷ []) ∷ [] | e ∷ es ↦ (x ∷ e) ∷ es ]

-- `strings.Cut(s, sep)` for a single byte: what is before and behind the first one
unfoldable pub cut : ℕ → Text → Option (Text × Text)
cut c [] = none
cut c (x ∷ s) =
    let rest = cut c s in
    if x == c then some ([], s) else elim rest [ none ↦ none | some p ↦ some (x ∷ p.0, p.1) ]

-- the decimal digits of a number, for fuel above it
abbrev digits_of : ℕ → ℕ → Text → Text
digits_of zero n s = s
digits_of (suc k) n s =
    let d = (b'0' + n % 10) ∷ s in let more = digits_of k (n / 10) d in if ltb n 10 then d else more

-- `fmt.Sprintf("%d", n)` of an int64
unfoldable pub show_int : ℤ → Text
show_int (pos n) = digits_of 20 n []
show_int (negsuc n) = b'-' ∷ digits_of 20 (n + 1) []
