-- ===== src/Base/Text.antt =====
-- Go's strings: sequences of bytes, compared as Go compares them.
use Prim.Native.Char.{code}
use Prim.Native.String.{String}
use bitacora.Base.{ℕ, ◌≡◌, Bool, true, false, ◌&&◌, List, [], ◌∷◌, arith, ltb, ◌==◌, if◌then◌else◌}

abbrev pub Text : Type 0
Text = List ℕ

abbrev pub codes : String → Text
codes String.[] = []
codes (String.◌∷◌ c s) = code c ∷ codes s

-- `s < t` on strings
abbrev pub text_ltb : Text → Text → Bool
text_ltb s [] = false
text_ltb [] (y ∷ t) = true
text_ltb (x ∷ s) (y ∷ t) =
    let rest = text_ltb s t in if ltb x y then true else if ltb y x then false else rest

-- `strings.Contains(s, c)` for a single byte
abbrev pub contains_byte : ℕ → Text → Bool
contains_byte c [] = false
contains_byte c (x ∷ s) = if x == c then true else contains_byte c s

-- `strings.HasPrefix(s, p)`
abbrev pub has_prefix : Text → Text → Bool
has_prefix s [] = true
has_prefix [] (y ∷ p) = false
has_prefix (x ∷ s) (y ∷ p) = x == y && has_prefix s p

pub text_ltb_irrefl : (s : Text) → text_ltb s s ≡ false
text_ltb_irrefl [] = ground arith
text_ltb_irrefl (x ∷ s) = ground (arith, text_ltb_irrefl s)

pub text_ltb_asymm : (s t : Text) → text_ltb s t ≡ true → text_ltb t s ≡ false
text_ltb_asymm s [] h = cc
text_ltb_asymm [] (y ∷ t) h = ground arith
text_ltb_asymm (x ∷ s) (y ∷ t) h = ground (arith, text_ltb_asymm s t)

pub text_ltb_antisymm : (s t : Text) → text_ltb s t ≡ false → text_ltb t s ≡ false → s ≡ t
text_ltb_antisymm [] [] h k = ground arith
text_ltb_antisymm [] (y ∷ t) h k = cc
text_ltb_antisymm (x ∷ s) [] h k = cc
text_ltb_antisymm (x ∷ s) (y ∷ t) h k = ground (arith, text_ltb_antisymm s t)

pub text_ltb_trans :
    (s t u : Text) → text_ltb s t ≡ true → text_ltb t u ≡ true → text_ltb s u ≡ true
text_ltb_trans s t [] h k = ground arith
text_ltb_trans s [] (z ∷ u) h k = ground arith
text_ltb_trans [] (y ∷ t) (z ∷ u) h k = ground arith
text_ltb_trans (x ∷ s) (y ∷ t) (z ∷ u) h k = ground (arith, text_ltb_trans s t u)
