-- ===== src/Blackbox/Codec.antt =====
-- encoding/binary in little-endian order, for a struct of unsigned integers and arrays of them. A
-- signed integer or a float is its bit pattern. A layout says for each field how many bytes an
-- element has and how many elements there are.
use bitacora.Base.{
  ℕ, zero, suc, ◌+◌, ◌*◌, ◌/◌, ◌%◌, ◌<◌, ◌≡◌, refl, ap, ◌∙◌, sym, List, [], ◌∷◌, ◌++◌, append_assoc,
  arith, length, length-append, take, drop, All,
}
use mathlib.Core.Path.{ap₂}
use bitacora.Base.Text.{Text}

le : ℕ → ℕ → Text
le zero n = []
le (suc w) n = n % 256 ∷ le w (n / 256)

from_le : Text → ℕ
from_le [] = 0
from_le (b ∷ s) = b + 256 * from_le s

-- the number of values of that many bytes
abbrev pub byte_bound : ℕ → ℕ
byte_bound zero = 1
byte_bound (suc w) = 256 * byte_bound w

abbrev pub Layout : Type 0
Layout = List (ℕ × ℕ)

put_all : ℕ → List ℕ → Text
unfolding le
put_all w [] = []
put_all w (v ∷ vs) = le w v ++ put_all w vs

get_all : ℕ → ℕ → Text → List ℕ
unfolding from_le
get_all w zero s = []
get_all w (suc n) s = from_le (take w s) ∷ get_all w n (drop w s)

-- the bytes past that many elements
pub skip : ℕ → ℕ → Text → Text
skip w zero s = s
skip w (suc n) s = skip w n (drop w s)

pub encode_fields : Layout → List (List ℕ) → Text
unfolding put_all
encode_fields [] fs = []
encode_fields (p ∷ l) [] = []
encode_fields (p ∷ l) (f ∷ fs) = put_all p.0 f ++ encode_fields l fs

pub decode_fields : Layout → Text → List (List ℕ)
unfolding get_all skip
decode_fields [] s = []
decode_fields ((w, n) ∷ l) s = get_all w n s ∷ decode_fields l (skip w n s)

abbrev pub times : ℕ → ℕ → ℕ
times zero w = 0
times (suc n) w = w + times n w

unfoldable pub size_of : Layout → ℕ
size_of [] = 0
size_of ((w, n) ∷ l) = times n w + size_of l

-- the fields have the layout's lengths, and each value its width
abbrev pub Fits : Layout → List (List ℕ) → Type 0
Fits [] [] = Unit
Fits [] (f ∷ fs) = ⊥
Fits (p ∷ l) [] = ⊥
Fits ((w, n) ∷ l) (f ∷ fs) = (length f ≡ n) × All (λ v. v < byte_bound w) f × Fits l fs

from_le-le : (w n : ℕ) → n < byte_bound w → from_le (le w n) ≡ n
unfolding le from_le
from_le-le zero n h = omega arith
from_le-le (suc w) n h = let e = from_le-le w (n / 256) (omega arith) in rw e (omega arith)

length-le : (w n : ℕ) → length (le w n) ≡ w
unfolding le
length-le zero n = refl
length-le (suc w) n = ap suc (length-le w (n / 256))

pub take-prefix : (s t : Text) → take (length s) (s ++ t) ≡ s
take-prefix [] t = refl
take-prefix (x ∷ s) t = ap (◌∷◌ x) (take-prefix s t)

pub drop-prefix : (s t : Text) → drop (length s) (s ++ t) ≡ t
drop-prefix [] t = refl
drop-prefix (x ∷ s) t = drop-prefix s t

take-le : (w n : ℕ) (t : Text) → take w (le w n ++ t) ≡ le w n
take-le w n t = ap (λ k. take k (le w n ++ t)) (sym (length-le w n)) ∙ take-prefix (le w n) t

drop-le : (w n : ℕ) (t : Text) → drop w (le w n ++ t) ≡ t
drop-le w n t = ap (λ k. drop k (le w n ++ t)) (sym (length-le w n)) ∙ drop-prefix (le w n) t

get_all-put_all :
    (w : ℕ) (vs : List ℕ) (t : Text)
    → All (λ v. v < byte_bound w) vs
    → get_all w (length vs) (put_all w vs ++ t) ≡ vs
unfolding get_all put_all
get_all-put_all w [] t h = refl
get_all-put_all w (v ∷ vs) t h =
    rw
      (
        append_assoc (le w v) (put_all w vs) t,
        take-le w v (put_all w vs ++ t),
        drop-le w v (put_all w vs ++ t),
      )
      (ap₂ ◌∷◌ (from_le-le w v h.0) (get_all-put_all w vs t h.1))

skip-put_all : (w : ℕ) (vs : List ℕ) (t : Text) → skip w (length vs) (put_all w vs ++ t) ≡ t
unfolding skip put_all
skip-put_all w [] t = refl
skip-put_all w (v ∷ vs) t =
    ap (λ s. skip w (length vs) s)
      (ap (drop w) (append_assoc (le w v) (put_all w vs) t) ∙ drop-le w v (put_all w vs ++ t))
    ∙ skip-put_all w vs t

-- what was encoded is decoded again, whatever bytes stand behind it
pub decode_fields-encode_fields :
    (l : Layout) (fs : List (List ℕ)) (t : Text)
    → Fits l fs
    → decode_fields l (encode_fields l fs ++ t) ≡ fs
unfolding decode_fields encode_fields
decode_fields-encode_fields [] [] t h = refl
decode_fields-encode_fields [] (f ∷ fs) t h = absurd h
decode_fields-encode_fields (p ∷ l) [] t h = absurd h
decode_fields-encode_fields ((w, n) ∷ l) (f ∷ fs) t h =
    rw (append_assoc (put_all w f) (encode_fields l fs) t, sym h.0)
      (ap₂ ◌∷◌ (get_all-put_all w f (encode_fields l fs ++ t) h.1) (
        ap (decode_fields l) (skip-put_all w f (encode_fields l fs ++ t))
        ∙ decode_fields-encode_fields l fs t h.2))

length-put_all : (w : ℕ) (vs : List ℕ) → length (put_all w vs) ≡ times (length vs) w
unfolding put_all
length-put_all w [] = refl
length-put_all w (v ∷ vs) =
    omega (arith, length-append (le w v) (put_all w vs), length-le w v, length-put_all w vs)

pub length-encode_fields :
    (l : Layout) (fs : List (List ℕ)) → Fits l fs → length (encode_fields l fs) ≡ size_of l
unfolding encode_fields size_of
length-encode_fields [] [] h = refl
length-encode_fields [] (f ∷ fs) h = absurd h
length-encode_fields (p ∷ l) [] h = absurd h
length-encode_fields ((w, n) ∷ l) (f ∷ fs) h = rw (sym h.0) (
    omega (
      arith,
      length-append (put_all w f) (encode_fields l fs),
      length-put_all w f,
      length-encode_fields l fs h.2,
    ))
