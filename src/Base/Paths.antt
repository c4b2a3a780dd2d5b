-- ===== src/Base/Paths.antt =====
-- File names: the parts of `strings` and `path/filepath` that the stores use, and dates in paths.
use bitacora.Base.{
  ℕ, ◌+◌, ◌-◌, ◌*◌, ◌/◌, ◌%◌, ◌≡◌, refl, ap, Bool, true, false, not, ◌&&◌, ◌||◌, List, [], ◌∷◌,
  ◌++◌, arith, ltb, ◌==◌, if◌then◌else◌, length, length-append, Bool-cases, inl, inr, sym, ◌∙◌, ◌≢◌,
}
use bitacora.Base.Text.{Text, codes, contains_byte}
use bitacora.Base.Eq.{list_Eq, nat_Eq, ◌≟◌, list_beq_iff}
use bitacora.Base.Time.{Time}

-- `strings.HasSuffix(s, p)`
unfoldable pub has_suffix : Text → Text → Bool
has_suffix [] p = p ≟ []
has_suffix (x ∷ s) p = let rest = has_suffix s p in if (x ∷ s) ≟ p then true else rest

-- `strings.TrimSuffix(s, p)`
unfoldable pub trim_suffix : Text → Text → Text
trim_suffix [] p = []
trim_suffix (x ∷ s) p = let rest = trim_suffix s p in if (x ∷ s) ≟ p then [] else x ∷ rest

-- `filepath.Base(path)` of a path that ends in a name
unfoldable pub base_name : Text → Text
base_name [] = []
base_name (x ∷ s) =
    let rest = base_name s in if contains_byte b'/' s then rest else if x == b'/' then s else x ∷ s

-- `filepath.Join(dir, name)` of a clean directory, not the root, and a single plain name
abbrev pub child : Text → Text → Text
child dir name = dir ++ (b'/' ∷ name)

-- the elements of a path
abbrev pub elements : Text → List Text
elements [] = [] ∷ []
elements (x ∷ s) =
    let rest = elements s in
    if x == b'/' then [] ∷ rest else elim rest [ [] ↦ (x ∷ []) ∷ [] | e ∷ es ↦ (x ∷ e) ∷ es ]

-- one more element on a clean path, whose elements are given last first
abbrev pub push_element : Bool → Text → List Text → List Text
push_element rooted e done =
    if e ≟ [] || e ≟ codes "."
    then done
    else if e ≟ codes ".."
    then elim done [
      | [] ↦ if rooted then [] else e ∷ []
      | d ∷ ds ↦ if d ≟ codes ".." then e ∷ d ∷ ds else ds
    ]
    else e ∷ done

abbrev pub push_elements : Bool → List Text → List Text → List Text
push_elements rooted [] done = done
push_elements rooted (e ∷ es) done = push_elements rooted es (push_element rooted e done)

-- the elements, last first, with slashes between
abbrev pub unite : List Text → Text → Text
unite [] s = s
unite (e ∷ es) [] = unite es e
unite (e ∷ es) (x ∷ s) = unite es (child e (x ∷ s))

-- `filepath.Clean(path)`
unfoldable pub clean : Text → Text
clean [] = codes "."
clean (x ∷ s) =
    let rooted = x == b'/' in
    let s' = unite (push_elements rooted (elements (x ∷ s)) []) [] in
    if rooted then b'/' ∷ s' else if s' ≟ [] then codes "." else s'

-- `fmt.Sprintf("%02d", n)` and `fmt.Sprintf("%04d", n)` of numbers that have no more digits
abbrev pub two_digits : ℕ → Text
two_digits n = (b'0' + n / 10 % 10) ∷ (b'0' + n % 10) ∷ []

abbrev pub four_digits : ℕ → Text
four_digits n = two_digits (n / 100) ++ two_digits (n % 100)

pub record Date : Type 0 where
  pub year : ℕ
  pub month : ℕ
  pub day : ℕ

abbrev pub is_leap : ℕ → Bool
is_leap y = y % 4 == 0 && (not (y % 100 == 0) || y % 400 == 0)

-- the month and day of a day of the year, from the months' lengths
abbrev pub month_of : ℕ → ℕ → List ℕ → ℕ × ℕ
month_of m d [] = (m, d + 1)
month_of m d (n ∷ ns) =
    let rest = month_of (m + 1) (d - n) ns in if ltb d n then (m, d + 1) else rest

abbrev pub month_lengths : Bool → List ℕ
month_lengths leap =
    31 ∷ (if leap then 29 else 28) ∷ 31 ∷ 30 ∷ 31 ∷ 30 ∷ 31 ∷ 31 ∷ 30 ∷ 31 ∷ 30 ∷ 31 ∷ []

-- the last of 4 parts of a period has one day more
abbrev part_of : ℕ → ℕ → ℕ
part_of d n = let k = d / n in if ltb k 4 then k else 3

-- `t.UTC()`'s Year, Month and Day
unfoldable pub date_of : Time → Date
date_of t =
    let days = t / 86400000000000 in
    let d = days % 146097 in
    let c = part_of d 36524 in
    let e = d - c * 36524 in
    let f = e % 1461 in
    let g = part_of f 365 in
    let y = days / 146097 * 400 + c * 100 + e / 1461 * 4 + g + 1 in
    let md = month_of 1 (f - g * 365) (month_lengths (is_leap y)) in
    record { year = y; month = md.0; day = md.1 }

-- the last byte
unfoldable pub last_byte : ℕ → Text → ℕ
last_byte d [] = d
last_byte d (x ∷ s) = last_byte x s

last_byte-append : (d : ℕ) (s t : Text) (c : ℕ) → last_byte d (s ++ (c ∷ t)) ≡ last_byte c t
unfolding last_byte
last_byte-append d [] t c = refl
last_byte-append d (x ∷ s) t c = last_byte-append x s t c

suffix_last : (d c : ℕ) (s p : Text) → has_suffix s (c ∷ p) ≡ true → last_byte d s ≡ last_byte c p
unfolding has_suffix last_byte
suffix_last d c [] p h = cc
suffix_last d c (x ∷ s) p h = ground (arith, list_beq_iff (x ∷ s) (c ∷ p), suffix_last x c s p)

pub has_suffix-append : (s p : Text) → has_suffix (s ++ p) p ≡ true
unfolding has_suffix
has_suffix-append [] [] = refl
has_suffix-append [] (x ∷ p) = ground (arith, list_beq_iff (x ∷ p) (x ∷ p))
has_suffix-append (x ∷ s) p = ground (arith, has_suffix-append s p)

trim_shorter : (x : ℕ) (s p : Text) → (((x ∷ s) ++ p) ≟ p) ≡ false
trim_shorter x s p = elim (Bool-cases (((x ∷ s) ++ p) ≟ p)) [
  | inr h ↦ h
  | inl h ↦
      let e : (x ∷ s) ++ p ≡ p = (list_beq_iff ((x ∷ s) ++ p) p).0 h in
      let n : length ((x ∷ s) ++ p) ≡ length p = ap length e in
      absurd (omega (arith, n, length-append s p))
]

pub trim_suffix-append : (s p : Text) → trim_suffix (s ++ p) p ≡ s
unfolding trim_suffix
trim_suffix-append [] [] = refl
trim_suffix-append [] (x ∷ p) = ground (arith, list_beq_iff (x ∷ p) (x ∷ p))
trim_suffix-append (x ∷ s) p = ground (arith, trim_shorter x s p, trim_suffix-append s p)

-- Texts that end in different bytes end in different suffixes.
pub has_suffix-differ :
    (s t p : Text) (c d : ℕ)
    → last_byte c t ≢ last_byte d p
    → has_suffix (s ++ (c ∷ t)) (d ∷ p) ≡ false
has_suffix-differ s t p c d h = elim (Bool-cases (has_suffix (s ++ (c ∷ t)) (d ∷ p))) [
  | inr e ↦ e
  | inl e ↦ absurd (h (sym (last_byte-append 0 s t c) ∙ suffix_last 0 d (s ++ (c ∷ t)) p e))
]

contains_byte-append :
    (c : ℕ) (s t : Text) → contains_byte c t ≡ true → contains_byte c (s ++ t) ≡ true
contains_byte-append c [] t h = h
contains_byte-append c (x ∷ s) t h = ground (arith, contains_byte-append c s t h)

base_plain : (s : Text) → contains_byte b'/' s ≡ false → base_name s ≡ s
unfolding base_name
base_plain [] h = refl
base_plain (x ∷ s) h = ground (arith, base_plain s)

pub base_name-child :
    (dir name : Text) → contains_byte b'/' name ≡ false → base_name (child dir name) ≡ name
unfolding base_name
base_name-child [] name h = ground arith
base_name-child (x ∷ s) name h =
    let slash : contains_byte b'/' (child s name) ≡ true =
      contains_byte-append b'/' s (b'/' ∷ name) (ground arith) in
    ground (arith, slash, base_name-child s name h)
