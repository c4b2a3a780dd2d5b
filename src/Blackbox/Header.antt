-- ===== src/Blackbox/Header.antt =====
-- internal/blackbox/header.go: the preamble of the file.
use bitacora.Base.{
  ℕ, ◌+◌, ◌<◌, ◌^◌, ◌≡◌, refl, ap, ◌∙◌, sym, false, not, Option, none, some, List, [], ◌∷◌, ◌++◌,
  arith, length, length-append, take, replicate, if◌then◌else◌, ltb, ◌==◌,
}
use bitacora.Base.Text.{Text, codes}
use bitacora.Base.Eq.{list_Eq, nat_Eq, ◌≟◌}
use bitacora.Blackbox.Codec.{
  Layout, encode_fields, decode_fields, Fits, decode_fields-encode_fields, length-encode_fields,
  size_of, take-prefix,
}

abbrev pub magic : Text
magic = codes "BTCRBLKB"

abbrev pub format_version : ℕ
format_version = 1

abbrev pub header_size : ℕ
header_size = 64

pub record Header : Type 0 where
  pub magic_bytes : Text
  pub version : ℕ
  pub sample_size : ℕ
  pub capacity : ℕ
  pub write_index : ℕ

abbrev pub header_layout : Layout
header_layout = (1, 8) ∷ (4, 1) ∷ (4, 1) ∷ (4, 1) ∷ (4, 1) ∷ (8, 1) ∷ []

-- the fourth number is the padding, which is written as 0
abbrev pub fields_of : Header → List (List ℕ)
fields_of h =
    h.magic_bytes
    ∷ (h.version ∷ [])
    ∷ (h.sample_size ∷ [])
    ∷ (h.capacity ∷ [])
    ∷ (0 ∷ [])
    ∷ (h.write_index ∷ [])
    ∷ []

pub encode_header : Header → Text
encode_header h = encode_fields header_layout (fields_of h) ++ replicate 32 0

abbrev pub header_of : List (List ℕ) → Option Header
header_of (m ∷ (v ∷ []) ∷ (s ∷ []) ∷ (c ∷ []) ∷ (p ∷ []) ∷ (i ∷ []) ∷ []) =
    some (record { magic_bytes = m; version = v; sample_size = s; capacity = c; write_index = i })
header_of _ = none

abbrev pub checked : Header → Option Header
checked h =
    if not (h.magic_bytes ≟ magic)
    then none
    else if not (h.version == format_version)
    then none
    else some h

-- `none` is an error: too short, not a blackbox file, or of another version
pub decode_header : Text → Option Header
decode_header raw =
    if ltb (length raw) header_size
    then none
    else elim (header_of (decode_fields header_layout (take header_size raw))) [
      | none ↦ none
      | some h ↦ checked h
    ]

-- the header that this build writes
abbrev pub header_with : ℕ → ℕ → ℕ → Header
header_with sample_size capacity write_index = record {
  magic_bytes = magic;
  version = format_version;
  sample_size = sample_size;
  capacity = capacity;
  write_index = write_index;
}

header-Fits :
    (s c i : ℕ)
    → s < 2 ^ 32
    → c < 2 ^ 32
    → i < 2 ^ 64
    → Fits header_layout (fields_of (header_with s c i))
header-Fits s c i hs hc hi = (
  refl,
  (
    omega arith,
    (
      omega arith,
      (omega arith, (omega arith, (omega arith, (omega arith, (omega arith, (omega arith, tt)))))),
    ),
  ),
  (
    refl,
    (omega arith, tt),
    (refl, (hs, tt), (refl, (hc, tt), (refl, (omega arith, tt), (refl, (hi, tt), tt)))),
  ),
)

pub length-encode_header :
    (s c i : ℕ)
    → s < 2 ^ 32
    → c < 2 ^ 32
    → i < 2 ^ 64
    → length (encode_header (header_with s c i)) ≡ header_size
unfolding encode_header size_of
length-encode_header s c i hs hc hi =
    length-append (encode_fields header_layout (fields_of (header_with s c i))) (replicate 32 0)
    ∙ ap (λ n. n + 32)
        (length-encode_fields header_layout (fields_of (header_with s c i))
          (header-Fits s c i hs hc hi))

decoded :
    (s c i : ℕ)
    → s < 2 ^ 32
    → c < 2 ^ 32
    → i < 2 ^ 64
    → decode_fields header_layout (encode_header (header_with s c i))
      ≡ fields_of (header_with s c i)
unfolding encode_header
decoded s c i hs hc hi =
    decode_fields-encode_fields header_layout (fields_of (header_with s c i)) (replicate 32 0)
      (header-Fits s c i hs hc hi)

-- The header that is written is read back, whatever stands behind it in the file.
pub decode_header-encode_header :
    (s c i : ℕ) (rest : Text)
    → s < 2 ^ 32
    → c < 2 ^ 32
    → i < 2 ^ 64
    → decode_header (encode_header (header_with s c i) ++ rest) ≡ some (header_with s c i)
unfolding decode_header
decode_header-encode_header s c i rest hs hc hi =
    let bytes = encode_header (header_with s c i) in
    let n = length-encode_header s c i hs hc hi in
    let long : ltb (length (bytes ++ rest)) header_size ≡ false =
      rw (length-append bytes rest, n) (ground arith) in
    let front : take header_size (bytes ++ rest) ≡ bytes =
      ap (λ k. take k (bytes ++ rest)) (sym n) ∙ take-prefix bytes rest in
    rw (long, front, decoded s c i hs hc hi) refl
