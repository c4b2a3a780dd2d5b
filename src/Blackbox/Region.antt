-- ===== src/Blackbox/Region.antt =====
-- A region of equal slots behind a header: reading and writing one.
use bitacora.Base.{
  ℕ, suc, ◌+◌, ◌*◌, ◌≡◌, refl, ap, ◌∙◌, sym, List, [], ◌∷◌, ◌++◌, append_assoc, arith, length,
  length-append, take, drop, All, concat,
}
use bitacora.Base.Text.{Text}
use bitacora.Blackbox.Codec.{take-prefix, drop-prefix}
use bitacora.Blackbox.Sample.{sample_encoded_size}
use bitacora.Blackbox.Recorder.{splice}

-- each slot has the size of a sample
abbrev pub IsSlots : List Text → Type 0
IsSlots slots = All (λ b. length b ≡ sample_encoded_size) slots

drop_past : (s t : Text) (n : ℕ) → drop (length s + n) (s ++ t) ≡ drop n t
drop_past [] t n = let e : 0 + n ≡ n = omega arith in rw e refl
drop_past (x ∷ s) t n =
    let e : suc (length s) + n ≡ suc (length s + n) = omega arith in rw e (drop_past s t n)

take_past : (s t : Text) (n : ℕ) → take (length s + n) (s ++ t) ≡ s ++ take n t
take_past [] t n = let e : 0 + n ≡ n = omega arith in rw e refl
take_past (x ∷ s) t n =
    let e : suc (length s) + n ≡ suc (length s + n) = omega arith in
    rw e (ap (◌∷◌ x) (take_past s t n))

pub splice_past :
    (s t bytes : Text) (n : ℕ) → splice (length s + n) bytes (s ++ t) ≡ s ++ splice n bytes t
splice_past s t bytes n =
    let e : length s + n + length bytes ≡ length s + (n + length bytes) = omega arith in
    rw (e, take_past s t n, drop_past s t (n + length bytes)) (append_assoc s (take n t) _)

pub splice_front :
    (s t bytes : Text) → length bytes ≡ length s → splice 0 bytes (s ++ t) ≡ bytes ++ t
splice_front s t bytes h =
    let e : 0 + length bytes ≡ length s = omega (arith, h) in rw (e, drop-prefix s t) refl

-- writing the slot behind those of `before`
pub splice-concat :
    (before : List Text) (b bytes : Text) (after : List Text)
    → IsSlots before
    → length b ≡ sample_encoded_size
    → length bytes ≡ sample_encoded_size
    → splice (length before * sample_encoded_size) bytes (concat (before ++ b ∷ after))
      ≡ concat (before ++ bytes ∷ after)
splice-concat [] b bytes after h hb hy = splice_front b (concat after) bytes (hy ∙ sym hb)
splice-concat (x ∷ before) b bytes after h hb hy =
    let e : length (x ∷ before) * sample_encoded_size
        ≡ length x + length before * sample_encoded_size =
      omega (arith, h.0) in
    ap (λ n. splice n bytes (concat (x ∷ (before ++ b ∷ after)))) e
    ∙ splice_past x (concat (before ++ b ∷ after)) bytes (length before * sample_encoded_size)
    ∙ ap (λ l. x ++ l) (splice-concat before b bytes after h.1 hb hy)

-- reading the slot behind those of `before`
read-concat :
    (before : List Text) (b : Text) (after : List Text)
    → IsSlots before
    → length b ≡ sample_encoded_size
    → take sample_encoded_size
        (drop (length before * sample_encoded_size) (concat (before ++ b ∷ after)))
      ≡ b
read-concat [] b after h hb =
    ap (λ n. take n (b ++ concat after)) (sym hb) ∙ take-prefix b (concat after)
read-concat (x ∷ before) b after h hb =
    let e : length (x ∷ before) * sample_encoded_size
        ≡ length x + length before * sample_encoded_size =
      omega (arith, h.0) in
    ap (λ n. take sample_encoded_size (drop n (concat (x ∷ (before ++ b ∷ after))))) e
    ∙ ap (take sample_encoded_size)
        (drop_past x (concat (before ++ b ∷ after)) (length before * sample_encoded_size))
    ∙ read-concat before b after h.1 hb

pub length-concat :
    (slots : List Text) → IsSlots slots → length (concat slots) ≡ length slots * sample_encoded_size
length-concat [] h = refl
length-concat (x ∷ slots) h =
    omega (arith, length-append x (concat slots), h.0, length-concat slots h.1)

-- the same behind a header
pub read_behind :
    (header : Text) (before : List Text) (b : Text) (after : List Text)
    → IsSlots before
    → length b ≡ sample_encoded_size
    → take sample_encoded_size (
        drop
          (length header + length before * sample_encoded_size)
          (header ++ concat (before ++ b ∷ after)))
      ≡ b
read_behind header before b after h hb =
    ap (take sample_encoded_size)
      (drop_past header (concat (before ++ b ∷ after)) (length before * sample_encoded_size))
    ∙ read-concat before b after h hb
