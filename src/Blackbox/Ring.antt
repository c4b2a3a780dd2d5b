-- ===== src/Blackbox/Ring.antt =====
-- The file of a recorder is a ring of the last samples.
pub mod Step
pub mod Dumping
pub mod Opening
use native.Mathlib.Nat.{mod-lt, mod-eq_of_lt, mod_self, suc-mod}
use bitacora.Base.{
  ℕ, zero, suc, ◌+◌, ◌-◌, ◌*◌, ◌%◌, ◌^◌, ◌≤◌, ◌<◌, ◌≡◌, refl, ap, ◌∙◌, sym, ◌⊎◌, inl, inr, List, [],
  ◌∷◌, ◌++◌, append_assoc, append-nil, arith, length, length-append, length-drop, take, drop, All,
  All-append, concat, replicate, map,
}
use mathlib.Core.Path.{ap₂}
use bitacora.Base.Text.{Text}
use bitacora.Blackbox.Header.{header_size, header_with, encode_header, length-encode_header}
use bitacora.Blackbox.Sample.{
  Sample, IsSample, sample_encoded_size, encode_sample, length-encode_sample,
}
use bitacora.Blackbox.Recorder.{Recorder, splice, record_sample, write_header, record_all}
use bitacora.Blackbox.Region.{IsSlots, splice_past, splice_front, splice-concat}

abbrev pub header_bytes : ℕ → ℕ → Text
header_bytes cap n = encode_header (header_with sample_encoded_size cap n)

-- the recorder whose slots are these, after that many samples
abbrev pub with_slots : ℕ → ℕ → List Text → Recorder
with_slots cap n slots = record {
  region = header_bytes cap n ++ concat slots;
  capacity = cap;
  write_index = n;
}

abbrev pub encoded : List Sample → List Text
encoded = map encode_sample

pub encoded-IsSlots : (ss : List Sample) → All IsSample ss → IsSlots (encoded ss)
encoded-IsSlots [] h = tt
encoded-IsSlots (s ∷ ss) h = (length-encode_sample s h.0, encoded-IsSlots ss h.1)

pub length-header_bytes :
    (cap n : ℕ) → cap < 2 ^ 32 → n < 2 ^ 64 → length (header_bytes cap n) ≡ header_size
length-header_bytes cap n hc hn = length-encode_header sample_encoded_size cap n (omega arith) hc hn

pub record_sample_lem :
    (cap n : ℕ) (before : List Text) (b : Text) (after : List Text) (s : Sample)
    → cap < 2 ^ 32
    → n + 1 < 2 ^ 64
    → n % cap ≡ length before
    → IsSlots before
    → length b ≡ sample_encoded_size
    → IsSample s
    → record_sample s (with_slots cap n (before ++ b ∷ after))
      ≡ with_slots cap (n + 1) (before ++ encode_sample s ∷ after)
unfolding record_sample write_header
record_sample_lem cap n before b after s hc hn pos hb b_size hs =
    let old = header_bytes cap n in
    let new = header_bytes cap (n + 1) in
    let old_size = length-header_bytes cap n hc (omega arith) in
    let new_size = length-header_bytes cap (n + 1) hc hn in
    let written : splice (header_size + length before * sample_encoded_size) (encode_sample s)
          (old ++ concat (before ++ b ∷ after))
        ≡ old ++ concat (before ++ encode_sample s ∷ after) =
      ap
        (λ k.
          splice (k + length before * sample_encoded_size) (encode_sample s)
            (old ++ concat (before ++ b ∷ after)))
        (sym old_size)
      ∙ splice_past old (concat (before ++ b ∷ after)) (encode_sample s)
          (length before * sample_encoded_size)
      ∙ ap (λ l. old ++ l)
          (splice-concat before b (encode_sample s) after hb b_size (length-encode_sample s hs)) in
    let headed : splice 0 new (old ++ concat (before ++ encode_sample s ∷ after))
        ≡ new ++ concat (before ++ encode_sample s ∷ after) =
      splice_front old (concat (before ++ encode_sample s ∷ after)) new (new_size ∙ sym old_size) in
    rw (pos, mod-eq_of_lt hn, written, headed) refl

-- fewer samples than slots so far
pub record Filling (cap : ℕ) (ss : List Sample) (slots : List Text) : Type 0 where
  pub blanks : List Text
  pub layout : slots ≡ encoded ss ++ blanks
  pub sized : IsSlots blanks
  pub counted : length ss + length blanks ≡ cap
  pub room : length ss < cap

-- the newest samples stand before the oldest that are left
pub record Wrapped (cap : ℕ) (ss : List Sample) (slots : List Text) : Type 0 where
  pub newer : List Sample
  pub older : List Sample
  pub layout : slots ≡ encoded newer ++ encoded older
  pub valid_newer : All IsSample newer
  pub valid_older : All IsSample older
  pub counted : length newer + length older ≡ cap
  pub latest : drop (length ss - cap) ss ≡ older ++ newer
  pub position : length ss % cap ≡ length newer
  pub behind : length newer < cap
  pub full : cap ≤ length ss

abbrev pub Ring : ℕ → List Sample → List Text → Type 0
Ring cap ss slots = Filling cap ss slots ⊎ Wrapped cap ss slots

pub drop_snoc :
    {A : Type 0}
    → (n : ℕ) (xs : List A) (x : A) → n ≤ length xs
    → drop n (xs ++ x ∷ []) ≡ drop n xs ++ x ∷ []
drop_snoc zero xs x h = refl
drop_snoc (suc n) [] x h = absurd (omega arith)
drop_snoc (suc n) (y ∷ xs) x h = drop_snoc n xs x (omega arith)

pub drop_next :
    {A : Type 0}
    → (n : ℕ) (xs : List A) (y : A) (ys : List A) → drop n xs ≡ y ∷ ys
    → drop (suc n) xs ≡ ys
drop_next zero [] y ys h = cc
drop_next zero (x ∷ xs) y ys h = cc
drop_next (suc n) [] y ys h = cc
drop_next (suc n) (x ∷ xs) y ys h = drop_next n xs y ys h

pub map-append_one :
    (ss : List Sample) (s : Sample) → encoded (ss ++ s ∷ []) ≡ encoded ss ++ encode_sample s ∷ []
map-append_one [] s = refl
map-append_one (x ∷ ss) s = ap (◌∷◌ (encode_sample x)) (map-append_one ss s)

pub length-encoded : (ss : List Sample) → length (encoded ss) ≡ length ss
length-encoded [] = refl
length-encoded (x ∷ ss) = ap suc (length-encoded ss)
