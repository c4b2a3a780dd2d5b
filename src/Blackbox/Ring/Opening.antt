-- ===== src/Blackbox/Ring/Opening.antt =====
-- What is there after a file is opened, and across restarts.
use bitacora.Base.{
  ℕ, zero, suc, ◌+◌, ◌-◌, ◌*◌, ◌^◌, ◌<◌, ◌≡◌, refl, ap, ◌∙◌, sym, inl, inr, true, false, some, List,
  [], ◌∷◌, ◌++◌, append-nil, arith, length, length-append, take, drop, All, All-append, concat,
  replicate, ltb, ◌==◌, ◌&&◌, if◌then◌else◌,
}
use bitacora.Base.Text.{Text}
use bitacora.Blackbox.Header.{header_size, header_with, decode_header, decode_header-encode_header}
use bitacora.Blackbox.Codec.{take-prefix}
use bitacora.Blackbox.Sample.{Sample, IsSample, sample_encoded_size}
use bitacora.Blackbox.Recorder.{
  Recorder, splice, file_size, resize, prepare_file, write_header, open_recorder, map_file,
  capacity_of, record_all,
}
use bitacora.Blackbox.Reader.{ok, dump}
use bitacora.Blackbox.Region.{IsSlots, splice_front, length-concat}
use bitacora.Blackbox.Ring.{
  header_bytes, length-header_bytes, with_slots, encoded, encoded-IsSlots, Ring, length-encoded,
}
use bitacora.Blackbox.Ring.Step.{Holds, record_all-Holds}
use bitacora.Blackbox.Ring.Dumping.{dump-Holds}

abbrev zeros : ℕ → Text
zeros n = replicate n 0

length-replicate : (n : ℕ) → length (zeros n) ≡ n
length-replicate zero = refl
length-replicate (suc n) = ap suc (length-replicate n)

replicate_plus : (m n : ℕ) → zeros (m + n) ≡ zeros m ++ zeros n
replicate_plus zero n = let e : 0 + n ≡ n = omega arith in rw e refl
replicate_plus (suc m) n =
    let e : suc m + n ≡ suc (m + n) = omega arith in rw e (ap (◌∷◌ 0) (replicate_plus m n))

abbrev blank_slots : ℕ → List Text
blank_slots zero = []
blank_slots (suc n) = replicate sample_encoded_size 0 ∷ blank_slots n

blank_slots-concat : (n : ℕ) → replicate (n * sample_encoded_size) 0 ≡ concat (blank_slots n)
blank_slots-concat zero = refl
blank_slots-concat (suc n) =
    let e : suc n * sample_encoded_size ≡ sample_encoded_size + n * sample_encoded_size =
      omega arith in
    ap (λ k. replicate k 0) e
    ∙ replicate_plus sample_encoded_size (n * sample_encoded_size)
    ∙ ap (λ l. replicate sample_encoded_size 0 ++ l) (blank_slots-concat n)

blank_slots-IsSlots : (n : ℕ) → IsSlots (blank_slots n)
blank_slots-IsSlots zero = tt
blank_slots-IsSlots (suc n) = (length-replicate sample_encoded_size, blank_slots-IsSlots n)

length-blank_slots : (n : ℕ) → length (blank_slots n) ≡ n
length-blank_slots zero = refl
length-blank_slots (suc n) = ap suc (length-blank_slots n)

open_new-Holds : (size : ℕ) → 0 < size → size < 2 ^ 32 → Holds size [] (open_recorder size [])
unfolding open_recorder prepare_file map_file write_header
open_new-Holds size h hc =
    let positive : (size == 0) ≡ false = ground (arith, h) in
    let region : replicate (file_size size) 0
        ≡ replicate header_size 0 ++ concat (blank_slots size) =
      replicate_plus header_size (size * sample_encoded_size)
      ∙ ap (λ l. replicate header_size 0 ++ l) (blank_slots-concat size) in
    record {
      slots = blank_slots size;
      bytes = rw positive (
          ap
            (λ l.
              let r : Recorder = record {
                region = splice 0 (header_bytes size 0) l;
                capacity = size;
                write_index = 0;
              } in
              r)
            region
          ∙ ap
              (λ l. let r : Recorder = record { region = l; capacity = size; write_index = 0 } in r)
              (splice_front (replicate header_size 0) (concat (blank_slots size))
                (header_bytes size 0)
                (length-header_bytes size 0 hc (omega arith)
                  ∙ sym (length-replicate header_size))));
      ring = inl (record {
        blanks = blank_slots size;
        layout = refl;
        sized = blank_slots-IsSlots size;
        counted = omega (arith, length-blank_slots size);
        room = h;
      });
    }

Ring-IsSlots :
    (size : ℕ) (ss : List Sample) (slots : List Text)
    → All IsSample ss
    → Ring size ss slots
    → IsSlots slots
Ring-IsSlots size ss slots v (inl f) = rw f.layout (
    All-append (λ b. length b ≡ sample_encoded_size) (encoded ss) f.blanks (encoded-IsSlots ss v)
      f.sized)
Ring-IsSlots size ss slots v (inr w) = rw w.layout (
    All-append (λ b. length b ≡ sample_encoded_size) (encoded w.newer) (encoded w.older)
      (encoded-IsSlots w.newer w.valid_newer) (encoded-IsSlots w.older w.valid_older))

length-Ring :
    (size : ℕ) (ss : List Sample) (slots : List Text) → Ring size ss slots → length slots ≡ size
length-Ring size ss slots (inl f) =
    ap length f.layout
    ∙ length-append (encoded ss) f.blanks
    ∙ omega (arith, length-encoded ss, f.counted)
length-Ring size ss slots (inr w) =
    ap length w.layout
    ∙ length-append (encoded w.newer) (encoded w.older)
    ∙ omega (arith, length-encoded w.newer, length-encoded w.older, w.counted)

take-all : (s : Text) → take (length s) s ≡ s
take-all [] = refl
take-all (x ∷ s) = ap (◌∷◌ x) (take-all s)

resize_same : (n : ℕ) (s : Text) → length s ≡ n → resize n s ≡ s
resize_same n s e =
    let z : n - length s ≡ 0 = omega (arith, e) in
    rw z (append-nil (take n s) ∙ ap (λ k. take k s) (sym e) ∙ take-all s)

prepare_same :
    (size n : ℕ) (slots : List Text)
    → size < 2 ^ 32
    → n < 2 ^ 64
    → IsSlots slots
    → length slots ≡ size
    → prepare_file size (with_slots size n slots).region ≡ ((with_slots size n slots).region, n)
unfolding prepare_file
prepare_same size n slots hc hn sized counted =
    let header = header_bytes size n in
    let raw = header ++ concat slots in
    let header_length = length-header_bytes size n hc hn in
    let whole : length raw ≡ file_size size =
      length-append header (concat slots)
      ∙ omega (arith, header_length, length-concat slots sized, counted) in
    let long : ltb (length raw) header_size ≡ false = ground (arith, whole) in
    let front : take header_size raw ≡ header =
      ap (λ k. take k raw) (sym header_length) ∙ take-prefix header (concat slots) in
    let decoded : decode_header header ≡ some (header_with sample_encoded_size size n) =
      ap decode_header (sym (append-nil header))
      ∙ decode_header-encode_header sample_encoded_size size n [] (omega arith) hc hn in
    let same : (size == size) ≡ true = ground arith in
    rw (long, front, decoded)
      (ap
          (λ b.
            if b && sample_encoded_size == sample_encoded_size
            then (resize (file_size size) raw, n)
            else (zeros (file_size size), 0))
          same
        ∙ ap (λ l. (l, n)) (resize_same (file_size size) raw whole))

map_same :
    (size n : ℕ) (slots : List Text)
    → map_file size ((with_slots size n slots).region, n) ≡ with_slots size n slots
unfolding map_file write_header
map_same size n slots =
    ap (λ l. let r : Recorder = record { region = l; capacity = size; write_index = n } in r)
      (splice_front (header_bytes size n) (concat slots) (header_bytes size n) refl)

capacity_of_positive : (size : ℕ) → 0 < size → capacity_of size ≡ size
capacity_of_positive size h = ground (arith, h)

-- opening the file again with the same capacity goes on where it was left
reopen :
    (size n : ℕ) (slots : List Text)
    → 0 < size
    → size < 2 ^ 32
    → n < 2 ^ 64
    → IsSlots slots
    → length slots ≡ size
    → open_recorder size (with_slots size n slots).region ≡ with_slots size n slots
unfolding open_recorder
reopen size n slots h hc hn sized counted =
    ap (λ c. map_file c (prepare_file c (with_slots size n slots).region))
      (capacity_of_positive size h)
    ∙ ap (map_file size) (prepare_same size n slots hc hn sized counted)
    ∙ map_same size n slots

-- The black box keeps the last samples: after a new file was opened, any samples were recorded, the
-- file was opened again with the same capacity and more samples were recorded, the reader finds in
-- it the last of all those samples, as many as the capacity or as there are, oldest first. The
-- capacity is positive and a uint32, and fewer than 2^64 samples are recorded.
pub dump-record_all :
    (size : ℕ) (ss ts : List Sample)
    → 0 < size
    → size < 2 ^ 32
    → length ss + length ts < 2 ^ 64
    → All IsSample ss
    → All IsSample ts
    → dump
        (record_all ts (open_recorder size (record_all ss (open_recorder size [])).region)).region
      ≡ ok (drop (length (ss ++ ts) - size) (ss ++ ts))
dump-record_all size ss ts h hc hn vs vt =
    let first : Holds size ss (record_all ss (open_recorder size [])) =
      record_all-Holds size [] ss (open_recorder size []) hc (omega arith) tt vs
        (open_new-Holds size h hc) in
    let again : Holds size ss (open_recorder size (record_all ss (open_recorder size [])).region) =
      record {
        slots = first.slots;
        bytes =
            ap (λ r. open_recorder size r.region) first.bytes
            ∙ reopen size (length ss) first.slots h hc (omega arith)
                (Ring-IsSlots size ss first.slots vs first.ring)
                (length-Ring size ss first.slots first.ring);
        ring = first.ring;
      } in
    dump-Holds size (ss ++ ts) hc (omega (arith, length-append ss ts))
      (All-append IsSample ss ts vs vt)
      (record_all ts (open_recorder size (record_all ss (open_recorder size [])).region))
      (record_all-Holds size ss ts
        (open_recorder size (record_all ss (open_recorder size [])).region) hc hn vs vt again)
