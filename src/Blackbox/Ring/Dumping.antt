-- ===== src/Blackbox/Ring/Dumping.antt =====
-- What the reader finds in a recorder's file.
use native.Mathlib.Nat.{mod-eq_of_lt, mod_self, suc-mod}
use bitacora.Base.{
  ℕ, suc, ◌+◌, ◌-◌, ◌*◌, ◌%◌, ◌^◌, ◌<◌, ◌≡◌, refl, ap, ◌∙◌, sym, inl, inr, false, List, [], ◌∷◌,
  ◌++◌, append_assoc, append-nil, arith, length, length-append, take, drop, All, All-append, concat,
  ltb, ◌==◌, Bool-cases,
}
use bitacora.Base.Text.{Text}
use bitacora.Blackbox.Header.{header_size, header_with, decode_header-encode_header}
use bitacora.Blackbox.Sample.{
  Sample, IsSample, sample_encoded_size, encode_sample, length-encode_sample,
  decode_sample-encode_sample,
}
use bitacora.Blackbox.Recorder.{Recorder}
use bitacora.Blackbox.Reader.{Dumped, ok, put_first, dump_loop, dump_with, dump}
use bitacora.Blackbox.Region.{IsSlots, read_behind, length-concat}
use bitacora.Blackbox.Ring.{
  header_bytes, length-header_bytes, encoded, encoded-IsSlots, Filling, Wrapped, length-encoded,
}
use bitacora.Blackbox.Ring.Step.{Holds}

abbrev put_all_first : List Sample → Dumped → Dumped
put_all_first [] d = d
put_all_first (x ∷ xs) d = put_first x (put_all_first xs d)

put_all_first-ok : (xs ys : List Sample) → put_all_first xs (ok ys) ≡ ok (xs ++ ys)
put_all_first-ok [] ys = refl
put_all_first-ok (x ∷ xs) ys = ap (put_first x) (put_all_first-ok xs ys)

module _ (size n : ℕ) (slots : List Text) (hc : size < 2 ^ 32) (hn : n < 2 ^ 64)
    (sized : IsSlots slots) where
  abbrev raw : Text
  raw = header_bytes size n ++ concat slots

  length-raw : length raw ≡ header_size + length slots * sample_encoded_size
  length-raw =
      length-append (header_bytes size n) (concat slots)
      ∙ omega (arith, length-header_bytes size n hc hn, length-concat slots sized)

  dump_round :
      (before : List Text) (x : Sample) (after : List Text) (start i k : ℕ)
      → slots ≡ before ++ encode_sample x ∷ after
      → IsSlots before
      → IsSample x
      → (start + i) % size ≡ length before
      → dump_loop (header_with sample_encoded_size size n) raw start i (suc k)
        ≡ put_first x (dump_loop (header_with sample_encoded_size size n) raw start (suc i) k)
  unfolding dump_loop
  dump_round before x after start i k split hb hx pos =
      let offset = header_size + length before * sample_encoded_size in
      let counted : length slots ≡ length before + suc (length after) =
        ap length split ∙ length-append before (encode_sample x ∷ after) in
      let fits : ltb (length raw) (offset + sample_encoded_size) ≡ false =
        ground (arith, length-raw, counted) in
      let read =
        ap
          (λ l. take sample_encoded_size (
            drop (header_size + length before * sample_encoded_size)
              (header_bytes size n ++ concat l)))
          split
        ∙ ap
            (λ m. take sample_encoded_size (
              drop (m + length before * sample_encoded_size)
                (header_bytes size n ++ concat (before ++ encode_sample x ∷ after))))
            (sym (length-header_bytes size n hc hn))
        ∙ read_behind (header_bytes size n) before (encode_sample x) after hb
            (length-encode_sample x hx) in
      rw (pos, fits, read, decode_sample-encode_sample x hx) refl

  dump_block :
      (before : List Text) (xs : List Sample) (after : List Text) (start i k : ℕ)
      → slots ≡ before ++ (encoded xs ++ after)
      → length slots ≡ size
      → IsSlots before
      → All IsSample xs
      → (length before < size → (start + i) % size ≡ length before)
      → dump_loop (header_with sample_encoded_size size n) raw start i (length xs + k)
        ≡ put_all_first xs
            (dump_loop (header_with sample_encoded_size size n) raw start (i + length xs) k)
  dump_block before [] after start i k split counted hb hx pos =
      let e : 0 + k ≡ k = omega arith in let e' : i + 0 ≡ i = omega arith in rw (e, e') refl
  dump_block before (x ∷ xs) after start i k split counted hb hx pos =
      let e : suc (length xs) + k ≡ suc (length xs + k) = omega arith in
      let e' : i + suc (length xs) ≡ suc i + length xs = omega arith in
      let room : length before < size = omega (
        arith,
        counted,
        ap length split,
        length-append before (encode_sample x ∷ (encoded xs ++ after)),
      ) in
      let longer : length (before ++ encode_sample x ∷ []) ≡ suc (length before) =
        omega (arith, length-append before (encode_sample x ∷ [])) in
      let next_pos : length (before ++ encode_sample x ∷ []) < size
          → (start + suc i) % size ≡ length (before ++ encode_sample x ∷ []) =
        λ l.
          let a : start + suc i ≡ suc (start + i) = omega arith in
          let small : suc (length before) < size = omega (arith, longer) in
          ap (λ m. m % size) a
          ∙ suc-mod (start + i) size
          ∙ ap (λ m. suc m % size) (pos room)
          ∙ mod-eq_of_lt small
          ∙ sym longer in
      rw (e, e')
        (dump_round before x (encoded xs ++ after) start i (length xs + k) split hb hx.0 (pos room)
          ∙ ap (put_first x) (
              dump_block (before ++ encode_sample x ∷ []) xs after start (suc i) k
                (split ∙ sym (append_assoc before (encode_sample x ∷ []) (encoded xs ++ after)))
                counted
                (All-append (λ b. length b ≡ sample_encoded_size) before (encode_sample x ∷ []) hb
                  (length-encode_sample x hx.0, tt))
                hx.1 next_pos))

abbrev latest : ℕ → List Sample → List Sample
latest size ss = drop (length ss - size) ss

module _ (size : ℕ) (ss : List Sample) (hc : size < 2 ^ 32) (hn : length ss < 2 ^ 64)
    (v : All IsSample ss) where
  dump-Filling :
      (slots : List Text)
      → Filling size ss slots
      → dump_with
          (header_with sample_encoded_size size (length ss))
          (header_bytes size (length ss) ++ concat slots)
        ≡ ok (latest size ss)
  unfolding dump_with dump_loop
  dump-Filling slots f =
      let few : ltb size (length ss) ≡ false = ground (arith, f.room) in
      let sized : IsSlots slots = rw f.layout (
        All-append (λ b. length b ≡ sample_encoded_size) (encoded ss) f.blanks
          (encoded-IsSlots ss v) f.sized) in
      let counted : length slots ≡ size =
        ap length f.layout
        ∙ length-append (encoded ss) f.blanks
        ∙ omega (arith, length-encoded ss, f.counted) in
      let all : length ss ≡ length ss + 0 = omega arith in
      let none_dropped : length ss - size ≡ 0 = omega (arith, f.room) in
      rw (few, none_dropped)
        (ap
            (dump_loop (header_with sample_encoded_size size (length ss))
              (raw size (length ss) slots hc hn sized) 0 0)
            all
          ∙ dump_block size (length ss) slots hc hn sized [] ss f.blanks 0 0 0 f.layout counted tt v
              (λ l. mod-eq_of_lt l)
          ∙ put_all_first-ok ss []
          ∙ ap ok (append-nil ss))

  Wrapped-counted : (slots : List Text) → Wrapped size ss slots → length slots ≡ size
  Wrapped-counted slots w =
      ap length w.layout
      ∙ length-append (encoded w.newer) (encoded w.older)
      ∙ omega (arith, length-encoded w.newer, length-encoded w.older, w.counted)

  Wrapped-IsSlots : (slots : List Text) → Wrapped size ss slots → IsSlots slots
  Wrapped-IsSlots slots w = rw w.layout (
      All-append (λ b. length b ≡ sample_encoded_size) (encoded w.newer) (encoded w.older)
        (encoded-IsSlots w.newer w.valid_newer) (encoded-IsSlots w.older w.valid_older))

  dump_turn :
      (slots : List Text) (w : Wrapped size ss slots) (start written : ℕ)
      → start ≡ length w.newer
      → written ≡ size
      → dump_loop
          (header_with sample_encoded_size size (length ss))
          (header_bytes size (length ss) ++ concat slots)
          start
          0
          written
        ≡ ok (latest size ss)
  unfolding dump_loop
  dump_turn slots w start written at_newer whole =
      let sized = Wrapped-IsSlots slots w in
      let counted = Wrapped-counted slots w in
      let h = header_with sample_encoded_size size (length ss) in
      let bytes = header_bytes size (length ss) ++ concat slots in
      let rounds : written ≡ length w.older + (length w.newer + 0) =
        omega (arith, whole, w.counted) in
      let behind : start + 0 ≡ length (encoded w.newer) =
        omega (arith, at_newer, length-encoded w.newer) in
      let round : start + (0 + length w.older) ≡ size = omega (arith, at_newer, w.counted) in
      let old_split : slots ≡ encoded w.newer ++ (encoded w.older ++ []) =
        w.layout ∙ ap (λ l. encoded w.newer ++ l) (sym (append-nil (encoded w.older))) in
      ap (dump_loop h bytes start 0) rounds
      ∙ dump_block size (length ss) slots hc hn sized (encoded w.newer) w.older [] start 0
          (length w.newer + 0) old_split counted (encoded-IsSlots w.newer w.valid_newer)
          w.valid_older (λ l. ap (λ m. m % size) behind ∙ mod-eq_of_lt l)
      ∙ ap (put_all_first w.older) (
          dump_block size (length ss) slots hc hn sized [] w.newer (encoded w.older) start
            (0 + length w.older) 0 w.layout counted tt w.valid_newer
            (λ l. ap (λ m. m % size) round ∙ mod_self size)
          ∙ put_all_first-ok w.newer []
          ∙ ap ok (append-nil w.newer))
      ∙ put_all_first-ok w.older w.newer
      ∙ ap ok (sym w.latest)

  dump-Wrapped :
      (slots : List Text)
      → Wrapped size ss slots
      → dump_with
          (header_with sample_encoded_size size (length ss))
          (header_bytes size (length ss) ++ concat slots)
        ≡ ok (latest size ss)
  unfolding dump_with
  dump-Wrapped slots w = elim (Bool-cases (ltb size (length ss))) [
    | inl more ↦
        let positive : (size == 0) ≡ false = ground (arith, w.behind) in
        rw (more, positive) (dump_turn slots w (length ss % size) size w.position refl)
    | inr same ↦
        let e : length ss ≡ size = ground (arith, w.full) in
        let start : 0 ≡ length w.newer =
          sym (mod_self size) ∙ ap (λ m. m % size) (sym e) ∙ w.position in
        rw same (dump_turn slots w 0 (length ss) start e)
  ]

  -- The reader finds the last samples, as many as the ring has slots or as there are, oldest first.
  pub dump-Holds : (r : Recorder) → Holds size ss r → dump r.region ≡ ok (latest size ss)
  unfolding dump
  dump-Holds r h =
      ap (λ x. dump x.region) h.bytes
      ∙ rw
          (
            decode_header-encode_header sample_encoded_size size (length ss) (concat h.slots)
                (omega arith) hc hn,
            dump,
          )
          (elim h.ring [ inl f ↦ dump-Filling h.slots f | inr w ↦ dump-Wrapped h.slots w ])
