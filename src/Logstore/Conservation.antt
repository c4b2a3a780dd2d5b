-- ===== src/Logstore/Conservation.antt =====
-- internal/logstore/logstore.go: the sections under the mutex, in any interleaving of the goroutines.
use bitacora.Base.{
  ◌≡◌, refl, sym, ap, ◌∙◌, Option, none, some, List, [], ◌∷◌, ◌++◌, append-nil, append_assoc, arith,
  if◌then◌else◌, Bool-cases, inl, inr,
}
use bitacora.Base.Time.{Time}
use bitacora.Base.Map.{lookup, delete, lookup-insert, lookup-delete}
use bitacora.Base.Eq.{list_Eq, nat_Eq, pair_Eq, pair_beq_iff, ◌≟◌}
use bitacora.Schema.Types.{LogLine}
use bitacora.Logstore.Store.{
  BufferKey, Buffer, Store, key_of, grown, buffer_for, add_line, append_locked, take_lines,
  take_found, take_buffer,
}

-- One section under the mutex: Append's of a valid line, or Flush's.
pub data Section : Type 0 where
  accepting : Time → Time → LogLine → Section
  taking : BufferKey → Section

abbrev pub taken_lines : Option (LogLine × List LogLine) → List LogLine
taken_lines none = []
taken_lines (some (l, ls)) = l ∷ ls

-- the buffers taken to be written, in order, and the store afterwards
pub run_sections : List Section → Store → List (BufferKey × List LogLine) × Store
run_sections [] s = ([], s)
run_sections (accepting opened now l ∷ xs) s = run_sections xs (append_locked opened now l s).1
run_sections (taking k ∷ xs) s =
    let t = take_buffer k s in
    let rest = run_sections xs t.1 in ((k, taken_lines t.0) ∷ rest.0, rest.1)

abbrev pub lines_of : Option Buffer → List LogLine
lines_of none = []
lines_of (some b) = b.lines

-- the lines buffered under a key
abbrev pub buffered : BufferKey → Store → List LogLine
buffered k s = lines_of (lookup k s.buffers)

-- of the buffers taken, the lines of a key, in order
abbrev pub taken_of : BufferKey → List (BufferKey × List LogLine) → List LogLine
taken_of k [] = []
taken_of k ((j, ls) ∷ ts) = (if j ≟ k then ls else []) ++ taken_of k ts

-- of the lines accepted, those of a key, in order
abbrev pub accepted_of : BufferKey → List Section → List LogLine
accepted_of k [] = []
accepted_of k (accepting _ _ l ∷ xs) = (if key_of l ≟ k then l ∷ [] else []) ++ accepted_of k xs
accepted_of k (taking _ ∷ xs) = accepted_of k xs

-- The line goes behind those that are there.
lines-add_line :
    (opened : Time) (l : LogLine) (o : Option Buffer)
    → (add_line l (buffer_for opened o)).lines ≡ lines_of o ++ (l ∷ [])
lines-add_line opened l none = refl
lines-add_line opened l (some b) = refl

buffered-append_locked :
    (k : BufferKey) (opened now : Time) (l : LogLine) (s : Store)
    → buffered k (append_locked opened now l s).1
      ≡ buffered k s ++ (if key_of l ≟ k then l ∷ [] else [])
unfolding append_locked
buffered-append_locked k opened now l s =
    let e = ap lines_of (lookup-insert (key_of l) k (grown opened l s) s.buffers) in
    let n = lines-add_line opened l (lookup (key_of l) s.buffers) in
    elim (Bool-cases (key_of l ≟ k)) [
      | inl h ↦
          let same : key_of l ≡ k = (pair_beq_iff (key_of l) k).0 h in
          rw h (rw h at e ∙ n ∙ ap (λ j. buffered j s ++ (l ∷ [])) same)
      | inr h ↦ rw h (rw h at e ∙ sym (append-nil (buffered k s)))
    ]

take_lines-buffered :
    (k j : BufferKey) (s : Store) (ls : List LogLine)
    → buffered j s ≡ ls
    → taken_of k ((j, taken_lines (take_lines j ls s).0) ∷ []) ++ buffered k (take_lines j ls s).1
      ≡ buffered k s
take_lines-buffered k j s [] h = ground arith
take_lines-buffered k j s (l ∷ ls) h =
    let e = ap lines_of (lookup-delete j k s.buffers) in
    elim (Bool-cases (j ≟ k)) [
      | inl t ↦
          let same : j ≡ k = (pair_beq_iff j k).0 t in
          let gone : lines_of (lookup k (delete j s.buffers)) ≡ [] = rw t at e in
          rw (t, gone)
            (append-nil ((l ∷ ls) ++ [])
              ∙ append-nil (l ∷ ls)
              ∙ sym h
              ∙ ap (λ i. buffered i s) same)
      | inr t ↦ rw t (rw t at e)
    ]

take_found-buffered :
    (k j : BufferKey) (s : Store) (o : Option Buffer)
    → lookup j s.buffers ≡ o
    → taken_of k ((j, taken_lines (take_found j o s).0) ∷ []) ++ buffered k (take_found j o s).1
      ≡ buffered k s
take_found-buffered k j s none h = ground arith
take_found-buffered k j s (some b) h = take_lines-buffered k j s b.lines (ap lines_of h)

take_buffer-buffered :
    (k j : BufferKey) (s : Store)
    → (if j ≟ k then taken_lines (take_buffer j s).0 else []) ++ buffered k (take_buffer j s).1
      ≡ buffered k s
unfolding take_buffer
take_buffer-buffered k j s =
    ap (λ z. z ++ buffered k (take_buffer j s).1)
      (sym (append-nil (if j ≟ k then taken_lines (take_buffer j s).0 else [])))
    ∙ take_found-buffered k j s (lookup j s.buffers) refl

-- Whatever the interleaving of the sections, the lines of a key in the buffers taken, in the order they
-- were taken, and then those still buffered, are those buffered before and then those accepted, in
-- the order they were accepted: no line is dropped, doubled, or moved to another block's key.
pub run_sections-Conserves :
    (k : BufferKey) (xs : List Section) (s : Store)
    → taken_of k (run_sections xs s).0 ++ buffered k (run_sections xs s).1
      ≡ buffered k s ++ accepted_of k xs
unfolding run_sections
run_sections-Conserves k [] s = sym (append-nil (buffered k s))
run_sections-Conserves k (accepting opened now l ∷ xs) s =
    run_sections-Conserves k xs (append_locked opened now l s).1
    ∙ ap (λ z. z ++ accepted_of k xs) (buffered-append_locked k opened now l s)
    ∙ append_assoc (buffered k s) (if key_of l ≟ k then l ∷ [] else []) (accepted_of k xs)
run_sections-Conserves k (taking j ∷ xs) s =
    let t = take_buffer j s in
    let one = if j ≟ k then taken_lines t.0 else [] in
    let rest = run_sections xs t.1 in
    append_assoc one (taken_of k rest.0) (buffered k rest.1)
    ∙ ap (◌++◌ one) (run_sections-Conserves k xs t.1)
    ∙ sym (append_assoc one (buffered k t.1) (accepted_of k xs))
    ∙ ap (λ z. z ++ accepted_of k xs) (take_buffer-buffered k j s)
