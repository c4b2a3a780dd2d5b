-- ===== src/Blackbox/Reader.antt =====
-- internal/blackbox/reader.go: the samples of a file, oldest first.
use bitacora.Base.{
  ℕ, zero, suc, ◌+◌, ◌*◌, ◌%◌, ◌&&◌, none, some, List, [], ◌∷◌, length, take, drop, if◌then◌else◌,
  ltb, ◌==◌,
}
use bitacora.Base.Text.{Text}
use bitacora.Blackbox.Header.{Header, header_size, decode_header}
use bitacora.Blackbox.Sample.{Sample, decode_sample}

-- A file that cannot be read apart, `panics` is a division by 0: the header of a file from elsewhere
-- can have the capacity 0. `truncated` has the samples that were read before the error.
pub data Dumped : Type 0 where
  bad_header panics : Dumped
  truncated : List Sample → Dumped
  ok : List Sample → Dumped

abbrev pub put_first : Sample → Dumped → Dumped
put_first s (ok ss) = ok (s ∷ ss)
put_first s (truncated ss) = truncated (s ∷ ss)
put_first s bad_header = bad_header
put_first s panics = panics

-- the loop, from round `i` on, with that many rounds to go
unfoldable pub dump_loop : Header → Text → ℕ → ℕ → ℕ → Dumped
dump_loop h raw start i zero = ok []
dump_loop h raw start i (suc k) =
    let slot = (start + i) % h.capacity in
    let offset = header_size + slot * h.sample_size in
    let rest = dump_loop h raw start (suc i) k in
    let read : Dumped = elim (decode_sample (take h.sample_size (drop offset raw))) [
      | none ↦ truncated []
      | some s ↦ put_first s rest
    ] in
    if ltb (length raw) (offset + h.sample_size) then truncated [] else read

-- from the header on
unfoldable pub dump_with : Header → Text → Dumped
unfolding dump_loop
dump_with h raw =
    let wraps = ltb h.capacity h.write_index in
    let written = if wraps then h.capacity else h.write_index in
    let start = if wraps then h.write_index % h.capacity else 0 in
    if wraps && h.capacity == 0 then panics else dump_loop h raw start 0 written

unfoldable pub dump : Text → Dumped
unfolding dump_with
dump raw = elim (decode_header raw) [ none ↦ bad_header | some h ↦ dump_with h raw ]
