-- ===== src/AgentBuffer/Buffer/Torn.antt =====
-- A write that fails half-way leaves a torn line, and later lines stand behind it.
use bitacora.Base.{
  ℕ, ◌+◌, ◌<◌, ◌≡◌, refl, ap, ◌∙◌, sym, true, false, some, [], ◌∷◌, ◌++◌, arith, append_assoc,
  gt→leb, append-nil,
}
use bitacora.Base.Int.{pos, ◌+ℤ◌}
use bitacora.AgentBuffer.Segment.{
  Item, line_of, torn, Os, FileName, SegmentWriter, write, fails_torn, written, IsFaultless,
}
use bitacora.AgentBuffer.Buffer.{
  Buffer, Options, Directory, ok, err, failed, u64, append_if, writer_for, append, open_buffer,
}
use bitacora.AgentBuffer.Buffer.Steps.{
  written_writer, write_lem, append_to_written, append_to_unwritten, rotate_room,
}
use bitacora.AgentBuffer.Buffer.Invariant.{contents, IsValid, WriterIsValid}
use bitacora.AgentBuffer.Buffer.Recovery.{open_buffer-crashed}
use bitacora.AgentBuffer.Buffer.Crashed.{
  crashed, cut_off, active_file, sealed_files_of, active_files_of,
}

abbrev torn_writer : SegmentWriter → SegmentWriter
torn_writer w = record w { file = w.file ++ torn ∷ [] }

write_torn :
    (os : Os) (w : SegmentWriter) (it : Item) (size : ℕ)
    → w.is_open ≡ true
    → os.line_size it ≡ some size
    → os.write w.path ≡ fails_torn
    → write os w it ≡ (torn_writer w, false)
unfolding write
write_torn os w it size o e t = ground arith

append_torn :
    (os : Os) (path : FileName) (item : Item) (b : Buffer) (w : SegmentWriter) (size : ℕ)
    → b.active ≡ some w
    → w.is_open ≡ true
    → os.line_size (record item { seq = u64 (b.next_seq + 1) }) ≡ some size
    → os.write w.path ≡ fails_torn
    → append os path item b
      ≡ (record b { next_seq = u64 (b.next_seq + 1); active = some (torn_writer w) }, err failed)
unfolding append append_if writer_for
append_torn os path item b w size a o e t =
    let it = record item { seq = u64 (b.next_seq + 1) } in
    rw a (
      append_to_unwritten os (record b { next_seq = it.seq; active = some w }) w (torn_writer w) it
        (write_torn os w it size o e t))

append_room :
    (os : Os) (path : FileName) (item : Item) (b : Buffer) (w : SegmentWriter) (size : ℕ)
    → b.active ≡ some w
    → w.is_open ≡ true
    → os.line_size (record item { seq = u64 (b.next_seq + 1) }) ≡ some size
    → os.write w.path ≡ written
    → w.raw_bytes + size < b.segment_bytes
    → append os path item b ≡ (
      record b {
        next_seq = u64 (b.next_seq + 1);
        active = some (written_writer w (record item { seq = u64 (b.next_seq + 1) }) size);
        total_len = b.total_len +ℤ pos 1;
      },
      ok (u64 (b.next_seq + 1)),
    )
unfolding append append_if writer_for
append_room os path item b w size a o e t h =
    let it = record item { seq = u64 (b.next_seq + 1) } in
    rw a (
      append_to_written os (record b { next_seq = it.seq; active = some w }) w _ it
        (write_lem os w it size o e t)
      ∙ rotate_room os (written_writer w it size)
          (record b { next_seq = it.seq; active = some w; total_len = b.total_len +ℤ pos 1 }) it.seq
          (unfold written_writer in gt→leb b.segment_bytes (w.raw_bytes + size) h))

forgotten_files :
    (b : Buffer) (w : SegmentWriter) (it : Item) (size : ℕ)
    → b.active ≡ some w
    → (seq : ℕ)
    → crashed
        (record b {
          next_seq = seq;
          active = some (written_writer (torn_writer w) it size);
          total_len = b.total_len +ℤ pos 1;
        })
        []
      ≡ crashed b (torn ∷ line_of size it ∷ [])
unfolding written_writer
forgotten_files b w it size a seq =
    ap
      (λ fs.
        let d : Directory = record { sealed_files = sealed_files_of b.sealed; active_files = fs } in
        d)
      (ap (λ l. (w.path, l) ∷ [])
          (append-nil _ ∙ append_assoc w.file (torn ∷ []) (line_of size it ∷ []))
        ∙ ap (λ q. active_files_of q (torn ∷ line_of size it ∷ [])) (sym a))

-- An acknowledged item is lost in a crash if a write before it was cut off. Take a valid buffer with
-- an active segment; let one Append fail with a torn line; let the next Append, to the same segment
-- with room in it, succeed, so that it answers a number. If the process dies then, opening what is
-- on disk gives back only the items from before the two calls.
pub torn_append_forgets :
    (os os' os'' : Os) (o : Options) (path path' : FileName) (item item' : Item) (b : Buffer)
    (w : SegmentWriter) (size size' : ℕ)
    → IsValid b
    → b.active ≡ some w
    → (os.line_size (record item { seq = u64 (b.next_seq + 1) }) ≡ some size)
      × (os.write w.path ≡ fails_torn)
    → (os'.line_size (record item' { seq = u64 (u64 (b.next_seq + 1) + 1) }) ≡ some size')
      × (os'.write w.path ≡ written)
      × (w.raw_bytes + size' < b.segment_bytes)
    → IsFaultless os''
    → let r = append os' path' item' (append os path item b).0 in
      (r.1 ≡ ok (u64 (u64 (b.next_seq + 1) + 1)))
      × ((c : Buffer) × (open_buffer os'' o (crashed r.0 []) ≡ some c) × (contents c ≡ contents b))
torn_append_forgets os os' os'' o path path' item item' b w size size' v a t s f =
    let wv : WriterIsValid w = rw a at v.writer in
    let seq = u64 (u64 (b.next_seq + 1) + 1) in
    let it = record item' { seq = seq } in
    let b' = record b { next_seq = u64 (b.next_seq + 1); active = some (torn_writer w) } in
    rw
      (
        append_torn os path item b w size a wv.is_open t.0 t.1,
        append_room os' path' item' b' (torn_writer w) size' refl wv.is_open s.0 s.1 s.2,
        forgotten_files b w it size' a seq,
      )
      (let (c, opened, items, valid, next) =
          open_buffer-crashed os'' o b _ [] f v
            (active_file w (torn ∷ line_of size' it ∷ []) [] a (cut_off (line_of size' it ∷ []))) in
        (refl, (c, rw a opened, items ∙ append-nil (contents b))))
