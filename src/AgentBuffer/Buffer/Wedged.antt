-- ===== src/AgentBuffer/Buffer/Wedged.antt =====
-- What is left after a call of the operating system failed.
use bitacora.Base.{ℕ, ◌+◌, ◌≤◌, ◌≡◌, ◌≢◌, refl, ◌∙◌, true, false, none, some, le→leb, leb}
use bitacora.Base.Int.{pos, ◌+ℤ◌}
use bitacora.AgentBuffer.Segment.{
  Item, Os, FileName, SegmentWriter, seal, close_fails, remove_fails, Seal, sealed, written,
}
use bitacora.AgentBuffer.Buffer.Steps.{
  written_writer, write_lem, write_closed, append_to_written, append_to_unwritten, rotate_unsealed,
}
use bitacora.AgentBuffer.Buffer.{
  Buffer, err, failed, append_to, u64, append_if, writer_for, append, close_if, close,
}

-- the active segment is there, and its file was closed
abbrev pub IsWedged : Buffer → Type 0
IsWedged b = (w : SegmentWriter) × (b.active ≡ some w) × (w.is_open ≡ false)

seal_closed : (os : Os) (w : SegmentWriter) → w.is_open ≡ false → seal os w ≡ (w, none)
unfolding seal
seal_closed os w c = rw c

-- On a buffer whose active segment's file is closed, every Append and every Close fails, however the
-- operating system answers, and the buffer stays in that state.
pub IsWedged-stays :
    (os : Os) (path : FileName) (it : Item) (b : Buffer)
    → IsWedged b
    → ((append os path it b).1 ≡ err failed)
      × IsWedged (append os path it b).0
      × ((close os b).1 ≡ err failed)
      × IsWedged (close os b).0
unfolding append close append_if writer_for close_if
IsWedged-stays os path it b (w, a, c) = rw a (
    let it' = record it { seq = u64 (b.next_seq + 1) } in
    let again =
      append_to_unwritten os (record b { next_seq = u64 (b.next_seq + 1); active = some w }) w w it'
        (write_closed os w it' c) in
    rw (again, seal_closed os w c) (refl, (w, refl, c), refl, (w, refl, c)))

-- a segment that is written to, is full then and cannot be sealed
pub record CannotSeal (os : Os) (it : Item) (w : SegmentWriter) (b : Buffer) (size : ℕ)
    : Type 0 where
  pub is_open : w.is_open ≡ true
  pub encoded : os.line_size it ≡ some size
  pub writes : os.write w.path ≡ written
  pub full : b.segment_bytes ≤ w.raw_bytes + size
  pub no_seal : os.seal w.path ≢ sealed

seal_fails :
    (os : Os) (w : SegmentWriter) (s : Seal)
    → w.is_open ≡ true
    → os.seal w.path ≡ s
    → s ≢ sealed
    → (w' : SegmentWriter) × (seal os w ≡ (w', none)) × (w'.is_open ≡ false)
unfolding seal
seal_fails os w sealed o e h = absurd (h refl)
seal_fails os w close_fails o e h = (record w { is_open = false }, rw (o, e), refl)
seal_fails os w Seal.write_fails o e h = (record w { is_open = false }, rw (o, e), refl)
seal_fails os w remove_fails o e h =
    (record w { is_open = false; is_copied = true }, rw (o, e), refl)

full_seal_fails :
    (os : Os) (it : Item) (w : SegmentWriter) (b : Buffer) (size : ℕ)
    → CannotSeal os it w b size
    → (w' : SegmentWriter) × (seal os (written_writer w it size) ≡ (w', none))
      × (w'.is_open ≡ false)
unfolding written_writer
full_seal_fails os it w b size h =
    seal_fails os (written_writer w it size) (os.seal w.path) h.is_open refl h.no_seal

written_full :
    (os : Os) (it : Item) (w : SegmentWriter) (b : Buffer) (size : ℕ)
    → CannotSeal os it w b size
    → leb b.segment_bytes (written_writer w it size).raw_bytes ≡ true
unfolding written_writer
written_full os it w b size h = le→leb _ _ h.full

append_to_wedges :
    (os : Os) (it : Item) (w : SegmentWriter) (b : Buffer) (size : ℕ)
    → CannotSeal os it w b size
    → ((append_to os it w b).1 ≡ err failed) × IsWedged (append_to os it w b).0
append_to_wedges os it w b size h =
    let c = record b { total_len = b.total_len +ℤ pos 1 } in
    let v = written_writer w it size in
    let (v', unsealed, closed) = full_seal_fails os it w b size h in
    let e =
      append_to_written os b w v it (write_lem os w it size h.is_open h.encoded h.writes)
      ∙ rotate_unsealed os v v' c it.seq (written_full os it w b size h) unsealed in
    rw e (refl, (v', refl, closed))

-- An Append whose item is written and fills the active segment, and whose sealing then fails in any
-- of its steps, returns an error and leaves the active segment in place with its file closed.
pub append_wedges :
    (os : Os) (path : FileName) (item : Item) (w : SegmentWriter) (b : Buffer) (size : ℕ)
    → b.active ≡ some w
    → CannotSeal os (record item { seq = u64 (b.next_seq + 1) }) w b size
    → ((append os path item b).1 ≡ err failed) × IsWedged (append os path item b).0
unfolding append append_if writer_for
append_wedges os path item w b size a h =
    let it = record item { seq = u64 (b.next_seq + 1) } in
    rw a (
      append_to_wedges os it w (record b { next_seq = it.seq; active = some w }) size
        (record {
          is_open = h.is_open;
          encoded = h.encoded;
          writes = h.writes;
          full = h.full;
          no_seal = h.no_seal;
        }))
