-- ===== src/AgentBuffer/Buffer/Steps.antt =====
-- The parts of Append, one equation for each way that a part can end.
use bitacora.Base.{
  ℕ, ◌+◌, ◌||◌, ◌≡◌, ap, Bool, true, false, Option, none, some, [], ◌∷◌, ◌++◌, arith, if◌then◌else◌,
  Option-cases, inl, inr, leb,
}
use bitacora.Base.Int.{pos, ◌+ℤ◌}
use bitacora.AgentBuffer.Segment.{
  Item, is_long, line_of, Os, SegmentWriter, SealedSegment, write, seal, written,
}
use bitacora.AgentBuffer.Buffer.{Buffer, Result, ok, err, failed, rotate, append_to}

-- the writer with one more item, in memory and on disk
unfoldable pub written_writer : SegmentWriter → Item → ℕ → SegmentWriter
written_writer w it size = record w {
  is_overlong = w.is_overlong || is_long size;
  raw_bytes = w.raw_bytes + size;
  items = w.items ++ it ∷ [];
  file = w.file ++ line_of size it ∷ [];
}

pub write_lem :
    (os : Os) (w : SegmentWriter) (it : Item) (size : ℕ)
    → w.is_open ≡ true
    → os.line_size it ≡ some size
    → os.write w.path ≡ written
    → write os w it ≡ (written_writer w it size, true)
unfolding write written_writer
write_lem os w it size o e p = ground arith

pub append_to_written :
    (os : Os) (c : Buffer) (w w' : SegmentWriter) (it : Item)
    → write os w it ≡ (w', true)
    → append_to os it w c ≡ rotate os w' (record c { total_len = c.total_len +ℤ pos 1 }) it.seq
unfolding append_to
append_to_written os c w w' it e =
    ap
      (λ (p : SegmentWriter × Bool).
        if p.1
        then rotate os p.0 (record c { total_len = c.total_len +ℤ pos 1 }) it.seq
        else (record c { active = some p.0 }, err failed))
      e

pub append_to_unwritten :
    (os : Os) (c : Buffer) (w w' : SegmentWriter) (it : Item)
    → write os w it ≡ (w', false)
    → append_to os it w c ≡ (record c { active = some w' }, err failed)
unfolding append_to
append_to_unwritten os c w w' it e =
    ap
      (λ (p : SegmentWriter × Bool).
        if p.1
        then rotate os p.0 (record c { total_len = c.total_len +ℤ pos 1 }) it.seq
        else (record c { active = some p.0 }, err failed))
      e

pub write_closed :
    (os : Os) (w : SegmentWriter) (it : Item) → w.is_open ≡ false → write os w it ≡ (w, false)
unfolding write
write_closed os w it c = elim (Option-cases (os.line_size it)) [
  | inl e ↦ rw (e, write)
  | inr (n, e) ↦ rw (e, write, c)
]

pub rotate_unsealed :
    (os : Os) (w w' : SegmentWriter) (b : Buffer) (seq : ℕ)
    → leb b.segment_bytes w.raw_bytes ≡ true
    → seal os w ≡ (w', none)
    → rotate os w b seq ≡ (record b { active = some w' }, err failed)
unfolding rotate
rotate_unsealed os w w' b seq full e = rw full (
    ap
      (λ (p : SegmentWriter × Option SealedSegment). elim p.1 as (λ _. Buffer × Result ℕ) [
        | none ↦ (record b { active = some p.0 }, err failed)
        | some s ↦ (record b { active = none; sealed = b.sealed ++ s ∷ [] }, ok seq)
      ])
      e)

pub rotate_room :
    (os : Os) (w : SegmentWriter) (b : Buffer) (seq : ℕ)
    → leb b.segment_bytes w.raw_bytes ≡ false
    → rotate os w b seq ≡ (record b { active = some w }, ok seq)
unfolding rotate
rotate_room os w b seq room = rw room
