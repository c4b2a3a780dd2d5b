-- ===== src/AgentBuffer/Buffer/Rotation.antt =====
-- Append from the write on: the item is there, and a full segment is sealed.
use bitacora.Base.{
  ℕ, ◌<◌, ◌≡◌, refl, ap, sym, ◌∙◌, inl, inr, some, List, [], ◌∷◌, ◌++◌, arith, length-append, All,
  All-append, append_assoc, append-nil, leb, Bool-cases, false,
}
use bitacora.Base.Int.{pos, ◌+ℤ◌, int_laws}
use bitacora.AgentBuffer.Segment.{
  Item, record_of, is_long, Os, SegmentWriter, SealedSegment, seal, IsFaultless, segment_of,
}
use bitacora.AgentBuffer.Order.{IsSorted-append, last_seq-append}
use bitacora.AgentBuffer.Buffer.{Buffer, Result, ok, rotate, append_to}
use bitacora.AgentBuffer.Buffer.Steps.{written_writer, write_lem, append_to_written}
use bitacora.AgentBuffer.Buffer.Invariant.{
  sealed_items, contents, SegmentIsValid, WriterIsValid, ActiveIsValid, IsValid, sealed_items-snoc,
  segment_of-IsValid, map-append_one,
}

-- the segments of the second buffer hold those of the first and the writer's items
pub record Rotated (w : SegmentWriter) (b : Buffer) (seq : ℕ) (r : Buffer × Result ℕ) : Type 0 where
  pub answer : r.1 ≡ ok seq
  pub items : contents r.0 ≡ sealed_items b.sealed ++ w.items
  pub segments : All SegmentIsValid r.0.sealed
  pub writer : ActiveIsValid r.0.active
  pub next : r.0.next_seq ≡ b.next_seq
  pub total : r.0.total_len ≡ b.total_len

rotate-Rotated :
    (os : Os) (w : SegmentWriter) (b : Buffer) (seq : ℕ)
    → IsFaultless os
    → WriterIsValid w
    → All SegmentIsValid b.sealed
    → Rotated w b seq (rotate os w b seq)
unfolding rotate seal
rotate-Rotated os w b seq f v s = elim (Bool-cases (leb b.segment_bytes w.raw_bytes)) [
  | inl full ↦
      rw (full, v.is_open, f.seals w.path, v.is_short)
        (record {
          answer = refl;
          items = append-nil _ ∙ sealed_items-snoc b.sealed (segment_of os w.path w.items);
          segments =
              All-append SegmentIsValid b.sealed _ s (segment_of-IsValid os w.path w.items, tt);
          writer = tt;
          next = refl;
          total = refl;
        })
  | inr room ↦
      rw room (record {
        answer = refl;
        items = refl;
        segments = s;
        writer = v;
        next = refl;
        total = refl;
      })
]

written_writer-IsValid :
    (w : SegmentWriter) (it : Item) (size : ℕ)
    → WriterIsValid w
    → is_long size ≡ false
    → WriterIsValid (written_writer w it size)
unfolding written_writer
written_writer-IsValid w it size v short = record {
  is_open = v.is_open;
  not_copied = v.not_copied;
  is_short = ground (arith, v.is_short, short);
  in_file = rw (short, map-append_one w.items it) (ap (λ l. l ++ record_of it ∷ []) v.in_file);
}

-- what a successful Append of the item leaves
pub record Appended (b : Buffer) (it : Item) (r : Buffer × Result ℕ) : Type 0 where
  pub answer : r.1 ≡ ok it.seq
  pub items : contents r.0 ≡ contents b ++ it ∷ []
  pub valid : IsValid r.0

grown-IsValid :
    (b c : Buffer) (it : Item)
    → IsValid b
    → All SegmentIsValid c.sealed
    → ActiveIsValid c.active
    → contents c ≡ contents b ++ it ∷ []
    → b.next_seq < it.seq
    → c.next_seq ≡ it.seq
    → c.total_len ≡ b.total_len +ℤ pos 1
    → IsValid c
grown-IsValid b c it v s a e lt n t = record {
  segments = s;
  writer = a;
  sorted = rw e (IsSorted-append 0 (contents b) (it ∷ []) v.sorted (omega (arith, v.bounded), tt));
  bounded = rw (e, last_seq-append 0 (contents b) (it ∷ [])) (omega arith);
  counted = t ∙ rw (e, v.counted) (omega (int_laws, length-append (contents b) (it ∷ [])));
}

written-items :
    (ss : List SealedSegment) (w : SegmentWriter) (it : Item) (size : ℕ) (xs : List Item)
    → sealed_items ss ++ w.items ≡ xs
    → sealed_items ss ++ (written_writer w it size).items ≡ xs ++ it ∷ []
unfolding written_writer
written-items ss w it size xs e =
    sym (append_assoc (sealed_items ss) w.items (it ∷ [])) ∙ ap (λ l. l ++ it ∷ []) e

pub append_to-Appended :
    (os : Os) (b c : Buffer) (w : SegmentWriter) (it : Item) (size : ℕ)
    → IsFaultless os
    → IsValid b
    → os.line_size it ≡ some size
    → is_long size ≡ false
    → b.next_seq < it.seq
    → WriterIsValid w
    → All SegmentIsValid c.sealed
    → sealed_items c.sealed ++ w.items ≡ contents b
    → c.next_seq ≡ it.seq
    → c.total_len ≡ b.total_len
    → Appended b it (append_to os it w c)
append_to-Appended os b c w it size f v e short lt wv s same n t =
    rw (append_to_written os c w _ it (write_lem os w it size wv.is_open e (f.writes w.path))) (
      let c' = record c { total_len = c.total_len +ℤ pos 1 } in
      let w' = written_writer w it size in
      let r = rotate-Rotated os w' c' it.seq f (written_writer-IsValid w it size wv short) s in
      let items : contents (rotate os w' c' it.seq).0 ≡ contents b ++ it ∷ [] =
        r.items ∙ written-items c.sealed w it size (contents b) same in
      record {
        answer = r.answer;
        items = items;
        valid =
            grown-IsValid b (rotate os w' c' it.seq).0 it v r.segments r.writer items lt
              (r.next ∙ n) (r.total ∙ ap (λ z. z +ℤ pos 1) t);
      })
