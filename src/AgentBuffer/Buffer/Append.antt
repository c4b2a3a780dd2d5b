-- ===== src/AgentBuffer/Buffer/Append.antt =====
-- Append and Close when no call of the operating system fails.
use native.Mathlib.Nat.{mod-eq_of_lt}
use bitacora.Base.{
  ℕ, ge→ltb, ◌+◌, ◌^◌, ◌<◌, ◌≤◌, ◌≡◌, refl, ap, sym, ◌∙◌, true, false, Option, none, some, [], ◌∷◌,
  ◌++◌, arith, All-append, append-nil,
}
use bitacora.Base.Int.{pos, ◌+ℤ◌}
use bitacora.AgentBuffer.Segment.{
  Item, max_line, Os, FileName, SegmentWriter, write, seal, IsFaultless, segment_of,
  new_segment_writer,
}
use bitacora.AgentBuffer.Buffer.{
  Buffer, ok, u64, rotate, append_to, append_if, writer_for, append, close_if, close,
}
use bitacora.AgentBuffer.Buffer.Invariant.{
  sealed_items, active_items, contents, SegmentIsValid, WriterIsValid, ActiveIsValid, IsValid,
  sealed_items-snoc, segment_of-IsValid, same-IsValid,
}
use bitacora.AgentBuffer.Buffer.Rotation.{Appended, append_to-Appended}

abbrev numbered : Buffer → Item → Item
numbered b item = record item { seq = b.next_seq + 1 }

record Fits (b : Buffer) (o : Option SegmentWriter) : Type 0 where
  writer : SegmentWriter
  given : o ≡ some writer
  valid : WriterIsValid writer
  items : writer.items ≡ active_items b.active

writer_for-Fits :
    (os : Os) (path : FileName) (b : Buffer) (o : Option SegmentWriter)
    → IsFaultless os
    → b.active ≡ o
    → ActiveIsValid o
    → Fits b (writer_for os path o)
unfolding writer_for new_segment_writer
writer_for-Fits os path b (some w) f p v = record {
  writer = w;
  given = refl;
  valid = v;
  items = ap active_items (sym p);
}
writer_for-Fits os path b none f p v = rw (f.creates path) (record {
  writer = _;
  given = refl;
  valid = record { is_open = refl; not_copied = refl; is_short = refl; in_file = refl };
  items = ap active_items (sym p);
})

append_if-Appended :
    (os : Os) (item : Item) (b : Buffer) (size : ℕ) (o : Option SegmentWriter)
    → IsFaultless os
    → IsValid b
    → os.line_size (numbered b item) ≡ some size
    → size ≤ max_line
    → Fits b o
    → Appended b
        (numbered b item)
        (append_if os (numbered b item) (record b { next_seq = b.next_seq + 1 }) o)
unfolding append_if
append_if-Appended os item b size o f v e short t = rw t.given (
    append_to-Appended os b (record b { next_seq = b.next_seq + 1 }) t.writer (numbered b item) size
      f v e (ge→ltb max_line size short) (omega arith) t.valid v.segments
      (ap (λ l. sealed_items b.sealed ++ l) t.items) refl refl)

-- Append of an item that can be encoded, in a line of at most 8 MiB with its newline, to a valid buffer that has not used up the sequence
-- numbers, under an operating system that reports no error: it answers the next number, the buffer
-- holds what it held with the numbered item behind it, and it is valid again, rotated or not.
pub append_lem :
    (os : Os) (path : FileName) (item : Item) (b : Buffer) (size : ℕ)
    → IsFaultless os
    → IsValid b
    → b.next_seq + 1 < 2 ^ 64
    → os.line_size (numbered b item) ≡ some size
    → size ≤ max_line
    → ((append os path item b).1 ≡ ok (b.next_seq + 1))
      × (contents (append os path item b).0 ≡ contents b ++ numbered b item ∷ [])
      × IsValid (append os path item b).0
unfolding append
append_lem os path item b size f v h e short = rw (mod-eq_of_lt h) (
    let r =
      append_if-Appended os item b size (writer_for os path b.active) f v e short
        (writer_for-Fits os path b b.active f refl v.writer) in
    (r.answer, r.items, r.valid))

seal_lem :
    (os : Os) (w : SegmentWriter)
    → IsFaultless os
    → w.is_open ≡ true
    → w.is_overlong ≡ false
    → seal os w ≡ (record w { is_open = false }, some (segment_of os w.path w.items))
unfolding seal
seal_lem os w f o s = rw (o, f.seals w.path, s)

close_if_lem :
    (os : Os) (b : Buffer) (o : Option SegmentWriter)
    → IsFaultless os
    → IsValid b
    → b.active ≡ o
    → ActiveIsValid o
    → ((close_if os b o).1 ≡ ok tt)
      × ((close_if os b o).0.active ≡ none)
      × (contents (close_if os b o).0 ≡ contents b)
      × IsValid (close_if os b o).0
unfolding close_if
close_if_lem os b none f v p a = (refl, p, refl, v)
close_if_lem os b (some w) f v p a =
    let s = segment_of os w.path w.items in
    let c = record b { active = none; sealed = b.sealed ++ s ∷ [] } in
    let e : contents c ≡ contents b =
      append-nil _
      ∙ sealed_items-snoc b.sealed s
      ∙ unfold segment_of in ap (λ o. sealed_items b.sealed ++ active_items o) (sym p) in
    rw (seal_lem os w f a.is_open a.is_short) (
      refl,
      refl,
      e,
      same-IsValid b c v
          (All-append SegmentIsValid b.sealed _ v.segments
            (segment_of-IsValid os w.path w.items, tt))
          tt e refl refl,
    )

-- Close of a valid buffer under an operating system that reports no error seals the active
-- segment: nothing is active, and the buffer holds the same items and is valid again.
pub close_lem :
    (os : Os) (b : Buffer)
    → IsFaultless os
    → IsValid b
    → ((close os b).1 ≡ ok tt)
      × ((close os b).0.active ≡ none)
      × (contents (close os b).0 ≡ contents b)
      × IsValid (close os b).0
unfolding close
close_lem os b f v = close_if_lem os b b.active f v refl v.writer

rotate_next :
    (os : Os) (w : SegmentWriter) (b : Buffer) (seq : ℕ)
    → (rotate os w b seq).0.next_seq ≡ b.next_seq
unfolding rotate
rotate_next os w b seq = ground arith

append_to_next :
    (os : Os) (it : Item) (w : SegmentWriter) (b : Buffer)
    → (append_to os it w b).0.next_seq ≡ b.next_seq
unfolding append_to
append_to_next os it w b =
    let r =
      rotate_next os (write os w it).0 (record b { total_len = b.total_len +ℤ pos 1 }) it.seq in
    ground (arith, r)

append_if_next :
    (os : Os) (it : Item) (b : Buffer) (o : Option SegmentWriter)
    → (append_if os it b o).0.next_seq ≡ b.next_seq
unfolding append_if
append_if_next os it b none = refl
append_if_next os it b (some w) = append_to_next os it w b

-- Append uses up a number, also where it fails.
pub next_seq-append :
    (os : Os) (path : FileName) (item : Item) (b : Buffer)
    → (append os path item b).0.next_seq ≡ u64 (b.next_seq + 1)
unfolding append
next_seq-append os path item b = append_if_next os _ _ (writer_for os path b.active)
