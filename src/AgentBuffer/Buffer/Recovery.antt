-- ===== src/AgentBuffer/Buffer/Recovery.antt =====
-- Opening a buffer on the files that a run before it left, at whatever point that run died.
use bitacora.Base.{
  ◌≡◌, false, refl, ap, sym, ◌∙◌, inl, inr, Option, some, List, [], ◌∷◌, ◌++◌, arith, map, All,
  append_assoc, append-nil, ◌==◌, Bool-cases, ==_iff,
}
use bitacora.AgentBuffer.Segment.{
  Item, Line, record_of, Os, FileName, SealedSegment, last_seq, items_of, IsFaultless, segment_of,
}
use bitacora.AgentBuffer.Order.{IsSorted, IsSorted-append, IsSorted-left, IsSorted-right}
use bitacora.AgentBuffer.Buffer.{
  Buffer, Options, Directory, parse_lines, has_long, inspect_sealed, seal_orphaned, adopt,
  recover_sealed, recover_active, empty_buffer, open_buffer,
}
use bitacora.AgentBuffer.Buffer.Invariant.{
  sealed_items, active_items, contents, SegmentIsValid, WriterIsValid, ActiveIsValid, IsValid,
  sealed_items-snoc, segment_of-IsValid, read_sealed_lem,
}
use bitacora.AgentBuffer.Buffer.Crashed.{
  sealed_files_of, AreLeft, no_file, new_file, active_file, AreLeft-IsSorted, parse_left,
  IsRecovering, later_max, adopt-IsRecovering,
}

-- the same items were recovered, and the buffer goes on from there
record Recovers (b : Buffer) (xs : List Item) (o : Option Buffer) : Type 0 where
  buffer : Buffer
  found : o ≡ some buffer
  recovering : IsRecovering buffer
  items : sealed_items buffer.sealed ≡ sealed_items b.sealed ++ xs

inspect_lem :
    (os : Os) (s : SealedSegment)
    → IsFaultless os
    → SegmentIsValid s
    → inspect_sealed os s.path s.file ≡ some (segment_of os s.path (items_of s.file))
unfolding inspect_sealed
inspect_lem os s f v = rw (read_sealed_lem s v, inspect_sealed, f.stats s.path)

segment_of_items :
    (os : Os) (p : FileName) (xs : List Item) → items_of (segment_of os p xs).file ≡ xs
unfolding segment_of
segment_of_items os p xs = refl

segment_of_empty :
    (os : Os) (p : FileName) (xs : List Item) → (segment_of os p xs).count ≡ 0 → xs ≡ []
unfolding segment_of
segment_of_empty os p [] h = refl
segment_of_empty os p (x ∷ xs) h = absurd (omega arith)

adopt_next :
    (os : Os) (p : FileName) (xs : List Item) (b : Buffer)
    → IsSorted b.next_seq xs
    → (adopt (segment_of os p xs) b).next_seq ≡ last_seq b.next_seq xs
unfolding segment_of
adopt_next os p xs b s = later_max b.next_seq xs s

recover_sealed-Recovers :
    (os : Os) (ss : List SealedSegment) (b : Buffer)
    → IsFaultless os
    → All SegmentIsValid ss
    → IsRecovering b
    → IsSorted b.next_seq (sealed_items ss)
    → Recovers b (sealed_items ss) (recover_sealed os (sealed_files_of ss) b)
unfolding recover_sealed
recover_sealed-Recovers os [] b f v r o = record {
  buffer = b;
  found = refl;
  recovering = r;
  items = sym (append-nil _);
}
recover_sealed-Recovers os (s ∷ ss) b f v r o =
    let xs = items_of s.file in
    let t = segment_of os s.path xs in
    let tv = segment_of-IsValid os s.path xs in
    let same = segment_of_items os s.path xs in
    let here = IsSorted-left b.next_seq xs (sealed_items ss) o in
    let r' = adopt-IsRecovering b t r tv (rw same here) in
    let next : (adopt t b).next_seq ≡ last_seq b.next_seq xs = adopt_next os s.path xs b here in
    let ih =
      recover_sealed-Recovers os ss (adopt t b) f v.1 r'
        (rw next (IsSorted-right b.next_seq xs (sealed_items ss) o)) in
    rw (inspect_lem os s f v.0, recover_sealed)
      (record {
        buffer = ih.buffer;
        found = ih.found;
        recovering = ih.recovering;
        items =
            ih.items
            ∙ ap (λ l. l ++ sealed_items ss)
                (sealed_items-snoc b.sealed t ∙ ap (λ l. sealed_items b.sealed ++ l) same)
            ∙ append_assoc (sealed_items b.sealed) xs (sealed_items ss);
      })

-- the file that is not sealed
seal_orphaned_lem :
    (os : Os) (path : FileName) (lines : List Line) (xs : List Item)
    → IsFaultless os
    → parse_lines lines ≡ xs
    → has_long lines ≡ false
    → seal_orphaned os path lines ≡ some (segment_of os path xs)
unfolding seal_orphaned
seal_orphaned_lem os path lines xs f e h =
    rw (f.reads path, f.writes_sealed path, f.removes path, h)
      (ap (λ l. some (segment_of os path l)) e)

file-Recovers :
    (os : Os) (p : FileName) (lines : List Line) (xs : List Item) (b : Buffer)
    → IsFaultless os
    → parse_lines lines ≡ xs
    → has_long lines ≡ false
    → IsRecovering b
    → IsSorted b.next_seq xs
    → Recovers b xs (recover_active os ((p, lines) ∷ []) b)
unfolding recover_active
file-Recovers os p lines xs b f e h r s =
    let t = segment_of os p xs in
    let same = segment_of_items os p xs in
    rw (seal_orphaned_lem os p lines xs f e h, recover_active)
      (elim (Bool-cases (t.count == 0)) [
        | inl none_there ↦
            let empty : xs ≡ [] = segment_of_empty os p xs ((==_iff _ _).0 none_there) in
            rw none_there (record {
              buffer = b;
              found = refl;
              recovering = r;
              items = rw empty (sym (append-nil _));
            })
        | inr some_there ↦ rw some_there (record {
          buffer = adopt t b;
          found = refl;
          recovering = adopt-IsRecovering b t r (segment_of-IsValid os p xs) (rw same s);
          items = sealed_items-snoc b.sealed t ∙ ap (λ l. sealed_items b.sealed ++ l) same;
        })
      ])

files-Recovers :
    (os : Os) (b c : Buffer) (files : List (FileName × List Line)) (items : List Item)
    → IsFaultless os
    → AreLeft b files items
    → ActiveIsValid b.active
    → IsRecovering c
    → IsSorted c.next_seq (active_items b.active ++ items)
    → Recovers c (active_items b.active ++ items) (recover_active os files c)
files-Recovers os b c _ _ f (no_file e) v r s =
    unfold recover_active in
    record { buffer = c; found = refl; recovering = r; items = rw e (sym (append-nil _)) }
files-Recovers os b c _ items f (new_file p tail _ e l) v r s =
    let t = parse_left b [] tail items l in
    rw e (file-Recovers os p tail items c f t.0 t.1 r (rw e at s))
files-Recovers os b c _ items f (active_file w tail _ e l) v r s =
    let t = parse_left b w.items tail items l in
    let wv : WriterIsValid w = rw e at v in
    rw (e, wv.in_file)
      (file-Recovers os w.path (map record_of w.items ++ tail) (w.items ++ items) c f t.0 t.1 r
        (rw e at s))

idle_contents : (b : Buffer) → IsRecovering b → contents b ≡ sealed_items b.sealed
idle_contents b r = rw r.idle (append-nil (sealed_items b.sealed))

IsRecovering-IsValid :
    (b : Buffer) → IsRecovering b → IsSorted 0 (sealed_items b.sealed) → IsValid b
IsRecovering-IsValid b r s = record {
  segments = r.segments;
  writer = rw r.idle tt;
  sorted = rw (idle_contents b r) s;
  bounded = rw (idle_contents b r, r.next) (omega arith);
  counted = r.counted ∙ rw (idle_contents b r) refl;
}

-- A crash loses nothing. If the process dies between two calls on a valid buffer, or while an Append
-- writes its record, of which there is nothing, a torn line, or a whole record of at most 8 MiB with a
-- later number, in the active segment's file or in a new one, then opening what is on disk, under an
-- operating system that reports no error and with any options, gives a valid buffer with exactly the
-- items that were buffered, in order, and behind them the one whose whole record was there; it numbers
-- the next item after the last of them.
pub open_buffer-crashed :
    (os : Os) (o : Options) (b : Buffer) (files : List (FileName × List Line)) (items : List Item)
    → IsFaultless os
    → IsValid b
    → AreLeft b files items
    → let disk : Directory = record {
      sealed_files = sealed_files_of b.sealed;
      active_files = files;
    } in
      (c : Buffer) × (open_buffer os o disk ≡ some c)
      × (contents c ≡ contents b ++ items)
      × IsValid c
      × (c.next_seq ≡ last_seq 0 (contents b ++ items))
unfolding open_buffer
open_buffer-crashed os o b files items f v t =
    let start : IsRecovering (empty_buffer o) = record {
      segments = tt;
      idle = refl;
      next = refl;
      counted = refl;
    } in
    let old = active_items b.active in
    let sealed_sorted = IsSorted-left 0 (sealed_items b.sealed) old v.sorted in
    let r = recover_sealed-Recovers os b.sealed (empty_buffer o) f v.segments start sealed_sorted in
    let next : r.buffer.next_seq ≡ last_seq 0 (sealed_items b.sealed) =
      r.recovering.next ∙ ap (last_seq 0) r.items in
    let whole : IsSorted 0 (contents b ++ items) =
      IsSorted-append 0 (contents b) items v.sorted
        (AreLeft-IsSorted b files items t _ v.bounded) in
    let regroup = append_assoc (sealed_items b.sealed) old items in
    let a =
      files-Recovers os b r.buffer files items f t v.writer r.recovering
        (rw next (IsSorted-right 0 (sealed_items b.sealed) (old ++ items) (rw regroup at whole))) in
    let found : sealed_items a.buffer.sealed ≡ contents b ++ items =
      a.items ∙ ap (λ l. l ++ (old ++ items)) r.items ∙ sym regroup in
    (
      a.buffer,
      rw (r.found, open_buffer) a.found,
      idle_contents a.buffer a.recovering ∙ found,
      IsRecovering-IsValid a.buffer a.recovering (rw found whole),
      a.recovering.next ∙ ap (last_seq 0) found,
    )
