-- ===== src/AgentBuffer/Buffer/Crashed.antt =====
-- What a crash leaves on disk, and a buffer in the course of recovery.
use bitacora.Base.{
  ℕ, ◌≡◌, ◌≤◌, ◌<◌, refl, false, ap, sym, ◌∙◌, Option, none, some, List, [], ◌∷◌, ◌++◌, arith, map,
  length, length-append, All, All-append, ltb, if◌then◌else◌,
}
use bitacora.Base.Int.{pos, int_laws}
use bitacora.AgentBuffer.Segment.{
  Item, Line, record_of, torn, FileName, SealedFile, SegmentWriter, SealedSegment, last_seq,
  items_of,
}
use bitacora.AgentBuffer.Order.{IsSorted, last_seq-append, le-last_seq}
use bitacora.AgentBuffer.Buffer.{Buffer, Directory, parse_lines, has_long, adopt}
use bitacora.AgentBuffer.Buffer.Invariant.{sealed_items, SegmentIsValid, sealed_items-snoc}

-- the sealed files of the segments
abbrev pub sealed_files_of : List SealedSegment → List (FileName × SealedFile)
sealed_files_of [] = []
sealed_files_of (s ∷ ss) = (s.path, s.file) ∷ sealed_files_of ss

-- the file of the active segment, with lines behind what the buffer knows of
abbrev pub active_files_of : Option SegmentWriter → List Line → List (FileName × List Line)
active_files_of none tail = []
active_files_of (some w) tail = (w.path, w.file ++ tail) ∷ []

-- what the directory holds if the process dies between two calls, with the lines `tail` behind
abbrev pub crashed : Buffer → List Line → Directory
crashed b tail = record {
  sealed_files = sealed_files_of b.sealed;
  active_files = active_files_of b.active tail;
}

-- What a write that was under way can leave behind the lines of a file, and the items to be found in it:
-- nothing, a torn line and whatever follows it, or the whole record, with its newline or without, of an
-- item with a later number, whose Append has not returned or has failed.
pub data IsLeft (b : Buffer) : List Line → List Item → Type 0 where
  nothing : IsLeft b [] []
  cut_off : (rest : List Line) → IsLeft b (torn ∷ rest) []
  whole : (it : Item) → b.next_seq < it.seq → IsLeft b (record_of it ∷ []) (it ∷ [])

-- The unsealed files on disk: none, that of the active segment, or one that an Append under way has made
-- because there was no active segment.
pub data AreLeft (b : Buffer) : List (FileName × List Line) → List Item → Type 0 where
  no_file : b.active ≡ none → AreLeft b [] []
  new_file :
      (p : FileName) (tail : List Line) (items : List Item)
      → b.active ≡ none
      → IsLeft b tail items
      → AreLeft b ((p, tail) ∷ []) items
  active_file :
      (w : SegmentWriter) (tail : List Line) (items : List Item)
      → b.active ≡ some w
      → IsLeft b tail items
      → AreLeft b ((w.path, w.file ++ tail) ∷ []) items

tail_items :
    (b : Buffer) (tail : List Line) (items : List Item)
    → IsLeft b tail items
    → (parse_lines tail ≡ items) × (has_long tail ≡ false)
unfolding parse_lines
tail_items b _ _ nothing = (refl, refl)
tail_items b _ _ (cut_off rest) = (refl, refl)
tail_items b _ _ (whole it h) = (refl, refl)

-- the records in front of what was left are all found, and none is too long
pub parse_left :
    (b : Buffer) (xs : List Item) (tail : List Line) (items : List Item)
    → IsLeft b tail items
    → (parse_lines (map record_of xs ++ tail) ≡ xs ++ items)
      × (has_long (map record_of xs ++ tail) ≡ false)
unfolding parse_lines
parse_left b [] tail items c = tail_items b tail items c
parse_left b (x ∷ xs) tail items c = let r = parse_left b xs tail items c in (ap (◌∷◌ x) r.0, r.1)

left-IsSorted :
    (b : Buffer) (tail : List Line) (items : List Item)
    → IsLeft b tail items
    → (lo : ℕ) → lo ≤ b.next_seq
    → IsSorted lo items
left-IsSorted b _ _ nothing lo h = tt
left-IsSorted b _ _ (cut_off rest) lo h = tt
left-IsSorted b _ _ (whole it n) lo h = (omega (arith, n, h), tt)

pub AreLeft-IsSorted :
    (b : Buffer) (files : List (FileName × List Line)) (items : List Item)
    → AreLeft b files items
    → (lo : ℕ) → lo ≤ b.next_seq
    → IsSorted lo items
AreLeft-IsSorted b _ _ (no_file e) lo h = tt
AreLeft-IsSorted b _ _ (new_file p tail items e l) lo h = left-IsSorted b tail items l lo h
AreLeft-IsSorted b _ _ (active_file w tail items e l) lo h = left-IsSorted b tail items l lo h

-- a buffer in the course of recovery
pub record IsRecovering (b : Buffer) : Type 0 where
  pub segments : All SegmentIsValid b.sealed
  pub idle : b.active ≡ none
  pub next : b.next_seq ≡ last_seq 0 (sealed_items b.sealed)
  pub counted : b.total_len ≡ pos (length (sealed_items b.sealed))

pub later_max :
    (lo : ℕ) (xs : List Item)
    → IsSorted lo xs
    → (if ltb lo (last_seq 0 xs) then last_seq 0 xs else lo) ≡ last_seq lo xs
later_max lo [] s = ground arith
later_max lo (x ∷ xs) s = ground (arith, le-last_seq x.seq xs s.1)

pub adopt-IsRecovering :
    (b : Buffer) (s : SealedSegment)
    → IsRecovering b
    → SegmentIsValid s
    → IsSorted b.next_seq (items_of s.file)
    → IsRecovering (adopt s b)
adopt-IsRecovering b s r v o =
    let xs = items_of s.file in
    let e = sealed_items-snoc b.sealed s in
    record {
      segments = All-append SegmentIsValid b.sealed (s ∷ []) r.segments (v, tt);
      idle = r.idle;
      next =
          ap (λ k. if ltb b.next_seq k then k else b.next_seq) v.max_right
          ∙ later_max b.next_seq xs o
          ∙ ap (λ k. last_seq k xs) r.next
          ∙ sym (last_seq-append 0 (sealed_items b.sealed) xs)
          ∙ ap (last_seq 0) (sym e);
      counted =
          rw (e, r.counted, v.count_right)
            (omega (int_laws, length-append (sealed_items b.sealed) xs));
    }
