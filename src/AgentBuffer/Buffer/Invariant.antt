-- ===== src/AgentBuffer/Buffer/Invariant.antt =====
-- What holds of a buffer between two calls, and the items that it holds.
use bitacora.Base.{
  ◌≤◌, ◌≡◌, refl, ap, sym, ◌∙◌, Bool, true, false, Option, none, some, List, [], ◌∷◌, ◌++◌, map,
  filter, length, All, append_assoc, append-nil,
}
use bitacora.Base.Int.{pos}
use bitacora.AgentBuffer.Segment.{
  Item, record_of, SealedFile, content, overlong, missing, unreadable, read_sealed, SegmentWriter,
  SealedSegment, first_seq, last_seq, items_of, Os, FileName, segment_of,
}
use native.Mathlib.Nat.{le_trans}
use bitacora.AgentBuffer.Order.{IsSorted, filter-IsSorted, last_seq-filter-le}
use bitacora.AgentBuffer.Buffer.{Buffer}

abbrev pub sealed_items : List SealedSegment → List Item
sealed_items [] = []
sealed_items (s ∷ ss) = items_of s.file ++ sealed_items ss

abbrev pub active_items : Option SegmentWriter → List Item
active_items none = []
active_items (some w) = w.items

-- every item of the buffer, oldest first
abbrev pub contents : Buffer → List Item
contents b = sealed_items b.sealed ++ active_items b.active

-- the file can be read, and the metadata describes it
pub record SegmentIsValid (s : SealedSegment) : Type 0 where
  pub readable : s.file ≡ content (items_of s.file)
  pub count_right : s.count ≡ length (items_of s.file)
  pub min_right : s.min_seq ≡ first_seq (items_of s.file)
  pub max_right : s.max_seq ≡ last_seq 0 (items_of s.file)

-- the file is open and holds what is in memory
pub record WriterIsValid (w : SegmentWriter) : Type 0 where
  pub is_open : w.is_open ≡ true
  pub not_copied : w.is_copied ≡ false
  pub is_short : w.is_overlong ≡ false
  pub in_file : w.file ≡ map record_of w.items

abbrev pub ActiveIsValid : Option SegmentWriter → Type 0
ActiveIsValid none = Unit
ActiveIsValid (some w) = WriterIsValid w

pub record IsValid (b : Buffer) : Type 0 where
  pub segments : All SegmentIsValid b.sealed
  pub writer : ActiveIsValid b.active
  pub sorted : IsSorted 0 (contents b)
  pub bounded : last_seq 0 (contents b) ≤ b.next_seq
  pub counted : b.total_len ≡ pos (length (contents b))

sealed_items-append :
    (ss ts : List SealedSegment) → sealed_items (ss ++ ts) ≡ sealed_items ss ++ sealed_items ts
sealed_items-append [] ts = refl
sealed_items-append (s ∷ ss) ts =
    rw (sealed_items-append ss ts) (sym (append_assoc (items_of s.file) _ _))

pub sealed_items-snoc :
    (ss : List SealedSegment) (s : SealedSegment)
    → sealed_items (ss ++ s ∷ []) ≡ sealed_items ss ++ items_of s.file
sealed_items-snoc ss s = rw (sealed_items-append ss (s ∷ []), append-nil)

pub segment_of-IsValid :
    (os : Os) (p : FileName) (xs : List Item) → SegmentIsValid (segment_of os p xs)
unfolding segment_of
segment_of-IsValid os p xs = record {
  readable = refl;
  count_right = refl;
  min_right = refl;
  max_right = refl;
}

pub map-append_one :
    (xs : List Item) (x : Item)
    → map record_of (xs ++ x ∷ []) ≡ map record_of xs ++ record_of x ∷ []
map-append_one [] x = refl
map-append_one (y ∷ xs) x = ap (◌∷◌ (record_of y)) (map-append_one xs x)

-- a buffer that holds a selection of the items of a valid one
pub filtered-IsValid :
    (p : Item → Bool) (b c : Buffer)
    → IsValid b
    → All SegmentIsValid c.sealed
    → ActiveIsValid c.active
    → contents c ≡ filter p (contents b)
    → c.next_seq ≡ b.next_seq
    → c.total_len ≡ pos (length (contents c))
    → IsValid c
filtered-IsValid p b c v s a e n t = record {
  segments = s;
  writer = a;
  sorted = rw e (filter-IsSorted p 0 (contents b) v.sorted);
  bounded = rw (e, n) (le_trans (last_seq-filter-le p 0 (contents b) v.sorted) v.bounded);
  counted = t;
}

pub same-IsValid :
    (b c : Buffer)
    → IsValid b
    → All SegmentIsValid c.sealed
    → ActiveIsValid c.active
    → contents c ≡ contents b
    → c.next_seq ≡ b.next_seq
    → c.total_len ≡ b.total_len
    → IsValid c
same-IsValid b c v s a e n t = record {
  segments = s;
  writer = a;
  sorted = rw e v.sorted;
  bounded = rw (e, n) v.bounded;
  counted = t ∙ rw e v.counted;
}

pub read_sealed_lem :
    (s : SealedSegment) → SegmentIsValid s → read_sealed s.file ≡ some (items_of s.file)
unfolding read_sealed
read_sealed_lem s v = by_file s.file v.readable
  where
    by_file : (f : SealedFile) → f ≡ content (items_of f) → read_sealed f ≡ some (items_of f)
    by_file (content xs) p = refl
    by_file (overlong xs) p = cc
    by_file missing p = cc
    by_file unreadable p = cc
