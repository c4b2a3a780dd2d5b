-- ===== src/AgentBuffer/Segment.antt =====
-- internal/agentbuffer/segment.go and the segment functions of buffer.go: items, segment files and
-- the operating system's answers.
--
-- A file's content is a field of the segment that owns it. The records of a file are whole lines:
-- `record_of` is the JSON of an item, `long_of` one that is longer, with its newline, than the 8 MiB that
-- readSealedSegment gives its scanner, `torn` a line that json.Unmarshal refuses, which a write that
-- fails half-way leaves behind. An `Os` says how each call on a path ends, and how long an
-- item's line and a compressed segment are; every operation is given its own. An item that stands
-- in a segment was encoded once, so encoding it again succeeds.
use bitacora.Base.{
  ℕ, ◌+◌, ◌*◌, ◌^◌, ◌≡◌, ◌&&◌, ◌||◌, ltb, Bool, true, false, Option, none, some, List, [], ◌∷◌,
  ◌++◌, if◌then◌else◌, map, length,
}
use bitacora.Base.Time.{Time}
use bitacora.Schema.Types.{Metric, Event, LogLine, Inventory}

-- lower priorities are discarded first
pub data Priority : Type 0 where
  log_line metric event : Priority

-- exactly one of the four pointers of an Item is set
pub data Payload : Type 0 where
  of_metric : Metric → Payload
  of_event : Event → Payload
  of_log_line : LogLine → Payload
  of_inventory : Inventory → Payload

pub record Item : Type 0 where
  pub seq : ℕ
  pub priority : Priority
  pub ts : Time
  pub payload : Payload

-- a line of an active segment's file
pub data Line : Type 0 where
  record_of long_of : Item → Line
  torn : Line

-- how a write with its fsync ends; only the last leaves no error
pub data Write : Type 0 where
  fails_clean fails_torn fails_unsynced written : Write

-- how the steps of seal end: Close, writeSealedSegment, Remove
pub data Seal : Type 0 where
  close_fails write_fails remove_fails sealed : Seal

-- how the steps of rewrite end
pub data Rewrite : Type 0 where
  truncate_fails write_fails rewritten : Rewrite

pub data SealedFile : Type 0 where
  content : List Item → SealedFile
  overlong : List Item → SealedFile  -- with a line that the scanner does not take
  missing unreadable : SealedFile

abbrev pub FileName : Type 0
FileName = ℕ

pub record Os : Type 0 where
  pub line_size : Item → Option ℕ  -- `none`: json.Marshal fails, as on a float that is not finite
  pub zst_size : List Item → ℕ
  pub read : FileName → Bool
  pub create : FileName → Bool
  pub write : FileName → Write
  pub seal : FileName → Seal
  pub rewrite : FileName → Rewrite
  pub write_sealed : FileName → Bool
  pub remove : FileName → Bool
  pub stat : FileName → Bool

pub record SegmentWriter : Type 0 where
  pub path : FileName
  pub is_open : Bool
  pub is_copied : Bool  -- a sealed file with the items lies beside, after a Remove that failed
  pub is_overlong : Bool  -- the line of one of the items is longer than the scanner takes
  pub raw_bytes : ℕ
  pub items : List Item
  pub file : List Line

pub record SealedSegment : Type 0 where
  pub path : FileName
  pub min_seq : ℕ
  pub max_seq : ℕ
  pub count : ℕ
  pub byte_size : ℕ
  pub file : SealedFile

-- `items[0].Seq`, where the code leaves 0 for no item
abbrev pub first_seq : List Item → ℕ
first_seq [] = 0
first_seq (x ∷ xs) = x.seq

-- `items[len(items)-1].Seq`, or the number given for no item
abbrev pub last_seq : ℕ → List Item → ℕ
last_seq d [] = d
last_seq d (x ∷ xs) = last_seq x.seq xs

abbrev pub items_of : SealedFile → List Item
items_of (content xs) = xs
items_of (overlong xs) = xs
items_of missing = []
items_of unreadable = []

-- the size of the scanner's buffer, which a line has to fit in with its newline
abbrev pub max_line : ℕ
max_line = 8 * 2 ^ 20

abbrev pub is_long : ℕ → Bool
is_long size = ltb max_line size

-- the line of an item, by its size
abbrev pub line_of : ℕ → Item → Line
line_of size it = if is_long size then long_of it else record_of it

-- readSealedSegment; `none` is an error, for `overlong` the scanner's
unfoldable pub read_sealed : SealedFile → Option (List Item)
read_sealed (content xs) = some xs
read_sealed (overlong xs) = none
read_sealed missing = none
read_sealed unreadable = none

unfoldable pub new_segment_writer : Os → FileName → Option SegmentWriter
new_segment_writer os path =
    if os.create path
    then some (record {
      path = path;
      is_open = true;
      is_copied = false;
      is_overlong = false;
      raw_bytes = 0;
      items = [];
      file = [];
    })
    else none

abbrev pub written_to : SegmentWriter → Item → ℕ → Write → SegmentWriter × Bool
written_to w it size written = (
  record w {
    is_overlong = w.is_overlong || is_long size;
    raw_bytes = w.raw_bytes + size;
    items = w.items ++ it ∷ [];
    file = w.file ++ line_of size it ∷ [];
  },
  true,
)
written_to w it size fails_unsynced = (record w { file = w.file ++ line_of size it ∷ [] }, false)
written_to w it size fails_torn = (record w { file = w.file ++ torn ∷ [] }, false)
written_to w it size fails_clean = (w, false)

-- `write`; the flag says whether it returned no error
unfoldable pub write : Os → SegmentWriter → Item → SegmentWriter × Bool
write os w it = elim (os.line_size it) [
  | none ↦ (w, false)
  | some size ↦ if w.is_open then written_to w it size (os.write w.path) else (w, false)
]

-- the metadata of a segment that holds the items
unfoldable pub segment_of : Os → FileName → List Item → SealedSegment
segment_of os path xs = record {
  path = path;
  min_seq = first_seq xs;
  max_seq = last_seq 0 xs;
  count = length xs;
  byte_size = if os.stat path then os.zst_size xs else 0;
  file = content xs;
}

-- the segment, where the file has a line that is too long to be read again
abbrev pub sealed_as : Bool → SealedSegment → SealedSegment
sealed_as is_overlong s = if is_overlong then record s { file = overlong (items_of s.file) } else s

abbrev pub sealed_to : Os → SegmentWriter → Seal → SegmentWriter × Option SealedSegment
sealed_to os w sealed =
    (record w { is_open = false }, some (sealed_as w.is_overlong (segment_of os w.path w.items)))
sealed_to os w close_fails = (record w { is_open = false }, none)
sealed_to os w Seal.write_fails = (record w { is_open = false }, none)
sealed_to os w remove_fails = (record w { is_open = false; is_copied = true }, none)

-- `seal`: Close of a file that is closed already fails; after Close the file stays closed
unfoldable pub seal : Os → SegmentWriter → SegmentWriter × Option SealedSegment
unfolding segment_of
seal os w = if w.is_open then sealed_to os w (os.seal w.path) else (w, none)

pub lines_size : Os → List Item → ℕ
lines_size os [] = 0
lines_size os (x ∷ xs) = (elim (os.line_size x) [ none ↦ 0 | some n ↦ n ]) + lines_size os xs

abbrev pub item_size : Os → Item → ℕ
item_size os x = elim (os.line_size x) [ none ↦ 0 | some n ↦ n ]

abbrev pub any_long : Os → List Item → Bool
any_long os [] = false
any_long os (x ∷ xs) = is_long (item_size os x) || any_long os xs

-- The lines of the items that remain. An item's line is the same each time, so none is too long where
-- none was.
abbrev pub rewritten_lines : Os → SegmentWriter → List Line
rewritten_lines os w =
    if w.is_overlong then map (λ x. line_of (item_size os x) x) w.items else map record_of w.items

abbrev pub rewritten_to : Os → SegmentWriter → Rewrite → SegmentWriter × Bool
rewritten_to os w rewritten = (
  record w {
    is_overlong = w.is_overlong && any_long os w.items;
    raw_bytes = lines_size os w.items;
    file = rewritten_lines os w;
  },
  true,
)
rewritten_to os w truncate_fails = (w, false)
rewritten_to os w Rewrite.write_fails = (record w { file = [] }, false)

-- `rewrite`: the file is made to hold the items that are in memory
unfoldable pub rewrite : Os → SegmentWriter → SegmentWriter × Bool
unfolding lines_size
rewrite os w = if w.is_open then rewritten_to os w (os.rewrite w.path) else (w, false)

-- no call fails but the encoding of an item
pub record IsFaultless (os : Os) : Type 0 where
  pub reads : (p : FileName) → os.read p ≡ true
  pub stats : (p : FileName) → os.stat p ≡ true
  pub creates : (p : FileName) → os.create p ≡ true
  pub writes : (p : FileName) → os.write p ≡ written
  pub seals : (p : FileName) → os.seal p ≡ sealed
  pub rewrites : (p : FileName) → os.rewrite p ≡ rewritten
  pub writes_sealed : (p : FileName) → os.write_sealed p ≡ true
  pub removes : (p : FileName) → os.remove p ≡ true
