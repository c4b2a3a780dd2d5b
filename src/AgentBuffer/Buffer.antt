-- ===== src/AgentBuffer/Buffer.antt =====
-- internal/agentbuffer/buffer.go: the buffer, its opening, Append, Close and the recovery of what a
-- run before it left on disk.
-- Locks are left out: each method holds the mutex from start to end. `int` counts are integers, the
-- sequence number is a uint64.
pub mod Invariant
pub mod Steps
pub mod Rotation
pub mod Append
pub mod Crashed
pub mod Recovery
pub mod Wedged
pub mod Torn
use bitacora.Base.{
  ℕ, zero, suc, ◌+◌, ◌*◌, ◌%◌, ◌^◌, ◌≡◌, refl, Bool, true, false, not, ◌&&◌, Option, none, some,
  List, [], ◌∷◌, ◌++◌, arith, if◌then◌else◌, map, length, ltb, leb, ◌==◌,
}
use bitacora.Base.Int.{ℤ, pos, ◌+ℤ◌, ◌-ℤ◌}
use bitacora.Base.Time.{Time, Duration}
use bitacora.AgentBuffer.Segment.{
  Item, Line, record_of, long_of, torn, Os, FileName, SealedFile, content, SegmentWriter,
  SealedSegment, first_seq, last_seq, items_of, read_sealed, new_segment_writer, write, seal,
  segment_of, sealed_as,
}

pub record Buffer : Type 0 where
  pub segment_bytes : ℕ
  pub max_age : Duration
  pub max_bytes : ℕ
  pub next_seq : ℕ
  pub active : Option SegmentWriter
  pub sealed : List SealedSegment
  pub total_len : ℤ

-- the two options of Open
pub record Options : Type 0 where
  pub segment_bytes : ℕ
  pub max_age : Duration
  pub max_bytes : ℕ

abbrev pub default_options : Options
default_options = record {
  segment_bytes = 4 * 2 ^ 20;
  max_age = pos (2 * 3600 * 10 ^ 9);
  max_bytes = 256 * 2 ^ 20;
}

-- a file operation, or json.Marshal, failed
pub data Error : Type 0 where
  failed : Error

pub data Result {ℓ} (A : Type ℓ) : Type ℓ where
  ok : A → Result A
  err : Error → Result A

abbrev pub u64 : ℕ → ℕ
u64 n = n % 2 ^ 64

-- the end of Append: the active segment is sealed once it is full
pub rotate : Os → SegmentWriter → Buffer → ℕ → Buffer × Result ℕ
rotate os w b seq =
    if leb b.segment_bytes w.raw_bytes
    then (let (w', seg) = seal os w in
        elim seg [
          | none ↦ (record b { active = some w' }, err failed)
          | some s ↦ (record b { active = none; sealed = b.sealed ++ s ∷ [] }, ok seq)
        ])
    else (record b { active = some w }, ok seq)

-- Append from the write on, with the active segment at hand
pub append_to : Os → Item → SegmentWriter → Buffer → Buffer × Result ℕ
unfolding rotate
append_to os it w b =
    let (w', done) = write os w it in
    if done
    then rotate os w' (record b { total_len = b.total_len +ℤ pos 1 }) it.seq
    else (record b { active = some w' }, err failed)

-- the active segment, or a new one under the name `path`
writer_for : Os → FileName → Option SegmentWriter → Option SegmentWriter
writer_for os path (some w) = some w
writer_for os path none = new_segment_writer os path

append_if : Os → Item → Buffer → Option SegmentWriter → Buffer × Result ℕ
unfolding append_to
append_if os it b none = (b, err failed)
append_if os it b (some w) = append_to os it w b

pub append : Os → FileName → Item → Buffer → Buffer × Result ℕ
unfolding append_if writer_for
append os path item b =
    let seq = u64 (b.next_seq + 1) in
    append_if os (record item { seq = seq }) (record b { next_seq = seq })
      (writer_for os path b.active)

close_with : Buffer → SegmentWriter × Option SealedSegment → Buffer × Result (Unit {0})
close_with b (w, none) = (record b { active = some w }, err failed)
close_with b (w, some s) = (record b { active = none; sealed = b.sealed ++ s ∷ [] }, ok tt)

close_if : Os → Buffer → Option SegmentWriter → Buffer × Result (Unit {0})
unfolding close_with
close_if os b none = (b, ok tt)
close_if os b (some w) = close_with b (seal os w)

pub close : Os → Buffer → Buffer × Result (Unit {0})
unfolding close_if
close os b = close_if os b b.active

unfoldable pub len : Buffer → ℤ
len b = b.total_len

unfoldable pub segment_files : Buffer → List FileName
segment_files b = map (λ s. s.path) b.sealed ++ (elim b.active [ none ↦ [] | some w ↦ w.path ∷ [] ])

-- The segment files of the directory, sorted by name: os.ReadDir lists them so, and their names,
-- ULIDs, sort by age.
pub record Directory : Type 0 where
  pub sealed_files : List (FileName × SealedFile)
  pub active_files : List (FileName × List Line)

pub inspect_sealed : Os → FileName → SealedFile → Option SealedSegment
inspect_sealed os path f = elim (read_sealed f) [
  | none ↦ none
  | some xs ↦ if os.stat path then some (segment_of os path xs) else none
]

-- the records up to the first that is torn
pub parse_lines : List Line → List Item
parse_lines [] = []
parse_lines (record_of x ∷ ls) = x ∷ parse_lines ls
parse_lines (long_of x ∷ ls) = x ∷ parse_lines ls
parse_lines (torn ∷ ls) = []

-- one of these records is too long to be read again
abbrev pub has_long : List Line → Bool
has_long [] = false
has_long (record_of x ∷ ls) = has_long ls
has_long (long_of x ∷ ls) = true
has_long (torn ∷ ls) = false

pub seal_orphaned : Os → FileName → List Line → Option SealedSegment
unfolding parse_lines
seal_orphaned os path ls =
    if os.read path && (os.write_sealed path && os.remove path)
    then some (sealed_as (has_long ls) (segment_of os path (parse_lines ls)))
    else none

-- a segment that recovery found joins the buffer
abbrev pub adopt : SealedSegment → Buffer → Buffer
adopt s b = record b {
  sealed = b.sealed ++ s ∷ [];
  total_len = b.total_len +ℤ pos s.count;
  next_seq = if ltb b.next_seq s.max_seq then s.max_seq else b.next_seq;
}

pub recover_sealed : Os → List (FileName × SealedFile) → Buffer → Option Buffer
recover_sealed os [] b = some b
recover_sealed os ((p, f) ∷ fs) b = elim (inspect_sealed os p f) [
  | none ↦ none
  | some s ↦ recover_sealed os fs (adopt s b)
]

pub recover_active : Os → List (FileName × List Line) → Buffer → Option Buffer
recover_active os [] b = some b
recover_active os ((p, ls) ∷ fs) b = elim (seal_orphaned os p ls) [
  | none ↦ none
  | some s ↦ recover_active os fs (if s.count == 0 then b else adopt s b)
]

abbrev pub empty_buffer : Options → Buffer
empty_buffer o = record {
  segment_bytes = o.segment_bytes;
  max_age = o.max_age;
  max_bytes = o.max_bytes;
  next_seq = 0;
  active = none;
  sealed = [];
  total_len = pos 0;
}

-- Open on a directory that exists or could be made; `none` is an error
pub open_buffer : Os → Options → Directory → Option Buffer
unfolding recover_sealed recover_active
open_buffer os o d = elim (recover_sealed os d.sealed_files (empty_buffer o)) [
  | none ↦ none
  | some b ↦ recover_active os d.active_files b
]
