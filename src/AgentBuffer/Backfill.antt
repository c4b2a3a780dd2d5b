-- ===== src/AgentBuffer/Backfill.antt =====
-- internal/agentbuffer/backfill.go: the oldest items, their acknowledgement, and the loop that sends
-- what is buffered.
pub mod Oldest
pub mod AckSealed
pub mod Ack
pub mod Interrupted
pub mod Loop
pub mod Delivery
use bitacora.Base.{
  ℕ, zero, suc, ◌+◌, ◌≡◌, refl, Bool, true, false, not, ◌&&◌, Option, none, some, List, [], ◌∷◌,
  ◌++◌, arith, if◌then◌else◌, length, ltb, leb, ◌==◌,
}
use bitacora.Base.Int.{ℤ, pos, ◌-ℤ◌, leb_ℤ, pos_part}
use bitacora.AgentBuffer.Segment.{
  Item, Os, FileName, SealedFile, content, missing, unreadable, SegmentWriter, SealedSegment,
  first_seq, last_seq, read_sealed, rewrite,
}
use bitacora.AgentBuffer.Order.{above, acked}
use bitacora.AgentBuffer.Buffer.{Buffer, Result, ok, err, failed}

-- the inner loop of oldestItems: it stops once `n` items are there
pub take_items : ℕ → List Item → List Item → List Item
take_items n result [] = result
take_items n result (x ∷ xs) =
    let rest = take_items n (result ++ x ∷ []) xs in if leb n (length result) then result else rest

pub oldest_sealed : ℕ → List Item → List SealedSegment → Option (List Item)
unfolding take_items
oldest_sealed n result [] = some result
oldest_sealed n result (s ∷ ss) =
    let rest : Option (List Item) = elim (read_sealed s.file) [
      | none ↦ none
      | some xs ↦ oldest_sealed n (take_items n result xs) ss
    ] in
    if leb n (length result) then some result else rest

oldest_active : ℕ → List Item → Option SegmentWriter → List Item
oldest_active n result none = result
oldest_active n result (some w) =
    if ltb (length result) n then take_items n result w.items else result

-- `none` is an error: a segment could not be read
pub oldest_items : ℕ → Buffer → Option (List Item)
unfolding oldest_sealed oldest_active
oldest_items n b = elim (oldest_sealed n [] b.sealed) [
  | none ↦ none
  | some result ↦ some (oldest_active n result b.active)
]

-- what Ack does with one sealed segment: drop it, keep it after that many of its items are gone,
-- or stop with an error
pub data AckStep : Type 0 where
  drop : AckStep
  keep : SealedSegment → ℕ → AckStep
  fail : AckStep

-- os.Remove, where the file may be gone already
abbrev pub remove_if_there : Os → SealedSegment → SealedFile → AckStep
remove_if_there os s missing = drop
remove_if_there os s _ = if os.remove s.path then drop else fail

-- a segment whose file was written again with the items that remain, whose lines were read, so they fit
abbrev pub trimmed : Os → SealedSegment → List Item → SealedSegment
trimmed os s remaining = record s {
  count = length remaining;
  min_seq = first_seq remaining;
  max_seq = last_seq 0 remaining;
  byte_size = if os.stat s.path then os.zst_size remaining else s.byte_size;
  file = content remaining;
}

-- the `default` case, from the items of the segment's file
pub ack_partly : Os → ℕ → SealedSegment → List Item → AckStep
ack_partly os n s xs =
    let remaining = above n xs in
    if length remaining == 0
    then (if os.remove s.path then drop else fail)
    else if os.write_sealed s.path
    then keep (trimmed os s remaining) (acked n xs)
    else fail

unfoldable pub ack_segment : Os → ℕ → SealedSegment → AckStep
unfolding ack_partly
ack_segment os n s =
    if leb s.max_seq n
    then remove_if_there os s s.file
    else if ltb n s.min_seq
    then keep s 0
    else elim (read_sealed s.file) [ none ↦ fail | some xs ↦ ack_partly os n s xs ]

-- The loop over the sealed segments: the new list, and the old one with its files as they now are
-- on disk, which the buffer is left with after an error.
pub record Acked : Type 0 where
  pub kept : List SealedSegment
  pub stale : List SealedSegment
  pub total : ℤ
  pub is_failed : Bool

pub ack_sealed : Os → ℕ → List SealedSegment → ℤ → Acked
unfolding ack_segment
ack_sealed os n [] total = record { kept = []; stale = []; total = total; is_failed = false }
ack_sealed os n (s ∷ ss) total = elim (ack_segment os n s) [
  | fail ↦ record { kept = []; stale = s ∷ ss; total = total; is_failed = true }
  | drop ↦
      let r = ack_sealed os n ss (total -ℤ pos s.count) in
      record r { stale = record s { file = missing } ∷ r.stale }
  | keep s' gone ↦
      let r = ack_sealed os n ss (total -ℤ pos gone) in
      record r { kept = s' ∷ r.kept; stale = record s { file = s'.file } ∷ r.stale }
]

abbrev pub ack_rewritten : Buffer → ℕ → SegmentWriter × Bool → Buffer × Result (Unit {0})
ack_rewritten b gone (w, true) =
    (record b { active = some w; total_len = b.total_len -ℤ pos gone }, ok tt)
ack_rewritten b gone (w, false) = (record b { active = some w }, err failed)

-- the end of Ack: the active segment
pub ack_active : Os → ℕ → Buffer → Option SegmentWriter → Buffer × Result (Unit {0})
ack_active os n b none = (b, ok tt)
ack_active os n b (some w) =
    if ltb 0 (acked n w.items)
    then ack_rewritten b (acked n w.items) (rewrite os (record w { items = above n w.items }))
    else (b, ok tt)

abbrev pub ack_with : Os → ℕ → Buffer → Acked → Buffer × Result (Unit {0})
ack_with os n b r =
    if r.is_failed
    then (record b { sealed = r.stale; total_len = r.total }, err failed)
    else ack_active os n (record b { sealed = r.kept; total_len = r.total }) b.active

pub ack : Os → ℕ → Buffer → Buffer × Result (Unit {0})
unfolding ack_sealed ack_active
ack os n b = ack_with os n b (ack_sealed os n b.sealed b.total_len)
