-- ===== src/AgentBuffer/Backfill/Interrupted.antt =====
-- An Ack that fails after it has removed files.
use bitacora.Base.{ℕ, ◌≤◌, ◌<◌, ◌≡◌, refl, true, false, none, List, [], ◌∷◌, arith, leb, le→leb}
use bitacora.Base.Int.{ℤ, pos, ◌-ℤ◌}
use bitacora.AgentBuffer.Segment.{Item, Os, content, missing, SealedSegment, read_sealed}
use bitacora.AgentBuffer.Buffer.{Buffer, err, failed}
use bitacora.AgentBuffer.Backfill.{
  drop, fail, ack_segment, ack_sealed, ack, oldest_sealed, oldest_items,
}

ack_segment_drops :
    (os : Os) (n : ℕ) (s : SealedSegment) (xs : List Item)
    → s.max_seq ≤ n
    → s.file ≡ content xs
    → os.remove s.path ≡ true
    → ack_segment os n s ≡ drop
unfolding ack_segment
ack_segment_drops os n s xs h f r = rw (le→leb _ _ h, f, r) refl

-- the loop drops a segment and fails at the next
ack_sealed_interrupted :
    (os : Os) (n : ℕ) (s t : SealedSegment) (ss : List SealedSegment) (total : ℤ)
    → ack_segment os n s ≡ drop
    → ack_segment os n t ≡ fail
    → ack_sealed os n (s ∷ t ∷ ss) total ≡ record {
      kept = [];
      stale = record s { file = missing } ∷ t ∷ ss;
      total = total -ℤ pos s.count;
      is_failed = true;
    }
unfolding ack_sealed
ack_sealed_interrupted os n s t ss total d f = rw (d, ack_sealed, f) refl

oldest_sealed_missing :
    (m : ℕ) (s : SealedSegment) (ss : List SealedSegment)
    → 0 < m
    → s.file ≡ missing
    → oldest_sealed m [] (s ∷ ss) ≡ none
unfolding oldest_sealed read_sealed
oldest_sealed_missing m s ss h e =
    let room : leb m 0 ≡ false = ground (arith, h) in rw (room, e) refl

-- If Ack removes the first sealed segment and then fails at the second, it returns an error and
-- leaves the removed segment in the buffer's list, counted out of its length: after that, reading the
-- oldest items fails, however many are asked for.
pub ack_interrupted :
    (os : Os) (n m : ℕ) (b : Buffer) (s t : SealedSegment) (ss : List SealedSegment)
    (xs : List Item)
    → b.sealed ≡ s ∷ t ∷ ss
    → s.max_seq ≤ n
    → s.file ≡ content xs
    → os.remove s.path ≡ true
    → ack_segment os n t ≡ fail
    → 0 < m
    → ((ack os n b).1 ≡ err failed)
      × ((ack os n b).0.total_len ≡ b.total_len -ℤ pos s.count)
      × (oldest_items m (ack os n b).0 ≡ none)
unfolding ack oldest_items
ack_interrupted os n m b s t ss xs e h f r fails pos_m =
    let d = ack_segment_drops os n s xs h f r in
    let i = ack_sealed_interrupted os n s t ss b.total_len d fails in
    rw
      (
        e,
        i,
        oldest_sealed_missing m (record s { file = missing }) (t ∷ ss) pos_m refl,
        oldest_items,
      )
      (refl, refl, refl)
