-- ===== src/AgentBuffer/Backfill/AckSealed.antt =====
-- What Ack does with the sealed segments.
use bitacora.Base.{
  ℕ, ◌+◌, ◌≡◌, refl, ap, sym, ◌∙◌, inl, inr, false, List, [], ◌∷◌, ◌++◌, arith, length, ltb, leb,
  ◌==◌, ltb→lt, leb→le, Bool-cases, All, filter-append,
}
use mathlib.Core.Path.{ap₂}
use bitacora.Base.Int.{ℤ, pos, ◌-ℤ◌, int_laws}
use bitacora.AgentBuffer.Segment.{
  Item, Os, SealedFile, content, overlong, missing, unreadable, SealedSegment, last_seq, items_of,
  IsFaultless,
}
use bitacora.AgentBuffer.Order.{
  IsSorted, IsSorted-left, IsSorted-right, above, acked, length-above, acked-append, above_first,
  above_last,
}
use bitacora.AgentBuffer.Buffer.Invariant.{sealed_items, SegmentIsValid, read_sealed_lem}
use bitacora.AgentBuffer.Backfill.{
  AckStep, drop, keep, remove_if_there, trimmed, ack_partly, ack_segment, Acked, ack_sealed,
}

-- the step does to the segment's items what the acknowledgement means
pub data IsAcked (n : ℕ) (s : SealedSegment) : AckStep → Type 0 where
  dropped : above n (items_of s.file) ≡ [] → acked n (items_of s.file) ≡ s.count → IsAcked n s drop
  kept :
      (t : SealedSegment) (gone : ℕ)
      → items_of t.file ≡ above n (items_of s.file)
      → SegmentIsValid t
      → acked n (items_of s.file) ≡ gone
      → IsAcked n s (keep t gone)

remove_lem :
    (os : Os) (s : SealedSegment) (f : SealedFile) → IsFaultless os → remove_if_there os s f ≡ drop
remove_lem os s (content xs) h = rw (h.removes s.path)
remove_lem os s (overlong xs) h = rw (h.removes s.path)
remove_lem os s missing h = refl
remove_lem os s unreadable h = rw (h.removes s.path)

all_acked : (n : ℕ) (xs : List Item) → above n xs ≡ [] → acked n xs ≡ length xs
all_acked n xs h = omega (arith, length-above n xs, ap (length {A = Item}) h)

ack_partly-IsAcked :
    (os : Os) (n : ℕ) (s : SealedSegment) (xs : List Item)
    → IsFaultless os
    → s.count ≡ length xs
    → items_of s.file ≡ xs
    → IsAcked n s (ack_partly os n s xs)
unfolding ack_partly
ack_partly-IsAcked os n s xs f c e = elim (Bool-cases (length (above n xs) == 0)) [
  | inl none_left ↦
      let empty : above n xs ≡ [] = grind arith in
      rw (none_left, f.removes s.path) (dropped (rw e empty) (rw (e, c) (all_acked n xs empty)))
  | inr some_left ↦
      rw (some_left, f.writes_sealed s.path)
        (kept (trimmed os s (above n xs)) (acked n xs) (ap (above n) (sym e))
          (record { readable = refl; count_right = refl; min_right = refl; max_right = refl })
          (ap (acked n) e))
]

ack_segment-IsAcked :
    (os : Os) (n lo : ℕ) (s : SealedSegment)
    → IsFaultless os
    → SegmentIsValid s
    → IsSorted lo (items_of s.file)
    → IsAcked n s (ack_segment os n s)
unfolding ack_segment
ack_segment-IsAcked os n lo s f v o = elim (Bool-cases (leb s.max_seq n)) [
  | inl below ↦
      let empty = above_last n lo (items_of s.file) o (rw (← v.max_right) (leb→le _ _ below)) in
      rw (below, remove_lem os s s.file f)
        (dropped empty (all_acked n (items_of s.file) empty ∙ sym v.count_right))
  | inr past ↦ elim (Bool-cases (ltb n s.min_seq)) [
    | inl whole ↦
        let all = above_first n lo (items_of s.file) o (rw (← v.min_right) (ltb→lt _ _ whole)) in
        rw (past, whole)
          (kept s 0 (sym all) v
            (omega (arith, length-above n (items_of s.file), ap (length {A = Item}) all)))
    | inr partly ↦
        rw (past, partly, read_sealed_lem s v)
          (ack_partly-IsAcked os n s (items_of s.file) f v.count_right refl)
  ]
]

-- what the loop over the sealed segments leaves
pub record AckedAll (n : ℕ) (ss : List SealedSegment) (total : ℤ) (r : Acked) : Type 0 where
  pub done : r.is_failed ≡ false
  pub items : sealed_items r.kept ≡ above n (sealed_items ss)
  pub segments : All SegmentIsValid r.kept
  pub count : r.total ≡ total -ℤ pos (acked n (sealed_items ss))

pub sub_twice : (z : ℤ) (a b : ℕ) → z -ℤ pos a -ℤ pos b ≡ z -ℤ pos (a + b)
sub_twice z a b = omega int_laws

pub sub_zero : (z : ℤ) → z ≡ z -ℤ pos 0
sub_zero z = omega int_laws

ack_sealed_cons :
    (os : Os) (n : ℕ) (s : SealedSegment) (ss : List SealedSegment) (total : ℤ) (step : AckStep)
    → ack_segment os n s ≡ step
    → IsAcked n s step
    → ((t : ℤ) → AckedAll n ss t (ack_sealed os n ss t))
    → AckedAll n (s ∷ ss) total (ack_sealed os n (s ∷ ss) total)
unfolding ack_sealed
ack_sealed_cons os n s ss total _ e (dropped none_left gone) ih =
    let r = ih (total -ℤ pos s.count) in
    rw (e, ack_sealed)
      (record {
        done = r.done;
        items =
            r.items
            ∙ sym (
                filter-append _ (items_of s.file) (sealed_items ss)
                ∙ ap (λ l. l ++ above n (sealed_items ss)) none_left);
        segments = r.segments;
        count =
            r.count
            ∙ sub_twice total s.count _
            ∙ ap (λ k. total -ℤ pos k)
                (rw (acked-append n (items_of s.file) (sealed_items ss), gone) refl);
      })
ack_sealed_cons os n s ss total _ e (kept t gone same v count) ih =
    let r = ih (total -ℤ pos gone) in
    rw (e, ack_sealed)
      (record {
        done = r.done;
        items =
            ap₂ (λ k l. k ++ l) same r.items
            ∙ sym (filter-append _ (items_of s.file) (sealed_items ss));
        segments = (v, r.segments);
        count =
            r.count
            ∙ sub_twice total gone _
            ∙ ap (λ k. total -ℤ pos k)
                (rw (acked-append n (items_of s.file) (sealed_items ss), count) refl);
      })

pub ack_sealed-AckedAll :
    (os : Os) (n lo : ℕ) (ss : List SealedSegment) (total : ℤ)
    → IsFaultless os
    → All SegmentIsValid ss
    → IsSorted lo (sealed_items ss)
    → AckedAll n ss total (ack_sealed os n ss total)
unfolding ack_sealed
ack_sealed-AckedAll os n lo [] total f v o = record {
  done = refl;
  items = refl;
  segments = tt;
  count = omega int_laws;
}
ack_sealed-AckedAll os n lo (s ∷ ss) total f v o =
    ack_sealed_cons os n s ss total (ack_segment os n s) refl
      (ack_segment-IsAcked os n lo s f v.0 (IsSorted-left lo (items_of s.file) (sealed_items ss) o))
      (λ t.
        ack_sealed-AckedAll os n (last_seq lo (items_of s.file)) ss t f v.1
          (IsSorted-right lo (items_of s.file) (sealed_items ss) o))
