-- ===== src/AgentBuffer/Capacity/SealedRemoval.antt =====
-- The loop of removeItemLocked over the sealed segments.
use mathlib.Core.Path.{ap₂}
use bitacora.Base.{
  ℕ, ◌≡◌, refl, ap, sym, ◌∙◌, inl, inr, true, false, ◌||◌, List, [], ◌∷◌, ◌++◌, arith, length, ltb,
  ◌==◌, Bool-cases, All, filter-append,
}
use bitacora.AgentBuffer.Segment.{Item, Os, SealedSegment, last_seq, items_of, IsFaultless}
use bitacora.AgentBuffer.Order.{
  IsSorted, IsSorted-left, IsSorted-right, last_seq_mono, without, without_absent_low,
  without_absent_high,
}
use bitacora.AgentBuffer.Buffer.Invariant.{sealed_items, SegmentIsValid, read_sealed_lem}
use bitacora.AgentBuffer.Backfill.{trimmed}
use bitacora.AgentBuffer.Capacity.{Removed, removed, put_before, remove_from, remove_sealed}
use bitacora.AgentBuffer.Capacity.Membership.{
  IsIn, IsIn-append, above_low, below_last, past_first, same_last, length-without,
}

pub record Takes (v : Item) (ss : List SealedSegment) (r : Removed) : Type 0 where
  pub segments : List SealedSegment
  pub found : r ≡ removed segments
  pub items : sealed_items segments ≡ without v.seq (sealed_items ss)
  pub valid : All SegmentIsValid segments

module _ (os : Os) (f : IsFaultless os) (v : Item) (lo : ℕ) (s : SealedSegment)
    (ss : List SealedSegment) (sv : SegmentIsValid s) (ssv : All SegmentIsValid ss)
    (o : IsSorted lo (sealed_items (s ∷ ss))) where
  abbrev pub xs : List Item
  xs = items_of s.file

  xs-IsSorted : IsSorted lo xs
  xs-IsSorted = IsSorted-left lo xs (sealed_items ss) o

  ss-IsSorted : IsSorted (last_seq lo xs) (sealed_items ss)
  ss-IsSorted = IsSorted-right lo xs (sealed_items ss) o

  rest_untouched : IsIn v xs → without v.seq (sealed_items ss) ≡ sealed_items ss
  rest_untouched h =
      without_absent_low v.seq (last_seq lo xs) (sealed_items ss) ss-IsSorted
        (below_last lo v xs xs-IsSorted h)

  taken_here :
      IsIn v xs
      → (ys : List Item) → ys ≡ without v.seq xs
      → ys ++ sealed_items ss ≡ without v.seq (sealed_items (s ∷ ss))
  taken_here h ys e =
      ap₂ (λ k l. k ++ l) e (sym (rest_untouched h)) ∙ sym (filter-append _ xs (sealed_items ss))

  remove_from-Takes :
      (rest : Removed) → IsIn v xs → Takes v (s ∷ ss) (remove_from os v.seq s ss rest xs)
  unfolding remove_from
  remove_from-Takes rest h =
      let fewer = length-without lo v xs xs-IsSorted h in
      let differ : (length (without v.seq xs) == length xs) ≡ false = ground arith in
      elim (Bool-cases (length (without v.seq xs) == 0)) [
        | inl none_left ↦
            let empty : without v.seq xs ≡ [] = grind arith in
            rw (differ, none_left, f.removes s.path)
              (record {
                segments = ss;
                found = refl;
                items = taken_here h [] (sym empty);
                valid = ssv;
              })
        | inr some_left ↦
            rw (differ, some_left, f.writes_sealed s.path)
              (record {
                segments = trimmed os s (without v.seq xs) ∷ ss;
                found = refl;
                items = taken_here h (without v.seq xs) refl;
                valid = (
                  record {
                    readable = refl;
                    count_right = refl;
                    min_right = refl;
                    max_right = refl;
                  },
                  ssv,
                );
              })
      ]

  in_range : IsIn v xs → (ltb v.seq s.min_seq || ltb s.max_seq v.seq) ≡ false
  in_range h = ground (
    arith,
    sv.min_right,
    sv.max_right,
    past_first lo v xs xs-IsSorted h,
    below_last lo v xs xs-IsSorted h,
    same_last lo v xs h,
  )

  out_of_range : IsIn v (sealed_items ss) → (ltb v.seq s.min_seq || ltb s.max_seq v.seq) ≡ true
  out_of_range h = ground (
    arith,
    sv.max_right,
    above_low (last_seq lo xs) v (sealed_items ss) ss-IsSorted h,
    last_seq_mono 0 lo xs,
  )

  not_here : IsIn v (sealed_items ss) → without v.seq xs ≡ xs
  not_here h =
      without_absent_high v.seq lo xs xs-IsSorted
        (above_low (last_seq lo xs) v (sealed_items ss) ss-IsSorted h)

  put_before-Takes :
      (rest : Removed)
      → IsIn v (sealed_items ss)
      → Takes v ss rest
      → Takes v (s ∷ ss) (put_before s rest)
  put_before-Takes rest h t = record {
    segments = s ∷ t.segments;
    found = ap (put_before s) t.found;
    items =
        ap₂ (λ k l. k ++ l) (sym (not_here h)) t.items ∙ sym (filter-append _ xs (sealed_items ss));
    valid = (sv, t.valid);
  }

pub remove_sealed-Takes :
    (os : Os) (v : Item) (lo : ℕ) (ss : List SealedSegment)
    → IsFaultless os
    → All SegmentIsValid ss
    → IsSorted lo (sealed_items ss)
    → IsIn v (sealed_items ss)
    → Takes v ss (remove_sealed os v.seq ss)
unfolding remove_sealed
remove_sealed-Takes os v lo [] f a o h = absurd h
remove_sealed-Takes os v lo (s ∷ ss) f a o h =
    elim (IsIn-append v (items_of s.file) (sealed_items ss) h) [
      | inl here ↦
          rw (in_range os f v lo s ss a.0 a.1 o here, read_sealed_lem s a.0)
            (remove_from-Takes os f v lo s ss a.0 a.1 o (remove_sealed os v.seq ss) here)
      | inr there ↦ rw (out_of_range os f v lo s ss a.0 a.1 o there) (
          put_before-Takes os f v lo s ss a.0 a.1 o (remove_sealed os v.seq ss) there (
            remove_sealed-Takes os v (last_seq lo (items_of s.file)) ss f a.1
              (IsSorted-right lo (items_of s.file) (sealed_items ss) o) there))
    ]
