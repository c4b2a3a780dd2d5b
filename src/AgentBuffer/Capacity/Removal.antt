-- ===== src/AgentBuffer/Capacity/Removal.antt =====
-- removeItemLocked takes exactly one item away.
use mathlib.Core.Path.{ap₂}
use bitacora.Base.{
  ◌≡◌, refl, ap, sym, ◌∙◌, ◌⊎◌, inl, inr, not, Option, none, some, ◌++◌, ◌==◌, All, filter-append,
  map,
}
use bitacora.Base.Int.{pos, ◌-ℤ◌, int_laws}
use bitacora.AgentBuffer.Segment.{
  Item, Os, SegmentWriter, last_seq, lines_size, IsFaultless, record_of,
}
use bitacora.AgentBuffer.Order.{
  IsSorted, IsSorted-left, IsSorted-right, without, without_absent_low, without_absent_high,
}
use bitacora.AgentBuffer.Buffer.{Buffer, Result, ok}
use bitacora.AgentBuffer.Buffer.Invariant.{
  sealed_items, active_items, contents, SegmentIsValid, ActiveIsValid, IsValid, filtered-IsValid,
}
use bitacora.AgentBuffer.Backfill.Ack.{rewrite_lem}
use bitacora.AgentBuffer.Capacity.{remove_sealed, without_sealed, remove_with, remove_item}
use bitacora.AgentBuffer.Capacity.Membership.{
  IsIn, IsIn-append, above_low, below_last, length-without, remove_first_lem, remove_first_absent,
}
use bitacora.AgentBuffer.Capacity.SealedRemoval.{remove_sealed-Takes}

-- what removing the item leaves of a buffer, and that it succeeds
pub record Loses (v : Item) (b : Buffer) (r : Buffer × Result (Unit {0})) : Type 0 where
  pub answer : r.1 ≡ ok tt
  pub items : contents r.0 ≡ without v.seq (contents b)
  pub valid : IsValid r.0

module _ (os : Os) (f : IsFaultless os) (v : Item) (b : Buffer) (bv : IsValid b)
    (h : IsIn v (contents b)) where
  lost :
      (d : Buffer)
      → All SegmentIsValid d.sealed
      → ActiveIsValid d.active
      → contents d ≡ without v.seq (contents b)
      → d.next_seq ≡ b.next_seq
      → d.total_len ≡ b.total_len -ℤ pos 1
      → Loses v b (d, ok tt)
  lost d s a e n t = record {
    answer = refl;
    items = e;
    valid =
        filtered-IsValid (λ x. not (x.seq == v.seq)) b d bv s a e n
          (t ∙ rw (e, bv.counted) (omega (int_laws, length-without 0 v (contents b) bv.sorted h)));
  }

  sealed-IsSorted : IsSorted 0 (sealed_items b.sealed)
  sealed-IsSorted = IsSorted-left 0 (sealed_items b.sealed) (active_items b.active) bv.sorted

  active-IsSorted : IsSorted (last_seq 0 (sealed_items b.sealed)) (active_items b.active)
  active-IsSorted = IsSorted-right 0 (sealed_items b.sealed) (active_items b.active) bv.sorted

  without-contents :
      without v.seq (contents b)
      ≡ without v.seq (sealed_items b.sealed) ++ without v.seq (active_items b.active)
  without-contents = filter-append _ (sealed_items b.sealed) (active_items b.active)

  lost_sealed :
      IsIn v (sealed_items b.sealed)
      → Loses v b (without_sealed b (remove_sealed os v.seq b.sealed))
  lost_sealed m =
      let t = remove_sealed-Takes os v 0 b.sealed f bv.segments sealed-IsSorted m in
      let low = below_last 0 v (sealed_items b.sealed) sealed-IsSorted m in
      rw t.found (
        lost (record b { sealed = t.segments; total_len = b.total_len -ℤ pos 1 }) t.valid bv.writer
          (ap₂ (λ k l. k ++ l) t.items
              (sym (without_absent_low v.seq _ (active_items b.active) active-IsSorted low))
            ∙ sym without-contents)
          refl refl)

  remove_with-Loses :
      (o : Option SegmentWriter)
      → b.active ≡ o
      → ActiveIsValid o
      → IsIn v (sealed_items b.sealed) ⊎ IsIn v (active_items o)
      → Loses v b (remove_with os v.seq b o)
  unfolding remove_with
  remove_with-Loses none p a (inl m) = lost_sealed m
  remove_with-Loses none p a (inr m) = absurd m
  remove_with-Loses (some w) p a (inl m) =
      let low = below_last 0 v (sealed_items b.sealed) sealed-IsSorted m in
      let sorted : IsSorted (last_seq 0 (sealed_items b.sealed)) w.items =
        rw p at active-IsSorted in
      rw
        (
          remove_first_absent v.seq (last_seq 0 (sealed_items b.sealed)) w.items sorted low,
          remove_with,
        )
        (lost_sealed m)
  remove_with-Loses (some w) p a (inr m) =
      let lo = last_seq 0 (sealed_items b.sealed) in
      let sorted : IsSorted lo w.items = rw p at active-IsSorted in
      let left = without v.seq w.items in
      rw
        (
          remove_first_lem lo v w.items sorted m,
          remove_with,
          rewrite_lem os (record w { items = left }) f a.is_open a.is_short,
        )
        (lost
          (record b {
            active = some (record w {
              items = left;
              raw_bytes = lines_size os left;
              file = map record_of left;
            });
            total_len = b.total_len -ℤ pos 1;
          })
          bv.segments
          (record {
            is_open = a.is_open;
            not_copied = a.not_copied;
            is_short = a.is_short;
            in_file = refl;
          })
          (ap₂ (λ k l. k ++ l)
              (sym (
                without_absent_high v.seq 0 (sealed_items b.sealed) sealed-IsSorted
                  (above_low lo v w.items sorted m)))
              (ap (λ q. without v.seq (active_items q)) (sym p))
            ∙ sym without-contents)
          refl refl)

-- An item of a valid buffer is removed by its number under an operating system that reports no error:
-- the call succeeds, the others stay in their order, and the buffer is valid again.
pub remove_item-Loses :
    (os : Os) (v : Item) (b : Buffer)
    → IsFaultless os
    → IsValid b
    → IsIn v (contents b)
    → Loses v b (remove_item os v.seq b)
unfolding remove_item
remove_item-Loses os v b f bv h =
    remove_with-Loses os f v b bv h b.active refl bv.writer
      (IsIn-append v (sealed_items b.sealed) (active_items b.active) h)
