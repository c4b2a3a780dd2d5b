-- ===== src/AgentBuffer/Backfill/Ack.antt =====
-- Ack when no call of the operating system fails.
use bitacora.Base.{
  false, ℕ, ◌+◌, ◌≡◌, refl, ap, sym, ◌∙◌, inl, inr, true, Option, none, some, List, [], ◌∷◌, ◌++◌,
  arith, ltb, Bool-cases, All, filter-append, map,
}
use mathlib.Core.Path.{ap₂}
use bitacora.Base.Int.{pos, ◌-ℤ◌, int_laws}
use bitacora.AgentBuffer.Segment.{
  Item, Os, SegmentWriter, rewrite, lines_size, IsFaultless, record_of,
}
use bitacora.AgentBuffer.Order.{IsSorted-left, above, acked, length-above, acked-append}
use bitacora.AgentBuffer.Buffer.{Buffer, Result, ok}
use bitacora.AgentBuffer.Buffer.Invariant.{
  sealed_items, active_items, contents, SegmentIsValid, ActiveIsValid, IsValid, filtered-IsValid,
}
use bitacora.AgentBuffer.Backfill.{Acked, ack_sealed, ack_active, ack}
use bitacora.AgentBuffer.Backfill.AckSealed.{AckedAll, sub_twice, sub_zero, ack_sealed-AckedAll}

pub rewrite_lem :
    (os : Os) (w : SegmentWriter)
    → IsFaultless os
    → w.is_open ≡ true
    → w.is_overlong ≡ false
    → rewrite os w
      ≡ (record w { raw_bytes = lines_size os w.items; file = map record_of w.items }, true)
unfolding rewrite
rewrite_lem os w f o s = rw (o, s, f.rewrites w.path)

no_acked : (n : ℕ) (xs : List Item) → acked n xs ≡ 0 → above n xs ≡ xs
no_acked n [] h = refl
no_acked n (x ∷ xs) h = ground (arith, no_acked n xs)

-- what Ack leaves of a buffer's items, and that it succeeds
record AckDone (n : ℕ) (b : Buffer) (r : Buffer × Result (Unit {0})) : Type 0 where
  answer : r.1 ≡ ok tt
  items : contents r.0 ≡ above n (contents b)
  valid : IsValid r.0

module _ (os : Os) (n : ℕ) (b : Buffer) (f : IsFaultless os) (v : IsValid b) where
  finish :
      (d : Buffer)
      → All SegmentIsValid d.sealed
      → ActiveIsValid d.active
      → sealed_items d.sealed ≡ above n (sealed_items b.sealed)
      → active_items d.active ≡ above n (active_items b.active)
      → d.next_seq ≡ b.next_seq
      → d.total_len ≡ b.total_len -ℤ pos (acked n (contents b))
      → AckDone n b (d, ok tt)
  finish d s a e g m t =
      let items : contents d ≡ above n (contents b) =
        ap₂ (λ k l. k ++ l) e g
        ∙ sym (filter-append _ (sealed_items b.sealed) (active_items b.active)) in
      record {
        answer = refl;
        items = items;
        valid =
            filtered-IsValid (λ x. ltb n x.seq) b d v s a items m
              (t ∙ rw (items, v.counted) (omega (int_laws, length-above n (contents b))));
      }

  module _ (r : Acked) (l : AckedAll n b.sealed b.total_len r) where
    abbrev after_loop : Buffer
    after_loop = record b { sealed = r.kept; total_len = r.total }

    total_with :
        (o : Option SegmentWriter)
        → b.active ≡ o
        → r.total -ℤ pos (acked n (active_items o)) ≡ b.total_len -ℤ pos (acked n (contents b))
    total_with o p =
        ap (λ z. z -ℤ pos (acked n (active_items o))) l.count
        ∙ sub_twice b.total_len _ _
        ∙ ap (λ k. b.total_len -ℤ pos k)
            (ap (λ a. acked n (sealed_items b.sealed) + acked n (active_items a)) (sym p)
              ∙ sym (acked-append n (sealed_items b.sealed) (active_items b.active)))

    ack_active-AckDone :
        (o : Option SegmentWriter)
        → b.active ≡ o
        → ActiveIsValid o
        → AckDone n b (ack_active os n after_loop o)
    unfolding ack_active
    ack_active-AckDone none p a =
        finish after_loop l.segments v.writer l.items (rw p refl) refl
          (sub_zero r.total ∙ total_with none p)
    ack_active-AckDone (some w) p a = elim (Bool-cases (ltb 0 (acked n w.items))) [
      | inl some_gone ↦
          let kept_items = above n w.items in
          rw (some_gone, rewrite_lem os (record w { items = kept_items }) f a.is_open a.is_short)
            (finish
              (record after_loop {
                active = some (record w {
                  items = kept_items;
                  raw_bytes = lines_size os kept_items;
                  file = map record_of kept_items;
                });
                total_len = r.total -ℤ pos (acked n w.items);
              })
              l.segments
              (record {
                is_open = a.is_open;
                not_copied = a.not_copied;
                is_short = a.is_short;
                in_file = refl;
              })
              l.items (ap (λ q. above n (active_items q)) (sym p)) refl (total_with (some w) p))
      | inr none_gone ↦
          let nothing : acked n w.items ≡ 0 = ground arith in
          rw none_gone (
            finish after_loop l.segments v.writer l.items
              (ap active_items p
                ∙ sym (no_acked n w.items nothing)
                ∙ ap (λ q. above n (active_items q)) (sym p))
              refl
              (sub_zero r.total ∙ ap (λ k. r.total -ℤ pos k) (sym nothing) ∙ total_with (some w) p))
    ]

-- Ack of a valid buffer under an operating system that reports no error succeeds, leaves exactly
-- the items whose numbers are past the acknowledged one, in their order, and a valid buffer.
pub ack_lem :
    (os : Os) (n : ℕ) (b : Buffer)
    → IsFaultless os
    → IsValid b
    → ((ack os n b).1 ≡ ok tt)
      × (contents (ack os n b).0 ≡ above n (contents b))
      × IsValid (ack os n b).0
unfolding ack
ack_lem os n b f v =
    let sorted = IsSorted-left 0 (sealed_items b.sealed) (active_items b.active) v.sorted in
    let r = ack_sealed os n b.sealed b.total_len in
    let l = ack_sealed-AckedAll os n 0 b.sealed b.total_len f v.segments sorted in
    rw l.done (
      let d = ack_active-AckDone os n b f v r l b.active refl v.writer in
      (d.answer, d.items, d.valid))
