-- ===== src/AgentBuffer/Backfill/Oldest.antt =====
-- oldestItems reads the front of the buffer.
use bitacora.Base.{
  ℕ, suc, ◌-◌, ◌≤◌, ◌≡◌, ap, sym, ◌∙◌, Option, none, some, List, [], ◌∷◌, ◌++◌, arith, length, take,
  take-append, take-nil, inl, inr, length-append, length-take, ltb, leb, leb→le, leb→gt, ltb→ge,
  Bool-cases, All, append_assoc, append-nil,
}
use bitacora.AgentBuffer.Segment.{Item, SealedSegment, SegmentWriter, items_of}
use bitacora.AgentBuffer.Buffer.{Buffer}
use bitacora.AgentBuffer.Buffer.Invariant.{
  sealed_items, active_items, contents, SegmentIsValid, IsValid, read_sealed_lem,
}
use bitacora.AgentBuffer.Backfill.{take_items, oldest_sealed, oldest_active, oldest_items}

-- what is taken on top of a result, up to `n` in all
abbrev more : ℕ → List Item → List Item → List Item
more n result xs = result ++ take (n - length result) xs

more_full : (n : ℕ) (result xs : List Item) → n ≤ length result → more n result xs ≡ result
more_full n result xs h =
    ap (λ k. result ++ take k xs) (let z : n - length result ≡ 0 = omega arith in z)
    ∙ append-nil result

take_items_lem : (n : ℕ) (result xs : List Item) → take_items n result xs ≡ more n result xs
unfolding take_items
take_items_lem n result [] =
    sym (ap (λ l. result ++ l) (take-nil (n - length result)) ∙ append-nil result)
take_items_lem n result (x ∷ xs) = elim (Bool-cases (leb n (length result))) [
  | inl full ↦ rw full (sym (more_full n result (x ∷ xs) (leb→le _ _ full)))
  | inr room ↦
      let longer = result ++ x ∷ [] in
      let e : n - length result ≡ suc (n - length longer) =
        omega (arith, leb→gt _ _ room, length-append result (x ∷ [])) in
      rw (room, e)
        (take_items_lem n longer xs ∙ append_assoc result (x ∷ []) (take (n - length longer) xs))
]

more-more :
    (n : ℕ) (result xs ys : List Item) → more n (more n result xs) ys ≡ more n result (xs ++ ys)
more-more n result xs ys =
    let k = n - length result in
    let e : n - length (more n result xs) ≡ k - length xs =
      omega (arith, length-append result (take k xs), length-take k xs) in
    rw (e, take-append k xs ys) (append_assoc result (take k xs) (take (k - length xs) ys))

oldest_sealed_lem :
    (n : ℕ) (result : List Item) (ss : List SealedSegment)
    → All SegmentIsValid ss
    → oldest_sealed n result ss ≡ some (more n result (sealed_items ss))
unfolding oldest_sealed
oldest_sealed_lem n result [] v =
    ap some (sym (ap (λ l. result ++ l) (take-nil (n - length result)) ∙ append-nil result))
oldest_sealed_lem n result (s ∷ ss) v = elim (Bool-cases (leb n (length result))) [
  | inl full ↦
      rw full (ap some (sym (more_full n result (sealed_items (s ∷ ss)) (leb→le _ _ full))))
  | inr room ↦
      rw (room, read_sealed_lem s v.0, take_items_lem n result (items_of s.file))
        (oldest_sealed_lem n (more n result (items_of s.file)) ss v.1
          ∙ ap some (more-more n result (items_of s.file) (sealed_items ss)))
]

oldest_active_lem :
    (n : ℕ) (result : List Item) (o : Option SegmentWriter)
    → oldest_active n result o ≡ more n result (active_items o)
unfolding oldest_active
oldest_active_lem n result none =
    sym (ap (λ l. result ++ l) (take-nil (n - length result)) ∙ append-nil result)
oldest_active_lem n result (some w) = elim (Bool-cases (ltb (length result) n)) [
  | inl room ↦ rw room (take_items_lem n result w.items)
  | inr full ↦ rw full (sym (more_full n result w.items (ltb→ge _ _ full)))
]

-- From a valid buffer oldestItems reads without error, and its result is the first `n` items of the
-- buffer (all of them, if there are fewer), across sealed segments and the active one.
pub oldest_items_lem :
    (n : ℕ) (b : Buffer) → IsValid b → oldest_items n b ≡ some (take n (contents b))
unfolding oldest_items
oldest_items_lem n b v =
    let e : n - 0 ≡ n = omega arith in
    rw (oldest_sealed_lem n [] b.sealed v.segments, oldest_items)
      (ap some (
        oldest_active_lem n (more n [] (sealed_items b.sealed)) b.active
        ∙ more-more n [] (sealed_items b.sealed) (active_items b.active)
        ∙ ap (λ k. take k (contents b)) e))
