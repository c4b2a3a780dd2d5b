-- ===== src/AgentBuffer/Capacity/Victim.antt =====
-- Which item is discarded next.
use bitacora.Base.{
  ◌≤◌, ◌≡◌, refl, sym, ◌∙◌, ◌⊎◌, inl, inr, true, false, Option, none, some, List, [], ◌∷◌, ◌++◌,
  arith, ltb, All, Bool-cases, Option-cases,
}
use bitacora.AgentBuffer.Segment.{
  Priority, log_line, metric, Item, SegmentWriter, SealedSegment, items_of,
}
use bitacora.AgentBuffer.Buffer.{Buffer}
use bitacora.AgentBuffer.Buffer.Invariant.{
  sealed_items, active_items, contents, SegmentIsValid, IsValid, read_sealed_lem,
}
use bitacora.AgentBuffer.Capacity.{
  same_priority, consider, consider_all, consider_sealed, items_in_memory, oldest_with_priority,
  find_discard_victim,
}
use bitacora.AgentBuffer.Capacity.Membership.{IsIn}

consider_all-append :
    (p : Priority) (best : Option Item) (xs ys : List Item)
    → consider_all p best (xs ++ ys) ≡ consider_all p (consider_all p best xs) ys
unfolding consider_all
consider_all-append p best [] ys = refl
consider_all-append p best (x ∷ xs) ys = consider_all-append p (consider p best x) xs ys

consider_sealed_lem :
    (p : Priority) (best : Option Item) (ss : List SealedSegment)
    → All SegmentIsValid ss
    → consider_sealed p best ss ≡ consider_all p best (sealed_items ss)
unfolding consider_sealed
consider_sealed_lem p best [] v = refl
consider_sealed_lem p best (s ∷ ss) v = rw (read_sealed_lem s v.0) (
    consider_sealed_lem p (consider_all p best (items_of s.file)) ss v.1
    ∙ sym (consider_all-append p best (items_of s.file) (sealed_items ss)))

in_memory : (o : Option SegmentWriter) → items_in_memory o ≡ active_items o
in_memory none = refl
in_memory (some w) = refl

oldest_with_priority_lem :
    (p : Priority) (b : Buffer)
    → IsValid b
    → oldest_with_priority p b ≡ consider_all p none (contents b)
unfolding oldest_with_priority
oldest_with_priority_lem p b v =
    rw (consider_sealed_lem p none b.sealed v.segments, in_memory b.active)
      (sym (consider_all-append p none (sealed_items b.sealed) (active_items b.active)))

-- no item of the priority has a lower number
abbrev pub IsLowest : Priority → Item → List Item → Type 0
IsLowest p v [] = Unit
IsLowest p v (x ∷ xs) = (same_priority x.priority p ≡ true → v.seq ≤ x.seq) × IsLowest p v xs

abbrev pub HasNone : Priority → List Item → Type 0
HasNone p [] = Unit
HasNone p (x ∷ xs) = (same_priority x.priority p ≡ false) × HasNone p xs

-- the best so far stays below what the search found before
abbrev Beats : Item → Option Item → Type 0
Beats v none = Unit
Beats v (some b) = v.seq ≤ b.seq

consider-Beats :
    (p : Priority) (best : Option Item) (x v : Item)
    → Beats v (consider p best x)
    → Beats v best × (same_priority x.priority p ≡ true → v.seq ≤ x.seq)
unfolding consider
consider-Beats p none x v h = (tt, λ e. rw (e, consider) at h)
consider-Beats p (some b) x v h = elim (Bool-cases (same_priority x.priority p)) [
  | inr other ↦ (rw (other, consider) at h, λ e. cc)
  | inl same ↦ elim (Bool-cases (ltb x.seq b.seq)) [
    | inl less ↦ let h' : v.seq ≤ x.seq = rw (same, less, consider) at h in (ground arith, λ e. h')
    | inr more ↦ let h' : v.seq ≤ b.seq = rw (same, more, consider) at h in (h', λ e. ground arith)
  ]
]

consider_found :
    (p : Priority) (best : Option Item) (x v : Item)
    → consider p best x ≡ some v
    → (best ≡ some v) ⊎ (v ≡ x) × (same_priority v.priority p ≡ true)
unfolding consider
consider_found p none x v h = ground arith
consider_found p (some b) x v h = ground arith

consider_all-some :
    (p : Priority) (best : Option Item) (xs : List Item) (v : Item)
    → consider_all p best xs ≡ some v
    → ((best ≡ some v) ⊎ IsIn v xs × (same_priority v.priority p ≡ true))
      × Beats v best
      × IsLowest p v xs
unfolding consider_all
consider_all-some p none [] v h = cc
consider_all-some p (some x) [] v h = ground arith
consider_all-some p best (x ∷ xs) v h =
    let (from, beats, low) = consider_all-some p (consider p best x) xs v h in
    let (kept, lower) = consider-Beats p best x v beats in
    let origin : (best ≡ some v) ⊎ IsIn v (x ∷ xs) × (same_priority v.priority p ≡ true) =
      elim from [
        | inl e ↦ elim (consider_found p best x v e) [
          | inl old ↦ inl old
          | inr (new, same) ↦ inr (inl new, same)
        ]
        | inr (later, same) ↦ inr (inr later, same)
      ] in
    (origin, kept, (lower, low))

consider_all-none :
    (p : Priority) (best : Option Item) (xs : List Item)
    → consider_all p best xs ≡ none
    → (best ≡ none) × HasNone p xs
unfolding consider_all
consider_all-none p best [] h = (h, tt)
consider_all-none p none (x ∷ xs) h = ground (arith, consider_all-none p (consider p none x) xs)
consider_all-none p (some b) (x ∷ xs) h =
    ground (arith, consider_all-none p (consider p (some b) x) xs)

-- an item that is discarded: the oldest log line, or the oldest metric where there is no log line
pub record IsVictim (v : Item) (b : Buffer) : Type 0 where
  pub inside : IsIn v (contents b)
  pub choice :
      (same_priority v.priority log_line ≡ true) × IsLowest log_line v (contents b)
      ⊎ HasNone log_line (contents b)
        × (same_priority v.priority metric ≡ true)
        × IsLowest metric v (contents b)

pub find_discard_victim-some :
    (b : Buffer) (v : Item) → IsValid b → find_discard_victim b ≡ some v → IsVictim v b
unfolding find_discard_victim
find_discard_victim-some b v bv h = elim (Option-cases (oldest_with_priority log_line b)) [
  | inr (w, e) ↦
      let e' : consider_all log_line none (contents b) ≡ some v =
        sym (oldest_with_priority_lem log_line b bv) ∙ ground arith in
      let (from, beats, low) = consider_all-some log_line none (contents b) v e' in
      elim from [
        | inl bad ↦ cc
        | inr (inside, same) ↦ record { inside = inside; choice = inl (same, low) }
      ]
  | inl no_line ↦
      let e' : consider_all metric none (contents b) ≡ some v =
        sym (oldest_with_priority_lem metric b bv) ∙ ground arith in
      let (kept, no_lines) =
        consider_all-none log_line none (contents b)
          (sym (oldest_with_priority_lem log_line b bv) ∙ no_line) in
      let (from, beats, low) = consider_all-some metric none (contents b) v e' in
      elim from [
        | inl bad ↦ cc
        | inr (inside, same) ↦ record { inside = inside; choice = inr (no_lines, same, low) }
      ]
]

pub find_discard_victim-none :
    (b : Buffer)
    → IsValid b
    → find_discard_victim b ≡ none
    → HasNone log_line (contents b) × HasNone metric (contents b)
unfolding find_discard_victim
find_discard_victim-none b bv h =
    let no_line : oldest_with_priority log_line b ≡ none = ground arith in
    let no_metric : oldest_with_priority metric b ≡ none = ground arith in
    (
      (consider_all-none log_line none (contents b)
          (sym (oldest_with_priority_lem log_line b bv) ∙ no_line)).1,
      (consider_all-none metric none (contents b)
          (sym (oldest_with_priority_lem metric b bv) ∙ no_metric)).1,
    )
