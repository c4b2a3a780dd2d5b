-- ===== src/AgentBuffer/Capacity/Enforcement.antt =====
-- What EnforceCapacity discards and what it leaves.
use bitacora.Base.{
  ℕ, zero, suc, ◌+◌, ◌<◌, ◌≡◌, refl, ap, ◌∙◌, ◌⊎◌, inl, inr, Bool, true, false, List, [], ◌∷◌,
  arith, length, ◌==◌, All, Bool-cases, Option-cases, filter,
}
use bitacora.Base.Int.{pos_part}
use bitacora.Base.Time.{Time}
use bitacora.AgentBuffer.Segment.{Priority, log_line, metric, event, Item, Os, IsFaultless}
use bitacora.AgentBuffer.Order.{IsSorted, without, without_absent_low}
use bitacora.AgentBuffer.Buffer.{Buffer, Result, ok, err, len}
use bitacora.AgentBuffer.Buffer.Invariant.{contents, IsValid}
use bitacora.AgentBuffer.Capacity.{
  DiscardedItem, kind_of, same_priority, over_capacity, find_discard_victim, remove_item, Enforced,
  discard_next, enforce_loop, enforce_capacity,
}
use bitacora.AgentBuffer.Capacity.Removal.{Loses, remove_item-Loses}
use bitacora.AgentBuffer.Capacity.Membership.{IsIn, above_low, length-without}
use bitacora.AgentBuffer.Capacity.Victim.{
  HasNone, IsVictim, find_discard_victim-some, find_discard_victim-none,
}

abbrev pub is_event : Item → Bool
is_event x = same_priority x.priority event

abbrev pub without_all : List DiscardedItem → List Item → List Item
without_all [] xs = xs
without_all (d ∷ ds) xs = without_all ds (without d.seq xs)

pub record Enforces (clock : ℕ → Time) (b : Buffer) (r : Enforced) : Type 0 where
  pub succeeds : r.is_failed ≡ false
  pub terminates : r.fuel_left ≡ true
  pub valid : IsValid r.buffer
  pub items : contents r.buffer ≡ without_all r.discarded (contents b)
  pub counted : length r.discarded + length (contents r.buffer) ≡ length (contents b)
  pub events_kept : filter is_event (contents r.buffer) ≡ filter is_event (contents b)
  pub no_event : All (λ d. same_priority d.priority event ≡ false) r.discarded
  pub lines_first :
      All (λ d. same_priority d.priority log_line ≡ true) r.discarded
      ⊎ HasNone log_line (contents r.buffer)
  pub settled :
      ((k : ℕ) × (over_capacity (clock k) r.buffer ≡ false))
      ⊎ HasNone log_line (contents r.buffer) × HasNone metric (contents r.buffer)

HasNone-without : (p : Priority) (n : ℕ) (xs : List Item) → HasNone p xs → HasNone p (without n xs)
HasNone-without p n [] h = tt
HasNone-without p n (x ∷ xs) h = elim (Bool-cases (x.seq == n)) [
  | inl hit ↦ rw hit (HasNone-without p n xs h.1)
  | inr miss ↦ rw miss (h.0, HasNone-without p n xs h.1)
]

HasNone-without_all :
    (p : Priority) (ds : List DiscardedItem) (xs : List Item)
    → HasNone p xs
    → HasNone p (without_all ds xs)
HasNone-without_all p [] xs h = h
HasNone-without_all p (d ∷ ds) xs h =
    HasNone-without_all p ds (without d.seq xs) (HasNone-without p d.seq xs h)

events-without :
    (lo : ℕ) (v : Item) (xs : List Item)
    → IsSorted lo xs
    → IsIn v xs
    → is_event v ≡ false
    → filter is_event (without v.seq xs) ≡ filter is_event xs
events-without lo v [] s h e = absurd h
events-without lo v (x ∷ xs) s (inl p) e =
    let hit : (x.seq == v.seq) ≡ true = ground arith in
    let low : is_event x ≡ false = rw p at e in
    rw (hit, low) (ap (filter is_event) (without_absent_low v.seq x.seq xs s.1 (ground arith)))
events-without lo v (x ∷ xs) s (inr h) e =
    let ih = events-without x.seq v xs s.1 h e in
    elim (Bool-cases (x.seq == v.seq)) [
      | inl hit ↦ absurd (ground (arith, above_low x.seq v xs s.1 h))
      | inr miss ↦ elim (Bool-cases (is_event x)) [
        | inl ev ↦ rw (miss, ev) (ap (◌∷◌ x) ih)
        | inr low ↦ rw (miss, low) ih
      ]
    ]

victim_no_event : (b : Buffer) (v : Item) → IsVictim v b → is_event v ≡ false
victim_no_event b v h = ground (arith, h.choice)

abbrev entry : Item → DiscardedItem
entry v = record { seq = v.seq; priority = v.priority; kind = kind_of v.payload }

lines_first_step :
    (v : Item) (b c : Buffer) (ds : List DiscardedItem) (xs : List Item)
    → IsVictim v b
    → contents c ≡ without v.seq (contents b)
    → xs ≡ without_all ds (contents c)
    → All (λ d. same_priority d.priority log_line ≡ true) ds ⊎ HasNone log_line xs
    → All (λ d. same_priority d.priority log_line ≡ true) (entry v ∷ ds) ⊎ HasNone log_line xs
lines_first_step v b c ds xs h e g (inr no_line) = inr no_line
lines_first_step v b c ds xs h e g (inl lines) = elim h.choice [
  | inl (line, low) ↦ inl (line, lines)
  | inr (no_line, same, low) ↦ inr (
      rw (g, e)
        (HasNone-without_all log_line ds (without v.seq (contents b))
          (HasNone-without log_line v.seq (contents b) no_line)))
]

discard_next-Enforces :
    (clock : ℕ → Time) (b : Buffer) (v : Item) (rest : Buffer → Enforced)
    (r : Buffer × Result (Unit {0}))
    → IsValid b
    → IsVictim v b
    → Loses v b r
    → Enforces clock r.0 (rest r.0)
    → Enforces clock b (discard_next v rest r)
discard_next-Enforces clock b v rest (c, err e) bv h l i = cc l.answer
discard_next-Enforces clock b v rest (c, ok u) bv h l i = record {
  succeeds = i.succeeds;
  terminates = i.terminates;
  valid = i.valid;
  items = i.items ∙ ap (without_all (rest c).discarded) l.items;
  counted = omega (
    arith,
    i.counted,
    ap (length {A = Item}) l.items,
    length-without 0 v (contents b) bv.sorted h.inside,
  );
  events_kept =
      i.events_kept
      ∙ ap (filter is_event) l.items
      ∙ events-without 0 v (contents b) bv.sorted h.inside (victim_no_event b v h);
  no_event = (victim_no_event b v h, i.no_event);
  lines_first =
      lines_first_step v b c (rest c).discarded (contents (rest c).buffer) h l.items i.items
        i.lines_first;
  settled = i.settled;
}

stop-Enforces :
    (clock : ℕ → Time) (b : Buffer)
    → IsValid b
    → ((k : ℕ) × (over_capacity (clock k) b ≡ false))
      ⊎ HasNone log_line (contents b) × HasNone metric (contents b)
    → Enforces clock b (record { buffer = b; discarded = []; is_failed = false; fuel_left = true })
stop-Enforces clock b v s = record {
  succeeds = refl;
  terminates = refl;
  valid = v;
  items = refl;
  counted = omega arith;
  events_kept = refl;
  no_event = tt;
  lines_first = inl tt;
  settled = s;
}

enforce_loop-Enforces :
    (os : Os) (clock : ℕ → Time) (fuel k : ℕ) (b : Buffer)
    → IsFaultless os
    → IsValid b
    → length (contents b) < fuel
    → Enforces clock b (enforce_loop os clock fuel k b)
unfolding enforce_loop
enforce_loop-Enforces os clock zero k b f bv h = absurd (omega arith)
enforce_loop-Enforces os clock (suc fuel) k b f bv h =
    elim (Bool-cases (over_capacity (clock k) b)) [
      | inr within ↦ rw within (stop-Enforces clock b bv (inl (k, within)))
      | inl over ↦ elim (Option-cases (find_discard_victim b)) [
        | inl no_victim ↦
            rw (over, no_victim)
              (stop-Enforces clock b bv (inr (find_discard_victim-none b bv no_victim)))
        | inr (v, e) ↦
            let victim = find_discard_victim-some b v bv e in
            let l = remove_item-Loses os v b f bv victim.inside in
            rw (over, e)
              (discard_next-Enforces clock b v (enforce_loop os clock fuel (suc k))
                (remove_item os v.seq b) bv victim l
                (enforce_loop-Enforces os clock fuel (suc k) (remove_item os v.seq b).0 f l.valid (
                  omega (
                    arith,
                    ap (length {A = Item}) l.items,
                    length-without 0 v (contents b) bv.sorted victim.inside,
                  ))))
      ]
    ]

-- EnforceCapacity on a valid buffer, under an operating system that reports no error and any clock,
-- returns without an error and within its loop's bound. The buffer is valid again and holds what it
-- held but the discarded items, one for each entry of the result. No entry has the priority of an
-- event and the events that were buffered are all left, in order; a metric is discarded only if no
-- log line is left. It stops within the budget by some reading of the clock, or with no log line
-- and no metric left.
pub enforce_capacity-Enforces :
    (os : Os) (clock : ℕ → Time) (b : Buffer)
    → IsFaultless os
    → IsValid b
    → Enforces clock b (enforce_capacity os clock b)
unfolding enforce_capacity len
enforce_capacity-Enforces os clock b f bv =
    enforce_loop-Enforces os clock (suc (pos_part (len b))) 0 b f bv (rw bv.counted (omega arith))
