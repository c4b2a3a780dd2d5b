-- ===== src/AgentBuffer/Capacity.antt =====
-- internal/agentbuffer/capacity.go: what is discarded when the buffer is over its budget.
-- `clock` gives the reading of the clock in each round of EnforceCapacity's loop. Its fuel is one
-- more than the number of buffered items: each round takes one item away.
pub mod Membership
pub mod SealedRemoval
pub mod Removal
pub mod Victim
pub mod Enforcement
pub mod Overflow
use bitacora.Base.{
  ℕ, zero, suc, ◌+◌, Bool, true, false, not, ◌&&◌, ◌||◌, Option, none, some, List, [], ◌∷◌, ◌++◌,
  filter, if◌then◌else◌, length, ltb, ◌==◌, map,
}
use bitacora.Base.Int.{ℤ, pos, ◌-ℤ◌, ltb_ℤ, pos_part}
use bitacora.Base.Time.{Time, sub}
use bitacora.Base.Text.{Text, codes}
use bitacora.AgentBuffer.Segment.{
  Priority, log_line, metric, event, Payload, of_metric, of_event, of_log_line, of_inventory, Item,
  Os, SealedFile, content, SegmentWriter, SealedSegment, read_sealed, rewrite,
}
use bitacora.AgentBuffer.Order.{without}
use bitacora.AgentBuffer.Buffer.{Buffer, Result, ok, err, failed, len}
use bitacora.AgentBuffer.Backfill.{trimmed}

pub record DiscardedItem : Type 0 where
  pub seq : ℕ
  pub priority : Priority
  pub kind : Text

pub kind_of : Payload → Text
kind_of (of_log_line l) = codes "log_line"
kind_of (of_metric m) = codes "metric"
kind_of (of_inventory i) = codes "inventory"
kind_of (of_event e) = codes "event"

sealed_bytes : List SealedSegment → ℕ
sealed_bytes [] = 0
sealed_bytes (s ∷ ss) = s.byte_size + sealed_bytes ss

first_ts : List Item → Option Time
first_ts [] = none
first_ts (x ∷ xs) = some x.ts

active_ts : Option SegmentWriter → Option Time
unfolding first_ts
active_ts none = none
active_ts (some w) = first_ts w.items

-- the first sealed segment, if it can be read and holds an item, and the active one otherwise
oldest_ts : Option SegmentWriter → List SealedSegment → Option Time
unfolding active_ts first_ts
oldest_ts active [] = active_ts active
oldest_ts active (s ∷ ss) = elim (read_sealed s.file) [
  | none ↦ active_ts active
  | some [] ↦ active_ts active
  | some (x ∷ xs) ↦ some x.ts
]

pub over_capacity : Time → Buffer → Bool
unfolding sealed_bytes oldest_ts
over_capacity now b =
    let active_bytes : ℕ = elim b.active [ none ↦ 0 | some w ↦ w.raw_bytes ] in
    if ltb b.max_bytes (sealed_bytes b.sealed + active_bytes)
    then true
    else elim (oldest_ts b.active b.sealed) [
      | none ↦ false
      | some oldest ↦ ltb_ℤ b.max_age (sub now oldest)
    ]

abbrev pub same_priority : Priority → Priority → Bool
same_priority log_line log_line = true
same_priority metric metric = true
same_priority event event = true
same_priority _ _ = false

pub consider : Priority → Option Item → Item → Option Item
consider prio best it =
    if not (same_priority it.priority prio)
    then best
    else elim best [ none ↦ some it | some b ↦ if ltb it.seq b.seq then some it else some b ]

pub consider_all : Priority → Option Item → List Item → Option Item
unfolding consider
consider_all prio best [] = best
consider_all prio best (x ∷ xs) = consider_all prio (consider prio best x) xs

-- a segment that cannot be read is passed over
pub consider_sealed : Priority → Option Item → List SealedSegment → Option Item
unfolding consider_all
consider_sealed prio best [] = best
consider_sealed prio best (s ∷ ss) =
    consider_sealed prio
      (elim (read_sealed s.file) [ none ↦ best | some xs ↦ consider_all prio best xs ]) ss

abbrev pub items_in_memory : Option SegmentWriter → List Item
items_in_memory none = []
items_in_memory (some w) = w.items

pub oldest_with_priority : Priority → Buffer → Option Item
unfolding consider_sealed
oldest_with_priority prio b =
    consider_all prio (consider_sealed prio none b.sealed) (items_in_memory b.active)

abbrev pub or_else : Option Item → Option Item → Option Item
or_else none o = o
or_else (some x) o = some x

pub find_discard_victim : Buffer → Option Item
unfolding oldest_with_priority
find_discard_victim b = or_else (oldest_with_priority log_line b) (oldest_with_priority metric b)

-- the items without the first that has the number; `none` if no item has it
pub remove_first : ℕ → List Item → Option (List Item)
remove_first n [] = none
remove_first n (x ∷ xs) =
    let rest : Option (List Item) = elim (remove_first n xs) [
      | none ↦ none
      | some ys ↦ some (x ∷ ys)
    ] in
    if x.seq == n then some xs else rest

-- how the search through the sealed segments ends
pub data Removed : Type 0 where
  removed : List SealedSegment → Removed
  not_found : Removed
  io_failed : Removed

abbrev pub put_before : SealedSegment → Removed → Removed
put_before s (removed ss) = removed (s ∷ ss)
put_before s not_found = not_found
put_before s io_failed = io_failed

pub remove_from : Os → ℕ → SealedSegment → List SealedSegment → Removed → List Item → Removed
remove_from os n s ss rest xs =
    let filtered = without n xs in
    if length filtered == length xs
    then put_before s rest
    else if length filtered == 0
    then (if os.remove s.path then removed ss else io_failed)
    else if os.write_sealed s.path
    then removed (trimmed os s filtered ∷ ss)
    else io_failed

pub remove_sealed : Os → ℕ → List SealedSegment → Removed
unfolding remove_from
remove_sealed os n [] = not_found
remove_sealed os n (s ∷ ss) =
    let rest = remove_sealed os n ss in
    if ltb n s.min_seq || ltb s.max_seq n
    then put_before s rest
    else elim (read_sealed s.file) [ none ↦ io_failed | some xs ↦ remove_from os n s ss rest xs ]

abbrev pub without_rewritten : Buffer → SegmentWriter × Bool → Buffer × Result (Unit {0})
without_rewritten b (w, true) =
    (record b { active = some w; total_len = b.total_len -ℤ pos 1 }, ok tt)
without_rewritten b (w, false) = (record b { active = some w }, err failed)

abbrev pub without_sealed : Buffer → Removed → Buffer × Result (Unit {0})
without_sealed b (removed ss) = (record b { sealed = ss; total_len = b.total_len -ℤ pos 1 }, ok tt)
without_sealed b not_found = (b, err failed)
without_sealed b io_failed = (b, err failed)

pub remove_with : Os → ℕ → Buffer → Option SegmentWriter → Buffer × Result (Unit {0})
unfolding remove_first remove_sealed
remove_with os n b none = without_sealed b (remove_sealed os n b.sealed)
remove_with os n b (some w) = elim (remove_first n w.items) [
  | some xs ↦ without_rewritten b (rewrite os (record w { items = xs }))
  | none ↦ without_sealed b (remove_sealed os n b.sealed)
]

pub remove_item : Os → ℕ → Buffer → Buffer × Result (Unit {0})
unfolding remove_with
remove_item os n b = remove_with os n b b.active

pub record Enforced : Type 0 where
  pub buffer : Buffer
  pub discarded : List DiscardedItem
  pub is_failed : Bool
  pub fuel_left : Bool

abbrev pub discard_next : Item → (Buffer → Enforced) → Buffer × Result (Unit {0}) → Enforced
discard_next v rest (b, err e) = record {
  buffer = b;
  discarded = [];
  is_failed = true;
  fuel_left = true;
}
discard_next v rest (b, ok _) =
    let r = rest b in
    record r {
      discarded =
          record { seq = v.seq; priority = v.priority; kind = kind_of v.payload } ∷ r.discarded;
    }

pub enforce_loop : Os → (ℕ → Time) → ℕ → ℕ → Buffer → Enforced
unfolding kind_of
enforce_loop os clock zero k b = record {
  buffer = b;
  discarded = [];
  is_failed = false;
  fuel_left = false;
}
enforce_loop os clock (suc fuel) k b =
    let stop : Enforced = record {
      buffer = b;
      discarded = [];
      is_failed = false;
      fuel_left = true;
    } in
    let rest = enforce_loop os clock fuel (suc k) in
    let step : Enforced = elim (find_discard_victim b) [
      | none ↦ stop
      | some v ↦ discard_next v rest (remove_item os v.seq b)
    ] in
    if over_capacity (clock k) b then step else stop

pub enforce_capacity : Os → (ℕ → Time) → Buffer → Enforced
unfolding enforce_loop len
enforce_capacity os clock b = enforce_loop os clock (suc (pos_part (len b))) 0 b
