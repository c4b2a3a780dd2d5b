-- ===== src/Alerting/Alert/Sustained.antt =====
-- `for`: an alert fires only after its condition held long enough.
use bitacora.Base.{◌≡◌, ◌⊎◌, true, List, [], ◌∷◌, arith}
use bitacora.Base.Int.{◌≤ℤ◌}
use bitacora.Base.Time.{Duration, Time, sub}
use bitacora.Alerting.Alert.{inactive, pending, firing, Alert, evaluate_for, Reading, step, run}

-- Newest reading first: the condition held in every reading back to one at the instant `t`.
abbrev pub HeldSince : Time → List Reading → Type 0
HeldSince t [] = ⊥
HeldSince t (r ∷ past) = (r.holds ≡ true) × ((r.now ≡ t) ⊎ HeldSince t past)

-- a pending alert has seen its condition hold ever since `PendingSince`
abbrev pub PendingIsHeld : Alert → List Reading → Type 0
PendingIsHeld a past = a.state ≡ pending → HeldSince a.pending_since past

step-PendingIsHeld :
    (d : Duration) (r : Reading) (a : Alert) (past : List Reading)
    → PendingIsHeld a past
    → PendingIsHeld (step d r a).0 (r ∷ past)
unfolding evaluate_for
step-PendingIsHeld d r a past h = ground arith

fire_held :
    (d : Duration) (r : Reading) (a : Alert) (past : List Reading)
    → PendingIsHeld a past
    → (step d r a).1 ≡ true
    → (step d r a).0.state ≡ firing
    → HeldSince (step d r a).0.pending_since (r ∷ past)
unfolding evaluate_for
fire_held d r a past h t f = ground arith

fire_waited :
    (d : Duration) (r : Reading) (a : Alert)
    → (step d r a).1 ≡ true
    → (step d r a).0.state ≡ firing
    → d ≤ℤ sub r.now (step d r a).0.pending_since
unfolding evaluate_for
fire_waited d r a t f = ground arith

-- the readings of a run, newest first, on top of those before it
abbrev pub after_run : List Reading → List Reading → List Reading
after_run [] past = past
after_run (r ∷ rs) past = after_run rs (r ∷ past)

run-PendingIsHeld :
    (d : Duration) (rs past : List Reading) (a : Alert)
    → PendingIsHeld a past
    → PendingIsHeld (run d rs a).0 (after_run rs past)
unfolding run
run-PendingIsHeld d [] past a h = h
run-PendingIsHeld d (r ∷ rs) past a h =
    run-PendingIsHeld d rs (r ∷ past) (step d r a).0 (step-PendingIsHeld d r a past h)

-- Start from an inactive alert and run any readings. If one more reading is reported
-- and leaves the alert firing, then the condition held in that reading and in all before it, back
-- to one at the instant `PendingSince`, and at least the duration `for` has passed since then.
pub fire_sustained :
    (d : Duration) (rs : List Reading) (r : Reading) (a : Alert)
    → a.state ≡ inactive
    → (step d r (run d rs a).0).1 ≡ true
    → (step d r (run d rs a).0).0.state ≡ firing
    → HeldSince (step d r (run d rs a).0).0.pending_since (r ∷ after_run rs [])
      × (d ≤ℤ sub r.now (step d r (run d rs a).0).0.pending_since)
fire_sustained d rs r a i t f =
    let held = run-PendingIsHeld d rs [] a (λ p. absurd (ground arith)) in
    (fire_held d r (run d rs a).0 (after_run rs []) held t f, fire_waited d r (run d rs a).0 t f)
