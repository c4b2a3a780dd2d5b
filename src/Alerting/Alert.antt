-- ===== src/Alerting/Alert.antt =====
-- internal/alerting/alert.go: the state machine of one alert.
-- `State` is a string in Go; its `default` case, for a string that is none of the four constants,
-- has no counterpart. `*Alert` is changed in place there; here a method returns the new record.
pub mod Trace
pub mod Sustained
use bitacora.Base.{ℕ, ◌≡◌, Bool, true, false, List, [], ◌∷◌, ◌++◌, ◌&&◌, if◌then◌else◌}
use bitacora.Base.Int.{pos, leb_ℤ}
use bitacora.Base.Time.{Time, Duration, sub}
use bitacora.Base.Text.{Text}
use bitacora.Base.Float.{Float64}
use bitacora.Base.Labels.{Labels}

pub data State : Type 0 where
  inactive pending firing resolved : State

pub record Transition : Type 0 where
  pub from : State
  pub to : State
  pub at : Time

pub record Alert : Type 0 where
  pub fingerprint : Text
  pub rule_id : Text
  pub labels : Labels
  pub severity : Text
  pub state : State
  pub pending_since : Time
  pub firing_since : Time
  pub resolved_at : Time
  pub last_eval : Time
  pub value : Float64
  pub history : List Transition

unfoldable pub new_alert : Text → Text → Labels → Text → Alert
new_alert fingerprint rule_id labels severity = record {
  fingerprint = fingerprint;
  rule_id = rule_id;
  labels = labels;
  severity = severity;
  state = inactive;
  pending_since = 0;
  firing_since = 0;
  resolved_at = 0;
  last_eval = 0;
  value = 0;
  history = [];
}

-- the method `transition`
transition : State → Time → Alert → Alert
transition to now a = record a {
  history = a.history ++ record { from = a.state; to = to; at = now } ∷ [];
  state = to;
}

fire : Time → Alert → Alert
unfolding transition
fire now a = record (transition firing now a) { firing_since = now }

-- the case of `StateInactive, StateResolved`
start : Time → Bool → Duration → Alert → Alert × Bool
unfolding transition fire
start now false for_duration a = (a, false)
start now true for_duration a =
    let p = record (transition pending now a) { pending_since = now } in
    if leb_ℤ for_duration (pos 0) then (fire now p, true) else (p, false)

-- the case of `StatePending`
wait : Time → Bool → Duration → Alert → Alert × Bool
unfolding transition fire
wait now false for_duration a = (transition inactive now a, false)
wait now true for_duration a =
    if leb_ℤ for_duration (sub now a.pending_since) then (fire now a, true) else (a, false)

-- the case of `StateFiring`
clear : Time → Bool → Alert → Alert × Bool
unfolding transition
clear now true a = (a, false)
clear now false a = (record (transition resolved now a) { resolved_at = now }, true)

dispatch : State → Time → Bool → Duration → Alert → Alert × Bool
unfolding start wait clear
dispatch inactive now cond d a = start now cond d a
dispatch resolved now cond d a = start now cond d a
dispatch pending now cond d a = wait now cond d a
dispatch firing now cond d a = clear now cond a

unfoldable pub evaluate_for : Time → Bool → Float64 → Duration → Alert → Alert × Bool
unfolding dispatch
evaluate_for now cond value d a =
    dispatch a.state now cond d (record a { last_eval = now; value = value })

evaluate : Time → Bool → Float64 → Alert → Alert × Bool
unfolding evaluate_for
evaluate now cond value a = evaluate_for now cond value (pos 0) a

-- one call of `EvaluateFor`, and what a run of such calls leaves behind
pub record Reading : Type 0 where
  pub now : Time
  pub holds : Bool
  pub value : Float64

abbrev pub step : Duration → Reading → Alert → Alert × Bool
step d r a = evaluate_for r.now r.holds r.value d a

-- the alert after the readings, and the states in which `EvaluateFor` returned true
unfoldable pub run : Duration → List Reading → Alert → Alert × List State
run d [] a = (a, [])
run d (r ∷ rs) a =
    let (a', fresh) = step d r a in
    let (a'', rest) = run d rs a' in (a'', if fresh then a'.state ∷ rest else rest)
