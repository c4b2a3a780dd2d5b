-- ===== src/Collector/Runtime.antt =====
-- internal/collector/runtime.go: the loop of one collector.
-- collectOnce races the collector against a timer in another goroutine: what it answers at a tick is
-- an input here. `name` is the collector's name; a message is left out of an error's report. The
-- reports are made, where Events is not nil, in the order of the list.
pub mod Backoff
pub mod Timeouts
use bitacora.Base.{
  ℕ, zero, suc, ◌+◌, ◌*◌, Bool, true, false, List, [], ◌∷◌, ◌++◌, if◌then◌else◌, leb, ltb,
}
use bitacora.Base.Int.{ℤ, pos}
use bitacora.Base.Time.{Duration, mul_duration}
use bitacora.Base.Text.{Text}

abbrev pub max_backoff_multiplier : ℕ
max_backoff_multiplier = 10

abbrev pub max_consecutive_timeouts : ℕ
max_consecutive_timeouts = 3

-- the answers of collectOnce
pub data Collected : Type 0 where
  timed_out failed succeeded : Collected

pub data Report : Type 0 where
  collector_error collector_disabled collector_recovered : Text → Report

-- the variables of runLoop; `period` is that of the ticker
pub record Loop : Type 0 where
  pub consecutive_errors : ℕ
  pub consecutive_timeouts : ℕ
  pub period : Duration
  pub is_stopped : Bool

unfoldable pub start_loop : Duration → Loop
start_loop interval = record {
  consecutive_errors = 0;
  consecutive_timeouts = 0;
  period = interval;
  is_stopped = false;
}

-- the loop that doubles the multiplier, once for each error in a row
double : ℕ → ℕ → ℕ
double zero multiplier = multiplier
double (suc errors) multiplier =
    let rest = double errors (multiplier * 2) in
    if leb max_backoff_multiplier (multiplier * 2) then max_backoff_multiplier else rest

pub multiplier_after : ℕ → ℕ
unfolding double
multiplier_after errors = double errors 1

on_timeout : Text → Loop → Loop × List Report
on_timeout name l =
    let timeouts = l.consecutive_timeouts + 1 in
    if leb max_consecutive_timeouts timeouts
    then (
      record l { consecutive_timeouts = timeouts; is_stopped = true },
      collector_error name ∷ collector_disabled name ∷ [],
    )
    else (record l { consecutive_timeouts = timeouts }, collector_error name ∷ [])

on_error : Text → Duration → Loop → Loop × List Report
unfolding multiplier_after
on_error name interval l =
    let errors = l.consecutive_errors + 1 in
    (
      record l {
        consecutive_errors = errors;
        consecutive_timeouts = 0;
        period = mul_duration interval (pos (multiplier_after errors));
      },
      collector_error name ∷ [],
    )

on_success : Text → Duration → Loop → Loop × List Report
on_success name interval l =
    if ltb 0 l.consecutive_errors
    then (
      record l { consecutive_errors = 0; consecutive_timeouts = 0; period = interval },
      collector_recovered name ∷ [],
    )
    else (record l { consecutive_timeouts = 0 }, [])

-- one round: a tick and its Collect
pub on_tick : Text → Duration → Collected → Loop → Loop × List Report
unfolding on_timeout on_error on_success
on_tick name interval timed_out l = on_timeout name l
on_tick name interval failed l = on_error name interval l
on_tick name interval succeeded l = on_success name interval l

-- The loop over the answers of as many ticks, until the collector is disabled. The list ends where the
-- context is done: the loop returns there, and its variables are then as they stand here.
unfoldable pub run_loop : Text → Duration → List Collected → Loop → Loop × List Report
unfolding on_tick
run_loop name interval [] l = (l, [])
run_loop name interval (c ∷ cs) l =
    let (l', reports) = on_tick name interval c l in
    let (l'', rest) = run_loop name interval cs l' in
    if l'.is_stopped then (l', reports) else (l'', reports ++ rest)
