-- ===== src/Collector/Tests.antt =====
-- The theorems on collectors at concrete answers and items.
use bitacora.Base.{refl, ◌≡◌, ◌↔◌, Bool, true, Option, none, some, List, [], ◌∷◌}
use bitacora.Base.Int.{pos}
use bitacora.Base.Text.{Text, codes}
use bitacora.Collector.Runtime.{Collected, timed_out, failed, succeeded, run_loop, start_loop}
use bitacora.Collector.Runtime.Backoff.{expected_period, errors_from, run_loop-period}
use bitacora.Collector.Runtime.Timeouts.{HasThree, stopped_iff}
use bitacora.Collector.Registry.{RegistryItem}

abbrev answers : List Collected
answers = failed ∷ timed_out ∷ failed ∷ timed_out ∷ timed_out ∷ timed_out ∷ succeeded ∷ []

-- a success between errors, and timeouts
abbrev mixed : List Collected
mixed = failed ∷ timed_out ∷ failed ∷ succeeded ∷ failed ∷ timed_out ∷ []

run_loop-period_example :
    (run_loop (codes "cpu") (pos 100) mixed (start_loop (pos 100))).0.period
    ≡ expected_period (pos 100) (errors_from 0 mixed)
unfolding run_loop start_loop
run_loop-period_example = run_loop-period (codes "cpu") (pos 100) mixed refl

stopped_iff_example :
    ((run_loop (codes "cpu") (pos 100) answers (start_loop (pos 100))).0.is_stopped ≡ true)
    ↔ HasThree answers
stopped_iff_example = stopped_iff (codes "cpu") (pos 100) answers

abbrev a_collector : Text → List Text → Option Text → RegistryItem
a_collector name requires error = record {
  collector = record { name = name; requires = requires; init_error = error };
  interval = pos 10;
  timeout = pos 5;
}

abbrev some_items : List RegistryItem
some_items =
    a_collector (codes "cpu") (codes "procfs" ∷ []) none
    ∷ a_collector (codes "ups") (codes "nut" ∷ []) none
    ∷ a_collector (codes "docker") [] (some (codes "no socket"))
    ∷ []

abbrev available : List (Text × Bool)
available = (codes "procfs", true) ∷ []

abbrev quoted : Text → Text
quoted s = s
