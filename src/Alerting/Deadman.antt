-- ===== src/Alerting/Deadman.antt =====
-- internal/alerting/deadman.go: a signal that must be seen often enough.
use Prim.Native.Nat.{max}
use bitacora.Base.{◌<◌, ◌≡◌, refl, ◌↔◌, Bool, true, false, List, [], ◌∷◌, arith, if◌then◌else◌}
use bitacora.Base.Int.{pos, ltb_ℤ}
use bitacora.Base.Time.{Time, Duration, after, is_zero, sub, add_duration}

pub record DeadmanTracker : Type 0 where
  pub expect_every : Duration
  pub grace : Duration
  pub last_seen : Time

pub new_deadman_tracker : Duration → Duration → DeadmanTracker
new_deadman_tracker every grace = record { expect_every = every; grace = grace; last_seen = 0 }

observe : Time → DeadmanTracker → DeadmanTracker
observe t d = if after t d.last_seen then record d { last_seen = t } else d

pub overdue : Time → DeadmanTracker → Bool × Duration
overdue now d =
    if is_zero d.last_seen
    then (false, pos 0)
    else let elapsed = sub now d.last_seen in
      if ltb_ℤ (add_duration d.expect_every d.grace) elapsed
      then (true, elapsed)
      else (false, pos 0)

pub observe_all : List Time → DeadmanTracker → DeadmanTracker
observe_all [] d = d
observe_all (t ∷ ts) d = observe_all ts (observe t d)

abbrev pub latest : List Time → Time → Time
latest [] t = t
latest (u ∷ ts) t = max u (latest ts t)

latest-max : (ts : List Time) (t u : Time) → latest ts (max u t) ≡ max u (latest ts t)
latest-max [] t u = refl
latest-max (v ∷ ts) t u = omega (arith, latest-max ts t u)

observe_lem :
    (t : Time) (d : DeadmanTracker) → observe t d ≡ record d { last_seen = max t d.last_seen }
unfolding observe
observe_lem t d = ground arith

-- observations in any order leave the latest instant and nothing else changed
observe_all-latest :
    (ts : List Time) (d : DeadmanTracker)
    → observe_all ts d ≡ record d { last_seen = latest ts d.last_seen }
unfolding observe_all
observe_all-latest [] d = refl
observe_all-latest (t ∷ ts) d =
    ground
      (arith, observe_lem t d, observe_all-latest ts (observe t d), latest-max ts d.last_seen t)

-- a new tracker is overdue after any observations exactly if there was one and more than the
-- expected interval and the grace has passed since the latest
pub overdue_iff :
    (every grace : Duration) (ts : List Time) (now : Time)
    → ((overdue now (observe_all ts (new_deadman_tracker every grace))).0 ≡ true)
      ↔ ((0 < latest ts 0) × (ltb_ℤ (add_duration every grace) (sub now (latest ts 0)) ≡ true))
unfolding overdue new_deadman_tracker
overdue_iff every grace ts now =
    ground (arith, observe_all-latest ts (new_deadman_tracker every grace))
