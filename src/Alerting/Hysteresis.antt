-- ===== src/Alerting/Hysteresis.antt =====
-- internal/alerting/hysteresis.go: separate thresholds to fire and to resolve.
use bitacora.Base.{◌≡◌, refl, Bool, true, false, not, List, [], ◌∷◌, All}
use bitacora.Base.Float.{Float64, float_lt}

pub record HysteresisThreshold : Type 0 where
  pub fire_above : Float64
  pub resolve_below : Float64

condition_true : HysteresisThreshold → Float64 → Bool → Bool
condition_true h value true = not (float_lt value h.resolve_below)
condition_true h value false = float_lt h.fire_above value

-- each evaluation is told what the one before it answered
pub condition_run : HysteresisThreshold → List Float64 → Bool → Bool
condition_run h [] active = active
condition_run h (v ∷ vs) active = condition_run h vs (condition_true h v active)

-- a value past neither threshold
abbrev pub IsBetween : HysteresisThreshold → Float64 → Type 0
IsBetween h v = (float_lt v h.resolve_below ≡ false) × (float_lt h.fire_above v ≡ false)

between-condition_true :
    (h : HysteresisThreshold) (v : Float64) (active : Bool)
    → IsBetween h v
    → condition_true h v active ≡ active
unfolding condition_true
between-condition_true h v true b = rw b.0
between-condition_true h v false b = rw b.1

-- values that are past neither threshold, in any number and order, change nothing: the condition
-- stays what it was, so it cannot flap
pub condition_run_stable :
    (h : HysteresisThreshold) (vs : List Float64) (active : Bool)
    → All (IsBetween h) vs
    → condition_run h vs active ≡ active
unfolding condition_run
condition_run_stable h [] active b = refl
condition_run_stable h (v ∷ vs) active b =
    rw (between-condition_true h v active b.0) (condition_run_stable h vs active b.1)
