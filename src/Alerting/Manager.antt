-- ===== src/Alerting/Manager.antt =====
-- internal/alerting/manager.go: every alert by its fingerprint, and who is notified.
-- Locks are left out: calls are taken one at a time. `Firing` and `All` list the alerts in the
-- order of the association list, where Go's order is unspecified.
pub mod Independence
use bitacora.Base.{
  ℕ, ◌≡◌, refl, Bool, true, false, not, ◌&&◌, Option, none, some, List, [], ◌∷◌, arith,
  if◌then◌else◌, map, filter,
}
use bitacora.Base.Time.{Time, Duration}
use bitacora.Base.Text.{Text}
use bitacora.Base.Labels.{Labels}
use bitacora.Base.Float.{Float64}
use bitacora.Base.Map.{lookup, insert}
use bitacora.Base.Eq.{list_Eq, nat_Eq}
use bitacora.Alerting.Alert.{
  State, inactive, pending, firing, resolved, Alert, new_alert, evaluate_for, Reading, step,
}
use bitacora.Alerting.Silence.{SilenceStore, silenced}
use bitacora.Alerting.Fingerprint.{fingerprint}

-- `none` for a nil store of silences
pub record Manager : Type 0 where
  pub silences : Option SilenceStore
  pub alerts : List (Text × Alert)

-- the arguments of Evaluate
pub record Call : Type 0 where
  pub rule_id : Text
  pub labels : Labels
  pub severity : Text
  pub reading : Reading
  pub for_duration : Duration

abbrev pub is_silenced : Option SilenceStore → Time → Labels → Bool
is_silenced none now labels = false
is_silenced (some store) now labels = silenced now labels store

-- the alert that Evaluate works on: the one that is kept, or a new one
abbrev pub alert_or_new : Text → Call → Option Alert → Alert
alert_or_new fp c (some a) = a
alert_or_new fp c none = new_alert fp c.rule_id c.labels c.severity

abbrev pub is_firing_state : State → Bool
is_firing_state firing = true
is_firing_state _ = false

unfoldable pub firing_alerts : Manager → List Alert
firing_alerts m = filter (λ a. is_firing_state a.state) (map (λ e. e.1) m.alerts)

unfoldable pub all_alerts : Manager → List Alert
all_alerts m = map (λ e. e.1) m.alerts

unfoldable pub new_manager : Option SilenceStore → Manager
new_manager silences = record { silences = silences; alerts = [] }

module _ (sha256_hex : Text → Text) where
  abbrev pub key : Call → Text
  key c = fingerprint sha256_hex c.rule_id c.labels

  -- the new manager, the alert, and whether to notify
  pub manager_evaluate : Call → Manager → Manager × Alert × Bool
  manager_evaluate c m =
      let fp = key c in
      let (a, transitioned) =
        step c.for_duration c.reading (alert_or_new fp c (lookup fp m.alerts)) in
      let notify = transitioned && not (is_silenced m.silences c.reading.now c.labels) in
      (record m { alerts = insert fp a m.alerts }, a, notify)

  unfoldable pub get : Text → Labels → Manager → Option Alert
  get rule_id labels m = lookup (fingerprint sha256_hex rule_id labels) m.alerts
