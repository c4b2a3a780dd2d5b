-- ===== src/Alerting/Manager/Independence.antt =====
-- A manager behaves as one state machine for each fingerprint, and silences hide notifications only.
use mathlib.Core.List.{Memᴰ}
use bitacora.Base.{
  ◌≡◌, ◌↔◌, refl, ap, ◌∙◌, inl, inr, Bool, true, Bool-cases, not, ◌&&◌, Option, none, some, List,
  [], ◌∷◌, arith, if◌then◌else◌,
}
use bitacora.Base.Text.{Text}
use bitacora.Base.Map.{lookup, insert, lookup-insert}
use bitacora.Base.Eq.{list_Eq, nat_Eq, list_beq_iff, ◌≟◌}
use bitacora.Alerting.Alert.{Alert, step}
use bitacora.Alerting.Silence.{Silence, SilenceStore, silenced, Covers, silenced_iff}
use bitacora.Alerting.Manager.{Manager, Call, alert_or_new, key, manager_evaluate}

-- Two answers to the same call, of a manager without silences and of one with them: the alert is the
-- same, and there is a notification exactly if there is one without silences and no silence of the
-- store has begun, has not ended and has matchers, all of which the labels have.
abbrev pub IsMuted : SilenceStore → Call × Alert × Bool → Call × Alert × Bool → Type 0
IsMuted store (c, a, notify) (c', a', notify') =
    (c ≡ c')
    × (a ≡ a')
    × ((notify' ≡ true) ↔ (
        (notify ≡ true)
        × ¬ ((e : Text × Silence) × Memᴰ e store × Covers c.reading.now c.labels e)))

abbrev pub AreMuted :
    SilenceStore → List (Call × Alert × Bool) → List (Call × Alert × Bool) → Type 0
AreMuted store [] [] = Unit
AreMuted store (x ∷ xs) (y ∷ ys) = IsMuted store x y × AreMuted store xs ys
AreMuted store _ _ = ⊥

muted :
    (store : SilenceStore) (c : Call) (t : Bool)
    → ((t && not (silenced c.reading.now c.labels store)) ≡ true) ↔ (
        ((t && true) ≡ true)
        × ¬ ((e : Text × Silence) × Memᴰ e store × Covers c.reading.now c.labels e))
muted store c t =
    let i = silenced_iff c.reading.now c.labels store in
    (
      λ h. (ground (arith, h), λ x. ground (arith, h, i.1 x)),
      λ h. elim (Bool-cases (silenced c.reading.now c.labels store)) [
        | inl s ↦ absurd (h.1 (i.0 s))
        | inr s ↦ ground (arith, s, h.0)
      ],
    )

module _ (sha256_hex : Text → Text) where
  pub manager_run : List Call → Manager → Manager
  manager_run [] m = m
  manager_run (c ∷ cs) m = manager_run cs (manager_evaluate sha256_hex c m).0

  -- one alert on its own: it takes the calls with its fingerprint and passes the others over
  abbrev pub replay_one : Text → Call → Option Alert → Option Alert
  replay_one fp c o =
      if key sha256_hex c ≟ fp
      then some (step c.for_duration c.reading (alert_or_new fp c o)).0
      else o

  pub replay : Text → List Call → Option Alert → Option Alert
  replay fp [] o = o
  replay fp (c ∷ cs) o = replay fp cs (replay_one fp c o)

  lookup-manager_evaluate :
      (fp : Text) (c : Call) (m : Manager)
      → lookup fp (manager_evaluate sha256_hex c m).0.alerts ≡ replay_one fp c (lookup fp m.alerts)
  unfolding manager_evaluate
  lookup-manager_evaluate fp c m = ground (
    arith,
    lookup-insert (key sha256_hex c) fp
        (step c.for_duration c.reading
          (alert_or_new (key sha256_hex c) c (lookup (key sha256_hex c) m.alerts))).0
        m.alerts,
    list_beq_iff (key sha256_hex c) fp,
  )

  -- After any calls of Evaluate, interleaved in any way over rules and label sets, the alert that
  -- the manager keeps under a fingerprint is what the calls with that fingerprint alone make of it.
  pub lookup-manager_run :
      (fp : Text) (cs : List Call) (m : Manager)
      → lookup fp (manager_run cs m).alerts ≡ replay fp cs (lookup fp m.alerts)
  unfolding manager_run replay
  lookup-manager_run fp [] m = refl
  lookup-manager_run fp (c ∷ cs) m =
      lookup-manager_run fp cs (manager_evaluate sha256_hex c m).0
      ∙ ap (replay fp cs) (lookup-manager_evaluate fp c m)

  -- what a call answers: the alert, and whether to notify
  pub answers : List Call → Manager → List (Call × Alert × Bool)
  answers [] m = []
  answers (c ∷ cs) m =
      let (m', a, notify) = manager_evaluate sha256_hex c m in (c, a, notify) ∷ answers cs m'

  -- Over any calls of Evaluate, a manager with silences keeps the alerts and answers the alerts that one
  -- without silences does, and of the notifications of that one makes exactly those for which no silence
  -- of the store has begun, has not ended and has matchers, all of which the labels have, at the time of
  -- the call.
  pub answers-AreMuted :
      (store : SilenceStore) (cs : List Call) (alerts : List (Text × Alert))
      → let m : Manager = record { silences = some store; alerts = alerts } in
        let open_m : Manager = record { silences = none; alerts = alerts } in
        ((manager_run cs m).alerts ≡ (manager_run cs open_m).alerts)
        × AreMuted store (answers cs open_m) (answers cs m)
  unfolding manager_run answers manager_evaluate
  answers-AreMuted store [] alerts = (refl, tt)
  answers-AreMuted store (c ∷ cs) alerts =
      let fp = key sha256_hex c in
      let r = step c.for_duration c.reading (alert_or_new fp c (lookup fp alerts)) in
      let rest = answers-AreMuted store cs (insert fp r.0 alerts) in
      (rest.0, ((refl, refl, muted store c r.1), rest.1))
