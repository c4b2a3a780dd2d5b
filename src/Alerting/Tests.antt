-- ===== src/Alerting/Tests.antt =====
-- The theorems on alerts, silences, deadman signals and thresholds at concrete inputs.
use mathlib.Core.List.{Permᴰ}
use bitacora.Base.{ℕ, ◌≡◌, refl, Bool, true, false, none, some, List, [], ◌∷◌, ◌++◌, arith}
use bitacora.Base.Int.{pos, ◌≤ℤ◌}
use bitacora.Base.Time.{Time, sub}
use bitacora.Base.Text.{Text, codes}
use bitacora.Base.Labels.{Labels}
use bitacora.Base.Map.{lookup}
use bitacora.Base.Eq.{list_Eq, nat_Eq, list_beq_iff}
use bitacora.Base.Sorting.{SameMap}
use bitacora.Alerting.Alert.{Alert, Reading, inactive, firing, resolved, new_alert, step, run}
use bitacora.Alerting.Alert.Trace.{Leads, run-Leads, Alternates, is_firing, run-Alternates}
use bitacora.Alerting.Alert.Sustained.{HeldSince, after_run, fire_sustained}
use bitacora.Alerting.Fingerprint.{fingerprint, fingerprint-SameMap, fingerprint_collides}
use bitacora.Alerting.Silence.{Silence, SilenceStore}
use bitacora.Alerting.Manager.{Manager, Call}
use bitacora.Alerting.Manager.Independence.{
  manager_run, replay, lookup-manager_run, answers, AreMuted, answers-AreMuted,
}

abbrev an_alert : Alert
an_alert = new_alert (codes "f") (codes "r") [] (codes "warn")

abbrev reading : Time → Bool → Reading
reading t holds = record { now = t; holds = holds; value = 0 }

abbrev readings : List Reading
readings = reading 10 true ∷ reading 20 true ∷ reading 30 false ∷ reading 40 true ∷ []

run-Leads_example :
    Leads inactive (run (pos 5) readings an_alert).0.history (run (pos 5) readings an_alert).0.state
unfolding new_alert
run-Leads_example = run-Leads (pos 5) readings inactive an_alert refl

run-Alternates_example :
    Alternates false
      (run (pos 5) readings an_alert).1
      (is_firing (run (pos 5) readings an_alert).0.state)
unfolding new_alert
run-Alternates_example = run-Alternates (pos 5) readings an_alert

abbrev last_alert : Alert
last_alert = (step (pos 5) (reading 50 true) (run (pos 5) readings an_alert).0).0

fire_sustained_example :
    HeldSince last_alert.pending_since (reading 50 true ∷ after_run readings [])
    × (pos 5 ≤ℤ sub 50 last_alert.pending_since)
unfolding new_alert run bitacora.Alerting.Alert.evaluate_for
fire_sustained_example = fire_sustained (pos 5) readings (reading 50 true) an_alert refl refl refl

abbrev a_hash : Text → Text
a_hash s = s

abbrev a_call : Time → Bool → Text → Call
a_call t holds rule = record {
  rule_id = rule;
  labels = (codes "k", codes "v") ∷ [];
  severity = codes "warn";
  reading = reading t holds;
  for_duration = pos 0;
}

abbrev calls : List Call
calls = a_call 1 true (codes "a") ∷ a_call 2 true (codes "b") ∷ a_call 3 false (codes "a") ∷ []

lookup-manager_run_example :
    let fp = fingerprint a_hash (codes "a") ((codes "k", codes "v") ∷ []) in
    let m : Manager = record { silences = none; alerts = [] } in
    lookup fp (manager_run a_hash calls m).alerts ≡ replay a_hash fp calls none
lookup-manager_run_example =
    lookup-manager_run a_hash (fingerprint a_hash (codes "a") ((codes "k", codes "v") ∷ [])) calls
      (record { silences = none; alerts = [] })

abbrev a_silence : Silence
a_silence = record {
  id = codes "s";
  matchers = (codes "k", codes "v") ∷ [];
  starts_at = 5;
  ends_at = 9;
  created_by = codes "me";
  comment = [];
}

abbrev a_store : SilenceStore
a_store = (codes "s", a_silence) ∷ []

-- one call while the silence holds, one after its end
abbrev two_calls : List Call
two_calls = a_call 6 true (codes "a") ∷ a_call 12 true (codes "a") ∷ []

answers-AreMuted_example :
    let m : Manager = record { silences = some a_store; alerts = [] } in
    let open_m : Manager = record { silences = none; alerts = [] } in
    ((manager_run a_hash two_calls m).alerts ≡ (manager_run a_hash two_calls open_m).alerts)
    × AreMuted a_store (answers a_hash two_calls open_m) (answers a_hash two_calls m)
answers-AreMuted_example = answers-AreMuted a_hash a_store two_calls []

-- 1.0, 2.0 and 1.5 as 64-bit floats
abbrev one : ℕ
one = 0x3FF0000000000000

abbrev two : ℕ
two = 0x4000000000000000

abbrev one_and_half : ℕ
one_and_half = 0x3FF8000000000000

abbrev two_labels : Labels
two_labels = (codes "a", codes "1") ∷ (codes "b", codes "2") ∷ []

fingerprint_collides_example :
    fingerprint a_hash (codes "r") two_labels
    ≡ fingerprint a_hash
        (codes "r")
        ((codes "a", codes "1" ++ (0x1f ∷ (codes "b" ++ (b'=' ∷ codes "2")))) ∷ [])
fingerprint_collides_example =
    fingerprint_collides a_hash (codes "r") (codes "a") (codes "1") (codes "b") (codes "2") refl

abbrev swapped_labels : Labels
swapped_labels = (codes "b", codes "2") ∷ (codes "a", codes "1") ∷ []

swapped_labels-lookup : (k : Text) → lookup k two_labels ≡ lookup k swapped_labels
swapped_labels-lookup k = ground (arith, list_beq_iff (codes "a") k, list_beq_iff (codes "b") k)

two_labels-SameMap : SameMap two_labels swapped_labels
two_labels-SameMap = record {
  same_keys = ∣ Permᴰ.swap refl refl ∣₁;
  same_values = swapped_labels-lookup;
}

fingerprint-SameMap_example :
    fingerprint a_hash (codes "r") two_labels ≡ fingerprint a_hash (codes "r") swapped_labels
fingerprint-SameMap_example =
    fingerprint-SameMap a_hash (codes "r") two_labels swapped_labels two_labels-SameMap
