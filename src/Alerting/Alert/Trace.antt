-- ===== src/Alerting/Alert/Trace.antt =====
-- What a run of evaluations leaves in the history, and which transitions it reports.
use bitacora.Base.{
  ◌≡◌, refl, ◌⊎◌, inl, inr, Bool, true, false, not, List, [], ◌∷◌, ◌++◌, arith, sym, Bool-cases,
  if◌then◌else◌,
}
use mathlib.Core.Path.{subst}
use bitacora.Base.Time.{Duration, Time, sub}
use bitacora.Base.Int.{leb_ℤ, pos}
use bitacora.Alerting.Alert.{
  State, inactive, pending, firing, resolved, Transition, Alert, evaluate_for, Reading, step, run,
  start, dispatch, transition,
}

-- the edges of the state machine
pub data Edge : State → State → Type 0 where
  appears : Edge inactive pending
  reappears : Edge resolved pending
  cancels : Edge pending inactive
  fires : Edge pending firing
  clears : Edge firing resolved

-- the transitions lead from the first state to the second along edges
abbrev pub Leads : State → List Transition → State → Type 0
Leads s [] t = s ≡ t
Leads s (x ∷ xs) t = (x.from ≡ s) × Edge x.from x.to × Leads x.to xs t

Leads-snoc :
    (s t u : State) (xs : List Transition) (x : Transition)
    → Leads s xs t
    → x.from ≡ t
    → x.to ≡ u
    → Edge t u
    → Leads s (xs ++ x ∷ []) u
Leads-snoc s t u [] x h p q e = ground (arith, e)
Leads-snoc s t u (y ∷ xs) x h p q e = (h.0, h.1, Leads-snoc y.to t u xs x h.2 p q e)

move :
    (s : State) (to : State) (now : Time) (a : Alert) {t : State}
    → a.state ≡ t
    → Edge t to
    → Leads s a.history a.state
    → Leads s (transition to now a).history to
unfolding transition
move s to now a p e h =
    Leads-snoc s a.state to a.history _ h refl refl (subst (λ t. Edge t to) (sym p) e)

start-Leads :
    (s : State) (now : Time) (c : Bool) (d : Duration) (a : Alert)
    → Edge a.state pending
    → Leads s a.history a.state
    → Leads s (start now c d a).0.history (start now c d a).0.state
unfolding start transition
start-Leads s now false d a e h = h
start-Leads s now true d a e h =
    let once = move s pending now a refl e h in
    let p = record (transition pending now a) { pending_since = now } in
    elim (Bool-cases (leb_ℤ d (pos 0))) [
      | inl t ↦ rw t (move s firing now p refl fires once)
      | inr f ↦ rw f once
    ]

dispatch-Leads :
    (s t : State) (now : Time) (c : Bool) (d : Duration) (a : Alert)
    → a.state ≡ t
    → Leads s a.history a.state
    → Leads s (dispatch t now c d a).0.history (dispatch t now c d a).0.state
unfolding dispatch transition
dispatch-Leads s inactive now c d a p h =
    start-Leads s now c d a (subst (λ t. Edge t pending) (sym p) appears) h
dispatch-Leads s resolved now c d a p h =
    start-Leads s now c d a (subst (λ t. Edge t pending) (sym p) reappears) h
dispatch-Leads s pending now false d a p h = move s inactive now a p cancels h
dispatch-Leads s pending now true d a p h = elim (Bool-cases (leb_ℤ d (sub now a.pending_since))) [
  | inl t ↦ rw t (move s firing now a p fires h)
  | inr f ↦ rw f h
]
dispatch-Leads s firing now true d a p h = h
dispatch-Leads s firing now false d a p h = move s resolved now a p clears h

-- whatever the readings are, the history of an alert is one walk along the edges of the state
-- machine that starts where the history started and ends in the current state
pub run-Leads :
    (d : Duration) (rs : List Reading) (s : State) (a : Alert)
    → Leads s a.history a.state
    → Leads s (run d rs a).0.history (run d rs a).0.state
unfolding run evaluate_for
run-Leads d [] s a h = h
run-Leads d (r ∷ rs) s a h =
    run-Leads d rs s (step d r a).0 (dispatch-Leads s a.state r.now r.holds d _ refl h)

abbrev pub is_firing : State → Bool
is_firing firing = true
is_firing _ = false

-- each report changes whether the alert fires, and no other evaluation does
step_reports :
    (d : Duration) (r : Reading) (a : Alert)
    → ((step d r a).1 ≡ true)
        × (is_firing (step d r a).0.state ≡ not (is_firing a.state))
        × ((step d r a).0.state ≡ (if is_firing a.state then resolved else firing))
      ⊎ ((step d r a).1 ≡ false) × (is_firing (step d r a).0.state ≡ is_firing a.state)
unfolding evaluate_for
step_reports d r a = ground arith

-- the reports are firing and resolved in turn, and the last one agrees with the final state
abbrev pub Alternates : Bool → List State → Bool → Type 0
Alternates b [] c = b ≡ c
Alternates b (x ∷ xs) c = (x ≡ (if b then resolved else firing)) × Alternates (not b) xs c

-- what a run reports alternates between firing and resolved, starting with the one that the
-- alert is not in, and as many reports were made as lead from the first state to the last
pub run-Alternates :
    (d : Duration) (rs : List Reading) (a : Alert)
    → Alternates (is_firing a.state) (run d rs a).1 (is_firing (run d rs a).0.state)
unfolding run
run-Alternates d [] a = refl
run-Alternates d (r ∷ rs) a = ground (arith, step_reports d r a, run-Alternates d rs (step d r a).0)
