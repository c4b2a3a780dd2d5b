-- ===== src/Collector/Runtime/Timeouts.antt =====
-- When a collector is disabled.
use bitacora.Base.{
  ℕ, zero, suc, ◌+◌, ◌≡◌, refl, ap, ◌↔◌, ◌⊎◌, true, false, List, [], ◌∷◌, ◌++◌, if◌then◌else◌,
  arith, Bool-cases, inl, inr,
}
use bitacora.Base.Time.{Duration}
use bitacora.Base.Text.{Text}
use bitacora.Collector.Runtime.{
  Collected, timed_out, failed, succeeded, Loop, start_loop, on_tick, run_loop,
}

-- three timeouts in a row, somewhere
abbrev pub HasThree : List Collected → Type 0
HasThree cs =
    (before : List Collected) × (after : List Collected) × (cs
      ≡ before ++ (timed_out ∷ timed_out ∷ timed_out ∷ after))

-- that many timeouts at the start
abbrev timeouts : ℕ → List Collected → List Collected
timeouts zero cs = cs
timeouts (suc n) cs = timed_out ∷ timeouts n cs

abbrev Begins : ℕ → List Collected → Type 0
Begins n cs = (after : List Collected) × (cs ≡ timeouts n after)

HasThree-cons : (c : Collected) (cs : List Collected) → HasThree cs → HasThree (c ∷ cs)
HasThree-cons c cs (before, after, e) = (c ∷ before, after, ap (◌∷◌ c) e)

module _ (name : Text) (interval : Duration) where
  run_loop-is_stopped :
      (c : Collected) (cs : List Collected) (l : Loop)
      → (run_loop name interval (c ∷ cs) l).0.is_stopped ≡ (
          if (on_tick name interval c l).0.is_stopped
          then true
          else (run_loop name interval cs (on_tick name interval c l).0).0.is_stopped)
  unfolding run_loop
  run_loop-is_stopped c cs l = elim (Bool-cases (on_tick name interval c l).0.is_stopped) [
    | inl stopped ↦ rw stopped stopped
    | inr goes ↦ rw goes refl
  ]

  -- an answer that is no timeout goes on with the count at 0
  abbrev GoesOn : Collected → Loop → Type 0
  GoesOn c l =
      ((on_tick name interval c l).0.is_stopped ≡ false)
      × ((on_tick name interval c l).0.consecutive_timeouts ≡ 0)

  failed-GoesOn : (l : Loop) → l.is_stopped ≡ false → GoesOn failed l
  unfolding on_tick
  failed-GoesOn l s = (s, refl)

  succeeded-GoesOn : (l : Loop) → l.is_stopped ≡ false → GoesOn succeeded l
  unfolding on_tick
  succeeded-GoesOn l s = ground arith

  goes_on :
      (c : Collected) (cs : List Collected) (l : Loop)
      → (on_tick name interval c l).0.is_stopped ≡ false
      → (run_loop name interval (c ∷ cs) l).0.is_stopped ≡ true
      → (run_loop name interval cs (on_tick name interval c l).0).0.is_stopped ≡ true
  goes_on c cs l g h = ground (arith, run_loop-is_stopped c cs l)

  after_other :
      (c : Collected) (cs : List Collected) → HasThree cs ⊎ Begins 3 cs → HasThree (c ∷ cs)
  after_other c cs (inl three) = HasThree-cons c cs three
  after_other c cs (inr (after, e)) = (c ∷ [], after, ap (◌∷◌ c) e)

  timeout_goes_on :
      (l : Loop) (k : ℕ)
      → l.is_stopped ≡ false
      → l.consecutive_timeouts + suc (suc k) ≡ 3
      → ((on_tick name interval timed_out l).0.is_stopped ≡ false)
        × ((on_tick name interval timed_out l).0.consecutive_timeouts + suc k ≡ 3)
  unfolding on_tick
  timeout_goes_on l k s n = ground arith

  stops_after :
      (cs : List Collected) (l : Loop) (k : ℕ)
      → l.is_stopped ≡ false
      → l.consecutive_timeouts + suc k ≡ 3
      → (run_loop name interval cs l).0.is_stopped ≡ true
      → HasThree cs ⊎ Begins (suc k) cs
  unfolding run_loop
  stops_after [] l k s n h = cc
  stops_after (failed ∷ cs) l k s n h =
      let g = failed-GoesOn l s in
      inl (
        after_other failed cs (
          stops_after cs (on_tick name interval failed l).0 2 g.0 (omega (arith, g.1))
            (goes_on failed cs l g.0 h)))
  stops_after (succeeded ∷ cs) l k s n h =
      let g = succeeded-GoesOn l s in
      inl (
        after_other succeeded cs (
          stops_after cs (on_tick name interval succeeded l).0 2 g.0 (omega (arith, g.1))
            (goes_on succeeded cs l g.0 h)))
  stops_after (timed_out ∷ cs) l zero s n h = inr (cs, refl)
  stops_after (timed_out ∷ cs) l (suc k) s n h =
      let g = timeout_goes_on l k s n in
      elim (stops_after cs (on_tick name interval timed_out l).0 k g.0 g.1
        (goes_on timed_out cs l g.0 h)) [
          | inl three ↦ inl (HasThree-cons timed_out cs three)
          | inr (after, e) ↦ inr (after, ap (◌∷◌ timed_out) e)
        ]

  three_stop :
      (after : List Collected) (l : Loop)
      → (run_loop name interval (timed_out ∷ timed_out ∷ timed_out ∷ after) l).0.is_stopped ≡ true
  unfolding on_tick
  three_stop after l =
      let l' = (on_tick name interval timed_out l).0 in
      let l'' = (on_tick name interval timed_out l').0 in
      ground (
        arith,
        run_loop-is_stopped timed_out (timed_out ∷ timed_out ∷ after) l,
        run_loop-is_stopped timed_out (timed_out ∷ after) l',
        run_loop-is_stopped timed_out after l'',
      )

  stops_within :
      (before after : List Collected) (l : Loop)
      → (run_loop name interval
          (before ++ (timed_out ∷ timed_out ∷ timed_out ∷ after))
          l).0.is_stopped
        ≡ true
  stops_within [] after l = three_stop after l
  stops_within (c ∷ before) after l = ground (
    arith,
    run_loop-is_stopped c (before ++ (timed_out ∷ timed_out ∷ timed_out ∷ after)) l,
    stops_within before after (on_tick name interval c l).0,
  )

  -- The loop of a collector has stopped exactly if three of its answers in a row were timeouts.
  pub stopped_iff :
      (cs : List Collected)
      → ((run_loop name interval cs (start_loop interval)).0.is_stopped ≡ true) ↔ HasThree cs
  unfolding start_loop
  stopped_iff cs = (
    λ h. elim (stops_after cs (start_loop interval) 2 refl refl h) [
      | inl three ↦ three
      | inr (after, e) ↦ ([], after, e)
    ],
    λ (before, after, e). rw e (stops_within before after (start_loop interval)),
  )
