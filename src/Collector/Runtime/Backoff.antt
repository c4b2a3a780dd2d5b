-- ===== src/Collector/Runtime/Backoff.antt =====
-- How long the ticker of a failing collector waits.
use bitacora.Base.{
  ℕ, zero, suc, ◌+◌, ◌^◌, ◌≡◌, refl, ap, false, List, [], ◌∷◌, if◌then◌else◌, ltb, arith,
  Bool-cases, inl, inr,
}
use bitacora.Base.Int.{pos}
use bitacora.Base.Time.{Duration, mul_duration}
use bitacora.Base.Text.{Text}
use bitacora.Collector.Runtime.{
  Collected, timed_out, failed, succeeded, Loop, start_loop, multiplier_after, on_tick, run_loop,
}

-- 2, 4 and 8 times the interval after one, two and three errors in a row, 10 times after more
abbrev pub expected_period : Duration → ℕ → Duration
expected_period interval zero = interval
expected_period interval (suc n) =
    mul_duration interval (pos (if ltb (suc n) 4 then 2 ^ suc n else 10))

multiplier_after_lem : (n : ℕ) → multiplier_after n ≡ (if ltb n 4 then 2 ^ n else 10)
unfolding multiplier_after
multiplier_after_lem zero = refl
multiplier_after_lem (suc zero) = refl
multiplier_after_lem (suc (suc zero)) = refl
multiplier_after_lem (suc (suc (suc zero))) = refl
multiplier_after_lem (suc (suc (suc (suc n)))) = ground arith

-- the errors among the answers, from a number on, that no success came after
abbrev pub errors_from : ℕ → List Collected → ℕ
errors_from n [] = n
errors_from n (timed_out ∷ cs) = errors_from n cs
errors_from n (failed ∷ cs) = errors_from (suc n) cs
errors_from n (succeeded ∷ cs) = errors_from 0 cs

-- the errors that an answer leaves open
abbrev errors_after : Collected → ℕ → ℕ
errors_after timed_out n = n
errors_after failed n = suc n
errors_after succeeded n = 0

errors_step :
    (c : Collected) (cs : List Collected) (n : ℕ)
    → errors_from (errors_after c n) cs ≡ errors_from n (c ∷ cs)
errors_step timed_out cs n = refl
errors_step failed cs n = refl
errors_step succeeded cs n = refl

-- the loop's counter and its ticker are those of `n` open errors
record Has (interval : Duration) (n : ℕ) (l : Loop) : Type 0 where
  open_errors : l.consecutive_errors ≡ n
  waits : l.period ≡ expected_period interval n

on_tick-Has :
    (name : Text) (interval : Duration) (c : Collected) (l : Loop) (n : ℕ)
    → Has interval n l
    → Has interval (errors_after c n) (on_tick name interval c l).0
unfolding on_tick
on_tick-Has name interval timed_out l n h = record {
  open_errors = ground (arith, h.open_errors);
  waits = ground (arith, h.waits);
}
on_tick-Has name interval failed l n h =
    let e : l.consecutive_errors + 1 ≡ suc n = omega (arith, h.open_errors) in
    record {
      open_errors = e;
      waits = rw e (ap (λ m. mul_duration interval (pos m)) (multiplier_after_lem (suc n)));
    }
on_tick-Has name interval succeeded l zero h = record {
  open_errors = ground (arith, h.open_errors);
  waits = ground (arith, h.open_errors, h.waits);
}
on_tick-Has name interval succeeded l (suc n) h = record {
  open_errors = ground (arith, h.open_errors);
  waits = ground (arith, h.open_errors);
}

run_loop-Has :
    (name : Text) (interval : Duration) (cs : List Collected) (l : Loop) (n : ℕ)
    → Has interval n l
    → (run_loop name interval cs l).0.is_stopped ≡ false
    → Has interval (errors_from n cs) (run_loop name interval cs l).0
unfolding run_loop
run_loop-Has name interval [] l n h g = h
run_loop-Has name interval (c ∷ cs) l n h g =
    let h' = on_tick-Has name interval c l n h in
    elim (Bool-cases (on_tick name interval c l).0.is_stopped) [
      | inl stopped ↦ absurd (ground (arith, stopped, g))
      | inr goes ↦
          rw (goes, ← errors_step c cs n)
            (run_loop-Has name interval cs (on_tick name interval c l).0 (errors_after c n) h'
              (rw goes at g))
    ]

-- While the loop goes on, its ticker has the interval if a success came after every error that its
-- collector has answered, or there was none, and otherwise 2, 4, 8, and then always 10 times the
-- interval (as a 64-bit product) after one, two, three, and more errors that no success came after.
-- Timeouts are not errors here: they change nothing.
pub run_loop-period :
    (name : Text) (interval : Duration) (cs : List Collected)
    → (run_loop name interval cs (start_loop interval)).0.is_stopped ≡ false
    → (run_loop name interval cs (start_loop interval)).0.period
      ≡ expected_period interval (errors_from 0 cs)
unfolding start_loop
run_loop-period name interval cs g =
    (run_loop-Has name interval cs (start_loop interval) 0
      (record { open_errors = refl; waits = refl }) g).waits
