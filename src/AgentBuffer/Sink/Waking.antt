-- ===== src/AgentBuffer/Sink/Waking.antt =====
-- internal/agentbuffer/sink.go: no item is left in the buffer with the loop asleep and nobody to wake it.
use mathlib.Core.Path.{subst}
use bitacora.Base.{ℕ, ◌+◌, ◌≤◌, ◌<◌, ◌≡◌, ◌⊎◌, inl, inr, refl, true, false, arith}
use bitacora.AgentBuffer.Sink.Loop.{
  FlushOptions, Phase, waiting, looking, sending, drained, resting, ended, Flow, Step, Steps, here,
  then, appended, unsignalled, triggered, discarded, ticked, woken, cancelled, found_empty,
  found_items, acknowledged, looked, finished, failed, rested, stopped,
}

-- the appends that put an item in and did not signal, among the steps
abbrev pub unsignalled_in : {o : FlushOptions} (f g : Flow) → Step o f g → ℕ
unsignalled_in _ _ (unsignalled f) = 1
unsignalled_in _ _ _ = 0

abbrev pub unsignalled_steps : {o : FlushOptions} (f g : Flow) → Steps o f g → ℕ
unsignalled_steps _ _ (here f) = 0
unsignalled_steps _ _ (then f g h s t) = unsignalled_steps f g s + unsignalled_in g h t

-- nothing is buffered, or the loop is signalled, or an append is about to signal it
abbrev pub IsCovered : Flow → Type 0
IsCovered f = (f.pending ≡ 0) ⊎ ((f.signal ≡ true) ⊎ (0 < f.posting))

-- in the first select, and when Backfill is about to return to it
abbrev pub IsAwake : Phase → Flow → Type 0
IsAwake waiting f = IsCovered f
IsAwake drained f = IsCovered f
IsAwake _ f = Unit

covered-IsAwake : (p : Phase) (f : Flow) → IsCovered f → IsAwake p f
covered-IsAwake waiting f c = c
covered-IsAwake drained f c = c
covered-IsAwake looking f c = tt
covered-IsAwake sending f c = tt
covered-IsAwake resting f c = tt
covered-IsAwake ended f c = tt

IsAwake-covered : (p : Phase) (f g : Flow) → (IsCovered f → IsCovered g) → IsAwake p f → IsAwake p g
IsAwake-covered waiting f g m c = m c
IsAwake-covered drained f g m c = m c
IsAwake-covered looking f g m c = tt
IsAwake-covered sending f g m c = tt
IsAwake-covered resting f g m c = tt
IsAwake-covered ended f g m c = tt

fewer : (f : Flow) (n : ℕ) → n ≤ f.pending → IsCovered f → IsCovered (record f { pending = n })
fewer f n h (inl e) = inl (omega (arith, h, e))
fewer f n h (inr c) = inr c

drained_covered : (f : Flow) (p : Phase) → f.phase ≡ p → IsAwake f.phase f → IsAwake p f
drained_covered f p e h = subst (λ q. IsAwake q f) e h

Step-IsAwake :
    (o : FlushOptions) (f g : Flow) (s : Step o f g)
    → unsignalled_in f g s ≡ 0
    → IsAwake f.phase f
    → IsAwake g.phase g
Step-IsAwake o _ _ (appended f) z h = covered-IsAwake f.phase _ (inr (inr (omega arith)))
Step-IsAwake o _ _ (unsignalled f) z h = absurd (omega (arith, z))
Step-IsAwake o _ _ (triggered f n e) z h = covered-IsAwake f.phase _ (inr (inl refl))
Step-IsAwake o _ _ (discarded f n e) z h = IsAwake-covered f.phase f _ (fewer f n e) h
Step-IsAwake o _ _ (ticked f e) z h = tt
Step-IsAwake o _ _ (woken f e s) z h = tt
Step-IsAwake o _ _ (cancelled f e) z h = tt
Step-IsAwake o _ _ (found_empty f e n) z h = inl n
Step-IsAwake o _ _ (found_items f e n) z h = tt
Step-IsAwake o _ _ (acknowledged f n e l) z h = IsAwake-covered f.phase f _ (fewer f n l) h
Step-IsAwake o _ _ (looked f e n) z h = inl n
Step-IsAwake o _ _ (finished f e) z h = drained_covered f drained e h
Step-IsAwake o _ _ (failed f e) z h = tt
Step-IsAwake o _ _ (rested f e) z h = inr (inl refl)
Step-IsAwake o _ _ (stopped f e) z h = tt

Steps-IsAwake :
    (o : FlushOptions) (f g : Flow) (s : Steps o f g)
    → unsignalled_steps f g s ≡ 0
    → IsAwake f.phase f
    → IsAwake g.phase g
Steps-IsAwake o _ _ (here f) z h = h
Steps-IsAwake o _ _ (then f g i s t) z h =
    Step-IsAwake o g i t (omega (arith, z)) (Steps-IsAwake o f g s (omega (arith, z)) h)

covered_signalled : (f : Flow) → 0 < f.pending → f.posting ≡ 0 → IsCovered f → f.signal ≡ true
covered_signalled f n p (inl z) = absurd (omega (arith, n, z))
covered_signalled f n p (inr (inl s)) = s
covered_signalled f n p (inr (inr q)) = absurd (omega (arith, p, q))

-- However the appends of other goroutines, their signals, the discarding of items, the acknowledged
-- batches and the failures of the loop are interleaved, from a state in which nothing is buffered or
-- the loop is signalled, as long as no append puts its item in and fails afterwards: where the loop
-- waits in its select with items in the buffer and every append has made its call of TriggerFlush, the
-- signal is there, so that the select goes on by it, and takes it.
pub Steps-wakes :
    (o : FlushOptions) (f g : Flow) (s : Steps o f g)
    → unsignalled_steps f g s ≡ 0
    → (f.pending ≡ 0) ⊎ (f.signal ≡ true)
    → g.phase ≡ waiting
    → 0 < g.pending
    → g.posting ≡ 0
    → (g.signal ≡ true) × Step o g (record g { phase = looking; signal = false })
Steps-wakes o f g s z c e n p =
    let start : IsCovered f = elim c [ inl q ↦ inl q | inr q ↦ inr (inl q) ] in
    let awake = Steps-IsAwake o f g s z (covered-IsAwake f.phase f start) in
    let there = covered_signalled g n p (drained_covered g waiting e awake) in
    (there, woken g e there)
