-- ===== src/AgentBuffer/Sink/Loop.antt =====
-- internal/agentbuffer/sink.go: Run, the loop that sends what is buffered, among the goroutines that append.
-- `pending` is the number of items in the buffer, `posting` the number of appends that have put their
-- item in and have not called TriggerFlush yet.
use bitacora.Base.{ℕ, ◌+◌, ◌*◌, ◌/◌, ◌≤◌, ◌<◌, ◌≡◌, Bool, true, false, if◌then◌else◌}
use bitacora.Base.Int.{pos, ltb_ℤ, leb_ℤ, pos_part}
use bitacora.Base.Time.{Duration, mul_duration, add_duration}

pub record FlushOptions : Type 0 where
  pub interval : Duration
  pub min_backoff : Duration
  pub max_backoff : Duration

abbrev or_duration : Duration → Duration → Duration
or_duration d default = if leb_ℤ d (pos 0) then default else d

-- what Run makes of the options: 15 seconds, 1 second and 1 minute unless they say more than 0
unfoldable pub resolved : FlushOptions → FlushOptions
resolved o = record {
  interval = or_duration o.interval (pos (15 * 1000000000));
  min_backoff = or_duration o.min_backoff (pos 1000000000);
  max_backoff = or_duration o.max_backoff (pos (60 * 1000000000));
}

-- the backoff after a failure
unfoldable pub next_backoff : Duration → Duration → Duration
next_backoff max_backoff backoff =
    let d = mul_duration backoff (pos 2) in if ltb_ℤ max_backoff d then max_backoff else d

-- jitter, with what rand.Int63n answers
pub jitter : Duration → ℕ → Duration
jitter d random =
    if leb_ℤ d (pos 0) then pos 0 else add_duration (pos (pos_part d / 2)) (pos random)

-- where Run stands: in its first select, after it, in Backfill, after Backfill's last look found
-- nothing, in the second select, or at an end
pub data Phase : Type 0 where
  waiting looking sending drained resting ended : Phase

pub record Flow : Type 0 where
  pub pending : ℕ
  pub posting : ℕ
  pub signal : Bool
  pub phase : Phase
  pub backoff : Duration

pub data Step (o : FlushOptions) : Flow → Flow → Type 0 where
  -- another goroutine: Buffer.Append, TriggerFlush, and EnforceCapacity
  appended : (f : Flow) → Step o f (record f { pending = f.pending + 1; posting = f.posting + 1 })
  -- an Append that put its item in and failed to seal the full segment: no TriggerFlush
  unsignalled : (f : Flow) → Step o f (record f { pending = f.pending + 1 })
  triggered :
      (f : Flow) (n : ℕ) → f.posting ≡ n + 1 → Step o f (record f { posting = n; signal = true })
  discarded : (f : Flow) (n : ℕ) → n ≤ f.pending → Step o f (record f { pending = n })
  -- the first select
  ticked : (f : Flow) → f.phase ≡ waiting → Step o f (record f { phase = looking })
  woken :
      (f : Flow)
      → f.phase ≡ waiting
      → f.signal ≡ true
      → Step o f (record f { phase = looking; signal = false })
  cancelled : (f : Flow) → f.phase ≡ waiting → Step o f (record f { phase = ended })
  -- the look at the buffer's length
  found_empty :
      (f : Flow)
      → f.phase ≡ looking
      → f.pending ≡ 0
      → Step o f (record f { phase = waiting; backoff = o.min_backoff })
  found_items :
      (f : Flow) → f.phase ≡ looking → 0 < f.pending → Step o f (record f { phase = sending })
  -- Backfill: an acknowledged batch, the last look, its return without an error
  acknowledged :
      (f : Flow) (n : ℕ) → f.phase ≡ sending → n ≤ f.pending → Step o f (record f { pending = n })
  looked : (f : Flow) → f.phase ≡ sending → f.pending ≡ 0 → Step o f (record f { phase = drained })
  finished :
      (f : Flow)
      → f.phase ≡ drained
      → Step o f (record f { phase = waiting; backoff = o.min_backoff })
  -- Backfill's error, and the wait after it
  failed :
      (f : Flow)
      → f.phase ≡ sending
      → Step o f (record f { phase = resting; backoff = next_backoff o.max_backoff f.backoff })
  rested : (f : Flow) → f.phase ≡ resting → Step o f (record f { phase = waiting; signal = true })
  stopped : (f : Flow) → f.phase ≡ resting → Step o f (record f { phase = ended })

pub data Steps (o : FlushOptions) : Flow → Flow → Type 0 where
  here : (f : Flow) → Steps o f f
  then : (f g h : Flow) → Steps o f g → Step o g h → Steps o f h
