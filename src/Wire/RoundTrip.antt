-- ===== src/Wire/RoundTrip.antt =====
-- What is left of a record that went over the wire: agentbuffer/transportsender.go and ingestreceiver/convert.go.
use bitacora.Base.{
  ℕ, ◌+◌, ◌*◌, ◌/◌, ◌%◌, ◌^◌, ◌<◌, ◌≤◌, ◌≡◌, ◌⊎◌, inl, inr, refl, ap, false, List, [], ◌∷◌, map,
  arith, if◌then◌else◌, All, Bool-cases, lt→ltb, le→leb,
}
use bitacora.Base.Int.{ℤ, pos, negsuc, sub_ℕ, pos_part, neg_part, ◌+ℤ◌}
use bitacora.Base.Time.{Time, is_zero}
use bitacora.Schema.Types.{Metric, Event, LogLine, LogRef}
use bitacora.Wire.Messages.{unix_milli, time_of_milli, to_int32, unix_epoch_ms}
use bitacora.Wire.Sender.{metric_to_proto, event_to_proto, log_line_to_proto, log_ref_to_proto}
use bitacora.Wire.Convert.{
  proto_to_metric, proto_to_event, proto_to_log_line, proto_to_log_ref, is_zero_ms,
}

-- `t.Truncate(time.Millisecond)`, as far as a message keeps an instant
abbrev pub to_milli : Time → Time
to_milli t = t / 1000000 * 1000000

epoch_back : (n : ℕ) → pos_part (sub_ℕ n unix_epoch_ms +ℤ pos unix_epoch_ms) ≡ n
unfolding ◌+ℤ◌
epoch_back n = ground arith

pub time_of_milli-unix_milli : (t : Time) → time_of_milli (unix_milli t) ≡ to_milli t
unfolding time_of_milli unix_milli
time_of_milli-unix_milli t = ap (λ n. n * 1000000) (epoch_back (t / 1000000))

-- the integers that an int32 holds
abbrev pub IsInt32 : ℤ → Type 0
IsInt32 z = (pos_part z < 2 ^ 31) × (neg_part z ≤ 2 ^ 31)

pub to_int32_same : (z : ℤ) → IsInt32 z → to_int32 z ≡ z
unfolding to_int32
to_int32_same (pos n) h =
    let small : n < 2 ^ 32 = omega (arith, h.0) in
    let e : n % 2 ^ 32 ≡ n = omega (arith, small) in rw (e, lt→ltb n (2 ^ 31) h.0)
to_int32_same (negsuc n) h =
    let small : n + 1 ≤ 2 ^ 31 = omega (arith, h.1) in
    let e : (n + 1) % 2 ^ 32 ≡ n + 1 = omega (arith, small) in
    rw (e, le→leb (n + 1) (2 ^ 31) small) (ground arith)

-- a record as it arrives: instants to the millisecond
abbrev pub arrived_metric : Metric → Metric
arrived_metric m = record m { timestamp = to_milli m.timestamp }

abbrev pub arrived_log_line : LogLine → LogLine
arrived_log_line l = record l { ts = to_milli l.ts }

abbrev pub arrived_event : Event → Event
arrived_event e = record e { ts = to_milli e.ts; ts_received = to_milli e.ts_received }

pub proto_to_metric-metric_to_proto :
    (m : Metric) → proto_to_metric (metric_to_proto m) ≡ arrived_metric m
unfolding proto_to_metric metric_to_proto
proto_to_metric-metric_to_proto m =
    ap (λ t. record m { timestamp = t }) (time_of_milli-unix_milli m.timestamp)

pub proto_to_log_line-log_line_to_proto :
    (l : LogLine) → IsInt32 l.pid → proto_to_log_line (log_line_to_proto l) ≡ arrived_log_line l
unfolding proto_to_log_line log_line_to_proto
proto_to_log_line-log_line_to_proto l h =
    rw (time_of_milli-unix_milli l.ts, to_int32_same l.pid h) refl

log_refs_back :
    (rs : List LogRef)
    → All (λ r. IsInt32 r.line) rs
    → map proto_to_log_ref (map log_ref_to_proto rs) ≡ rs
unfolding proto_to_log_ref log_ref_to_proto
log_refs_back [] h = refl
log_refs_back (r ∷ rs) h = rw (to_int32_same r.line h.0, log_refs_back rs h.1) refl

-- An event's numbers fit 32 bits, and it was not received in the first millisecond of 1970.
pub record IsSendable (e : Event) : Type 0 where
  pub pid : IsInt32 e.subject.pid
  pub schema : IsInt32 e.schema
  pub lines : All (λ r. IsInt32 r.line) e.log_refs
  pub received : (e.ts_received ≡ 0) ⊎ (is_zero_ms (unix_milli e.ts_received) ≡ false)

-- the instant of receipt as it goes over the wire and back
abbrev sent_received : Time → Time
sent_received t =
    let ms = if is_zero t then pos 0 else unix_milli t in
    if is_zero_ms ms then 0 else time_of_milli ms

received_zero : (t : Time) → t ≡ 0 → sent_received t ≡ to_milli t
received_zero t e = rw e (omega arith)

received_back :
    (t : Time) → (t ≡ 0) ⊎ (is_zero_ms (unix_milli t) ≡ false) → sent_received t ≡ to_milli t
received_back t (inl e) = received_zero t e
received_back t (inr h) = elim (Bool-cases (is_zero t)) [
  | inl z ↦ received_zero t (ground arith)
  | inr z ↦ rw (z, h) (time_of_milli-unix_milli t)
]

-- An event that is sent and received is the same event, its two instants cut to the millisecond,
-- where its numbers fit 32 bits and it was not received in the first millisecond of 1970.
pub proto_to_event-event_to_proto :
    (e : Event) → IsSendable e → proto_to_event (event_to_proto e) ≡ arrived_event e
unfolding proto_to_event event_to_proto
proto_to_event-event_to_proto e s =
    rw
      (
        time_of_milli-unix_milli e.ts,
        received_back e.ts_received s.received,
        to_int32_same e.subject.pid s.pid,
        to_int32_same e.schema s.schema,
        log_refs_back e.log_refs s.lines,
      )
      refl
