-- ===== src/Wire/Convert.antt =====
-- internal/ingestreceiver/convert.go: messages become records again.
use bitacora.Base.{Bool, Option, none, some, [], map, if◌then◌else◌, ◌==◌, ◌&&◌}
use bitacora.Base.Int.{ℤ, pos, pos_part, neg_part}
use bitacora.Schema.Types.{Metric, Event, EventSubject, LogLine, LogRef}
use bitacora.Wire.Messages.{
  MetricMessage, LogRefMessage, SubjectMessage, EventMessage, LogLineMessage, time_of_milli,
}

unfoldable pub proto_to_metric : MetricMessage → Metric
proto_to_metric m = record {
  name = m.name;
  host_id = m.host_id;
  labels = m.labels;
  value = m.value;
  timestamp = time_of_milli m.timestamp_ms;
}

unfoldable pub proto_to_log_ref : LogRefMessage → LogRef
proto_to_log_ref r = record { block_id = r.block_id; line = r.line }

-- a nil Subject leaves the zero value
abbrev pub subject_of : Option SubjectMessage → EventSubject
subject_of none = record { kind = []; name = []; pid = pos 0 }
subject_of (some s) = record { kind = s.kind; name = s.name; pid = s.pid }

abbrev pub is_zero_ms : ℤ → Bool
is_zero_ms ms = pos_part ms == 0 && neg_part ms == 0

unfoldable pub proto_to_event : EventMessage → Event
unfolding proto_to_log_ref
proto_to_event e = record {
  id = e.id;
  ts = time_of_milli e.ts_ms;
  ts_received = if is_zero_ms e.ts_received_ms then 0 else time_of_milli e.ts_received_ms;
  host_id = e.host_id;
  source = e.source;
  type = e.type;
  severity = e.severity;
  title = e.title;
  subject = subject_of e.subject;
  attrs = e.attrs;
  fingerprint = e.fingerprint;
  log_refs = map proto_to_log_ref e.log_refs;
  schema = e.schema;
}

unfoldable pub proto_to_log_line : LogLineMessage → LogLine
proto_to_log_line l = record {
  ts = time_of_milli l.ts_ms;
  host_id = l.host_id;
  source = l.source;
  stream = l.stream;
  unit_or_container = l.unit_or_container;
  level = l.level;
  pid = l.pid;
  message = l.message;
}
