-- ===== src/AgentBuffer/Sink.antt =====
-- internal/agentbuffer/sink.go: what a collector's calls put into the buffer.
-- A Sink always has a Buffer here: without one its calls do nothing. `signal` is whether flushCh, whose
-- capacity is 1, holds a token; `logged` counts the calls of Logf. A call of the operating system, the
-- name of a new segment and the clock are of one Call.
pub mod Loop
pub mod Appends
pub mod Waking
use bitacora.Base.{ℕ, suc, ◌+◌, Bool, true, false, List, [], ◌∷◌, if◌then◌else◌, ◌==◌, ◌&&◌}
use bitacora.Base.Int.{ℤ, pos, pos_part, neg_part}
use bitacora.Base.Time.{Time, is_zero}
use bitacora.Base.Text.{Text}
use bitacora.Base.Labels.{Labels}
use bitacora.Base.Float.{Float64}
use bitacora.Schema.Types.{Metric, Event, LogLine, Inventory}
use bitacora.Schema.Validation.{is_empty}
use bitacora.AgentBuffer.Segment.{
  Item, Os, FileName, Priority, metric, event, log_line, Payload, of_metric, of_event, of_log_line,
  of_inventory,
}
use bitacora.AgentBuffer.Buffer.{Buffer, Result, ok, err}
use bitacora.AgentBuffer.Buffer.{append as buffer_append}

pub record Call : Type 0 where
  pub os : Os
  pub path : FileName
  pub now : Time

pub record Sink : Type 0 where
  pub host_id : Text
  pub buffer : Buffer
  pub signal : Bool
  pub logged : ℕ

abbrev pub current_schema_version : ℤ
current_schema_version = pos 1

-- an item before Buffer.Append numbers it
abbrev pub new_item : Priority → Time → Payload → Item
new_item p t payload = record { seq = 0; priority = p; ts = t; payload = payload }

-- append, from what Buffer.Append answers on
unfoldable pub appended : Sink → Buffer × Result ℕ → Sink
appended s (b, ok _) = record s { buffer = b; signal = true }
appended s (b, err _) = record s { buffer = b; logged = s.logged + 1 }

unfoldable pub append : Call → Item → Sink → Sink
unfolding appended
append c item s = appended s (buffer_append c.os c.path item s.buffer)

unfoldable pub gauge : Call → Text → Float64 → Labels → Sink → Sink
unfolding append
gauge c name value labels s =
    append c
      (new_item metric c.now (
        of_metric (record {
          name = name;
          host_id = s.host_id;
          labels = labels;
          value = value;
          timestamp = c.now;
        })))
      s

pub counter : Call → Text → Float64 → Labels → Sink → Sink
unfolding gauge
counter c name value labels s = gauge c name value labels s

abbrev or_text : Text → Text → Text
or_text s default = if is_empty s then default else s

abbrev or_time : Time → Time → Time
or_time t now = if is_zero t then now else t

abbrev or_schema : ℤ → ℤ
or_schema n = if pos_part n == 0 && neg_part n == 0 then current_schema_version else n

-- an event with what it lacks
abbrev pub filled_event : Text → Time → Event → Event
filled_event host now e = record e {
  host_id = or_text e.host_id host;
  ts = or_time e.ts now;
  schema = or_schema e.schema;
}

unfoldable pub event_call : Call → Event → Sink → Sink
unfolding append
event_call c e s =
    let f = filled_event s.host_id c.now e in append c (new_item event f.ts (of_event f)) s

abbrev pub filled_line : Text → Text → Time → LogLine → LogLine
filled_line host source now l = record l {
  host_id = or_text l.host_id host;
  source = or_text l.source source;
  ts = or_time l.ts now;
}

abbrev pub line_item : Text → Text → Time → LogLine → Item
line_item host source now l =
    let f = filled_line host source now l in new_item log_line f.ts (of_log_line f)

-- the lines from the k-th call on
unfoldable pub log_lines : (ℕ → Call) → ℕ → Text → List LogLine → Sink → Sink
unfolding append
log_lines calls k source [] s = s
log_lines calls k source (l ∷ ls) s =
    log_lines calls (suc k) source ls
      (append (calls k) (line_item s.host_id source (calls k).now l) s)

abbrev pub filled_inventory : Text → Time → Inventory → Inventory
filled_inventory host now i = record i {
  host_id = or_text i.host_id host;
  reported_at = or_time i.reported_at now;
  schema = or_schema i.schema;
}

pub inventory_call : Call → Inventory → Sink → Sink
unfolding append
inventory_call c i s =
    let f = filled_inventory s.host_id c.now i in
    append c (new_item event f.reported_at (of_inventory f)) s
