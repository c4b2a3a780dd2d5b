-- ===== src/Wire/Sender.antt =====
-- internal/agentbuffer/transportsender.go: a batch of items becomes a message.
use bitacora.Base.{some, List, [], ◌∷◌, ◌++◌, map, if◌then◌else◌}
use bitacora.Base.Int.{pos}
use bitacora.Base.Time.{is_zero}
use bitacora.Base.Text.{Text}
use bitacora.Schema.Types.{Metric, Event, LogLine, LogRef, Inventory, InventoryItem}
use bitacora.AgentBuffer.Segment.{Item, Payload, of_metric, of_event, of_log_line, of_inventory}
use bitacora.Wire.Messages.{
  MetricMessage, LogRefMessage, EventMessage, LogLineMessage, InventoryItemMessage,
  InventoryMessage, BatchMessage, unix_milli, to_int32,
}

unfoldable pub metric_to_proto : Metric → MetricMessage
metric_to_proto m = record {
  name = m.name;
  host_id = m.host_id;
  labels = m.labels;
  value = m.value;
  timestamp_ms = unix_milli m.timestamp;
}

unfoldable pub log_ref_to_proto : LogRef → LogRefMessage
log_ref_to_proto r = record { block_id = r.block_id; line = to_int32 r.line }

unfoldable pub event_to_proto : Event → EventMessage
unfolding log_ref_to_proto
event_to_proto e = record {
  id = e.id;
  ts_ms = unix_milli e.ts;
  ts_received_ms = if is_zero e.ts_received then pos 0 else unix_milli e.ts_received;
  host_id = e.host_id;
  source = e.source;
  type = e.type;
  severity = e.severity;
  title = e.title;
  subject =
      some (record { kind = e.subject.kind; name = e.subject.name; pid = to_int32 e.subject.pid });
  attrs = e.attrs;
  fingerprint = e.fingerprint;
  log_refs = map log_ref_to_proto e.log_refs;
  schema = to_int32 e.schema;
}

unfoldable pub log_line_to_proto : LogLine → LogLineMessage
log_line_to_proto l = record {
  ts_ms = unix_milli l.ts;
  host_id = l.host_id;
  source = l.source;
  stream = l.stream;
  unit_or_container = l.unit_or_container;
  level = l.level;
  pid = to_int32 l.pid;
  message = l.message;
}

pub item_to_proto : InventoryItem → InventoryItemMessage
item_to_proto i = record { id = i.id; name = i.name; attrs = i.attrs }

pub inventory_to_proto : Inventory → InventoryMessage
unfolding item_to_proto
inventory_to_proto inv = record {
  host_id = inv.host_id;
  kind = inv.kind;
  reported_at_ms = unix_milli inv.reported_at;
  schema = to_int32 inv.schema;
  items = map item_to_proto inv.items;
}

-- the body of the loop over the items
unfoldable pub pack : Payload → BatchMessage → BatchMessage
unfolding inventory_to_proto
pack (of_metric m) b = record b { metrics = b.metrics ++ (metric_to_proto m ∷ []) }
pack (of_event e) b = record b { events = b.events ++ (event_to_proto e ∷ []) }
pack (of_log_line l) b = record b { log_lines = b.log_lines ++ (log_line_to_proto l ∷ []) }
pack (of_inventory i) b = record b { inventories = b.inventories ++ (inventory_to_proto i ∷ []) }

unfoldable pub pack_all : List Item → BatchMessage → BatchMessage
pack_all [] b = b
pack_all (it ∷ its) b = pack_all its (pack it.payload b)

-- the batch before the loop; the new ULID is an argument
abbrev pub empty_batch : Text → Text → BatchMessage
empty_batch id host = record {
  batch_id = id;
  host_id = host;
  metrics = [];
  events = [];
  log_lines = [];
  inventories = [];
}

unfoldable pub items_to_batch : Text → Text → List Item → BatchMessage
unfolding pack_all
items_to_batch id host items = pack_all items (empty_batch id host)
