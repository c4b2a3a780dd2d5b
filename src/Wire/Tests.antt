-- ===== src/Wire/Tests.antt =====
-- Examples of the wire: three items of an agent and where they arrive.
use bitacora.Base.{◌≡◌, refl, true, false, List, [], ◌∷◌, ◌++◌, arith, inl}
use bitacora.Base.Int.{pos}
use bitacora.Base.Text.{codes}
use bitacora.Schema.Types.{Metric, Event, LogLine}
use bitacora.AgentBuffer.Segment.{Item, metric, event, log_line, of_metric, of_event, of_log_line}
use bitacora.Wire.Sender.{items_to_batch, event_to_proto}
use bitacora.Wire.Convert.{proto_to_event}
use bitacora.Wire.Receiver.{Appender, Stores, receive_batch}
use bitacora.Wire.RoundTrip.{IsSendable, arrived_event, proto_to_event-event_to_proto}
use bitacora.Wire.Delivery.{FitsWire, store_items, receive_batch-items_to_batch}

abbrev a_metric : Metric
a_metric = record {
  name = codes "load";
  host_id = codes "h";
  labels = [];
  value = 0;
  timestamp = 62135596800000000001;
}

abbrev an_event : Event
an_event = record {
  id = codes "e";
  ts = 62135596800000000001;
  ts_received = 0;
  host_id = codes "h";
  source = codes "s";
  type = codes "a.b";
  severity = codes "info";
  title = codes "t";
  subject = record { kind = codes "k"; name = codes "n"; pid = pos 12 };
  attrs = [];
  fingerprint = [];
  log_refs = record { block_id = codes "b"; line = pos 3 } ∷ [];
  schema = pos 1;
}

abbrev a_line : LogLine
a_line = record {
  ts = 62135596800000000001;
  host_id = codes "h";
  source = codes "syslog";
  stream = [];
  unit_or_container = [];
  level = codes "info";
  pid = pos 12;
  message = codes "up";
}

event_fits : IsSendable an_event
event_fits = record {
  pid = (omega arith, omega arith);
  schema = (omega arith, omega arith);
  lines = ((omega arith, omega arith), tt);
  received = inl refl;
}

proto_to_event-event_to_proto_example :
    proto_to_event (event_to_proto an_event) ≡ arrived_event an_event
proto_to_event-event_to_proto_example = proto_to_event-event_to_proto an_event event_fits

abbrev items : List Item
items =
    record { seq = 1; priority = metric; ts = 1; payload = of_metric a_metric }
    ∷ record { seq = 2; priority = event; ts = 1; payload = of_event an_event }
    ∷ record { seq = 3; priority = log_line; ts = 1; payload = of_log_line a_line }
    ∷ []

-- a store that keeps everything and reports an error all the same
abbrev keeping : {A : Type 0} → Appender A (List A)
keeping = record { write = λ a s. (s ++ (a ∷ []), false) }

abbrev nothing_stored : Stores (List Metric) (List Event) (List LogLine)
nothing_stored = record { metrics = []; events = []; logs = []; drops = 0 }

line_fits : FitsWire (of_log_line a_line)
line_fits = (omega arith, omega arith)

receive_batch-items_to_batch_example :
    receive_batch keeping keeping keeping true
      (items_to_batch (codes "01") (codes "h") items)
      nothing_stored
    ≡ (store_items keeping keeping keeping items nothing_stored, true)
receive_batch-items_to_batch_example =
    receive_batch-items_to_batch keeping keeping keeping (codes "01") (codes "h") items
      nothing_stored (tt, (event_fits, (line_fits, tt)))
