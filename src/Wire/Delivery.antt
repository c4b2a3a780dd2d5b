-- ===== src/Wire/Delivery.antt =====
-- From the agent's items to the hub's stores: ItemsToBatch and ReceiveBatch together.
use bitacora.Base.{ℕ, ◌≡◌, refl, ap, ◌∙◌, true, List, [], ◌∷◌, map, All, All-append}
use bitacora.Base.Text.{Text}
use bitacora.Schema.Types.{Metric, Event, LogLine}
use bitacora.AgentBuffer.Segment.{Item, Payload, of_metric, of_event, of_log_line, of_inventory}
use bitacora.Wire.Sender.{
  metric_to_proto, event_to_proto, log_line_to_proto, empty_batch, items_to_batch,
}
use bitacora.Wire.Convert.{proto_to_metric, proto_to_event, proto_to_log_line}
use bitacora.Wire.Receiver.{Appender, write_all, Stores, receive_all, receive_batch}
use bitacora.Wire.RoundTrip.{
  IsInt32, IsSendable, arrived_metric, arrived_event, arrived_log_line,
  proto_to_metric-metric_to_proto, proto_to_event-event_to_proto,
  proto_to_log_line-log_line_to_proto,
}
use bitacora.Wire.Packing.{
  metric_in, event_in, log_line_in, gather_from, store_all, pack-metrics, pack-events,
  pack-log_lines, offered,
}

-- the numbers of an item fit the wire
abbrev pub FitsWire : Payload → Type 0
FitsWire (of_event e) = IsSendable e
FitsWire (of_log_line l) = IsInt32 l.pid
FitsWire _ = Unit

metrics_arrive :
    (its : List Item)
    → All (λ m. proto_to_metric (metric_to_proto m) ≡ arrived_metric m) (gather_from metric_in its)
metrics_arrive its = every (gather_from metric_in its)
  where
    every :
        (ms : List Metric) → All (λ m. proto_to_metric (metric_to_proto m) ≡ arrived_metric m) ms
    every [] = tt
    every (m ∷ ms) = (proto_to_metric-metric_to_proto m, every ms)

-- a kind's records arrive if each payload's do
gathered_arrive :
    {A : Type 0} (P : A → Type 0) (pick : Payload → List A) (its : List Item)
    → ((p : Payload) → FitsWire p → All P (pick p))
    → All (λ it. FitsWire it.payload) its
    → All P (gather_from pick its)
gathered_arrive P pick [] f h = tt
gathered_arrive P pick (it ∷ its) f h =
    All-append P (pick it.payload) (gather_from pick its) (f it.payload h.0)
      (gathered_arrive P pick its f h.1)

event_arrives :
    (p : Payload)
    → FitsWire p
    → All (λ e. proto_to_event (event_to_proto e) ≡ arrived_event e) (event_in p)
event_arrives (of_event e) h = (proto_to_event-event_to_proto e h, tt)
event_arrives (of_metric m) h = tt
event_arrives (of_log_line l) h = tt
event_arrives (of_inventory i) h = tt

log_line_arrives :
    (p : Payload)
    → FitsWire p
    → All (λ l. proto_to_log_line (log_line_to_proto l) ≡ arrived_log_line l) (log_line_in p)
log_line_arrives (of_log_line l) h = (proto_to_log_line-log_line_to_proto l h, tt)
log_line_arrives (of_metric m) h = tt
log_line_arrives (of_event e) h = tt
log_line_arrives (of_inventory i) h = tt

stores_of : {M E L : Type 0} → M × ℕ → E × ℕ → L × ℕ → Stores M E L
stores_of m e l = record { metrics = m.0; events = e.0; logs = l.0; drops = l.1 }

module _ {M E L : Type 0} (metrics : Appender Metric M) (events : Appender Event E)
    (logs : Appender LogLine L) where
  -- what the hub is to do with the items: each kind, in order, into its store
  pub store_items : List Item → Stores M E L → Stores M E L
  unfolding store_all
  store_items its s =
      let m =
        store_all metrics (map arrived_metric (gather_from metric_in its)) (s.metrics, s.drops) in
      let e = store_all events (map arrived_event (gather_from event_in its)) (s.events, m.1) in
      let l = store_all logs (map arrived_log_line (gather_from log_line_in its)) (s.logs, e.1) in
      record { metrics = m.0; events = e.0; logs = l.0; drops = l.1 }

  -- Receiving, in a context that has not ended, the batch that the items were packed into answers no
  -- error and offers each store exactly the items of its kind, once and in their order, instants cut to
  -- the millisecond, whatever the stores answered before; every refusal is counted. The items'
  -- numbers fit the wire. An inventory reaches no store.
  pub receive_batch-items_to_batch :
      (id host : Text) (its : List Item) (s : Stores M E L)
      → All (λ it. FitsWire it.payload) its
      → receive_batch metrics events logs true (items_to_batch id host its) s
        ≡ (store_items its s, true)
  unfolding receive_batch receive_all items_to_batch store_items stores_of
  receive_batch-items_to_batch id host its s h =
      let b = items_to_batch id host its in
      let m =
        store_all metrics (map arrived_metric (gather_from metric_in its)) (s.metrics, s.drops) in
      let m' = write_all proto_to_metric metrics b.metrics (s.metrics, s.drops) in
      let em : m' ≡ m =
        offered metrics (λ c. c.metrics) metric_to_proto proto_to_metric arrived_metric metric_in
          pack-metrics its (empty_batch id host) refl (s.metrics, s.drops) (metrics_arrive its) in
      let e = store_all events (map arrived_event (gather_from event_in its)) (s.events, m.1) in
      let e' = write_all proto_to_event events b.events (s.events, m'.1) in
      let ee : e' ≡ e =
        ap (λ n. write_all proto_to_event events b.events (s.events, n)) (ap (λ x. x.1) em)
        ∙ offered events (λ c. c.events) event_to_proto proto_to_event arrived_event event_in
            pack-events its (empty_batch id host) refl (s.events, m.1)
            (gathered_arrive (λ e. proto_to_event (event_to_proto e) ≡ arrived_event e) event_in its
              event_arrives h) in
      let l = store_all logs (map arrived_log_line (gather_from log_line_in its)) (s.logs, e.1) in
      let l' = write_all proto_to_log_line logs b.log_lines (s.logs, e'.1) in
      let el : l' ≡ l =
        ap (λ n. write_all proto_to_log_line logs b.log_lines (s.logs, n)) (ap (λ x. x.1) ee)
        ∙ offered logs (λ c. c.log_lines) log_line_to_proto proto_to_log_line arrived_log_line
            log_line_in pack-log_lines its (empty_batch id host) refl (s.logs, e.1)
            (gathered_arrive (λ l. proto_to_log_line (log_line_to_proto l) ≡ arrived_log_line l)
              log_line_in its log_line_arrives h) in
      ap (λ x. (stores_of x e' l', true)) em
      ∙ ap (λ x. (stores_of m x l', true)) ee
      ∙ ap (λ x. (stores_of m e x, true)) el
