-- ===== src/Wire/Receiver.antt =====
-- internal/ingestreceiver/receiver.go: a batch is written to the three stores.
-- The stores are MetricAppender, EventInserter and LogAppender: a state each, and what a write does to
-- it, with whether its error is nil. A write that fails is logged: `drops` counts the log's lines.
use bitacora.Base.{ℕ, ◌+◌, Bool, true, false, List, [], ◌∷◌, if◌then◌else◌}
use bitacora.Schema.Types.{Metric, Event, LogLine}
use bitacora.Wire.Messages.{BatchMessage}
use bitacora.Wire.Convert.{proto_to_metric, proto_to_event, proto_to_log_line}

pub record Appender (A S : Type 0) : Type 1 where
  pub write : A → S → S × Bool

-- one loop of ReceiveBatch: every message is converted and written, whatever became of those before
unfoldable pub write_all : {P A S : Type 0} → (P → A) → Appender A S → List P → S × ℕ → S × ℕ
write_all convert store [] s = s
write_all convert store (p ∷ ps) (s, drops) =
    let w = store.write (convert p) s in
    write_all convert store ps (w.0, (if w.1 then drops else drops + 1))

pub record Stores (M E L : Type 0) : Type 0 where
  pub metrics : M
  pub events : E
  pub logs : L
  pub drops : ℕ

module _ {M E L : Type 0} (metrics : Appender Metric M) (events : Appender Event E)
    (logs : Appender LogLine L) where
  unfoldable pub receive_all : BatchMessage → Stores M E L → Stores M E L
  unfolding write_all
  receive_all b s =
      let m = write_all proto_to_metric metrics b.metrics (s.metrics, s.drops) in
      let e = write_all proto_to_event events b.events (s.events, m.1) in
      let l = write_all proto_to_log_line logs b.log_lines (s.logs, e.1) in
      record { metrics = m.0; events = e.0; logs = l.0; drops = l.1 }

  -- `alive` is whether ctx.Err() is nil; the answer is whether the error is
  unfoldable pub receive_batch : Bool → BatchMessage → Stores M E L → Stores M E L × Bool
  unfolding receive_all
  receive_batch alive b s = if alive then (receive_all b s, true) else (s, false)
