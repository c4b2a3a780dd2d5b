-- ===== src/Lib.antt =====
-- Bitácora: a model of the core logic of the agent and the hub, and what it guarantees.
--
-- An agent on every host runs collectors on tickers (internal/collector). What they produce are the
-- canonical records of internal/schema. They are numbered and appended to a write-ahead log on disk
-- (internal/agentbuffer), which is sent to the hub in batches, acknowledged, recovered after a crash
-- and kept within a budget. The hub takes batches at one endpoint (internal/transport) that ties
-- tokens to hosts and drops batches that it has seen; a receiver (internal/ingestreceiver) converts
-- what is in them and writes each kind to its store, log lines to the blocks of internal/logstore.
-- Alert rules are evaluated by state machines that silences mute (internal/alerting), and their
-- notifications go to the routes that match (internal/notify). Rules make events out of log lines
-- (internal/extraction), of which segmentation faults are counted by core (internal/faultcluster).
-- Apart from that, an agent keeps the last minutes of fine-grained samples in a ring on disk
-- (internal/blackbox), and reads what privileged helpers leave in a directory (internal/spool).
-- internal/debversion orders package versions.
--
-- Files and code:
--   Base: what the components share: lists, integers (int as ℤ, 64-bit wrap-around written out), Go's
--     instants and durations, strings as bytes, floats as bit patterns, maps as association lists,
--     sorting of keys, paths and dates, numbers in texts, and files that are replaced atomically.
--   Schema.Types, Schema.Validation: the records of internal/schema and their Validate methods.
--   Schema.Cardinality: internal/schema/cardinality.go; Budget holds its theorems.
--   AgentBuffer.Segment: items, segment files and the answers of the operating system
--     (internal/agentbuffer/segment.go: write, seal, rewrite).
--   AgentBuffer.Buffer: Open, recover, Append, Close (buffer.go). Invariant states when a buffer is
--     valid; the modules beside it are theorems: Steps, Rotation and Append on what is written, Crashed
--     and Recovery on what is found again, Wedged and Torn on what goes wrong.
--   AgentBuffer.Backfill: oldestItems and Ack (backfill.go); Backfill.Loop is the loop of Backfill.
--   AgentBuffer.Capacity: EnforceCapacity (capacity.go) with the choice of what is discarded; its child
--     Overflow is BuildOverflowEvent, the report of it.
--   AgentBuffer.Sink: the calls of a collector (sink.go); Sink.Loop is Run among the goroutines that
--     append, as a step relation; Sink.Appends and Sink.Waking are their theorems.
--   Wire: the messages of proto/ingest.proto; Sender is internal/agentbuffer/transportsender.go, Convert
--     and Receiver are the files of internal/ingestreceiver. RoundTrip, Packing and Delivery are theorems,
--     the last on the agent's side and the hub's together.
--   Logstore.Block, Store, Index: internal/logstore/logstore.go (writeBlock and writeAtomic; Append, Flush
--     and FlushAll) and index.go. Written says what a block that is written is; Atomic, Gathering,
--     Delivery, Failure, Conservation, Bounds, Walking, Scan and Reindex are theorems.
--   Extraction.Rule, Extraction.Engine: internal/extraction/rule.go, and engine.go with enrich.go.
--   Faultcluster.Topology, Faultcluster.Tracker: the files of internal/faultcluster with those names.
--   Notify.Router: internal/notify/router.go.
--   Spool.Entries: internal/spool/spool.go; Visible holds its theorem.
--   Metricstore.Downsample: internal/metricstore/downsample.go; Ordering and Buckets are theorems.
--   Alerting.Alert, Hysteresis, Deadman, Silence, Fingerprint, Manager: the files of internal/alerting
--     with those names.
--   Transport.Idempotency, RateLimit, Server: the files of internal/transport; Server is handleIngest,
--     a function for each stage. Server.Authentic and Server.Delivery hold its theorems. The store of
--     identifiers is an interface with laws, which MemoryIdempotencyStore's model fills.
--   Collector.Runtime, Collector.Registry: internal/collector/runtime.go and registry.go.
--   Blackbox: internal/blackbox: Codec is encoding/binary on a struct, Header, Sample, Recorder and
--     Reader are the files with those names (Sample with encode.go), Region and Ring hold the theorems.
--   Debversion: internal/debversion/debversion.go.
--
-- State is passed explicitly: a method takes a record and returns the new one with its result. Errors
-- are values. A file's content is a field of the segment that owns it, and each call of the operating
-- system can fail: an Os says how it ends. Where files are replaced (Logstore, Spool) the directory is a
-- map from paths, and a replacement gives the directory at every moment, so also where it is cut off.
-- Goroutines are sequences of the sections that a mutex makes one step (Logstore.Conservation), or steps
-- of a relation in any order (AgentBuffer.Sink.Loop).
--
-- Fuel and bounds: Backfill and EnforceCapacity run on one unit more than the number of buffered items,
-- since each round takes one away; compareVersionPart runs on the number of bytes of both strings.
-- That this is enough is part of the theorems. Sequence numbers wrap at 2^64 as in the code; the
-- theorem on Append has the bound as a hypothesis. A line of a sealed segment that is longer than the 8 MiB
-- of its reader's scanner makes the segment unreadable, as in the code; the theorems on Append and LogLines
-- have that bound as a hypothesis.
--
-- Not modelled: locks elsewhere (a method is one step), timers, parsing of procfs and of other
-- programs' output, SQL, HTTP and the web interface, SHA-256, zstd, JSON, YAML, regular expressions,
-- templates and the protocol buffers' bytes (parameters, or lines that do or do not parse),
-- floating-point arithmetic, Metric.Validate, the hashes of
-- tokens, and the text of error messages.
pub mod Base
pub mod Schema
pub mod AgentBuffer
pub mod Alerting
pub mod Transport
pub mod Debversion
pub mod Logstore
pub mod Wire
pub mod Extraction
pub mod Faultcluster
pub mod Notify
pub mod Spool
pub mod Metricstore
pub mod Collector
pub mod Blackbox
