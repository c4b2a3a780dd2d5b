-- ===== src/AgentBuffer/Tests.antt =====
-- The buffer's theorems on a small buffer: two items in a sealed segment, one in the active one.
use bitacora.Base.{
  ◌+◌, ◌≡◌, refl, true, false, none, some, [], ◌∷◌, ◌++◌, arith, inl, length, concat,
}
use bitacora.Base.Int.{pos, ◌-ℤ◌}
use bitacora.Base.Text.{codes}
use bitacora.Schema.Types.{LogLine, Metric}
use bitacora.AgentBuffer.Sink.{Call, Sink, log_lines}
use bitacora.AgentBuffer.Sink.Appends.{HasLines, log_lines-HasLines}
use bitacora.AgentBuffer.Sink.Loop.{
  FlushOptions, Flow, waiting, looking, Step, Steps, here, then, appended, triggered,
}
use bitacora.AgentBuffer.Sink.Waking.{Steps-wakes}
use bitacora.AgentBuffer.Segment
use bitacora.AgentBuffer.Segment.{
  unreadable, Item, Payload, of_metric, of_log_line, of_event, Os, SegmentWriter, SealedSegment,
  IsFaultless, log_line, metric, event, record_of, torn, content, written, sealed, rewritten,
  fails_torn, close_fails,
}
use bitacora.AgentBuffer.Buffer.{
  Buffer, Directory, default_options, ok, err, failed, append, open_buffer,
}
use bitacora.AgentBuffer.Buffer.Invariant.{contents, IsValid}
use bitacora.AgentBuffer.Buffer.Append.{append_lem}
use bitacora.AgentBuffer.Buffer.Recovery.{open_buffer-crashed}
use bitacora.AgentBuffer.Buffer.Crashed.{crashed, sealed_files_of, active_file, whole}
use bitacora.AgentBuffer.Buffer.Wedged.{IsWedged, append_wedges}
use bitacora.AgentBuffer.Buffer.Torn.{torn_append_forgets}
use bitacora.AgentBuffer.Backfill.{oldest_items, ack}
use bitacora.AgentBuffer.Backfill.{ack_segment}
use bitacora.AgentBuffer.Backfill.Interrupted.{ack_interrupted}
use bitacora.AgentBuffer.Backfill.Ack.{ack_lem}
use bitacora.AgentBuffer.Backfill.Loop.{Environment, backfill, finished}
use bitacora.AgentBuffer.Backfill.Delivery.{Delivers, backfill-Delivers, backfill_complete}
use bitacora.AgentBuffer.Capacity.{enforce_capacity}
use bitacora.AgentBuffer.Capacity.Enforcement.{Enforces, enforce_capacity-Enforces}

abbrev good_os : Os
good_os = record {
  line_size = λ x. some 10;
  zst_size = length;
  read = λ p. true;
  create = λ p. true;
  write = λ p. written;
  seal = λ p. sealed;
  rewrite = λ p. rewritten;
  write_sealed = λ p. true;
  remove = λ p. true;
  stat = λ p. true;
}

good_os-IsFaultless : IsFaultless good_os
good_os-IsFaultless = record {
  reads = λ p. refl;
  stats = λ p. refl;
  creates = λ p. refl;
  writes = λ p. refl;
  seals = λ p. refl;
  rewrites = λ p. refl;
  writes_sealed = λ p. refl;
  removes = λ p. refl;
}

abbrev a_line : LogLine
a_line = record {
  ts = 7;
  host_id = codes "h";
  source = codes "journald";
  stream = [];
  unit_or_container = [];
  level = [];
  pid = pos 0;
  message = codes "x";
}

abbrev a_metric : Metric
a_metric = record {
  name = codes "bitacora_load_ratio";
  host_id = codes "h";
  labels = [];
  value = 0;
  timestamp = 5;
}

abbrev first : Item
first = record { seq = 1; priority = metric; ts = 5; payload = of_metric a_metric }

abbrev second : Item
second = record { seq = 2; priority = log_line; ts = 7; payload = of_log_line a_line }

abbrev third : Item
third = record { seq = 4; priority = metric; ts = 9; payload = of_metric a_metric }

abbrev a_segment : SealedSegment
a_segment = record {
  path = 1;
  min_seq = 1;
  max_seq = 2;
  count = 2;
  byte_size = 2;
  file = content (first ∷ second ∷ []);
}

abbrev a_writer : SegmentWriter
a_writer = record {
  path = 2;
  is_open = true;
  is_copied = false;
  is_overlong = false;
  raw_bytes = 10;
  items = third ∷ [];
  file = record_of third ∷ [];
}

abbrev a_buffer : Buffer
a_buffer = record {
  segment_bytes = 40;
  max_age = pos 100;
  max_bytes = 5;
  next_seq = 4;
  active = some a_writer;
  sealed = a_segment ∷ [];
  total_len = pos 3;
}

a_buffer-IsValid : IsValid a_buffer
a_buffer-IsValid = record {
  segments =
      (record { readable = refl; count_right = refl; min_right = refl; max_right = refl }, tt);
  writer = record { is_open = refl; not_copied = refl; is_short = refl; in_file = refl };
  sorted = (omega arith, (omega arith, (omega arith, tt)));
  bounded = omega arith;
  counted = refl;
}

abbrev good_environment : Environment
good_environment = record {
  ctx_done = λ k. false;
  waits = λ k. true;
  sends = λ k items. true;
  os = λ k. good_os;
}

backfill-Delivers_example : Delivers 2 a_buffer (backfill good_environment (pos 2) a_buffer)
unfolding bitacora.AgentBuffer.Backfill.Loop.batch_size
backfill-Delivers_example =
    backfill-Delivers good_environment (pos 2) a_buffer (λ k. good_os-IsFaultless) a_buffer-IsValid

backfill_complete_example :
    ((backfill good_environment (pos 2) a_buffer).outcome ≡ finished)
    × (concat (backfill good_environment (pos 2) a_buffer).sent ≡ contents a_buffer)
    × (contents (backfill good_environment (pos 2) a_buffer).buffer ≡ [])
backfill_complete_example =
    backfill_complete good_environment (pos 2) a_buffer (λ k. good_os-IsFaultless) a_buffer-IsValid
      (λ k. refl) (λ k. refl) (λ k items. refl)

-- a record that was written and not synchronised
abbrev fourth : Item
fourth = record first { seq = 5 }

open_buffer-crashed_example :
    let disk : Directory = record {
      sealed_files = sealed_files_of a_buffer.sealed;
      active_files = (2, record_of third ∷ record_of fourth ∷ []) ∷ [];
    } in
    (c : Buffer) × (open_buffer good_os default_options disk ≡ some c)
    × (contents c ≡ first ∷ second ∷ third ∷ fourth ∷ [])
    × IsValid c
    × (c.next_seq ≡ 5)
open_buffer-crashed_example =
    open_buffer-crashed good_os default_options a_buffer
      ((2, record_of third ∷ record_of fourth ∷ []) ∷ []) (fourth ∷ []) good_os-IsFaultless
      a_buffer-IsValid
      (active_file a_writer (record_of fourth ∷ []) (fourth ∷ []) refl (whole fourth (omega arith)))

enforce_capacity-Enforces_example :
    Enforces (λ k. 20) a_buffer (enforce_capacity good_os (λ k. 20) a_buffer)
enforce_capacity-Enforces_example =
    enforce_capacity-Enforces good_os (λ k. 20) a_buffer good_os-IsFaultless a_buffer-IsValid

append_lem_example :
    ((append good_os 9 first a_buffer).1 ≡ ok 5)
    × (contents (append good_os 9 first a_buffer).0
        ≡ contents a_buffer ++ record first { seq = 5 } ∷ [])
    × IsValid (append good_os 9 first a_buffer).0
append_lem_example =
    append_lem good_os 9 first a_buffer 10 good_os-IsFaultless a_buffer-IsValid (omega arith) refl
      (omega arith)

ack_lem_example :
    ((ack good_os 1 a_buffer).1 ≡ ok tt)
    × (contents (ack good_os 1 a_buffer).0 ≡ second ∷ third ∷ [])
    × IsValid (ack good_os 1 a_buffer).0
ack_lem_example = ack_lem good_os 1 a_buffer good_os-IsFaultless a_buffer-IsValid

-- the file of the active segment was closed
abbrev wedged_buffer : Buffer
wedged_buffer = record a_buffer { active = some (record a_writer { is_open = false }) }

-- the disk is full when a segment is sealed
abbrev full_disk : Os
full_disk = record good_os { line_size = λ x. some 30; seal = λ p. Segment.Seal.write_fails }

append_wedges_example :
    ((append full_disk 9 first a_buffer).1 ≡ err failed)
    × IsWedged (append full_disk 9 first a_buffer).0
append_wedges_example = append_wedges full_disk 9 first a_writer a_buffer 30 refl (record {
  is_open = refl;
  encoded = refl;
  writes = refl;
  full = omega arith;
  no_seal = λ e. cc;
})

abbrev torn_os : Os
torn_os = record good_os { write = λ p. fails_torn }

torn_append_forgets_example :
    let r = append good_os 9 second (append torn_os 9 first a_buffer).0 in
    (r.1 ≡ ok 6)
    × ((c : Buffer) × (open_buffer good_os default_options (crashed r.0 []) ≡ some c)
        × (contents c ≡ contents a_buffer))
torn_append_forgets_example =
    torn_append_forgets torn_os good_os good_os default_options 9 9 first second a_buffer a_writer
      10 10 a_buffer-IsValid refl (refl, refl) (refl, refl, omega arith) good_os-IsFaultless

abbrev second_segment : SealedSegment
second_segment = record {
  path = 3;
  min_seq = 3;
  max_seq = 5;
  count = 1;
  byte_size = 1;
  file = unreadable;
}

abbrev damaged_buffer : Buffer
damaged_buffer = record a_buffer { sealed = a_segment ∷ second_segment ∷ [] }

ack_interrupted_example :
    ((ack good_os 4 damaged_buffer).1 ≡ err failed)
    × ((ack good_os 4 damaged_buffer).0.total_len ≡ pos 3 -ℤ pos 2)
    × (oldest_items 10 (ack good_os 4 damaged_buffer).0 ≡ none)
unfolding ack_segment Segment.read_sealed
ack_interrupted_example =
    ack_interrupted good_os 4 10 damaged_buffer a_segment second_segment [] (first ∷ second ∷ [])
      refl (omega arith) refl refl refl (omega arith)

-- the sink: two lines, of which the first lacks everything that is filled in
abbrev a_call : Call
a_call = record { os = good_os; path = 9; now = 50 }

abbrev a_sink : Sink
a_sink = record { host_id = codes "h"; buffer = a_buffer; signal = false; logged = 0 }

abbrev bare_line : LogLine
bare_line = record a_line { host_id = []; source = []; ts = 0 }

log_lines-HasLines_example :
    HasLines
      (λ i. a_call)
      0
      (codes "s")
      (bare_line ∷ a_line ∷ [])
      a_sink
      (log_lines (λ i. a_call) 0 (codes "s") (bare_line ∷ a_line ∷ []) a_sink)
log_lines-HasLines_example =
    log_lines-HasLines (λ i. a_call) 0 (codes "s") (bare_line ∷ a_line ∷ []) a_sink
      (λ i. good_os-IsFaultless) ((10, refl, omega arith), ((10, refl, omega arith), tt))
      a_buffer-IsValid (omega arith)

abbrev flush_options : FlushOptions
flush_options = record { interval = pos 9; min_backoff = pos 1; max_backoff = pos 4 }

abbrev idle : Flow
idle = record { pending = 0; posting = 0; signal = false; phase = waiting; backoff = pos 1 }

-- an append and its signal
abbrev posted : Steps flush_options idle (record idle { pending = 0 + 1; signal = true })
posted =
    then idle _ _ (then idle idle _ (here idle) (appended idle))
      (triggered (record idle { pending = 0 + 1; posting = 0 + 1 }) 0 refl)

Steps-wakes_example :
    let g : Flow = record idle { pending = 0 + 1; signal = true } in
    (g.signal ≡ true) × Step flush_options g (record g { phase = looking; signal = false })
Steps-wakes_example =
    Steps-wakes flush_options idle (record idle { pending = 0 + 1; signal = true }) posted refl
      (inl refl) refl (omega arith) refl
