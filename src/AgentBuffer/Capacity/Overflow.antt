-- ===== src/AgentBuffer/Capacity/Overflow.antt =====
-- internal/agentbuffer/capacity.go: BuildOverflowEvent, the report of what was discarded.
use bitacora.Base.{ℕ, ◌+◌, ◌≡◌, none, List, [], ◌∷◌, ◌++◌, length, if◌then◌else◌, arith, false}
use bitacora.Base.Int.{pos}
use bitacora.Base.Time.{Time, is_zero}
use bitacora.Base.Text.{Text, codes}
use bitacora.Base.Eq.{list_Eq, nat_Eq, ◌≟◌}
use bitacora.Base.Numbers.{show_int}
use bitacora.Schema.Types.{Event}
use bitacora.Schema.Validation.{is_empty, severity_valid, validate_event}
use bitacora.AgentBuffer.Capacity.{DiscardedItem}

-- `counts[kind]`
abbrev pub count_kind : Text → List DiscardedItem → ℕ
count_kind kind [] = 0
count_kind kind (d ∷ ds) = (if d.kind ≟ kind then 1 else 0) + count_kind kind ds

-- the new ULID and the clock are arguments
unfoldable pub build_overflow_event : Text → Time → Text → List DiscardedItem → Event
build_overflow_event id now host discarded = record {
  id = id;
  ts = now;
  ts_received = 0;
  host_id = host;
  source = codes "agent";
  type = codes "agent.buffer_overflow";
  severity = codes "warn";
  title =
      codes "buffer overflow: discarded "
      ++ (show_int (pos (length discarded)) ++ codes " item(s)");
  subject = record { kind = []; name = []; pid = pos 0 };
  attrs =
      (codes "log_lines_discarded", show_int (pos (count_kind (codes "log_line") discarded)))
      ∷ (codes "metrics_discarded", show_int (pos (count_kind (codes "metric") discarded)))
      ∷ [];
  fingerprint = [];
  log_refs = [];
  schema = pos 1;
}

-- The report passes validation where the identifier, the host and the clock are set.
pub build_overflow_event-validates :
    (id : Text) (now : Time) (host : Text) (discarded : List DiscardedItem)
    → is_empty id ≡ false
    → is_empty host ≡ false
    → is_zero now ≡ false
    → validate_event (build_overflow_event id now host discarded) ≡ none
unfolding build_overflow_event validate_event severity_valid
build_overflow_event-validates id now host discarded h1 h2 h3 = ground arith
