-- ===== src/Extraction/Tests.antt =====
-- Examples of internal/extraction: a rule that its validation passes and whose event is not valid.
use bitacora.Base.{◌≡◌, refl, none, some, List, [], ◌∷◌}
use bitacora.Base.Int.{pos}
use bitacora.Base.Text.{Text, codes}
use bitacora.Schema.Types.{Event, LogLine}
use bitacora.Schema.Validation.{validate_event, severity, severity_valid, validate_log_line}
use bitacora.Extraction.Rule.{Compiled, validate}
use bitacora.Extraction.Engine.{
  World, event_with, process, apply_rule, matching, named_groups, enrich, emitted,
}
use bitacora.Extraction.Emitted.{IsFirst, process-IsFirst}

abbrev world : World
world = record {
  enrichers = record { proc_root = codes "/proc"; sys_root = codes "/sys" };
  read = λ p. none;
  render = λ t attrs. some t;
  sha256_hex = λ t. [];
}

abbrev line : LogLine
line = record {
  ts = 7;
  host_id = codes "h";
  source = codes "kernel";
  stream = [];
  unit_or_container = [];
  level = [];
  pid = pos 0;
  message = codes "segfault";
}

-- a rule for another source, and one for every source with a severity that the schema does not know
abbrev rule : Text → Text → Compiled
rule source level = record {
  rule = record {
    id = codes "r";
    source = source;
    pattern = codes "s";
    emit = record {
      type = codes "hw.fault";
      severity = level;
      title = [];
      enrich = [];
      fingerprint_fields = [];
    };
  };
  re = record { find = λ t. some (t ∷ []); names = [] ∷ [] };
}

abbrev rules : List Compiled
rules = rule (codes "docker") (codes "warn") ∷ rule [] (codes "fatal") ∷ []

abbrev event : Event
event = event_with world (codes "id") (rule [] (codes "fatal")).rule line [] []

rule_passes : validate (rule [] (codes "fatal")).rule ≡ none
unfolding validate
rule_passes = refl

event_is_invalid : validate_event event ≡ some severity
unfolding validate_event event_with severity_valid
event_is_invalid = refl

line_is_valid : validate_log_line line ≡ none
unfolding validate_log_line
line_is_valid = refl

event_is_made : process world (codes "id") rules line ≡ emitted event
unfolding process apply_rule matching named_groups enrich
event_is_made = refl

process-IsFirst_example : IsFirst world (codes "id") rules line event
process-IsFirst_example =
    process-IsFirst world (codes "id") line refl line_is_valid rules event event_is_made
