-- ===== src/Extraction/Engine.antt =====
-- internal/extraction/{engine,enrich}.go: what the rules make of a log line.
-- text/template is `render`, `none` where it reports an error; SHA-256 in hexadecimal is `sha256_hex`, files
-- are read by `read`, and a new ULID is an argument.
use bitacora.Base.{Option, none, some, List, [], ◌∷◌, ◌++◌, if◌then◌else◌, get_elem?, ◌&&◌, not}
use bitacora.Base.Int.{ℤ, pos}
use bitacora.Base.Text.{Text, codes}
use bitacora.Base.Labels.{Labels, label}
use bitacora.Base.Map.{lookup, insert}
use bitacora.Base.Eq.{list_Eq, nat_Eq, ◌≟◌}
use bitacora.Base.Paths.{child, clean}
use bitacora.Base.Sorting.{sort, keys}
use bitacora.Base.Numbers.{atoi, after_last, text_fields, trim_space}
use bitacora.Schema.Types.{Event, EventSubject, LogLine}
use bitacora.Schema.Validation.{is_empty}
use bitacora.Extraction.Rule.{Rule, Compiled, Regexp}

pub record Enrichers : Type 0 where
  pub proc_root : Text
  pub sys_root : Text

pub record World : Type 0 where
  pub enrichers : Enrichers
  pub read : Text → Option Text
  pub render : Text → Labels → Option Text
  pub sha256_hex : Text → Text

-- cpuFromContext from the 37th field behind the command's name on
abbrev pub with_cpu : Option Text → Labels → Labels
with_cpu none attrs = attrs
with_cpu (some f) attrs = elim (atoi f) [ none ↦ attrs | some _ ↦ insert (codes "cpu") f attrs ]

abbrev pub processor_field : Option Text → Option Text
processor_field none = none
processor_field (some rest) = get_elem? (text_fields rest) 36

abbrev pub cpu_of_stat : Option Text → Labels → Labels
cpu_of_stat none attrs = attrs
cpu_of_stat (some raw) attrs = with_cpu (processor_field (after_last b')' raw)) attrs

pub cpu_from_context : World → Labels → Labels
cpu_from_context w attrs =
    let pid = label attrs (codes "pid") in
    if is_empty pid
    then attrs
    else cpu_of_stat (w.read (clean (child (child w.enrichers.proc_root pid) (codes "stat")))) attrs

abbrev pub with_core : Option Text → Labels → Labels
with_core none attrs = attrs
with_core (some raw) attrs = elim (atoi (trim_space raw)) [
  | none ↦ attrs
  | some _ ↦ insert (codes "core_id") (trim_space raw) attrs
]

pub core_from_cpu : World → Labels → Labels
core_from_cpu w attrs =
    let cpu = label attrs (codes "cpu") in
    if is_empty cpu
    then attrs
    else with_core
        (w.read (
          clean (
            w.enrichers.sys_root
            ++ (codes "/devices/system/cpu/cpu" ++ (cpu ++ codes "/topology/core_id")))))
        attrs

-- the enrichers that a rule names, in order; an unknown name does nothing
unfoldable pub enrich : World → List Text → Labels → Labels
unfolding cpu_from_context core_from_cpu
enrich w [] attrs = attrs
enrich w (n ∷ ns) attrs = enrich w ns (
    if n ≟ codes "cpu_from_context"
    then cpu_from_context w attrs
    else if n ≟ codes "core_from_cpu"
    then core_from_cpu w attrs
    else attrs)

-- the groups with a name, without the whole match; the lists have one length
abbrev pub groups_from : List Text → List Text → Labels → Labels
groups_from (n ∷ ns) (m ∷ ms) attrs =
    groups_from ns ms (if is_empty n then attrs else insert n m attrs)
groups_from [] ms attrs = attrs
groups_from (n ∷ ns) [] attrs = attrs

unfoldable pub named_groups : Regexp → List Text → Labels
named_groups re [] = []
named_groups re (whole ∷ ms) = elim re.names [ [] ↦ [] | _ ∷ ns ↦ groups_from ns ms [] ]

abbrev pub fingerprint_fields : Rule → Labels → List Text
fingerprint_fields r attrs = elim r.emit.fingerprint_fields [
  | [] ↦ sort (keys attrs)
  | f ∷ fs ↦ f ∷ fs
]

abbrev pub hashed_fields : Labels → List Text → Text
hashed_fields attrs [] = []
hashed_fields attrs (f ∷ fs) = 0x1f ∷ (f ++ (b'=' ∷ (label attrs f ++ hashed_fields attrs fs)))

unfoldable pub fingerprint : World → Rule → Labels → Text
fingerprint w r attrs =
    codes "sha256:"
    ++ w.sha256_hex (r.emit.type ++ hashed_fields attrs (fingerprint_fields r attrs))

abbrev pub render_title : World → Text → Labels → Option Text
render_title w [] attrs = some []
render_title w (c ∷ t) attrs = w.render (c ∷ t) attrs

abbrev pub pid_of : Option ℤ → ℤ
pid_of none = pos 0
pid_of (some n) = n

abbrev pub subject_from : Labels → Option Text → EventSubject
subject_from attrs none = record { kind = []; name = []; pid = pos 0 }
subject_from attrs (some comm) = record {
  kind = codes "process";
  name = comm;
  pid = pid_of (atoi (label attrs (codes "pid")));
}

abbrev pub title_or : Text → Text → Text
title_or type [] = type
title_or type (c ∷ t) = c ∷ t

unfoldable pub event_with : World → Text → Rule → LogLine → Labels → Text → Event
unfolding fingerprint
event_with w id r line attrs title = record {
  id = id;
  ts = line.ts;
  ts_received = 0;
  host_id = line.host_id;
  source = line.source;
  type = r.emit.type;
  severity = r.emit.severity;
  title = title_or r.emit.type title;
  subject = subject_from attrs (lookup (codes "comm") attrs);
  attrs = attrs;
  fingerprint = fingerprint w r attrs;
  log_refs = [];
  schema = pos 1;
}

-- what Process returns: an event, nothing, or the error of a rule's title
pub data Processed : Type 0 where
  emitted : Event → Processed
  nothing : Processed
  title_failed : Rule → Processed

abbrev pub build_event : World → Text → Rule → LogLine → Labels → Option Text → Processed
build_event w id r line attrs none = title_failed r
build_event w id r line attrs (some title) = emitted (event_with w id r line attrs title)

unfoldable pub apply_rule : World → Text → Compiled → LogLine → List Text → Processed
unfolding event_with enrich named_groups
apply_rule w id c line match =
    let attrs = enrich w c.rule.emit.enrich (named_groups c.re match) in
    build_event w id c.rule line attrs (render_title w c.rule.emit.title attrs)

-- whether a rule is for the line, and its match
unfoldable pub matching : Compiled → LogLine → Option (List Text)
matching c line =
    if not (is_empty c.rule.source) && not (c.rule.source ≟ line.source)
    then none
    else c.re.find line.message

abbrev pub try_rule : World → Text → Compiled → LogLine → Option (List Text) → Processed → Processed
try_rule w id c line none rest = rest
try_rule w id c line (some match) rest = apply_rule w id c line match

unfoldable pub process : World → Text → List Compiled → LogLine → Processed
unfolding apply_rule matching
process w id [] line = nothing
process w id (c ∷ cs) line = try_rule w id c line (matching c line) (process w id cs line)
