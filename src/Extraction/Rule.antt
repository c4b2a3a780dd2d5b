-- ===== src/Extraction/Rule.antt =====
-- internal/extraction/rule.go: a rule, its validation, Parse and LoadDir.
-- A compiled regular expression is what its two methods answer; the YAML decoder and regexp.Compile are
-- `decode` and `compile`.
use bitacora.Base.{Bool, Option, none, some, List, [], ◌∷◌, if◌then◌else◌, ◌||◌}
use bitacora.Base.Text.{Text, codes}
use bitacora.Base.Eq.{list_Eq, nat_Eq}
use bitacora.Base.Paths.{has_suffix}
use bitacora.Base.Sorting.{sort}
use bitacora.Schema.Validation.{is_empty, one_of}

-- FindStringSubmatch (`none` is nil) and SubexpNames
pub record Regexp : Type 0 where
  pub find : Text → Option (List Text)
  pub names : List Text

pub record EmitSpec : Type 0 where
  pub type : Text
  pub severity : Text
  pub title : Text
  pub enrich : List Text
  pub fingerprint_fields : List Text

-- as it is decoded
pub record Rule : Type 0 where
  pub id : Text
  pub source : Text
  pub pattern : Text
  pub emit : EmitSpec

-- with `re`
pub record Compiled : Type 0 where
  pub rule : Rule
  pub re : Regexp

pub data RuleError : Type 0 where
  no_id no_match no_type no_severity : RuleError
  unknown_enricher : Text → RuleError
  not_yaml no_regexp : RuleError

abbrev pub builtin_enrichers : List Text
builtin_enrichers = codes "cpu_from_context" ∷ codes "core_from_cpu" ∷ []

abbrev pub check_enrichers : List Text → Option RuleError
check_enrichers [] = none
check_enrichers (n ∷ ns) =
    let rest = check_enrichers ns in
    if one_of n builtin_enrichers then rest else some (unknown_enricher n)

unfoldable pub validate : Rule → Option RuleError
validate r =
    if is_empty r.id
    then some no_id
    else if is_empty r.pattern
    then some no_match
    else if is_empty r.emit.type
    then some no_type
    else if is_empty r.emit.severity
    then some no_severity
    else check_enrichers r.emit.enrich

pub data Loaded (A : Type 0) : Type 0 where
  loaded : A → Loaded A
  refused : RuleError → Loaded A
  unreadable : Loaded A

module _ (decode : Text → Option Rule) (compile : Text → Option Regexp) where
  abbrev pub compiled_rule : Rule → Option Regexp → Loaded Compiled
  compiled_rule r none = refused no_regexp
  compiled_rule r (some re) = loaded (record { rule = r; re = re })

  abbrev pub checked_rule : Rule → Option RuleError → Loaded Compiled
  checked_rule r (some e) = refused e
  checked_rule r none = compiled_rule r (compile r.pattern)

  abbrev pub decoded_rule : Option Rule → Loaded Compiled
  decoded_rule none = refused not_yaml
  decoded_rule (some r) = checked_rule r (validate r)

  unfoldable pub parse : Text → Loaded Compiled
  unfolding validate
  parse raw = decoded_rule (decode raw)

  -- the names of the files that hold rules
  abbrev pub rule_names : List (Text × Bool) → List Text
  rule_names [] = []
  rule_names ((name, is_dir) ∷ es) =
      let rest = rule_names es in
      if is_dir
      then rest
      else if has_suffix name (codes ".yaml") || has_suffix name (codes ".yml")
      then name ∷ rest
      else rest

  abbrev pub prepend : Loaded Compiled → Loaded (List Compiled) → Loaded (List Compiled)
  prepend (refused e) rest = refused e
  prepend unreadable rest = unreadable
  prepend (loaded r) (loaded rs) = loaded (r ∷ rs)
  prepend (loaded r) (refused e) = refused e
  prepend (loaded r) unreadable = unreadable

  abbrev pub parse_read : Option Text → Loaded Compiled
  parse_read none = unreadable
  parse_read (some raw) = parse raw

  unfoldable pub load_names : (Text → Option Text) → List Text → Loaded (List Compiled)
  unfolding parse
  load_names read [] = loaded []
  load_names read (n ∷ ns) = prepend (parse_read (read n)) (load_names read ns)

  -- LoadDir, from the directory's entries, `none` if it cannot be read
  unfoldable pub load_dir :
      (Text → Option Text) → Option (List (Text × Bool)) → Loaded (List Compiled)
  unfolding load_names
  load_dir read none = unreadable
  load_dir read (some entries) = load_names read (sort (rule_names entries))
