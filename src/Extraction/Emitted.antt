-- ===== src/Extraction/Emitted.antt =====
-- internal/extraction/engine.go: which rule makes the event, and when the event is valid.
use bitacora.Base.{
  ◌≡◌, ◌≢◌, ◌↔◌, ◌⊎◌, refl, sym, ap, true, false, Option, none, some, List, [], ◌∷◌, ◌++◌, arith,
  inl, inr, Option-cases, All,
}
use bitacora.Base.Int.{pos, ltb_ℤ}
use bitacora.Base.Time.{is_zero}
use bitacora.Base.Text.{Text, contains_byte}
use bitacora.Base.Labels.{Labels}
use bitacora.Schema.Types.{Event, LogLine}
use bitacora.Schema.Validation.{is_empty, severity_valid, validate_event, validate_log_line}
use bitacora.Extraction.Rule.{Rule, Compiled, validate}
use bitacora.Extraction.Engine.{
  World, event_with, title_or, render_title, build_event, apply_rule, matching, try_rule, emitted,
  nothing, title_failed, process, enrich, named_groups,
}

-- the type has a dot and the severity is one of the schema's: what a rule's own validation leaves out
abbrev pub IsProper : Rule → Type 0
IsProper r = (contains_byte b'.' r.emit.type ≡ true) × (severity_valid r.emit.severity ≡ true)

valid_iff :
    (e : Event)
    → is_empty e.id ≡ false
    → is_empty e.host_id ≡ false
    → is_zero e.ts ≡ false
    → is_empty e.source ≡ false
    → is_empty e.type ≡ false
    → is_empty e.title ≡ false
    → ltb_ℤ e.schema (pos 1) ≡ false
    → (validate_event e ≡ none)
      ↔ ((contains_byte b'.' e.type ≡ true) × (severity_valid e.severity ≡ true))
unfolding validate_event
valid_iff e h1 h2 h3 h4 h5 h6 h7 =
    (λ v. (ground arith, ground arith), λ p. ground (arith, p.0, p.1))

line_parts :
    (l : LogLine)
    → validate_log_line l ≡ none
    → (is_empty l.host_id ≡ false) × (is_empty l.source ≡ false) × (is_zero l.ts ≡ false)
unfolding validate_log_line
line_parts l h = ground arith

rule_type : (r : Rule) → validate r ≡ none → is_empty r.emit.type ≡ false
unfolding validate
rule_type r h = ground arith

title_there : (type title : Text) → is_empty type ≡ false → is_empty (title_or type title) ≡ false
title_there type [] h = h
title_there type (c ∷ t) h = refl

-- The event is the first matching rule's: it is the line's, and a valid one exactly if the rule's type and
-- severity are proper.
pub record IsFirst (w : World) (id : Text) (cs : List Compiled) (line : LogLine) (e : Event)
    : Type 0 where
  pub before : List Compiled
  pub chosen : Compiled
  pub after : List Compiled
  pub match : List Text
  pub splits : cs ≡ before ++ (chosen ∷ after)
  pub skipped : All (λ c. matching c line ≡ none) before
  pub matched : matching chosen line ≡ some match
  pub built : apply_rule w id chosen line match ≡ emitted e
  pub origin : (e.host_id ≡ line.host_id) × (e.source ≡ line.source) × (e.ts ≡ line.ts)
  pub sound : (validate chosen.rule ≢ none) ⊎ ((validate_event e ≡ none) ↔ IsProper chosen.rule)

emitted_same : (e f : Event) → emitted e ≡ emitted f → e ≡ f
emitted_same e f h = cc

not_failed : (r : Rule) (e : Event) → title_failed r ≢ emitted e
not_failed r e h = cc

not_nothing : (e : Event) → nothing ≢ emitted e
not_nothing e h = cc

module _ (w : World) (id : Text) (line : LogLine) (hid : is_empty id ≡ false)
    (hl : validate_log_line line ≡ none) where
  event_with-valid :
      (r : Rule) (attrs : Labels) (title : Text)
      → validate r ≡ none
      → (validate_event (event_with w id r line attrs title) ≡ none) ↔ IsProper r
  unfolding event_with
  event_with-valid r attrs title h =
      let p = line_parts line hl in
      let t = rule_type r h in
      valid_iff (event_with w id r line attrs title) hid p.0 p.2 p.1 t
        (title_there r.emit.type title t) (ground arith)

  sound_of :
      (c : Compiled) (attrs : Labels) (title : Text)
      → (validate c.rule ≢ none)
        ⊎ ((validate_event (event_with w id c.rule line attrs title) ≡ none) ↔ IsProper c.rule)
  sound_of c attrs title = elim (Option-cases (validate c.rule)) [
    | inl v ↦ inr (event_with-valid c.rule attrs title v)
    | inr (e, v) ↦ inl (λ n. cc)
  ]

  -- what building says of an event
  built_event :
      (c : Compiled) (attrs : Labels) (o : Option Text) (e : Event)
      → build_event w id c.rule line attrs o ≡ emitted e
      → (title : Text) × (event_with w id c.rule line attrs title ≡ e)
  built_event c attrs none e h = absurd (not_failed c.rule e h)
  built_event c attrs (some title) e h =
      (title, emitted_same (event_with w id c.rule line attrs title) e h)

  first :
      (c : Compiled) (cs : List Compiled) (m : List Text) (e : Event)
      → matching c line ≡ some m
      → apply_rule w id c line m ≡ emitted e
      → IsFirst w id (c ∷ cs) line e
  unfolding apply_rule event_with
  first c cs m e hm h =
      let attrs = enrich w c.rule.emit.enrich (named_groups c.re m) in
      let b = built_event c attrs (render_title w c.rule.emit.title attrs) e h in
      let s = sound_of c attrs b.0 in
      record {
        before = [];
        chosen = c;
        after = cs;
        match = m;
        splits = refl;
        skipped = tt;
        matched = hm;
        built = h;
        origin =
            (ap (λ x. x.host_id) (sym b.1), ap (λ x. x.source) (sym b.1), ap (λ x. x.ts) (sym b.1));
        sound = rw b.1 at s;
      }

  later :
      (c : Compiled) (cs : List Compiled) (e : Event)
      → matching c line ≡ none
      → IsFirst w id cs line e
      → IsFirst w id (c ∷ cs) line e
  later c cs e hn f = record {
    before = c ∷ f.before;
    chosen = f.chosen;
    after = f.after;
    match = f.match;
    splits = ap (◌∷◌ c) f.splits;
    skipped = (hn, f.skipped);
    matched = f.matched;
    built = f.built;
    origin = f.origin;
    sound = f.sound;
  }

  tried :
      (c : Compiled) (cs : List Compiled) (o : Option (List Text)) (e : Event)
      → matching c line ≡ o
      → try_rule w id c line o (process w id cs line) ≡ emitted e
      → (process w id cs line ≡ emitted e → IsFirst w id cs line e)
      → IsFirst w id (c ∷ cs) line e
  tried c cs none e hm h rest = later c cs e hm (rest h)
  tried c cs (some m) e hm h rest = first c cs m e hm h

  -- The event that Process makes of a valid line is that of the first rule for its source that matches it,
  -- no rule before that one does, and its host, source and instant are the line's; where that rule has
  -- passed validation the event is valid exactly if the rule's type has a dot and its severity is one
  -- of the schema's, which the rule's validation does not ask. The event's identifier is not empty.
  pub process-IsFirst :
      (cs : List Compiled) (e : Event) → process w id cs line ≡ emitted e → IsFirst w id cs line e
  unfolding process
  process-IsFirst [] e h = absurd (not_nothing e h)
  process-IsFirst (c ∷ cs) e h = tried c cs (matching c line) e refl h (λ k. process-IsFirst cs e k)
