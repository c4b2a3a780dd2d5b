-- ===== src/Collector/Registry.antt =====
-- internal/collector/registry.go: which collectors run on a host.
-- A collector is what Name and Requires return and how its Init ends: `some` with the error's text,
-- or `none`. `quote` is the %q of fmt; a new event's identifier is an argument.
use bitacora.Base.{
  ◌≡◌, ◌≢◌, refl, Bool, true, false, not, Option, none, some, List, [], ◌∷◌, ◌++◌, if◌then◌else◌,
  map, filter, arith,
}
use bitacora.Base.Int.{pos}
use bitacora.Base.Time.{Time, Duration}
use bitacora.Base.Text.{Text, codes}
use bitacora.Base.Map.{get_or}
use bitacora.Base.Eq.{list_Eq, nat_Eq, list_beq_iff}
use bitacora.Schema.Types.{Event}
use bitacora.Schema.Validation.{validate_event, severity_valid}

pub record Collector : Type 0 where
  pub name : Text
  pub requires : List Text
  pub init_error : Option Text

pub record RegistryItem : Type 0 where
  pub collector : Collector
  pub interval : Duration
  pub timeout : Duration

pub record Registration : Type 0 where
  pub collector : Collector
  pub interval : Duration
  pub timeout : Duration

pub record Disabled : Type 0 where
  pub name : Text
  pub reason : Text

-- Register, on the items of a Registry
unfoldable pub register : Collector → Duration → Duration → List RegistryItem → List RegistryItem
register c interval timeout items =
    items ++ record { collector = c; interval = interval; timeout = timeout } ∷ []

first_missing : List Text → List (Text × Bool) → Option Text
first_missing [] available = none
first_missing (c ∷ required) available =
    let rest = first_missing required available in
    if not (get_or c false available) then some c else rest

abbrev pub registration_of : RegistryItem → Registration
registration_of item = record {
  collector = item.collector;
  interval = item.interval;
  timeout = item.timeout;
}

module _ (quote : Text → Text) where
  missing_reason : Text → Text
  missing_reason missing = codes "missing capability " ++ quote missing

  -- one round of Resolve's loop, on what first_missing and Init answered
  settle :
      RegistryItem
      → Option Text
      → Option Text
      → List Registration × List Disabled
      → List Registration × List Disabled
  unfolding missing_reason
  settle item (some missing) init (regs, disabled) =
      (regs, record { name = item.collector.name; reason = missing_reason missing } ∷ disabled)
  settle item none (some error) (regs, disabled) = (
    regs,
    record { name = item.collector.name; reason = codes "init failed: " ++ error } ∷ disabled,
  )
  settle item none none (regs, disabled) = (registration_of item ∷ regs, disabled)

  -- The loop appends to its two results; here each item is put before those of the rest.
  pub resolve : List RegistryItem → List (Text × Bool) → List Registration × List Disabled
  unfolding settle first_missing
  resolve [] available = ([], [])
  resolve (item ∷ items) available =
      settle item (first_missing item.collector.requires available) item.collector.init_error
        (resolve items available)

  pub disabled_event : Text → Text → Time → Disabled → Event
  disabled_event id host_id now d = record {
    id = id;
    ts = now;
    ts_received = 0;
    host_id = host_id;
    source = codes "agent";
    type = codes "agent.collector_disabled";
    severity = codes "info";
    title = codes "collector " ++ (quote d.name ++ (codes " disabled: " ++ d.reason));
    subject = record { kind = []; name = []; pid = pos 0 };
    attrs = (codes "collector", d.name) ∷ (codes "reason", d.reason) ∷ [];
    fingerprint = [];
    log_refs = [];
    schema = pos 1;
  }

  -- a collector that runs has every capability that it requires, and its Init ends without an error
  pub qualifies : List (Text × Bool) → RegistryItem → Bool
  qualifies available item = elim (first_missing item.collector.requires available) [
    | none ↦ elim item.collector.init_error [ none ↦ true | some e ↦ false ]
    | some c ↦ false
  ]

  abbrev reported : List (Text × Bool) → RegistryItem → Bool
  reported available item = not (qualifies available item)

  abbrev name_of : Disabled → Text
  name_of d = d.name

  settle-qualifies :
      (available : List (Text × Bool)) (item : RegistryItem) (missing : Option Text)
      (r : List Registration × List Disabled)
      → first_missing item.collector.requires available ≡ missing
      → ((settle item missing item.collector.init_error r).0
          ≡ (if qualifies available item then registration_of item ∷ r.0 else r.0))
        × (map name_of (settle item missing item.collector.init_error r).1 ≡ (
            if qualifies available item
            then map name_of r.1
            else item.collector.name ∷ map name_of r.1))
  unfolding settle qualifies
  settle-qualifies available item missing r e = ground arith

  -- Resolve loses no collector and runs none without cause: the registrations are those of the items
  -- whose capabilities are all there and whose Init ends without an error, in the order in which they
  -- were registered, and the names of the disabled collectors are those of the others, in that order.
  pub resolve_lem :
      (items : List RegistryItem) (available : List (Text × Bool))
      → ((resolve items available).0 ≡ map registration_of (filter (qualifies available) items))
        × (map name_of (resolve items available).1
            ≡ map (λ i. i.collector.name) (filter (reported available) items))
  unfolding resolve
  resolve_lem [] available = (refl, refl)
  resolve_lem (item ∷ items) available = ground (
    arith,
    settle-qualifies available item (first_missing item.collector.requires available)
        (resolve items available) refl,
    resolve_lem items available,
  )

  -- The event of a disabled collector is valid wherever its identifier and host are not empty and its
  -- instant is not Go's zero time.
  pub disabled_event-validates :
      (id host_id : Text) (now : Time) (d : Disabled)
      → id ≢ []
      → host_id ≢ []
      → now ≢ 0
      → validate_event (disabled_event id host_id now d) ≡ none
  unfolding validate_event severity_valid disabled_event
  disabled_event-validates id host_id now d i h t =
      ground (arith, i, h, t, list_beq_iff id [], list_beq_iff host_id [])
