-- ===== src/Schema/Validation.antt =====
-- internal/schema/{schema,event,job,logline,inventory}.go: the Validate methods.
-- An error is the check that failed; its message is left out. `none` is nil.
use bitacora.Base.{
  ℕ, suc, Bool, true, false, not, ◌||◌, Option, none, some, List, [], ◌∷◌, if◌then◌else◌,
}
use bitacora.Base.Int.{ℤ, pos, ltb_ℤ}
use bitacora.Base.Time.{Time, is_zero}
use bitacora.Base.Text.{Text, codes, contains_byte}
use bitacora.Base.Float.{Float64}
use bitacora.Base.Eq.{list_Eq, nat_Eq, ◌≟◌}
use bitacora.Schema.Types.{Event, LogLine, Inventory, InventoryItem}

-- the field whose check failed
pub data Field : Type 0 where
  id host_id ts source type severity title schema job_name started_at status kind reported_at :
      Field
  item_id : ℕ → Field

abbrev pub is_empty : Text → Bool
is_empty s = s ≟ []

abbrev pub one_of : Text → List Text → Bool
one_of s [] = false
one_of s (v ∷ vs) = let rest = one_of s vs in if s ≟ v then true else rest

unfoldable pub severity_valid : Text → Bool
severity_valid s = one_of s (
    codes "debug"
    ∷ codes "info"
    ∷ codes "notice"
    ∷ codes "warn"
    ∷ codes "error"
    ∷ codes "critical"
    ∷ [])

unfoldable pub validate_event : Event → Option Field
validate_event e =
    if is_empty e.id
    then some id
    else if is_empty e.host_id
    then some host_id
    else if is_zero e.ts
    then some ts
    else if is_empty e.source
    then some source
    else if is_empty e.type || not (contains_byte b'.' e.type)
    then some type
    else if not (severity_valid e.severity)
    then some severity
    else if is_empty e.title
    then some title
    else if ltb_ℤ e.schema (pos 1)
    then some schema
    else none

unfoldable pub validate_log_line : LogLine → Option Field
validate_log_line l =
    if is_empty l.host_id
    then some host_id
    else if is_empty l.source
    then some source
    else if is_zero l.ts
    then some ts
    else none

-- the loop over the items, from the index given
validate_items : ℕ → List InventoryItem → Option Field
validate_items i [] = none
validate_items i (x ∷ xs) =
    let rest = validate_items (suc i) xs in if is_empty x.id then some (item_id i) else rest

validate_inventory : Inventory → Option Field
unfolding validate_items
validate_inventory inv =
    if is_empty inv.host_id
    then some host_id
    else if is_empty inv.kind
    then some kind
    else if is_zero inv.reported_at
    then some reported_at
    else if ltb_ℤ inv.schema (pos 1)
    then some schema
    else validate_items 0 inv.items

unfoldable pub job_status_valid : Text → Bool
job_status_valid s = one_of s (
    codes "running"
    ∷ codes "success"
    ∷ codes "warning"
    ∷ codes "failed"
    ∷ codes "timeout"
    ∷ codes "killed"
    ∷ [])

pub record JobLogRef : Type 0 where
  pub block_id : Text
  pub from : ℤ
  pub to : ℤ

-- `Stats` is a map[string]any, of whose values `A` nothing is said
pub record Job (A : Type 0) : Type 0 where
  pub id : Text
  pub job_name : Text
  pub host_id : Text
  pub started_at : Time
  pub finished_at : Time
  pub duration_second : Float64
  pub status : Text
  pub exit_code : ℤ
  pub signal : Text
  pub stats : List (Text × A)
  pub peer_host_id : Text
  pub trigger : Text
  pub next_expected : Time
  pub log_refs : List JobLogRef
  pub schema : ℤ

unfoldable pub validate_job : {A : Type 0} → Job A → Option Field
validate_job j =
    if is_empty j.id
    then some id
    else if is_empty j.job_name
    then some job_name
    else if is_empty j.host_id
    then some host_id
    else if is_zero j.started_at
    then some started_at
    else if not (job_status_valid j.status)
    then some status
    else if ltb_ℤ j.schema (pos 1)
    then some schema
    else none
