-- ===== src/Wire/Messages.antt =====
-- The messages of proto/ingest.proto, as the generated code holds them, and the numbers on the wire.
-- A message's map is a list of pairs; a missing message is `none`.
use bitacora.Base.{ℕ, ◌+◌, ◌-◌, ◌*◌, ◌/◌, ◌%◌, ◌^◌, Option, List, ltb, leb, if◌then◌else◌}
use bitacora.Base.Int.{ℤ, pos, negsuc, pos_part, sub_ℕ, ◌+ℤ◌}
use bitacora.Base.Time.{Time}
use bitacora.Base.Text.{Text}
use bitacora.Base.Labels.{Labels}
use bitacora.Base.Float.{Float64}

pub record MetricMessage : Type 0 where
  pub name : Text
  pub host_id : Text
  pub labels : Labels
  pub value : Float64
  pub timestamp_ms : ℤ

pub record LogRefMessage : Type 0 where
  pub block_id : Text
  pub line : ℤ

pub record SubjectMessage : Type 0 where
  pub kind : Text
  pub name : Text
  pub pid : ℤ

pub record EventMessage : Type 0 where
  pub id : Text
  pub ts_ms : ℤ
  pub ts_received_ms : ℤ
  pub host_id : Text
  pub source : Text
  pub type : Text
  pub severity : Text
  pub title : Text
  pub subject : Option SubjectMessage
  pub attrs : Labels
  pub fingerprint : Text
  pub log_refs : List LogRefMessage
  pub schema : ℤ

pub record LogLineMessage : Type 0 where
  pub ts_ms : ℤ
  pub host_id : Text
  pub source : Text
  pub stream : Text
  pub unit_or_container : Text
  pub level : Text
  pub pid : ℤ
  pub message : Text

pub record InventoryItemMessage : Type 0 where
  pub id : Text
  pub name : Text
  pub attrs : Labels

pub record InventoryMessage : Type 0 where
  pub host_id : Text
  pub kind : Text
  pub reported_at_ms : ℤ
  pub schema : ℤ
  pub items : List InventoryItemMessage

pub record BatchMessage : Type 0 where
  pub batch_id : Text
  pub host_id : Text
  pub metrics : List MetricMessage
  pub events : List EventMessage
  pub log_lines : List LogLineMessage
  pub inventories : List InventoryMessage

-- the milliseconds from Go's zero time to 1 January 1970
abbrev pub unix_epoch_ms : ℕ
unix_epoch_ms = 62135596800000

-- `t.UnixMilli()`
unfoldable pub unix_milli : Time → ℤ
unix_milli t = sub_ℕ (t / 1000000) unix_epoch_ms

-- `time.UnixMilli(ms)`. An instant before Go's zero time, which the agent never sends, is that time.
unfoldable pub time_of_milli : ℤ → Time
time_of_milli ms = pos_part (ms +ℤ pos unix_epoch_ms) * 1000000

-- `int32(n)`
unfoldable pub to_int32 : ℤ → ℤ
to_int32 (pos n) = let r = n % 2 ^ 32 in if ltb r (2 ^ 31) then pos r else sub_ℕ r (2 ^ 32)
to_int32 (negsuc n) =
    let r = (n + 1) % 2 ^ 32 in if leb r (2 ^ 31) then sub_ℕ 0 r else pos (2 ^ 32 - r)
