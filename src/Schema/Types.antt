-- ===== src/Schema/Types.antt =====
-- internal/schema/{schema,metric,event,logline,inventory}.go: the records.
use bitacora.Base.{List}
use bitacora.Base.Int.{ℤ}
use bitacora.Base.Time.{Time}
use bitacora.Base.Text.{Text}
use bitacora.Base.Labels.{Labels}
use bitacora.Base.Float.{Float64}

pub record Metric : Type 0 where
  pub name : Text
  pub host_id : Text
  pub labels : Labels
  pub value : Float64
  pub timestamp : Time

pub record LogLine : Type 0 where
  pub ts : Time
  pub host_id : Text
  pub source : Text
  pub stream : Text
  pub unit_or_container : Text
  pub level : Text
  pub pid : ℤ
  pub message : Text

pub record EventSubject : Type 0 where
  pub kind : Text
  pub name : Text
  pub pid : ℤ

pub record LogRef : Type 0 where
  pub block_id : Text
  pub line : ℤ

pub record Event : Type 0 where
  pub id : Text
  pub ts : Time
  pub ts_received : Time
  pub host_id : Text
  pub source : Text
  pub type : Text
  pub severity : Text
  pub title : Text
  pub subject : EventSubject
  pub attrs : Labels
  pub fingerprint : Text
  pub log_refs : List LogRef
  pub schema : ℤ

pub record InventoryItem : Type 0 where
  pub id : Text
  pub name : Text
  pub attrs : Labels

pub record Inventory : Type 0 where
  pub host_id : Text
  pub kind : Text
  pub reported_at : Time
  pub schema : ℤ
  pub items : List InventoryItem
