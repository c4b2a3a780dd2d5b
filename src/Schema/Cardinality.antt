-- ===== src/Schema/Cardinality.antt =====
-- internal/schema/cardinality.go: the budget of active series of a host.
-- A map[string]struct{} is an association list into the unit type. Locks are left out: each method
-- holds the mutex from start to end.
pub mod Budget
use bitacora.Base.{
  ℕ, Bool, true, false, Option, none, some, List, [], ◌∷◌, ◌++◌, if◌then◌else◌, length,
}
use bitacora.Base.Int.{ℤ, pos, leb_ℤ}
use bitacora.Base.Text.{Text}
use bitacora.Base.Labels.{Labels, label}
use bitacora.Base.Map.{lookup, insert, has, get_or}
use bitacora.Base.Eq.{list_Eq, nat_Eq}
use bitacora.Base.Sorting.{sort, keys}
use bitacora.Schema.Types.{Metric}

abbrev pub max_active_series_per_host : ℤ
max_active_series_per_host = pos 2000

abbrev pub Series : Type 0
Series = List (Text × Unit {0})

pub record CardinalityTracker : Type 0 where
  pub limit : ℤ
  pub seen : List (Text × Series)

unfoldable pub new_cardinality_tracker : ℤ → CardinalityTracker
new_cardinality_tracker limit = record { limit = limit; seen = [] }

-- what the loop over the sorted keys writes
key_labels : Labels → List Text → Text
key_labels labels [] = []
key_labels labels (k ∷ ks) = 0x1f ∷ (k ++ (b'=' ∷ (label labels k ++ key_labels labels ks)))

pub series_key : Text → Labels → Text
unfolding key_labels
series_key name labels = name ++ key_labels labels (sort (keys labels))

-- Observe; the flag says whether it returned no error
unfoldable pub observe_series : Metric → CardinalityTracker → CardinalityTracker × Bool
unfolding series_key
observe_series m t =
    let key = series_key m.name m.labels in
    let host_series = get_or m.host_id [] t.seen in
    let seen = if has m.host_id t.seen then t.seen else insert m.host_id [] t.seen in
    if has key host_series
    then (record t { seen = seen }, true)
    else if leb_ℤ t.limit (pos (length host_series))
    then (record t { seen = seen }, false)
    else (record t { seen = insert m.host_id (insert key tt host_series) seen }, true)

pub count : Text → CardinalityTracker → ℕ
count host_id t = length (get_or host_id [] t.seen)
