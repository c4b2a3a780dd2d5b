-- ===== src/Schema/Tests.antt =====
-- The theorems on the budget of series at concrete metrics.
use bitacora.Base.{◌≤◌, List, [], ◌∷◌}
use bitacora.Base.Int.{pos}
use bitacora.Base.Text.{Text, codes}
use bitacora.Schema.Types.{Metric}
use bitacora.Schema.Cardinality.{new_cardinality_tracker, count}
use bitacora.Schema.Cardinality.Budget.{observe_all_series, count_bounded}

abbrev a_metric : Text → Text → Metric
a_metric host name = record { name = name; host_id = host; labels = []; value = 0; timestamp = 1 }

abbrev metrics : List Metric
metrics =
    a_metric (codes "h") (codes "a")
    ∷ a_metric (codes "h") (codes "b")
    ∷ a_metric (codes "hg") (codes "a")
    ∷ []

count_bounded_example :
    count (codes "h") (observe_all_series metrics (new_cardinality_tracker (pos 1))) ≤ 1
count_bounded_example = count_bounded (pos 1) (codes "h") metrics
