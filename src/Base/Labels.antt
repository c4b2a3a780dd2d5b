-- ===== src/Base/Labels.antt =====
-- schema.Labels and the other `map[string]string`.
use bitacora.Base.{List, []}
use bitacora.Base.Text.{Text}
use bitacora.Base.Map.{get_or}
use bitacora.Base.Eq.{list_Eq, nat_Eq}

abbrev pub Labels : Type 0
Labels = List (Text × Text)

-- `labels[k]`, the empty string where there is no such key
abbrev pub label : Labels → Text → Text
label m k = get_or k [] m
