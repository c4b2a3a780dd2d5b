-- ===== src/Metricstore/Tests.antt =====
-- Examples of internal/metricstore: three samples in two buckets of a minute.
use bitacora.Base.{List, [], ◌∷◌}
use bitacora.Base.Text.{codes}
use bitacora.Base.Time.{Time}
use bitacora.Metricstore.Downsample.{Sample}

abbrev a_sample : Time → Sample
a_sample t = record { labels = (codes "host_id", codes "h") ∷ []; timestamp = t; value = 1 }

abbrev samples : List Sample
samples = a_sample 60000000001 ∷ a_sample 5 ∷ a_sample 60000000007 ∷ []
