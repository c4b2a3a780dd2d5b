-- ===== src/Metricstore/Downsample.antt =====
-- internal/metricstore/downsample.go: Downsample.
-- The source's Query is what it returns, the destination's Append a function of its state; sums and means of
-- floating-point numbers are `add` and `mean`.
use bitacora.Base.{
  ℕ, suc, ◌+◌, ◌-◌, ◌%◌, Bool, true, false, ◌||◌, map, Option, none, some, List, [], ◌∷◌, ◌++◌,
  if◌then◌else◌,
}
use bitacora.Base.Int.{ℤ, ltb_ℤ}
use bitacora.Base.Time.{Time}
use bitacora.Base.Text.{Text, codes, text_ltb}
use bitacora.Base.Float.{Float64}
use bitacora.Base.Labels.{Labels, label}
use bitacora.Base.Map.{insert, get_or}
use bitacora.Base.Eq.{list_Eq, nat_Eq, int_Eq, pair_Eq, ◌≟◌}
use bitacora.Base.Sorting.{sort, keys}
use bitacora.Wire.Messages.{unix_milli, time_of_milli}
use bitacora.Schema.Types.{Metric}

pub data Resolution : Type 0 where
  raw minute five_minutes : Resolution

-- BucketWidth, in nanoseconds
abbrev pub bucket_width : Resolution → Option ℕ
bucket_width raw = none
bucket_width minute = some 60000000000
bucket_width five_minutes = some 300000000000

pub record Sample : Type 0 where
  pub labels : Labels
  pub timestamp : Time
  pub value : Float64

abbrev pub key_bytes : Labels → List Text → Text
key_bytes ls [] = []
key_bytes ls (k ∷ ks) = k ++ (b'=' ∷ (label ls k ++ (b';' ∷ key_bytes ls ks)))

unfoldable pub series_label_key : Labels → Text
series_label_key ls = key_bytes ls (sort (keys ls))

-- the series' key and the start of the bucket in milliseconds
abbrev pub BucketKey : Type 0
BucketKey = Text × ℤ

unfoldable pub bucket_key : ℕ → Sample → BucketKey
unfolding series_label_key
bucket_key width s = (series_label_key s.labels, unix_milli (s.timestamp - s.timestamp % width))

-- the order of the buckets
abbrev pub key_ltb : BucketKey → BucketKey → Bool
key_ltb a b = if a.0 ≟ b.0 then ltb_ℤ a.1 b.1 else text_ltb a.0 b.0

abbrev pub sort_key : BucketKey → List BucketKey → List BucketKey
sort_key k [] = k ∷ []
sort_key k (j ∷ js) = let rest = sort_key k js in if key_ltb k j then k ∷ j ∷ js else j ∷ rest

abbrev pub sort_keys : List BucketKey → List BucketKey
sort_keys [] = []
sort_keys (k ∷ ks) = sort_key k (sort_keys ks)

-- sums and counts by bucket
abbrev pub Sums : Type 0
Sums = List (BucketKey × (Float64 × ℕ))

module _ (add : Float64 → Float64 → Float64) (mean : Float64 → ℕ → Float64) where
  unfoldable pub gather_sample : ℕ → Sample → Sums → Sums
  unfolding bucket_key
  gather_sample width s sums =
      let k = bucket_key width s in
      let old = get_or k (0, 0) sums in insert k (add old.0 s.value, old.1 + 1) sums

  unfoldable pub gather_samples : ℕ → List Sample → Sums → Sums
  unfolding gather_sample
  gather_samples width [] sums = sums
  gather_samples width (s ∷ ss) sums = gather_samples width ss (gather_sample width s sums)

  -- the labels of a series by its key, the last sample's
  abbrev pub labels_by_key : List Sample → List (Text × Labels) → List (Text × Labels)
  labels_by_key [] m = m
  labels_by_key (s ∷ ss) m = labels_by_key ss (insert (series_label_key s.labels) s.labels m)

  -- without `host_id` and `__name__`
  abbrev pub extra_labels : Labels → Labels
  extra_labels [] = []
  extra_labels ((k, v) ∷ ls) =
      let rest = extra_labels ls in
      if (k ≟ codes "host_id") || (k ≟ codes "__name__") then rest else (k, v) ∷ rest

  unfoldable pub metric_of : Text → List (Text × Labels) → Sums → BucketKey → Metric
  metric_of name by_key sums k =
      let ls = get_or k.0 [] by_key in
      let sum = get_or k (0, 0) sums in
      record {
        name = name;
        host_id = label ls (codes "host_id");
        labels = extra_labels ls;
        value = mean sum.0 sum.1;
        timestamp = time_of_milli k.1;
      }

  -- the metrics of the buckets, in the order they are written
  unfoldable pub bucket_metrics : Text → ℕ → List Sample → List Metric
  unfolding metric_of gather_samples
  bucket_metrics name width samples =
      let sums = gather_samples width samples [] in
      map (metric_of name (labels_by_key samples []) sums) (sort_keys (map (λ e. e.0) sums))

  -- the loop that appends: how many were written, and whether it came to the end
  unfoldable pub append_metrics :
      {S : Type 0} → (Metric → S → S × Bool) → List Metric → S → S × ℕ × Bool
  append_metrics write [] s = (s, 0, true)
  append_metrics write (m ∷ ms) s =
      let w = write m s in
      let rest = append_metrics write ms w.0 in
      if w.1 then (rest.0, suc rest.1, rest.2) else (w.0, 0, false)

  abbrev pub downsample_into :
      {S : Type 0}
      → (Metric → S → S × Bool)
      → Text
      → Option ℕ
      → Option (List Sample)
      → S
      → S × ℕ × Bool
  downsample_into write name none samples s = (s, 0, false)
  downsample_into write name (some width) none s = (s, 0, false)
  downsample_into write name (some width) (some samples) s =
      append_metrics write (bucket_metrics name width samples) s

  -- `samples` is what Query returns, `none` for an error
  pub downsample :
      {S : Type 0}
      → (Metric → S → S × Bool)
      → Resolution
      → Text
      → Option (List Sample)
      → S
      → S × ℕ × Bool
  unfolding append_metrics bucket_metrics
  downsample write resolution name samples s =
      downsample_into write name (bucket_width resolution) samples s
