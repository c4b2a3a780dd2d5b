-- ===== src/Metricstore/Buckets.antt =====
-- internal/metricstore/downsample.go: the buckets are written in increasing order, each once.
use bitacora.Base.{ℕ, ◌+◌, ◌≡◌, Bool, true, false, List, [], ◌∷◌, map, if◌then◌else◌}
use bitacora.Base.Text.{Text, codes}
use bitacora.Base.Labels.{label}
use bitacora.Wire.Messages.{time_of_milli}
use bitacora.Base.Float.{Float64}
use bitacora.Base.Map.{get_or}
use bitacora.Base.Eq.{list_Eq, nat_Eq, int_Eq, pair_Eq, ◌≟◌}
use bitacora.Metricstore.Downsample.{Sample, BucketKey, bucket_key, labels_by_key, extra_labels}
use bitacora.Schema.Types.{Metric}
use bitacora.Metricstore.Ordering.{IsIncreasing}

-- the values of a bucket's samples, in the order of the samples
abbrev pub values_in : ℕ → BucketKey → List Sample → List Float64
values_in width k [] = []
values_in width k (s ∷ ss) =
    let rest = values_in width k ss in if bucket_key width s ≟ k then s.value ∷ rest else rest

-- some sample is in the bucket
abbrev pub is_hit : ℕ → BucketKey → List Sample → Bool
is_hit width k [] = false
is_hit width k (s ∷ ss) =
    let rest = is_hit width k ss in if bucket_key width s ≟ k then true else rest

-- a key stands in the list
abbrev pub is_in : BucketKey → List BucketKey → Bool
is_in k [] = false
is_in k (j ∷ js) = let rest = is_in k js in if j ≟ k then true else rest

module _ (add : Float64 → Float64 → Float64) (mean : Float64 → ℕ → Float64) where
  -- a sum and a count that go on with the values
  abbrev pub total : Float64 × ℕ → List Float64 → Float64 × ℕ
  total p [] = p
  total p (v ∷ vs) = total (add p.0 v, p.1 + 1) vs

  -- the metric of a bucket: the mean of its samples' values, under the labels of its series, at its start
  abbrev pub bucket_metric : Text → ℕ → List Sample → BucketKey → Metric
  bucket_metric name width ss k =
      let ls = get_or k.0 [] (labels_by_key add mean ss []) in
      let sum = total (0, 0) (values_in width k ss) in
      record {
        name = name;
        host_id = label ls (codes "host_id");
        labels = extra_labels add mean ls;
        value = mean sum.0 sum.1;
        timestamp = time_of_milli k.1;
      }

  -- What is written: the metric of each bucket that has a sample, of no other, the keys increasing.
  pub record AreBuckets (name : Text) (width : ℕ) (ss : List Sample) (ms : List Metric)
      : Type 0 where
    pub bucket_keys : List BucketKey
    pub written : ms ≡ map (bucket_metric name width ss) bucket_keys
    pub increasing : IsIncreasing bucket_keys
    pub complete : (k : BucketKey) → is_in k bucket_keys ≡ is_hit width k ss
