-- ===== src/Blackbox/Sample.antt =====
-- internal/blackbox/sample.go and encode.go: one second of metrics and its fixed-size encoding.
-- A signed number or a float is its bit pattern; an array is a list of its length. The blank fields
-- are written as zeros.
use bitacora.Base.{
  ℕ, zero, suc, ◌≡◌, refl, ap, ◌∙◌, sym, not, Option, none, some, List, [], ◌∷◌, append-nil, length,
  if◌then◌else◌, ◌==◌,
}
use bitacora.Base.Text.{Text}
use bitacora.Blackbox.Codec.{
  Layout, encode_fields, decode_fields, Fits, decode_fields-encode_fields, length-encode_fields,
  size_of,
}

abbrev pub max_cpus : ℕ
max_cpus = 64

abbrev pub max_sensors : ℕ
max_sensors = 24

abbrev pub max_block_devices : ℕ
max_block_devices = 16

pub record Sample : Type 0 where
  pub timestamp_unix_milli : ℕ
  pub num_cpus : ℕ
  pub cpu_busy_pct : List ℕ
  pub cpu_freq_mhz : List ℕ
  pub throttled_mask : ℕ
  pub num_sensors : ℕ
  pub sensor_temp_milli_c : List ℕ
  pub mem_total_kb : ℕ
  pub mem_available_kb : ℕ
  pub mem_cached_kb : ℕ
  pub mem_swap_used_kb : ℕ
  pub mem_dirty_kb : ℕ
  pub mem_writeback_kb : ℕ
  pub load_avg1 : ℕ
  pub procs_runnable : ℕ
  pub procs_blocked_d : ℕ
  pub interrupts_per_cpu : List ℕ
  pub psi_cpu_some10 : ℕ
  pub psi_mem_some10 : ℕ
  pub psi_mem_full10 : ℕ
  pub psi_io_some10 : ℕ
  pub psi_io_full10 : ℕ
  pub num_block_devices : ℕ
  pub block_queue_depth : List ℕ
  pub block_latency_us : List ℕ
  pub edac_correctable_delta : ℕ
  pub edac_uncorrectable_delta : ℕ

abbrev pub blank : List ℕ
blank = 0 ∷ 0 ∷ 0 ∷ 0 ∷ 0 ∷ 0 ∷ []

abbrev pub sample_layout : Layout
sample_layout =
    (8, 1)
    ∷ (2, 1)
    ∷ (1, 6)
    ∷ (4, max_cpus)
    ∷ (4, max_cpus)
    ∷ (8, 1)
    ∷ (2, 1)
    ∷ (1, 6)
    ∷ (4, max_sensors)
    ∷ (8, 6)
    ∷ (4, 3)
    ∷ (8, max_cpus)
    ∷ (4, 5)
    ∷ (2, 1)
    ∷ (1, 6)
    ∷ (4, max_block_devices)
    ∷ (4, max_block_devices)
    ∷ (8, 2)
    ∷ []

-- fields of one width that stand side by side are one entry
abbrev pub fields_of_sample : Sample → List (List ℕ)
fields_of_sample s =
    (s.timestamp_unix_milli ∷ [])
    ∷ (s.num_cpus ∷ [])
    ∷ blank
    ∷ s.cpu_busy_pct
    ∷ s.cpu_freq_mhz
    ∷ (s.throttled_mask ∷ [])
    ∷ (s.num_sensors ∷ [])
    ∷ blank
    ∷ s.sensor_temp_milli_c
    ∷ (s.mem_total_kb ∷ s.mem_available_kb ∷ s.mem_cached_kb ∷ s.mem_swap_used_kb ∷ s.mem_dirty_kb
        ∷ s.mem_writeback_kb ∷ [])
    ∷ (s.load_avg1 ∷ s.procs_runnable ∷ s.procs_blocked_d ∷ [])
    ∷ s.interrupts_per_cpu
    ∷ (s.psi_cpu_some10 ∷ s.psi_mem_some10 ∷ s.psi_mem_full10 ∷ s.psi_io_some10 ∷ s.psi_io_full10
        ∷ [])
    ∷ (s.num_block_devices ∷ [])
    ∷ blank
    ∷ s.block_queue_depth
    ∷ s.block_latency_us
    ∷ (s.edac_correctable_delta ∷ s.edac_uncorrectable_delta ∷ [])
    ∷ []

-- field `i` and, in it, element `j`
abbrev pub field_at : ℕ → List (List ℕ) → List ℕ
field_at i [] = []
field_at zero (f ∷ fs) = f
field_at (suc i) (f ∷ fs) = field_at i fs

abbrev pub element_at : ℕ → List ℕ → ℕ
element_at j [] = 0
element_at zero (v ∷ vs) = v
element_at (suc j) (v ∷ vs) = element_at j vs

sample_of : List (List ℕ) → Sample
sample_of fs = record {
  timestamp_unix_milli = element_at 0 (field_at 0 fs);
  num_cpus = element_at 0 (field_at 1 fs);
  cpu_busy_pct = field_at 3 fs;
  cpu_freq_mhz = field_at 4 fs;
  throttled_mask = element_at 0 (field_at 5 fs);
  num_sensors = element_at 0 (field_at 6 fs);
  sensor_temp_milli_c = field_at 8 fs;
  mem_total_kb = element_at 0 (field_at 9 fs);
  mem_available_kb = element_at 1 (field_at 9 fs);
  mem_cached_kb = element_at 2 (field_at 9 fs);
  mem_swap_used_kb = element_at 3 (field_at 9 fs);
  mem_dirty_kb = element_at 4 (field_at 9 fs);
  mem_writeback_kb = element_at 5 (field_at 9 fs);
  load_avg1 = element_at 0 (field_at 10 fs);
  procs_runnable = element_at 1 (field_at 10 fs);
  procs_blocked_d = element_at 2 (field_at 10 fs);
  interrupts_per_cpu = field_at 11 fs;
  psi_cpu_some10 = element_at 0 (field_at 12 fs);
  psi_mem_some10 = element_at 1 (field_at 12 fs);
  psi_mem_full10 = element_at 2 (field_at 12 fs);
  psi_io_some10 = element_at 3 (field_at 12 fs);
  psi_io_full10 = element_at 4 (field_at 12 fs);
  num_block_devices = element_at 0 (field_at 13 fs);
  block_queue_depth = field_at 15 fs;
  block_latency_us = field_at 16 fs;
  edac_correctable_delta = element_at 0 (field_at 17 fs);
  edac_uncorrectable_delta = element_at 1 (field_at 17 fs);
}

abbrev pub sample_encoded_size : ℕ
sample_encoded_size = 1384

pub encode_sample : Sample → Text
encode_sample s = encode_fields sample_layout (fields_of_sample s)

-- `none` is an error
pub decode_sample : Text → Option Sample
unfolding sample_of
decode_sample raw =
    if not (length raw == sample_encoded_size)
    then none
    else some (sample_of (decode_fields sample_layout raw))

-- a value of the Go struct: each number has its width, each array its length
abbrev pub IsSample : Sample → Type 0
IsSample s = Fits sample_layout (fields_of_sample s)

pub length-encode_sample :
    (s : Sample) → IsSample s → length (encode_sample s) ≡ sample_encoded_size
unfolding encode_sample size_of
length-encode_sample s h = length-encode_fields sample_layout (fields_of_sample s) h

decoded_fields :
    (s : Sample) → IsSample s → decode_fields sample_layout (encode_sample s) ≡ fields_of_sample s
unfolding encode_sample
decoded_fields s h =
    ap (decode_fields sample_layout)
      (sym (append-nil (encode_fields sample_layout (fields_of_sample s))))
    ∙ decode_fields-encode_fields sample_layout (fields_of_sample s) [] h

-- A sample that is encoded is decoded again.
pub decode_sample-encode_sample :
    (s : Sample) → IsSample s → decode_sample (encode_sample s) ≡ some s
unfolding decode_sample
decode_sample-encode_sample s h = rw (length-encode_sample s h, decoded_fields s h) refl
