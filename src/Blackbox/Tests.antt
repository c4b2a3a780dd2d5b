-- ===== src/Blackbox/Tests.antt =====
-- The ring's theorem on small samples.
use bitacora.Base.{ℕ, zero, suc, ◌<◌, ◌≡◌, refl, List, [], ◌∷◌, ◌^◌, arith, replicate, All}
use bitacora.Blackbox.Codec.{byte_bound}
use bitacora.Blackbox.Sample.{Sample, IsSample}
use bitacora.Blackbox.Recorder.{open_recorder, record_all}
use bitacora.Blackbox.Reader.{dump, ok}
use bitacora.Blackbox.Ring.Opening.{dump-record_all}

abbrev sample_at : ℕ → Sample
sample_at ms = record {
  timestamp_unix_milli = ms;
  num_cpus = 4;
  cpu_busy_pct = replicate 64 0;
  cpu_freq_mhz = replicate 64 0;
  throttled_mask = 0;
  num_sensors = 0;
  sensor_temp_milli_c = replicate 24 0;
  mem_total_kb = 0;
  mem_available_kb = 0;
  mem_cached_kb = 0;
  mem_swap_used_kb = 0;
  mem_dirty_kb = 0;
  mem_writeback_kb = 0;
  load_avg1 = 0;
  procs_runnable = 0;
  procs_blocked_d = 0;
  interrupts_per_cpu = replicate 64 0;
  psi_cpu_some10 = 0;
  psi_mem_some10 = 0;
  psi_mem_full10 = 0;
  psi_io_some10 = 0;
  psi_io_full10 = 0;
  num_block_devices = 0;
  block_queue_depth = replicate 16 0;
  block_latency_us = replicate 16 0;
  edac_correctable_delta = 0;
  edac_uncorrectable_delta = 0;
}

byte_bound_pos : (w : ℕ) → 0 < byte_bound w
byte_bound_pos zero = omega arith
byte_bound_pos (suc w) = omega (arith, byte_bound_pos w)

All-replicate : (w n : ℕ) → All (λ v. v < byte_bound w) (replicate n 0)
All-replicate w zero = tt
All-replicate w (suc n) = (byte_bound_pos w, All-replicate w n)

sample_at-IsSample : (ms : ℕ) → ms < 2 ^ 64 → IsSample (sample_at ms)
sample_at-IsSample ms h = (
  refl,
  (h, tt),
  (
    refl,
    (omega arith, tt),
    (
      refl,
      All-replicate 1 6,
      (
        refl,
        All-replicate 4 64,
        (
          refl,
          All-replicate 4 64,
          (
            refl,
            All-replicate 8 1,
            (
              refl,
              All-replicate 2 1,
              (
                refl,
                All-replicate 1 6,
                (
                  refl,
                  All-replicate 4 24,
                  (
                    refl,
                    All-replicate 8 6,
                    (
                      refl,
                      All-replicate 4 3,
                      (
                        refl,
                        All-replicate 8 64,
                        (
                          refl,
                          All-replicate 4 5,
                          (
                            refl,
                            All-replicate 2 1,
                            (
                              refl,
                              All-replicate 1 6,
                              (
                                refl,
                                All-replicate 4 16,
                                (refl, All-replicate 4 16, (refl, All-replicate 8 2, tt)),
                              ),
                            ),
                          ),
                        ),
                      ),
                    ),
                  ),
                ),
              ),
            ),
          ),
        ),
      ),
    ),
  ),
)

abbrev early : List Sample
early = sample_at 1 ∷ sample_at 2 ∷ []

abbrev late : List Sample
late = sample_at 3 ∷ []

dump-record_all_example :
    dump (record_all late (open_recorder 2 (record_all early (open_recorder 2 [])).region)).region
    ≡ ok (sample_at 2 ∷ sample_at 3 ∷ [])
dump-record_all_example =
    dump-record_all 2 early late (omega arith) (omega arith) (omega arith)
      (sample_at-IsSample 1 (omega arith), (sample_at-IsSample 2 (omega arith), tt))
      (sample_at-IsSample 3 (omega arith), tt)
