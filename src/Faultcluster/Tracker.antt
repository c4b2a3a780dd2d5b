-- ===== src/Faultcluster/Tracker.antt =====
-- internal/faultcluster/tracker.go: the faults counted by physical core.
-- `is_significant n k cores` is the outcome of the floating-point test, upperTailPValue(n, k, 1/cores) below
-- MaxPValue, and `p_text` the p-value as it is printed. Counts are below 2 ^ 63.
use bitacora.Base.{
  ℕ, ◌+◌, Bool, true, false, ◌||◌, Option, none, some, List, [], ◌∷◌, ◌++◌, if◌then◌else◌, ltb,
  ◌==◌, length,
}
use bitacora.Base.Int.{ℤ, pos}
use bitacora.Base.Time.{Time}
use bitacora.Base.Text.{Text, codes}
use bitacora.Base.Map.{lookup, insert, has, get_or}
use bitacora.Base.Eq.{int_Eq, list_Eq, nat_Eq}
use bitacora.Base.Numbers.{show_int}
use bitacora.Schema.Types.{Event}
use bitacora.Faultcluster.Topology.{Topology, CoreType, p_core, e_core, unknown, active_cores}

abbrev pub min_samples : ℕ
min_samples = 5

pub record Tracker : Type 0 where
  pub topo : Topology
  pub count_by_core : List (ℤ × ℕ)
  pub total : ℕ
  pub flagged : List (ℤ × Unit {0})

pub new_tracker : Topology → Tracker
new_tracker topo = record { topo = topo; count_by_core = []; total = 0; flagged = [] }

pub record Fault : Type 0 where
  pub host_id : Text
  pub comm : Text
  pub logical_cpu : ℤ
  pub now : Time

-- what buildEvent is given
pub record Cluster : Type 0 where
  pub fault : Fault
  pub core_id : ℤ
  pub core_type : CoreType
  pub k : ℕ
  pub n : ℕ

module _ (is_significant : ℕ → ℕ → ℕ → Bool) where
  abbrev pub counted : ℤ → Tracker → Tracker
  counted core t = record t {
    count_by_core = insert core (get_or core 0 t.count_by_core + 1) t.count_by_core;
    total = t.total + 1;
  }

  abbrev pub cluster_of : Fault → ℤ → Tracker → Cluster
  cluster_of f core t = record {
    fault = f;
    core_id = core;
    core_type = get_or f.logical_cpu unknown t.topo.core_type;
    k = get_or core 0 t.count_by_core + 1;
    n = t.total + 1;
  }

  -- the tests before an event: not flagged, enough samples, a core that is online, and the p-value
  abbrev pub is_cluster : ℤ → Tracker → Bool
  is_cluster core t =
      let k = get_or core 0 t.count_by_core + 1 in
      let cores = length (active_cores t.topo) in
      if has core t.flagged || ltb k min_samples
      then false
      else if cores == 0
      then false
      else is_significant (t.total + 1) k cores

  abbrev pub observe_if : Fault → ℤ → Tracker → Bool → Tracker × Option Cluster
  observe_if f core t false = (counted core t, none)
  observe_if f core t true =
      (record (counted core t) { flagged = insert core tt t.flagged }, some (cluster_of f core t))

  abbrev pub observe_on : Fault → Tracker → Option ℤ → Tracker × Option Cluster
  observe_on f t none = (t, none)
  observe_on f t (some core) = observe_if f core t (is_cluster core t)

  unfoldable pub observe : Fault → Tracker → Tracker × Option Cluster
  observe f t = observe_on f t (lookup f.logical_cpu t.topo.logical_to_core)

abbrev pub core_type_text : CoreType → Text
core_type_text p_core = codes "p-core"
core_type_text e_core = codes "e-core"
core_type_text unknown = codes "unknown"

-- buildEvent; the ULID and the printed p-value are arguments. A processor that is not in the topology
-- has no type, but Observe has ended before for one.
pub build_event : Text → Text → Cluster → Event
build_event id p_text c = record {
  id = id;
  ts = c.fault.now;
  ts_received = 0;
  host_id = c.fault.host_id;
  source = codes "faultcluster";
  type = codes "hw.cpu_fault_cluster";
  severity = codes "warn";
  title =
      show_int (pos c.k)
      ++ (codes " of "
          ++ (show_int (pos c.n)
              ++ (codes " segfaults clustered on physical core " ++ show_int c.core_id)));
  subject = record { kind = codes "cpu_core"; name = show_int c.core_id; pid = pos 0 };
  attrs =
      (codes "comm", c.fault.comm)
      ∷ (codes "core_id", show_int c.core_id)
      ∷ (codes "cpu", show_int c.fault.logical_cpu)
      ∷ (codes "fault_count", show_int (pos c.k))
      ∷ (codes "total_faults", show_int (pos c.n))
      ∷ (codes "p_value", p_text)
      ∷ (codes "core_type", core_type_text c.core_type)
      ∷ [];
  fingerprint = [];
  log_refs = [];
  schema = pos 1;
}
