-- ===== src/Faultcluster/Topology.antt =====
-- internal/faultcluster/topology.go: the processors of the machine.
-- A map from processors is a list of pairs; files are read by `read`.
use bitacora.Base.{
  ℕ, zero, suc, ◌+◌, Bool, true, false, ◌&&◌, Option, none, some, List, [], ◌∷◌, ◌++◌,
  if◌then◌else◌, leb,
}
use bitacora.Base.Int.{ℤ, pos, ◌+ℤ◌, ◌-ℤ◌, pos_part, leb_ℤ, ltb_ℤ}
use bitacora.Base.Text.{Text, codes}
use bitacora.Base.Map.{insert, has, get_or}
use bitacora.Base.Eq.{list_Eq, nat_Eq, int_Eq, ◌≟◌}
use bitacora.Base.Paths.{child}
use bitacora.Base.Numbers.{atoi, trim_space, split, cut}

pub data CoreType : Type 0 where
  p_core e_core unknown : CoreType

pub record Topology : Type 0 where
  pub logical_to_core : List (ℤ × ℤ)
  pub core_type : List (ℤ × CoreType)
  pub online : List (ℤ × Bool)

abbrev pub all_digits : Text → Bool
all_digits [] = true
all_digits (c ∷ s) = (leb b'0' c && leb c b'9') && all_digits s

abbrev pub digits_after : Text → Text → Option ℤ
digits_after [] [] = none
digits_after [] (c ∷ s) = if all_digits (c ∷ s) then atoi (c ∷ s) else none
digits_after (p ∷ prefix) [] = none
digits_after (p ∷ prefix) (c ∷ s) = if (p ∷ []) ≟ (c ∷ []) then digits_after prefix s else none

-- `cpu` and digits
unfoldable pub parse_cpu_dir_name : Text → Option ℤ
parse_cpu_dir_name name = digits_after (codes "cpu") name

-- the loop from `lo` on, of n steps
abbrev pub add_range : ℤ → ℕ → List (ℤ × Unit {0}) → List (ℤ × Unit {0})
add_range lo zero set = set
add_range lo (suc n) set = add_range (lo +ℤ pos 1) n (insert lo tt set)

abbrev pub add_bounds : Option ℤ → Option ℤ → List (ℤ × Unit {0}) → List (ℤ × Unit {0})
add_bounds none hi set = set
add_bounds (some lo) none set = set
add_bounds (some lo) (some hi) set =
    if ltb_ℤ hi lo then set else add_range lo (pos_part (hi -ℤ lo) + 1) set

abbrev pub add_one : Option ℤ → List (ℤ × Unit {0}) → List (ℤ × Unit {0})
add_one none set = set
add_one (some n) set = insert n tt set

abbrev pub add_cut : Text → Option (Text × Text) → List (ℤ × Unit {0}) → List (ℤ × Unit {0})
add_cut part none set = add_one (atoi part) set
add_cut part (some (lo, hi)) set = add_bounds (atoi lo) (atoi hi) set

-- a part of the list: nothing, a range or a number; what does not parse is skipped
abbrev pub add_part : Text → List (ℤ × Unit {0}) → List (ℤ × Unit {0})
add_part [] set = set
add_part (c ∷ s) set = add_cut (c ∷ s) (cut b'-' (c ∷ s)) set

abbrev pub add_parts : List Text → List (ℤ × Unit {0}) → List (ℤ × Unit {0})
add_parts [] set = set
add_parts (p ∷ ps) set = add_parts ps (add_part (trim_space p) set)

unfoldable pub parse_cpu_list : Text → List (ℤ × Unit {0})
parse_cpu_list [] = []
parse_cpu_list (c ∷ s) = add_parts (split b',' (c ∷ s)) []

module _ (read : Text → Option Text) (sys_root : Text) where
  abbrev pub cpu_root : Text
  cpu_root = child sys_root (codes "devices/system/cpu")

  abbrev pub core_from : ℤ → Option Text → ℤ
  core_from id none = id
  core_from id (some raw) = elim (atoi (trim_space raw)) [ none ↦ id | some n ↦ n ]

  abbrev pub online_from : Option Text → Bool
  online_from none = true
  online_from (some raw) = trim_space raw ≟ codes "1"

  abbrev pub add_cpu : Text → Option ℤ → Topology → Topology
  add_cpu name none t = t
  add_cpu name (some id) t =
      let dir = child cpu_root name in
      record {
        logical_to_core =
            insert id (core_from id (read (child dir (codes "topology/core_id"))))
              t.logical_to_core;
        core_type = insert id unknown t.core_type;
        online = insert id (online_from (read (child dir (codes "online")))) t.online;
      }

  abbrev pub add_cpus : List Text → Topology → Topology
  add_cpus [] t = t
  add_cpus (n ∷ ns) t = add_cpus ns (add_cpu n (parse_cpu_dir_name n) t)

  abbrev pub hybrid_cpu_set : Text → List (ℤ × Unit {0})
  hybrid_cpu_set pmu =
      elim (read (child sys_root (codes "bus/event_source/devices/" ++ (pmu ++ codes "/cpus")))) [
        | none ↦ []
        | some raw ↦ parse_cpu_list (trim_space raw)
      ]

  abbrev pub mark_type : CoreType → List (ℤ × Unit {0}) → Topology → Topology
  mark_type k [] t = t
  mark_type k ((id, _) ∷ ids) t =
      mark_type k ids
        (if has id t.logical_to_core then record t { core_type = insert id k t.core_type } else t)

  -- from the names in cpu_root, `none` if it cannot be read
  unfoldable pub read_topology : Option (List Text) → Option Topology
  unfolding parse_cpu_dir_name parse_cpu_list
  read_topology none = none
  read_topology (some names) = some (
      mark_type e_core (hybrid_cpu_set (codes "cpu_atom")) (
        mark_type p_core (hybrid_cpu_set (codes "cpu_core"))
          (add_cpus names (record { logical_to_core = []; core_type = []; online = [] }))))

-- the cores with a processor that is online
abbrev pub active_from : List (ℤ × Bool) → List (ℤ × ℤ) → List (ℤ × Unit {0}) → List (ℤ × Unit {0})
active_from online [] cores = cores
active_from online ((id, core) ∷ ms) cores =
    active_from online ms (if get_or id false online then insert core tt cores else cores)

unfoldable pub active_cores : Topology → List (ℤ × Unit {0})
active_cores t = active_from t.online t.logical_to_core []

-- in the order of sort.Ints
abbrev pub sort_int : ℤ → List ℤ → List ℤ
sort_int n [] = n ∷ []
sort_int n (m ∷ ms) = let rest = sort_int n ms in if leb_ℤ n m then n ∷ m ∷ ms else m ∷ rest

unfoldable pub offline_from : List (ℤ × Bool) → List ℤ
offline_from [] = []
offline_from ((id, on) ∷ ms) = let rest = offline_from ms in if on then rest else sort_int id rest

pub offline_cpus : Topology → List ℤ
unfolding offline_from
offline_cpus t = offline_from t.online
