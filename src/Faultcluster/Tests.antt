-- ===== src/Faultcluster/Tests.antt =====
-- Examples of internal/faultcluster: a machine of two cores, and faults on one of them.
use bitacora.Base.{◌≡◌, refl, true, List, [], ◌∷◌, replicate, ltb}
use bitacora.Base.Int.{pos, ◌-ℤ◌, ◌+ℤ◌}
use bitacora.Base.Text.{codes}
use bitacora.Base.Eq.{int_Eq}
use bitacora.Base.Numbers.{split, cut, atoi, digits_value, trim_space}
use bitacora.Faultcluster.Topology.{Topology, p_core, e_core, parse_cpu_list}
use bitacora.Faultcluster.Tracker.{Fault, new_tracker}
use bitacora.Faultcluster.Once.{Tallies, observe_all, observe_all-Tallies}

cpu_list :
    parse_cpu_list (codes "0-2, 7,x") ≡ (pos 0, tt) ∷ (pos 1, tt) ∷ (pos 2, tt) ∷ (pos 7, tt) ∷ []
unfolding parse_cpu_list split cut atoi digits_value trim_space ◌-ℤ◌ ◌+ℤ◌
cpu_list = refl

abbrev machine : Topology
machine = record {
  logical_to_core = (pos 0, pos 0) ∷ (pos 1, pos 0) ∷ (pos 2, pos 4) ∷ [];
  core_type = (pos 0, p_core) ∷ (pos 1, p_core) ∷ (pos 2, e_core) ∷ [];
  online = (pos 0, true) ∷ (pos 1, true) ∷ (pos 2, true) ∷ [];
}

abbrev faults : List Fault
faults =
    replicate 7 (record { host_id = codes "h"; comm = codes "a"; logical_cpu = pos 1; now = 9 })

observe_all-Tallies_example :
    Tallies
      (pos 0)
      faults
      (new_tracker machine)
      (observe_all (λ n k cores. ltb cores k) faults (new_tracker machine))
observe_all-Tallies_example =
    observe_all-Tallies (λ n k cores. ltb cores k) (pos 0) faults (new_tracker machine)
