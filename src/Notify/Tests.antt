-- ===== src/Notify/Tests.antt =====
-- Examples of internal/notify: two routes, of which the first reports an error.
use bitacora.Base.{ℕ, suc, Bool, true, false, none, List, [], ◌∷◌}
use bitacora.Base.Text.{Text, codes}
use bitacora.Notify.Router.{Notification, Route, Router, dispatch}
use bitacora.Notify.Dispatching.{IsDispatched, dispatch-IsDispatched}

abbrev counting : Text → Bool → List Text → Route ℕ (Unit {0})
counting name works severities = record {
  name = name;
  notify = λ n w. (suc w, works);
  severities = severities;
  labels = (codes "host_id", codes "h") ∷ [];
}

abbrev router : Router ℕ (Unit {0})
router = record {
  routes =
      counting (codes "mail") false (codes "critical" ∷ []) ∷ counting (codes "chat") true [] ∷ [];
  limiter = none;
}

abbrev notification : Notification
notification = record {
  rule_id = codes "disk";
  labels = (codes "host_id", codes "h") ∷ [];
  severity = codes "critical";
  state = [];
  value = 0;
  at = 9;
  deep_link = [];
}

dispatch-IsDispatched_example :
    let r = dispatch router notification tt 0 in
    IsDispatched router.limiter notification router.routes tt 0 r.limits r.world r.errors
dispatch-IsDispatched_example = dispatch-IsDispatched router notification tt 0
