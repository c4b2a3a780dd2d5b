-- ===== src/Notify/Router.antt =====
-- internal/notify/{router,notify}.go: the routes and Dispatch.
-- The limiter of golang.org/x/time is what its Allow answers, a Notifier what its Notify does to the outside
-- world; `true` is that it reports no error.
use bitacora.Base.{Bool, true, false, ◌&&◌, Option, none, some, List, [], ◌∷◌, ◌++◌, if◌then◌else◌}
use bitacora.Base.Time.{Time}
use bitacora.Base.Text.{Text}
use bitacora.Base.Float.{Float64}
use bitacora.Base.Labels.{Labels, label}
use bitacora.Base.Eq.{list_Eq, nat_Eq, ◌≟◌}

pub record Notification : Type 0 where
  pub rule_id : Text
  pub labels : Labels
  pub severity : Text
  pub state : Text
  pub value : Float64
  pub at : Time
  pub deep_link : Text

module _ (W L : Type 0) where
  pub record Route : Type 0 where
    pub name : Text
    pub notify : Notification → W → W × Bool
    pub severities : List Text
    pub labels : Labels

  pub record Router : Type 0 where
    pub routes : List Route
    pub limiter : Option (L → L × Bool)

abbrev pub severity_found : List Text → Text → Bool
severity_found [] s = false
severity_found (v ∷ vs) s = let rest = severity_found vs s in if v ≟ s then true else rest

-- no severities are every severity
abbrev pub severity_matches : List Text → Text → Bool
severity_matches [] s = true
severity_matches (v ∷ vs) s = severity_found (v ∷ vs) s

abbrev pub labels_match : Labels → Labels → Bool
labels_match [] given = true
labels_match ((k, v) ∷ ls) given =
    let rest = labels_match ls given in if label given k ≟ v then rest else false

pub data RouteError : Type 0 where
  rate_limited notify_failed : Text → RouteError

-- the state of the limiter, the world, and the errors so far
pub record Dispatched (W L : Type 0) : Type 0 where
  pub limits : L
  pub world : W
  pub errors : List RouteError

abbrev pub allow : {L : Type 0} → Option (L → L × Bool) → L → L × Bool
allow none l = (l, true)
allow (some limiter) l = limiter l

module _ {W L : Type 0} where
  unfoldable pub matches : Route W L → Notification → Bool
  matches r n = severity_matches r.severities n.severity && labels_match r.labels n.labels

  abbrev pub notified : Route W L → W × Bool → Dispatched W L → Dispatched W L
  notified r (w, true) d = record d { world = w }
  notified r (w, false) d = record d { world = w; errors = d.errors ++ (notify_failed r.name ∷ []) }

  abbrev pub allowed : Route W L → Notification → L × Bool → Dispatched W L → Dispatched W L
  allowed r n (l, true) d = notified r (r.notify n d.world) (record d { limits = l })
  allowed r n (l, false) d = record d {
    limits = l;
    errors = d.errors ++ (rate_limited r.name ∷ []);
  }

  -- a route that matches
  unfoldable pub deliver :
      Option (L → L × Bool) → Notification → Route W L → Dispatched W L → Dispatched W L
  deliver limiter n r d = allowed r n (allow limiter d.limits) d

  unfoldable pub dispatch_routes :
      Option (L → L × Bool) → Notification → List (Route W L) → Dispatched W L → Dispatched W L
  unfolding deliver matches
  dispatch_routes limiter n [] d = d
  dispatch_routes limiter n (r ∷ rs) d =
      dispatch_routes limiter n rs (if matches r n then deliver limiter n r d else d)

  unfoldable pub dispatch : Router W L → Notification → L → W → Dispatched W L
  unfolding dispatch_routes
  dispatch router n l w =
      dispatch_routes router.limiter n router.routes (record { limits = l; world = w; errors = [] })
