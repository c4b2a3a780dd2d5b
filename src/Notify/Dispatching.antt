-- ===== src/Notify/Dispatching.antt =====
-- internal/notify/router.go: Dispatch offers the notification to exactly the routes that match.
use mathlib.Core.List.{Memᴰ}
use bitacora.Base.{
  ◌≡◌, ◌↔◌, ◌⊎◌, refl, sym, ◌∙◌, ◌++◌, append-nil, append_assoc, Bool, true, false, Option, List,
  [], ◌∷◌, arith, inl, inr, Bool-cases, All,
}
use bitacora.Base.Text.{Text}
use bitacora.Base.Labels.{Labels, label}
use bitacora.Base.Eq.{list_Eq, nat_Eq, list_beq_iff, ◌≟◌}
use bitacora.Notify.Router.{
  Notification, Route, Router, severity_found, severity_matches, labels_match, matches, RouteError,
  rate_limited, notify_failed, Dispatched, allow, notified, allowed, deliver, dispatch_routes,
  dispatch,
}

-- A route is for a notification whose severity it lists, if it lists any, and whose labels have every
-- value that it asks for.
pub record IsFor {W L : Type 0} (n : Notification) (r : Route W L) : Type 0 where
  pub severity : (r.severities ≡ []) ⊎ Memᴰ n.severity r.severities
  pub labels : All (λ p. label n.labels p.0 ≡ p.1) r.labels

found_mem : (vs : List Text) (s : Text) → severity_found vs s ≡ true → Memᴰ s vs
found_mem [] s h = cc
found_mem (v ∷ vs) s h = elim (Bool-cases (v ≟ s)) [
  | inl t ↦ Memᴰ.head (sym ((list_beq_iff v s).0 t))
  | inr t ↦ Memᴰ.tail (found_mem vs s (rw t at h))
]

mem_found : (vs : List Text) (s : Text) → Memᴰ s vs → severity_found vs s ≡ true
mem_found [] s m = elim m [ ]
mem_found (v ∷ vs) s (Memᴰ.head p) = ground (arith, list_beq_iff v s, p)
mem_found (v ∷ vs) s (Memᴰ.tail m) = ground (arith, mem_found vs s m)

severity_iff :
    (vs : List Text) (s : Text) → (severity_matches vs s ≡ true) ↔ ((vs ≡ []) ⊎ Memᴰ s vs)
severity_iff [] s = (λ h. inl refl, λ h. refl)
severity_iff (v ∷ vs) s =
    (λ h. inr (found_mem (v ∷ vs) s h), λ h. elim h [ inl e ↦ cc | inr m ↦ mem_found (v ∷ vs) s m ])

labels_iff :
    (ls given : Labels) → (labels_match ls given ≡ true) ↔ All (λ p. label given p.0 ≡ p.1) ls
labels_iff [] given = (λ h. tt, λ h. refl)
labels_iff ((k, v) ∷ ls) given =
    let i = labels_iff ls given in
    let e = list_beq_iff (label given k) v in
    (λ h. (ground (arith, e, h), i.0 (ground (arith, h))), λ h. ground (arith, e, h.0, i.1 h.1))

-- one more error in front of those of the rest
behind :
    (es : List RouteError) (e : RouteError) (added errors : List RouteError)
    → errors ≡ (es ++ e ∷ []) ++ added
    → errors ≡ es ++ e ∷ added
behind es e added errors h = h ∙ append_assoc es (e ∷ []) added

module _ {W L : Type 0} where
  matches_iff : (n : Notification) (r : Route W L) → (matches r n ≡ true) ↔ IsFor n r
  unfolding matches
  matches_iff n r =
      let s = severity_iff r.severities n.severity in
      let l = labels_iff r.labels n.labels in
      (
        λ h. record { severity = s.0 (ground (arith, h)); labels = l.0 (ground (arith, h)) },
        λ f. ground (arith, s.1 f.severity, l.1 f.labels),
      )

  not-IsFor : (n : Notification) (r : Route W L) → matches r n ≡ false → ¬ IsFor n r
  not-IsFor n r h f = ground (arith, h, (matches_iff n r).1 f)

  -- What is to be done with the routes, from a state of the limiter and a world: the state and the world
  -- after the last route, and the errors.
  pub data IsDispatched (limiter : Option (L → L × Bool)) (n : Notification)
      : List (Route W L) → L → W → L → W → List RouteError → Type 0 where
    ended : (l : L) (w : W) → IsDispatched limiter n [] l w l w []
    -- a route that is not for the notification
    passed :
        (r : Route W L) (rs : List (Route W L)) (l l' : L) (w w' : W) (es : List RouteError)
        → ¬ IsFor n r
        → IsDispatched limiter n rs l w l' w' es
        → IsDispatched limiter n (r ∷ rs) l w l' w' es
    -- one that is, refused by the limiter: its notifier is not called
    refused :
        (r : Route W L) (rs : List (Route W L)) (l l1 l' : L) (w w' : W) (es : List RouteError)
        → IsFor n r
        → allow limiter l ≡ (l1, false)
        → IsDispatched limiter n rs l1 w l' w' es
        → IsDispatched limiter n (r ∷ rs) l w l' w' (rate_limited r.name ∷ es)
    -- one whose notifier reports an error
    failed :
        (r : Route W L) (rs : List (Route W L)) (l l1 l' : L) (w w1 w' : W) (es : List RouteError)
        → IsFor n r
        → allow limiter l ≡ (l1, true)
        → r.notify n w ≡ (w1, false)
        → IsDispatched limiter n rs l1 w1 l' w' es
        → IsDispatched limiter n (r ∷ rs) l w l' w' (notify_failed r.name ∷ es)
    -- one that was notified
    sent :
        (r : Route W L) (rs : List (Route W L)) (l l1 l' : L) (w w1 w' : W) (es : List RouteError)
        → IsFor n r
        → allow limiter l ≡ (l1, true)
        → r.notify n w ≡ (w1, true)
        → IsDispatched limiter n rs l1 w1 l' w' es
        → IsDispatched limiter n (r ∷ rs) l w l' w' es

  -- the loop from a state on, with the errors that it adds
  record Goes (limiter : Option (L → L × Bool)) (n : Notification) (rs : List (Route W L))
      (d r : Dispatched W L) : Type 0 where
    added : List RouteError
    errors : r.errors ≡ d.errors ++ added
    done : IsDispatched limiter n rs d.limits d.world r.limits r.world added

  module _ (limiter : Option (L → L × Bool)) (n : Notification) (r : Route W L)
      (rs : List (Route W L))
      (rest : (d : Dispatched W L) → Goes limiter n rs d (dispatch_routes limiter n rs d)) where
    notified-Goes :
        (f : IsFor n r) (d : Dispatched W L) (l1 : L) (p : W × Bool)
        → allow limiter d.limits ≡ (l1, true)
        → r.notify n d.world ≡ p
        → Goes limiter n
            (r ∷ rs)
            d
            (dispatch_routes limiter n rs (notified r p (record d { limits = l1 })))
    notified-Goes f d l1 (w1, true) a e =
        let g = rest (record d { limits = l1; world = w1 }) in
        record {
          added = g.added;
          errors = g.errors;
          done = sent r rs _ l1 _ _ w1 _ g.added f a e g.done;
        }
    notified-Goes f d l1 (w1, false) a e =
        let g =
          rest (record {
            limits = l1;
            world = w1;
            errors = d.errors ++ (notify_failed r.name ∷ []);
          }) in
        record {
          added = notify_failed r.name ∷ g.added;
          errors = behind d.errors (notify_failed r.name) g.added _ g.errors;
          done = failed r rs _ l1 _ _ w1 _ g.added f a e g.done;
        }

    allowed-Goes :
        (f : IsFor n r) (d : Dispatched W L) (p : L × Bool)
        → allow limiter d.limits ≡ p
        → Goes limiter n (r ∷ rs) d (dispatch_routes limiter n rs (allowed r n p d))
    allowed-Goes f d (l1, true) a = notified-Goes f d l1 (r.notify n d.world) a refl
    allowed-Goes f d (l1, false) a =
        let g = rest (record d { limits = l1; errors = d.errors ++ (rate_limited r.name ∷ []) }) in
        record {
          added = rate_limited r.name ∷ g.added;
          errors = behind d.errors (rate_limited r.name) g.added _ g.errors;
          done = refused r rs _ l1 _ _ _ g.added f a g.done;
        }

  dispatch_routes-Goes :
      (limiter : Option (L → L × Bool)) (n : Notification) (rs : List (Route W L))
      (d : Dispatched W L)
      → Goes limiter n rs d (dispatch_routes limiter n rs d)
  unfolding dispatch_routes deliver
  dispatch_routes-Goes limiter n [] d = record {
    added = [];
    errors = sym (append-nil d.errors);
    done = ended d.limits d.world;
  }
  dispatch_routes-Goes limiter n (r ∷ rs) d = elim (Bool-cases (matches r n)) [
    | inl t ↦ rw t (
        allowed-Goes limiter n r rs (dispatch_routes-Goes limiter n rs) ((matches_iff n r).0 t) d
          (allow limiter d.limits) refl)
    | inr t ↦
        let g = dispatch_routes-Goes limiter n rs d in
        rw t (record {
          added = g.added;
          errors = g.errors;
          done = passed r rs _ _ _ _ g.added (not-IsFor n r t) g.done;
        })
  ]

  -- Dispatch takes the routes in order. One that is not for the notification, by its severities and
  -- labels, is passed over. For each other one the limiter is asked once: a refusal is the route's error,
  -- and after a permission its notifier is called once, in the world that the ones before left, and its
  -- failure is the route's error. The errors returned are all of these, in order, and the last route is
  -- reached whatever failed before.
  pub dispatch-IsDispatched :
      (router : Router W L) (n : Notification) (l : L) (w : W)
      → let r = dispatch router n l w in
        IsDispatched router.limiter n router.routes l w r.limits r.world r.errors
  unfolding dispatch
  dispatch-IsDispatched router n l w =
      let g =
        dispatch_routes-Goes router.limiter n router.routes
          (record { limits = l; world = w; errors = [] }) in
      rw g.errors g.done
