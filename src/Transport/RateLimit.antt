-- ===== src/Transport/RateLimit.antt =====
-- internal/transport/ratelimit.go: one limiter for each host.
-- The limiter of golang.org/x/time/rate is a parameter: its state `L`, a new one, and `Allow` at an
-- instant. The mutex is held while the map is looked up; a call is taken as one step here.
use bitacora.Base.{◌≡◌, refl, Bool, Option, none, some, List, [], ◌∷◌, arith, if◌then◌else◌}
use bitacora.Base.Time.{Time}
use bitacora.Base.Text.{Text}
use bitacora.Base.Map.{lookup, insert, lookup-insert}
use bitacora.Base.Eq.{list_Eq, nat_Eq, list_beq_iff, ◌≟◌}

module _ {L : Type 0} (new_limiter : L) (limiter_allow : Time → L → L × Bool) where
  abbrev pub limiter_or_new : Option L → L
  limiter_or_new (some l) = l
  limiter_or_new none = new_limiter

  -- `Allow`, at the instant given
  pub allow : Time → Text → List (Text × L) → List (Text × L) × Bool
  allow now host_id limiters =
      let (l, allowed) = limiter_allow now (limiter_or_new (lookup host_id limiters)) in
      (insert host_id l limiters, allowed)

  -- the limiters after requests of hosts, and the answers to those of one host
  pub allow_all : Text → List (Time × Text) → List (Text × L) → List Bool
  allow_all host [] m = []
  allow_all host ((now, h) ∷ rs) m =
      let (m', allowed) = allow now h m in
      let rest = allow_all host rs m' in if h ≟ host then allowed ∷ rest else rest

  -- one limiter on its own, asked at the instants of one host's requests
  pub allow_alone : Text → List (Time × Text) → Option L → List Bool
  allow_alone host [] o = []
  allow_alone host ((now, h) ∷ rs) o =
      let (l, allowed) = limiter_allow now (limiter_or_new o) in
      let rest = allow_alone host rs (some l) in
      let skip = allow_alone host rs o in if h ≟ host then allowed ∷ rest else skip

  -- Hosts are limited independently: whatever requests of other hosts come between, the requests of
  -- one host are answered as a limiter of its own answers them.
  pub allow_all-allow_alone :
      (host : Text) (rs : List (Time × Text)) (m : List (Text × L))
      → allow_all host rs m ≡ allow_alone host rs (lookup host m)
  unfolding allow_all allow_alone allow
  allow_all-allow_alone host [] m = refl
  allow_all-allow_alone host ((now, h) ∷ rs) m = ground (
    arith,
    list_beq_iff h host,
    lookup-insert h host (limiter_allow now (limiter_or_new (lookup h m))).0 m,
    allow_all-allow_alone host rs (allow now h m).0,
  )
