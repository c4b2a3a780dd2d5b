-- ===== src/Alerting/Silence.antt =====
-- internal/alerting/silence.go: silences, each with an end, and the store that holds them.
-- The identifier of a new silence comes from the ULID library and is an argument here. Locks are
-- left out: each method holds the store's mutex from start to end.
use Prim.Native.Nat.{max}
use mathlib.Core.List.{Memᴰ}
use bitacora.Base.{
  ◌<◌, ◌≤◌, ◌≡◌, ◌≢◌, ◌↔◌, All, refl, Bool, true, false, not, ◌&&◌, List, [], ◌∷◌, arith,
  if◌then◌else◌, map, filter, length, ◌==◌, Bool-cases, inl, inr,
}
use bitacora.Base.Time.{Time, is_zero, after, before}
use bitacora.Base.Text.{Text}
use bitacora.Base.Labels.{Labels, label}
use bitacora.Base.Map.{insert, delete}
use bitacora.Base.Eq.{list_Eq, nat_Eq, list_beq_iff, ◌≟◌}

pub record Silence : Type 0 where
  pub id : Text
  pub matchers : Labels
  pub starts_at : Time
  pub ends_at : Time
  pub created_by : Text
  pub comment : Text

-- the two errors of NewSilence
pub data SilenceError : Type 0 where
  no_end end_not_after_start : SilenceError

pub data NewSilence : Type 0 where
  ok : Silence → NewSilence
  err : SilenceError → NewSilence

unfoldable pub new_silence : Text → Labels → Time → Time → Text → Text → NewSilence
new_silence id matchers starts_at ends_at created_by comment =
    if is_zero ends_at
    then err no_end
    else if not (after ends_at starts_at)
    then err end_not_after_start
    else ok (record {
      id = id;
      matchers = matchers;
      starts_at = starts_at;
      ends_at = ends_at;
      created_by = created_by;
      comment = comment;
    })

is_active : Time → Silence → Bool
is_active t s = not (before t s.starts_at) && before t s.ends_at

-- the loop of Matches
all_present : Labels → Labels → Bool
all_present [] labels = true
all_present ((k, v) ∷ matchers) labels =
    let rest = all_present matchers labels in if not (label labels k ≟ v) then false else rest

pub matches : Silence → Labels → Bool
unfolding all_present
matches s labels = if length s.matchers == 0 then false else all_present s.matchers labels

abbrev pub SilenceStore : Type 0
SilenceStore = List (Text × Silence)

unfoldable pub add : Silence → SilenceStore → SilenceStore
add s store = insert s.id s store

unfoldable pub remove : Text → SilenceStore → SilenceStore
remove id store = delete id store

pub silenced : Time → Labels → SilenceStore → Bool
unfolding is_active matches
silenced t labels [] = false
silenced t labels ((id, s) ∷ store) =
    let rest = silenced t labels store in if is_active t s && matches s labels then true else rest

unfoldable pub active : Time → SilenceStore → List Silence
unfolding is_active
active t store = filter (is_active t) (map (λ e. e.1) store)

-- an entry of the store has begun, has not ended, has a matcher, and all its matchers are in the labels
abbrev pub Covers : Time → Labels → Text × Silence → Type 0
Covers t labels e =
    (e.1.starts_at ≤ t)
    × (t < e.1.ends_at)
    × (e.1.matchers ≢ [])
    × All (λ p. label labels p.0 ≡ p.1) e.1.matchers

all_present_iff :
    (ms labels : Labels) → (all_present ms labels ≡ true) ↔ All (λ p. label labels p.0 ≡ p.1) ms
unfolding all_present
all_present_iff [] labels = (λ h. tt, λ h. refl)
all_present_iff ((k, v) ∷ ms) labels =
    let i = all_present_iff ms labels in
    let e = list_beq_iff (label labels k) v in
    (λ h. (ground (arith, e, h), i.0 (ground (arith, h))), λ h. ground (arith, e, h.0, i.1 h.1))

matches_iff :
    (ms labels : Labels)
    → ((if length ms == 0 then false else all_present ms labels) ≡ true)
      ↔ ((ms ≢ []) × All (λ p. label labels p.0 ≡ p.1) ms)
matches_iff [] labels = (λ h. cc, λ h. absurd (h.0 refl))
matches_iff (m ∷ ms) labels =
    let i = all_present_iff (m ∷ ms) labels in
    (λ h. (λ e. cc, i.0 (ground (arith, h))), λ h. ground (arith, i.1 h.1))

Covers-iff :
    (t : Time) (labels : Labels) (e : Text × Silence)
    → ((is_active t e.1 && matches e.1 labels) ≡ true) ↔ Covers t labels e
unfolding is_active matches
Covers-iff t labels e =
    let i = matches_iff e.1.matchers labels in
    (
      λ h. let m = i.0 (ground (arith, h)) in (ground (arith, h), ground (arith, h), m.0, m.1),
      λ c. ground (arith, c.0, c.1, i.1 (c.2, c.3)),
    )

silenced_of_mem :
    (t : Time) (labels : Labels) (store : SilenceStore) (e : Text × Silence)
    → Memᴰ e store
    → Covers t labels e
    → silenced t labels store ≡ true
unfolding silenced
silenced_of_mem t labels [] e m c = elim m [ ]
silenced_of_mem t labels (x ∷ store) e (Memᴰ.head p) c = ground (arith, (Covers-iff t labels e).1 c)
silenced_of_mem t labels (x ∷ store) e (Memᴰ.tail m) c =
    ground (arith, silenced_of_mem t labels store e m c)

mem_of_silenced :
    (t : Time) (labels : Labels) (store : SilenceStore)
    → silenced t labels store ≡ true
    → (e : Text × Silence) × Memᴰ e store × Covers t labels e
unfolding silenced
mem_of_silenced t labels [] h = cc
mem_of_silenced t labels (x ∷ store) h = elim (Bool-cases (is_active t x.1 && matches x.1 labels)) [
  | inl here ↦ (x, Memᴰ.head refl, (Covers-iff t labels x).0 here)
  | inr there ↦ let (e, m, c) = mem_of_silenced t labels store (ground arith) in (e, Memᴰ.tail m, c)
]

-- a label set is silenced at `t` exactly if some silence of the store has started, has not ended
-- and matches it, with at least one matcher
pub silenced_iff :
    (t : Time) (labels : Labels) (store : SilenceStore)
    → (silenced t labels store ≡ true) ↔ ((e : Text × Silence) × Memᴰ e store × Covers t labels e)
silenced_iff t labels store =
    (mem_of_silenced t labels store, λ (e, m, c). silenced_of_mem t labels store e m c)

abbrev pub last_end : SilenceStore → Time
last_end [] = 0
last_end ((id, s) ∷ store) = max s.ends_at (last_end store)

-- no store of silences is open-ended: from its last end on, no label set is silenced
pub silenced_expires :
    (t : Time) (labels : Labels) (store : SilenceStore)
    → last_end store ≤ t
    → silenced t labels store ≡ false
unfolding silenced is_active
silenced_expires t labels [] h = refl
silenced_expires t labels ((id, s) ∷ store) h =
    ground (arith, silenced_expires t labels store (omega arith))
