-- ===== src/Schema/Cardinality/Budget.antt =====
-- No host gets past its budget, and hosts do not take from one another.
use bitacora.Base.{
  ◌≤◌, ◌≡◌, refl, ◌∙◌, Bool, true, false, List, [], ◌∷◌, if◌then◌else◌, length, arith,
}
use bitacora.Base.Int.{ℤ, pos, leb_ℤ, pos_part}
use bitacora.Base.Text.{Text}
use bitacora.Base.Map.{insert, has, get_or, lookup-insert, length-insert}
use bitacora.Base.Eq.{list_Eq, nat_Eq, list_beq_iff, ◌≟◌}
use bitacora.Schema.Types.{Metric}
use bitacora.Schema.Cardinality.{
  CardinalityTracker, Series, new_cardinality_tracker, observe_series, count, series_key,
}

pub observe_all_series : List Metric → CardinalityTracker → CardinalityTracker
observe_all_series [] t = t
observe_all_series (m ∷ ms) t = observe_all_series ms (observe_series m t).0

-- the series of a host after one observation
series_after : Text → Metric → CardinalityTracker → Series
series_after h m t =
    let old = get_or h [] t.seen in
    let key = series_key m.name m.labels in
    let grown = if leb_ℤ t.limit (pos (length old)) then old else insert key tt old in
    let same = if has key old then old else grown in if m.host_id ≟ h then same else old

lookup-observe_series :
    (h : Text) (m : Metric) (t : CardinalityTracker)
    → get_or h [] (observe_series m t).0.seen ≡ series_after h m t
unfolding observe_series series_after
lookup-observe_series h m t = ground (
  arith,
  list_beq_iff m.host_id h,
  lookup-insert m.host_id h [] t.seen,
  lookup-insert m.host_id h (insert (series_key m.name m.labels) tt (get_or m.host_id [] t.seen))
      t.seen,
  lookup-insert m.host_id h (insert (series_key m.name m.labels) tt (get_or m.host_id [] t.seen))
      (insert m.host_id [] t.seen),
)

observe_series-limit :
    (m : Metric) (t : CardinalityTracker) → (observe_series m t).0.limit ≡ t.limit
unfolding observe_series
observe_series-limit m t = ground arith

series_after_bounded :
    (h : Text) (m : Metric) (t : CardinalityTracker)
    → length (get_or h [] t.seen) ≤ pos_part t.limit
    → length (series_after h m t) ≤ pos_part t.limit
unfolding series_after
series_after_bounded h m t b =
    ground (arith, length-insert (series_key m.name m.labels) tt (get_or h [] t.seen))

observe_all_series_bounded :
    (h : Text) (l : ℤ) (ms : List Metric) (t : CardinalityTracker)
    → t.limit ≡ l
    → length (get_or h [] t.seen) ≤ pos_part l
    → length (get_or h [] (observe_all_series ms t).seen) ≤ pos_part l
unfolding observe_all_series
observe_all_series_bounded h l [] t e b = b
observe_all_series_bounded h l (m ∷ ms) t e b =
    observe_all_series_bounded h l ms (observe_series m t).0 (observe_series-limit m t ∙ e)
      (rw (lookup-observe_series h m t) (ground (arith, series_after_bounded h m t, e)))

-- Whatever metrics a new tracker observes, the number of series that it counts for a host is at most
-- the limit, and 0 where the limit is negative.
pub count_bounded :
    (limit : ℤ) (h : Text) (ms : List Metric)
    → count h (observe_all_series ms (new_cardinality_tracker limit)) ≤ pos_part limit
unfolding count new_cardinality_tracker
count_bounded limit h ms =
    observe_all_series_bounded h limit ms (new_cardinality_tracker limit) refl (omega arith)

abbrev pub is_known : Metric → CardinalityTracker → Bool
is_known m t = has (series_key m.name m.labels) (get_or m.host_id [] t.seen)

-- the answer of Observe
observe_series-answer :
    (m : Metric) (t : CardinalityTracker)
    → (observe_series m t).1 ≡ (
        if is_known m t
        then true
        else if leb_ℤ t.limit (pos (length (get_or m.host_id [] t.seen)))
        then false
        else true)
unfolding observe_series
observe_series-answer m t = ground arith

observe_series-known :
    (m : Metric) (t : CardinalityTracker)
    → (observe_series m t).1 ≡ true
    → is_known m (observe_series m t).0 ≡ true
unfolding series_after
observe_series-known m t h = ground (
  arith,
  lookup-observe_series m.host_id m t,
  observe_series-answer m t,
  list_beq_iff m.host_id m.host_id,
  list_beq_iff (series_key m.name m.labels) (series_key m.name m.labels),
  lookup-insert (series_key m.name m.labels) (series_key m.name m.labels) tt
      (get_or m.host_id [] t.seen),
)

observe_series-stays :
    (m n : Metric) (t : CardinalityTracker)
    → is_known m t ≡ true
    → is_known m (observe_series n t).0 ≡ true
unfolding series_after
observe_series-stays m n t h = ground (
  arith,
  lookup-observe_series m.host_id n t,
  list_beq_iff n.host_id m.host_id,
  lookup-insert (series_key n.name n.labels) (series_key m.name m.labels) tt
      (get_or m.host_id [] t.seen),
)

observe_all_series-stays :
    (m : Metric) (ms : List Metric) (t : CardinalityTracker)
    → is_known m t ≡ true
    → is_known m (observe_all_series ms t) ≡ true
unfolding observe_all_series
observe_all_series-stays m [] t h = h
observe_all_series-stays m (n ∷ ms) t h =
    observe_all_series-stays m ms (observe_series n t).0 (observe_series-stays m n t h)

-- A series that was accepted once is accepted again after any other observations, also once the host
-- is at its limit.
pub accepted_again :
    (m : Metric) (ms : List Metric) (t : CardinalityTracker)
    → (observe_series m t).1 ≡ true
    → (observe_series m (observe_all_series ms (observe_series m t).0)).1 ≡ true
accepted_again m ms t h = ground (
  arith,
  observe_series-answer m (observe_all_series ms (observe_series m t).0),
  observe_all_series-stays m ms (observe_series m t).0 (observe_series-known m t h),
)
