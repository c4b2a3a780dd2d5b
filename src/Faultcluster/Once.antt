-- ===== src/Faultcluster/Once.antt =====
-- internal/faultcluster/tracker.go: over any faults, the counts are right and a core is reported once.
use bitacora.Base.{
  ℕ, ◌+◌, ◌≤◌, ◌≡◌, refl, sym, ap, ◌∙◌, Bool, true, false, Option, none, some, List, [], ◌∷◌, arith,
  if◌then◌else◌, inl, inr, Bool-cases, All,
}
use bitacora.Base.Int.{ℤ}
use bitacora.Base.Map.{lookup, has, get_or, get_or-insert, has-insert}
use bitacora.Base.Eq.{int_Eq, ◌≟◌, int_beq_iff}
use bitacora.Faultcluster.Tracker.{
  Tracker, Fault, Cluster, min_samples, counted, is_cluster, observe_if, observe_on, observe,
}

abbrev pub with_report : Option Cluster → Tracker × List Cluster → Tracker × List Cluster
with_report none r = r
with_report (some c) (t, cs) = (t, c ∷ cs)

module _ (is_significant : ℕ → ℕ → ℕ → Bool) where
  -- the clusters reported, in order, and the tracker afterwards
  pub observe_all : List Fault → Tracker → Tracker × List Cluster
  observe_all [] t = (t, [])
  observe_all (f ∷ fs) t =
      let o = observe is_significant f t in with_report o.1 (observe_all fs o.0)

abbrev pub report_of : ℤ → Option Cluster → ℕ
report_of core none = 0
report_of core (some c) = if c.core_id ≟ core then 1 else 0

-- how many of the clusters are of a core
abbrev pub reports_of : ℤ → List Cluster → ℕ
reports_of core [] = 0
reports_of core (c ∷ cs) = report_of core (some c) + reports_of core cs

abbrev pub fault_on : ℤ → Option ℤ → ℕ
fault_on core none = 0
fault_on core (some c) = if c ≟ core then 1 else 0

-- how many of the faults are on a core, for a map of the processors
abbrev pub faults_on : List (ℤ × ℤ) → ℤ → List Fault → ℕ
faults_on cores core [] = 0
faults_on cores core (f ∷ fs) = fault_on core (lookup f.logical_cpu cores) + faults_on cores core fs

abbrev pub may_report : ℤ → Tracker → ℕ
may_report core t = if has core t.flagged then 0 else 1

abbrev pub HasSamples : Option Cluster → Type 0
HasSamples none = Unit
HasSamples (some c) = min_samples ≤ c.k

-- one fault: what it adds for a core
record Adds (core : ℤ) (n : ℕ) (t : Tracker) (o : Tracker × Option Cluster) : Type 0 where
  topo : o.0.topo ≡ t.topo
  count : get_or core 0 o.0.count_by_core ≡ get_or core 0 t.count_by_core + n
  reports : report_of core o.1 + may_report core o.0 ≤ may_report core t
  samples : HasSamples o.1

module _ (is_significant : ℕ → ℕ → ℕ → Bool) where
  counted_on :
      (c core : ℤ) (t : Tracker)
      → get_or core 0 (counted is_significant c t).count_by_core
        ≡ get_or core 0 t.count_by_core + (if c ≟ core then 1 else 0)
  counted_on c core t =
      let e = get_or-insert c core 0 (get_or c 0 t.count_by_core + 1) t.count_by_core in
      elim (Bool-cases (c ≟ core)) [
        | inl h ↦
            let same : c ≡ core = (int_beq_iff c core).0 h in
            rw h (rw h at e ∙ ap (λ i. get_or i 0 t.count_by_core + 1) same)
        | inr h ↦ rw h (rw h at e ∙ omega arith)
      ]

  is_cluster_unflagged :
      (c : ℤ) (t : Tracker) → is_cluster is_significant c t ≡ true → has c t.flagged ≡ false
  is_cluster_unflagged c t h = ground arith

  is_cluster_samples :
      (c : ℤ) (t : Tracker)
      → is_cluster is_significant c t ≡ true
      → min_samples ≤ get_or c 0 t.count_by_core + 1
  is_cluster_samples c t h = ground arith

  observe_if-Adds :
      (f : Fault) (c core : ℤ) (t : Tracker) (b : Bool)
      → is_cluster is_significant c t ≡ b
      → Adds core (fault_on core (some c)) t (observe_if is_significant f c t b)
  observe_if-Adds f c core t false h = record {
    topo = refl;
    count = counted_on c core t;
    reports = omega arith;
    samples = tt;
  }
  observe_if-Adds f c core t true h = record {
    topo = refl;
    count = counted_on c core t;
    reports =
        let u = is_cluster_unflagged c t h in
        let e = has-insert c core tt t.flagged in
        elim (Bool-cases (c ≟ core)) [
          | inl s ↦
              let same : c ≡ core = (int_beq_iff c core).0 s in
              let u' : has core t.flagged ≡ false = ap (λ i. has i t.flagged) (sym same) ∙ u in
              rw (s, rw s at e, u') (omega arith)
          | inr s ↦ rw (s, rw s at e) (omega arith)
        ];
    samples = is_cluster_samples c t h;
  }

  observe_on-Adds :
      (f : Fault) (core : ℤ) (t : Tracker) (o : Option ℤ)
      → Adds core (fault_on core o) t (observe_on is_significant f t o)
  observe_on-Adds f core t none = record {
    topo = refl;
    count = omega arith;
    reports = omega arith;
    samples = tt;
  }
  observe_on-Adds f core t (some c) =
      observe_if-Adds f c core t (is_cluster is_significant c t) refl

-- A core's count has grown by its faults; it is reported at most once, and not at all if it was before;
-- and every report is of enough samples.
pub record Tallies (core : ℤ) (fs : List Fault) (t : Tracker) (r : Tracker × List Cluster)
    : Type 0 where
  pub count :
      get_or core 0 r.0.count_by_core
      ≡ get_or core 0 t.count_by_core + faults_on t.topo.logical_to_core core fs
  pub reports : reports_of core r.1 + may_report core r.0 ≤ may_report core t
  pub samples : All (λ c. min_samples ≤ c.k) r.1

tally :
    (core : ℤ) (fs : List Fault) (f : Fault) (t u : Tracker) (o : Option Cluster)
    (counts : List (ℤ × ℕ))
    → Adds core (fault_on core (lookup f.logical_cpu t.topo.logical_to_core)) t (u, o)
    → get_or core 0 counts
      ≡ get_or core 0 u.count_by_core + faults_on u.topo.logical_to_core core fs
    → get_or core 0 counts
      ≡ get_or core 0 t.count_by_core + faults_on t.topo.logical_to_core core (f ∷ fs)
tally core fs f t u o counts a h =
    let e : faults_on u.topo.logical_to_core core fs ≡ faults_on t.topo.logical_to_core core fs =
      ap (λ p. faults_on p.logical_to_core core fs) a.topo in
    omega (arith, h, e, a.count)

with_report-Tallies :
    (core : ℤ) (fs : List Fault) (f : Fault) (t u : Tracker) (o : Option Cluster)
    (r : Tracker × List Cluster)
    → Adds core (fault_on core (lookup f.logical_cpu t.topo.logical_to_core)) t (u, o)
    → Tallies core fs u r
    → Tallies core (f ∷ fs) t (with_report o r)
with_report-Tallies core fs f t u none r a h = record {
  count = tally core fs f t u none (r.0.count_by_core) a h.count;
  reports = omega (arith, a.reports, h.reports);
  samples = h.samples;
}
with_report-Tallies core fs f t u (some c) r a h = record {
  count = tally core fs f t u (some c) (r.0.count_by_core) a h.count;
  reports = omega (arith, a.reports, h.reports);
  samples = (a.samples, h.samples);
}

module _ (is_significant : ℕ → ℕ → ℕ → Bool) where
  -- Over any faults, in order: the tracker's count of a core has grown by the number of faults on the
  -- core's processors; the core is reported at most once, and never again if it was reported before;
  -- and every report is of at least five faults.
  pub observe_all-Tallies :
      (core : ℤ) (fs : List Fault) (t : Tracker)
      → Tallies core fs t (observe_all is_significant fs t)
  unfolding observe_all observe
  observe_all-Tallies core [] t = record {
    count = omega arith;
    reports = omega arith;
    samples = tt;
  }
  observe_all-Tallies core (f ∷ fs) t =
      let o = observe is_significant f t in
      with_report-Tallies core fs f t o.0 o.1 (observe_all is_significant fs o.0)
        (observe_on-Adds is_significant f core t (lookup f.logical_cpu t.topo.logical_to_core))
        (observe_all-Tallies core fs o.0)
