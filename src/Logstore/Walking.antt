-- ===== src/Logstore/Walking.antt =====
-- internal/logstore/index.go: what the loops of ScanIndex do with one file more.
use bitacora.Base.{
  ◌≡◌, refl, ap, ◌∙◌, Bool, true, false, Option, none, List, [], ◌∷◌, ◌++◌, inl, inr, Bool-cases,
  All,
}
use bitacora.Base.Text.{Text, codes}
use bitacora.Base.Map.{lookup, has, insert-absent, All-insert}
use bitacora.Base.Eq.{list_Eq, nat_Eq}
use bitacora.Base.Files.{Files}
use bitacora.Base.Paths.{has_suffix}
use bitacora.Logstore.Block.{BlockMeta}
use bitacora.Logstore.Index.{VerifyResult, Found, id_of, visit, walk, orphans, enter, enter_all}

-- an entry of metaFiles is a sidecar under its own id
abbrev pub IsNamed : Text × Text → Type 0
IsNamed m = (has_suffix m.1 (codes ".meta.json") ≡ true) × (m.0 ≡ id_of (codes ".meta.json") m.1)

pub visit-IsNamed :
    (path : Text) (f : Found) → All IsNamed f.meta_files → All IsNamed (visit path f).meta_files
unfolding visit
visit-IsNamed path f h = elim (Bool-cases (has_suffix path (codes ".meta.json"))) [
  | inl t ↦
      rw t (All-insert IsNamed (id_of (codes ".meta.json") path) path f.meta_files (t, refl) h)
  | inr t ↦ elim (Bool-cases (has_suffix path (codes ".zst"))) [
    | inl z ↦ rw (t, z) h
    | inr z ↦ rw (t, z) h
  ]
]

pub walk-IsNamed :
    (fs : Files) (f : Found) → All IsNamed f.meta_files → All IsNamed (walk fs f).meta_files
unfolding walk
walk-IsNamed [] f h = h
walk-IsNamed ((path, _) ∷ fs) f h = walk-IsNamed fs (visit path f) (visit-IsNamed path f h)

pub walk-append : (fs gs : Files) (f : Found) → walk (fs ++ gs) f ≡ walk gs (walk fs f)
unfolding walk
walk-append [] gs f = refl
walk-append ((path, _) ∷ fs) gs f = walk-append fs gs (visit path f)

-- a new name is found behind those that are there
pub visit_block :
    (path id : Text) (f : Found)
    → has_suffix path (codes ".zst") ≡ true
    → has_suffix path (codes ".meta.json") ≡ false
    → id_of (codes ".zst") path ≡ id
    → lookup id f.payload_files ≡ none
    → visit path f ≡ record f { payload_files = f.payload_files ++ ((id, path) ∷ []) }
unfolding visit
visit_block path id f hz hm hi h =
    rw (hm, hz, hi)
      (ap (λ p. record f { payload_files = p }) (insert-absent id path f.payload_files h))

pub visit_meta :
    (path id : Text) (f : Found)
    → has_suffix path (codes ".meta.json") ≡ true
    → id_of (codes ".meta.json") path ≡ id
    → lookup id f.meta_files ≡ none
    → visit path f ≡ record f { meta_files = f.meta_files ++ ((id, path) ∷ []) }
unfolding visit
visit_meta path id f hm hi h =
    rw (hm, hi) (ap (λ m. record f { meta_files = m }) (insert-absent id path f.meta_files h))

pub orphans-append :
    (metas xs ys : List (Text × Text))
    → orphans metas (xs ++ ys) ≡ orphans metas xs ++ orphans metas ys
orphans-append metas [] ys = refl
orphans-append metas ((id, p) ∷ xs) ys = elim (Bool-cases (has id metas)) [
  | inl t ↦ rw t (orphans-append metas xs ys)
  | inr t ↦ rw t (ap (◌∷◌ p) (orphans-append metas xs ys))
]

pub orphans_same :
    (ms ns xs : List (Text × Text))
    → All (λ x. has x.0 ms ≡ has x.0 ns) xs
    → orphans ms xs ≡ orphans ns xs
orphans_same ms ns [] h = refl
orphans_same ms ns ((id, p) ∷ xs) h =
    let e : has id ms ≡ has id ns = h.0 in let rest = orphans_same ms ns xs h.1 in rw (e, rest)

module _ (unmarshal : Text → Option BlockMeta) (readable : Text → Bool) where
  pub enter_all-append :
      (fs : Files) (ps ms : List (Text × Text)) (m : Text × Text) (r : VerifyResult)
      → enter_all unmarshal readable fs ps (ms ++ (m ∷ [])) r
        ≡ enter unmarshal readable fs ps m (enter_all unmarshal readable fs ps ms r)
  unfolding enter_all
  enter_all-append fs ps [] m r = refl
  enter_all-append fs ps (n ∷ ms) m r =
      enter_all-append fs ps ms m (enter unmarshal readable fs ps n r)

  -- An entry is read as before where its payload is found as before and its file holds the same.
  pub enter_same :
      (fs gs : Files) (ps qs : List (Text × Text)) (m : Text × Text) (r : VerifyResult)
      → has m.0 qs ≡ has m.0 ps
      → lookup m.1 gs ≡ lookup m.1 fs
      → enter unmarshal readable gs qs m r ≡ enter unmarshal readable fs ps m r
  unfolding enter
  enter_same fs gs ps qs (id, path) r h k = rw (h, k)

  pub enter_all_same :
      (fs gs : Files) (ps qs ms : List (Text × Text)) (r : VerifyResult)
      → All (λ m. (has m.0 qs ≡ has m.0 ps) × (lookup m.1 gs ≡ lookup m.1 fs)) ms
      → enter_all unmarshal readable gs qs ms r ≡ enter_all unmarshal readable fs ps ms r
  unfolding enter_all
  enter_all_same fs gs ps qs [] r h = refl
  enter_all_same fs gs ps qs (m ∷ ms) r h =
      enter_all_same fs gs ps qs ms (enter unmarshal readable gs qs m r) h.1
      ∙ ap (enter_all unmarshal readable fs ps ms) (enter_same fs gs ps qs m r h.0.0 h.0.1)
