-- ===== src/Base/Map.antt =====
-- Go's maps as association lists. A write keeps the place of a key that is there. Iteration order
-- is the list's order, so a result that must not depend on it is stated over every list.
use bitacora.Base.{
  ◌+◌, ◌≡◌, refl, ap, Bool, true, false, Option, none, some, List, [], ◌∷◌, arith, if◌then◌else◌,
  length, ◌++◌, All, Bool-cases, inl, inr,
}
use bitacora.Base.Eq.{Eq, beq_self}

module _ {ℓ κ} {K : Type ℓ} {V : Type κ} ⦃e : Eq K⦄ where
  abbrev pub lookup : K → List (K × V) → Option V
  lookup k [] = none
  lookup k ((j, v) ∷ m) = if e.beq j k then some v else lookup k m

  -- a read of a missing key gives the zero value
  abbrev pub get_or : K → V → List (K × V) → V
  get_or k d m = elim (lookup k m) [ none ↦ d | some v ↦ v ]

  abbrev pub has : K → List (K × V) → Bool
  has k m = elim (lookup k m) [ none ↦ false | some _ ↦ true ]

  abbrev pub insert : K → V → List (K × V) → List (K × V)
  insert k v [] = (k, v) ∷ []
  insert k v ((j, w) ∷ m) = if e.beq j k then (k, v) ∷ m else (j, w) ∷ insert k v m

  abbrev pub delete : K → List (K × V) → List (K × V)
  delete k [] = []
  delete k ((j, w) ∷ m) = let rest = delete k m in if e.beq j k then rest else (j, w) ∷ rest

  pub lookup-insert :
      (k j : K) (v : V) (m : List (K × V))
      → lookup j (insert k v m) ≡ (if e.beq k j then some v else lookup j m)
  lookup-insert k j v [] = refl
  lookup-insert k j v ((i, w) ∷ m) =
      ground (arith, e.beq_iff k j, e.beq_iff i k, e.beq_iff i j, lookup-insert k j v m)

  pub lookup-insert_self : (k : K) (v : V) (m : List (K × V)) → lookup k (insert k v m) ≡ some v
  lookup-insert_self k v m = ground (arith, lookup-insert k k v m, beq_self k)

  pub lookup-delete :
      (k j : K) (m : List (K × V))
      → lookup j (delete k m) ≡ (if e.beq k j then none else lookup j m)
  lookup-delete k j [] = ground arith
  lookup-delete k j ((i, w) ∷ m) =
      ground (arith, e.beq_iff k j, e.beq_iff i k, e.beq_iff i j, lookup-delete k j m)

  pub length-insert :
      (k : K) (v : V) (m : List (K × V))
      → length (insert k v m) ≡ (if has k m then length m else length m + 1)
  length-insert k v [] = omega arith
  length-insert k v ((i, w) ∷ m) = ground (arith, length-insert k v m)

  pub insert-absent :
      (k : K) (v : V) (m : List (K × V)) → lookup k m ≡ none → insert k v m ≡ m ++ ((k, v) ∷ [])
  insert-absent k v [] h = refl
  insert-absent k v ((j, w) ∷ m) h = ground (arith, e.beq_iff j k, insert-absent k v m)

  pub delete-absent : (k : K) (m : List (K × V)) → lookup k m ≡ none → delete k m ≡ m
  delete-absent k [] h = refl
  delete-absent k ((j, w) ∷ m) h = ground (arith, delete-absent k m)

  pub delete-append :
      (k : K) (v : V) (m : List (K × V)) → lookup k m ≡ none → delete k (m ++ ((k, v) ∷ [])) ≡ m
  delete-append k v [] h = rw (beq_self k) refl
  delete-append k v ((j, w) ∷ m) h = ground (arith, delete-append k v m)

  pub lookup-append :
      (j k : K) (v : V) (m : List (K × V))
      → e.beq k j ≡ false
      → lookup j (m ++ ((k, v) ∷ [])) ≡ lookup j m
  lookup-append j k v [] h = rw h refl
  lookup-append j k v ((i, w) ∷ m) h = ground (arith, lookup-append j k v m h)

  pub lookup-append_self :
      (k : K) (v : V) (m : List (K × V))
      → lookup k m ≡ none
      → lookup k (m ++ ((k, v) ∷ [])) ≡ some v
  lookup-append_self k v [] h = rw (beq_self k) refl
  lookup-append_self k v ((i, w) ∷ m) h = ground (arith, lookup-append_self k v m)

  pub get_or-insert :
      (k j : K) (d v : V) (m : List (K × V))
      → get_or j d (insert k v m) ≡ (if e.beq k j then v else get_or j d m)
  get_or-insert k j d v m = ground (arith, lookup-insert k j v m)

  pub has-insert :
      (k j : K) (v : V) (m : List (K × V))
      → has j (insert k v m) ≡ (if e.beq k j then true else has j m)
  has-insert k j v m = ground (arith, lookup-insert k j v m)

  -- no entry has a key that is not found
  pub absent-All : (k : K) (m : List (K × V)) → lookup k m ≡ none → All (λ p. e.beq k p.0 ≡ false) m
  absent-All k [] h = tt
  absent-All k ((j, w) ∷ m) h = (
    ground (arith, e.beq_iff k j, e.beq_iff j k, Bool-cases (e.beq k j)),
    absent-All k m (ground (arith, Bool-cases (e.beq j k))),
  )

  pub All-insert {μ} :
      (P : K × V → Type μ) (k : K) (v : V) (m : List (K × V))
      → P (k, v)
      → All P m
      → All P (insert k v m)
  All-insert P k v [] h hs = (h, tt)
  All-insert P k v ((j, w) ∷ m) h hs = elim (Bool-cases (e.beq j k)) [
    | inl t ↦ rw t (h, hs.1)
    | inr t ↦ rw t (hs.0, All-insert P k v m h hs.1)
  ]

  pub has-append :
      (j k : K) (v : V) (m : List (K × V))
      → e.beq k j ≡ false
      → has j (m ++ ((k, v) ∷ [])) ≡ has j m
  has-append j k v m h = ap (λ o. elim o [ none ↦ false | some _ ↦ true ]) (lookup-append j k v m h)
