-- ===== src/Metricstore/Ordering.antt =====
-- internal/metricstore/downsample.go: the sorting of the buckets, and the keys of a map.
use mathlib.Core.Path.{subst}
use bitacora.Base.{
  ℕ, ◌≡◌, true, false, List, [], ◌∷◌, arith, map, inl, inr, Bool-cases, All, All-map,
}
use bitacora.Base.Int.{eq_of_parts}
use bitacora.Base.Text.{text_ltb_irrefl, text_ltb_antisymm, text_ltb_trans}
use bitacora.Base.Float.{Float64}
use bitacora.Base.Map.{insert}
use bitacora.Base.Eq.{
  list_Eq, nat_Eq, int_Eq, int_beq_iff, pair_Eq, pair_beq_iff, list_beq_iff, ◌≟◌,
}
use bitacora.Metricstore.Downsample.{BucketKey, key_ltb, sort_key, sort_keys, Sums}

-- every key is before those behind it
abbrev pub IsIncreasing : List BucketKey → Type 0
IsIncreasing [] = Unit
IsIncreasing (k ∷ ks) = All (λ j. key_ltb k j ≡ true) ks × IsIncreasing ks

-- no key stands twice
abbrev pub IsDistinct : List BucketKey → Type 0
IsDistinct [] = Unit
IsDistinct (k ∷ ks) = All (λ j. (k ≟ j) ≡ false) ks × IsDistinct ks

key_ltb_trans : (a b c : BucketKey) → key_ltb a b ≡ true → key_ltb b c ≡ true → key_ltb a c ≡ true
key_ltb_trans (a, i) (b, j) (c, k) h h' = ground (
  arith,
  list_beq_iff a b,
  list_beq_iff b c,
  list_beq_iff a c,
  text_ltb_trans a b c,
  text_ltb_irrefl a,
  text_ltb_irrefl b,
)

key_total : (a b : BucketKey) → key_ltb a b ≡ false → (a ≟ b) ≡ false → key_ltb b a ≡ true
key_total (a, i) (b, j) h n = ground (
  arith,
  list_beq_iff a b,
  list_beq_iff b a,
  int_beq_iff i j,
  eq_of_parts i j,
  text_ltb_antisymm a b,
)

-- what is before a key and before a list is before the list with the key
sort_key-All :
    (P : BucketKey → Type 0) (k : BucketKey) (js : List BucketKey)
    → P k
    → All P js
    → All P (sort_key k js)
sort_key-All P k [] h hs = (h, tt)
sort_key-All P k (j ∷ js) h hs = elim (Bool-cases (key_ltb k j)) [
  | inl t ↦ rw t (h, hs)
  | inr t ↦ rw t (hs.0, sort_key-All P k js h hs.1)
]

sort_key-IsIncreasing :
    (k : BucketKey) (js : List BucketKey)
    → All (λ j. (k ≟ j) ≡ false) js
    → IsIncreasing js
    → IsIncreasing (sort_key k js)
sort_key-IsIncreasing k [] n s = (tt, tt)
sort_key-IsIncreasing k (j ∷ js) n s = elim (Bool-cases (key_ltb k j)) [
  | inl t ↦ rw t (
    (
      t,
      All-map (λ i. key_ltb j i ≡ true) (λ i. key_ltb k i ≡ true) js
          (λ i h. key_ltb_trans k j i t h) s.0,
    ),
    s,
  )
  | inr t ↦ rw t (
    sort_key-All (λ i. key_ltb j i ≡ true) k js (key_total k j t n.0) s.0,
    sort_key-IsIncreasing k js n.1 s.1,
  )
]

sort_keys-All : (P : BucketKey → Type 0) (ks : List BucketKey) → All P ks → All P (sort_keys ks)
sort_keys-All P [] h = tt
sort_keys-All P (k ∷ ks) h = sort_key-All P k (sort_keys ks) h.0 (sort_keys-All P ks h.1)

pub sort_keys-IsIncreasing : (ks : List BucketKey) → IsDistinct ks → IsIncreasing (sort_keys ks)
sort_keys-IsIncreasing [] d = tt
sort_keys-IsIncreasing (k ∷ ks) d =
    sort_key-IsIncreasing k (sort_keys ks) (sort_keys-All (λ j. (k ≟ j) ≡ false) ks d.0)
      (sort_keys-IsIncreasing ks d.1)

abbrev pub keys_of : Sums → List BucketKey
keys_of sums = map (λ e. e.0) sums

insert_keys :
    (P : BucketKey → Type 0) (k : BucketKey) (v : Float64 × ℕ) (m : Sums)
    → P k
    → All P (keys_of m)
    → All P (keys_of (insert k v m))
insert_keys P k v [] h hs = (h, tt)
insert_keys P k v ((j, w) ∷ m) h hs = elim (Bool-cases (j ≟ k)) [
  | inl t ↦ rw t (h, hs.1)
  | inr t ↦ rw t (hs.0, insert_keys P k v m h hs.1)
]

pub insert-IsDistinct :
    (k : BucketKey) (v : Float64 × ℕ) (m : Sums)
    → IsDistinct (keys_of m)
    → IsDistinct (keys_of (insert k v m))
insert-IsDistinct k v [] d = (tt, tt)
insert-IsDistinct k v ((j, w) ∷ m) d = elim (Bool-cases (j ≟ k)) [
  | inl t ↦
      let same : j ≡ k = (pair_beq_iff j k).0 t in
      rw t (subst (λ i. All (λ x. (i ≟ x) ≡ false) (keys_of m)) same d.0, d.1)
  | inr t ↦ rw t (insert_keys (λ x. (j ≟ x) ≡ false) k v m t d.0, insert-IsDistinct k v m d.1)
]
