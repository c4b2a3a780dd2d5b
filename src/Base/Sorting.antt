-- ===== src/Base/Sorting.antt =====
-- `sort.Strings` and the iteration of a map in the order of its sorted keys.
use mathlib.Core.Logic.{∥∥₁_elim}
use mathlib.Core.Path.{ap₂}
use mathlib.Core.List.{Perm, Permᴰ}
use bitacora.Base.{◌≡◌, refl, ◌∙◌, List, [], ◌∷◌, map, arith, if◌then◌else◌, ℕ_discrete}
use bitacora.Base.Eq.{list_Eq, nat_Eq}
use bitacora.Base.Map.{lookup}
use bitacora.Base.Text.{Text, text_ltb, text_ltb_asymm, text_ltb_antisymm, text_ltb_trans}

abbrev pub sort_insert : Text → List Text → List Text
sort_insert x [] = x ∷ []
sort_insert x (y ∷ l) = let rest = sort_insert x l in if text_ltb y x then y ∷ rest else x ∷ y ∷ l

abbrev pub sort : List Text → List Text
sort [] = []
sort (x ∷ l) = sort_insert x (sort l)

sort_insert_comm :
    (x y : Text) (l : List Text) → sort_insert x (sort_insert y l) ≡ sort_insert y (sort_insert x l)
sort_insert_comm x y [] = ground (arith, text_ltb_asymm x y, text_ltb_antisymm x y)
sort_insert_comm x y (z ∷ l) = ground (
  arith,
  sort_insert_comm x y l,
  text_ltb_asymm x y,
  text_ltb_antisymm x y,
  text_ltb_trans x z y,
  text_ltb_trans y z x,
  text_ltb_trans x y z,
  text_ltb_trans y x z,
  text_ltb_trans z x y,
  text_ltb_trans z y x,
  text_ltb_asymm x z,
  text_ltb_asymm y z,
  text_ltb_antisymm x z,
  text_ltb_antisymm y z,
)

sort-Permᴰ : (xs ys : List Text) → Permᴰ xs ys → sort xs ≡ sort ys
sort-Permᴰ _ _ Permᴰ.nil = refl
sort-Permᴰ _ _ (Permᴰ.cons e p) = ap₂ sort_insert e (sort-Permᴰ _ _ p)
sort-Permᴰ _ _ (Permᴰ.swap {a = a} {b = b} {l = l} e f) =
    sort_insert_comm a b (sort l) ∙ ap₂ (λ x y. sort_insert x (sort_insert y (sort l))) f e
sort-Permᴰ _ _ (Permᴰ.trans p q) = sort-Permᴰ _ _ p ∙ sort-Permᴰ _ _ q

pub Text-discrete : Discrete Text
Text-discrete = hlevel ℕ_discrete

-- the sorted list does not depend on the order of the items
pub sort-perm : (xs ys : List Text) → Perm xs ys → sort xs ≡ sort ys
sort-perm xs ys p = ∥∥₁_elim p (hlevel ℕ_discrete) (sort-Permᴰ xs ys)

module _ {ℓ} {V : Type ℓ} where
  abbrev pub keys : List (Text × V) → List Text
  keys = map (λ e. e.0)

  -- two association lists that stand for one map, met in different orders
  pub record SameMap (m n : List (Text × V)) : Type ℓ where
    pub same_keys : Perm (keys m) (keys n)
    pub same_values : (k : Text) → lookup k m ≡ lookup k n
