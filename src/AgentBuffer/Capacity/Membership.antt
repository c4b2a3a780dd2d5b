-- ===== src/AgentBuffer/Capacity/Membership.antt =====
-- Which items a list holds, and the first of a number.
use bitacora.Base.{
  ℕ, ◌+◌, ◌≤◌, ◌<◌, ◌≡◌, refl, ◌⊎◌, inl, inr, none, some, List, [], ◌∷◌, ◌++◌, arith, length,
}
use bitacora.AgentBuffer.Segment.{Item, first_seq, last_seq}
use bitacora.AgentBuffer.Order.{IsSorted, le-last_seq, without, without_absent_low}
use bitacora.AgentBuffer.Capacity.{remove_first}

abbrev pub IsIn : Item → List Item → Type 0
IsIn v [] = ⊥
IsIn v (x ∷ xs) = (v ≡ x) ⊎ IsIn v xs

pub IsIn-append : (v : Item) (xs ys : List Item) → IsIn v (xs ++ ys) → IsIn v xs ⊎ IsIn v ys
IsIn-append v [] ys h = inr h
IsIn-append v (x ∷ xs) ys (inl e) = inl (inl e)
IsIn-append v (x ∷ xs) ys (inr h) = elim (IsIn-append v xs ys h) [
  | inl l ↦ inl (inr l)
  | inr r ↦ inr r
]

pub above_low : (lo : ℕ) (v : Item) (xs : List Item) → IsSorted lo xs → IsIn v xs → lo < v.seq
above_low lo v [] s h = absurd h
above_low lo v (x ∷ xs) s (inl e) = ground arith
above_low lo v (x ∷ xs) s (inr h) = omega (arith, above_low x.seq v xs s.1 h)

pub below_last :
    (lo : ℕ) (v : Item) (xs : List Item) → IsSorted lo xs → IsIn v xs → v.seq ≤ last_seq lo xs
below_last lo v [] s h = absurd h
below_last lo v (x ∷ xs) s (inl e) = ground (arith, le-last_seq x.seq xs s.1)
below_last lo v (x ∷ xs) s (inr h) = below_last x.seq v xs s.1 h

pub past_first :
    (lo : ℕ) (v : Item) (xs : List Item) → IsSorted lo xs → IsIn v xs → first_seq xs ≤ v.seq
past_first lo v [] s h = absurd h
past_first lo v (x ∷ xs) s (inl e) = ground arith
past_first lo v (x ∷ xs) s (inr h) = omega (arith, above_low x.seq v xs s.1 h)

pub same_last : (lo : ℕ) (v : Item) (xs : List Item) → IsIn v xs → last_seq lo xs ≡ last_seq 0 xs
same_last lo v [] h = absurd h
same_last lo v (x ∷ xs) h = refl

pub length-without :
    (lo : ℕ) (v : Item) (xs : List Item)
    → IsSorted lo xs
    → IsIn v xs
    → length (without v.seq xs) + 1 ≡ length xs
length-without lo v [] s h = absurd h
length-without lo v (x ∷ xs) s (inl e) = ground (arith, without_absent_low v.seq x.seq xs s.1)
length-without lo v (x ∷ xs) s (inr h) =
    ground (arith, length-without x.seq v xs s.1 h, above_low x.seq v xs s.1 h)

pub remove_first_lem :
    (lo : ℕ) (v : Item) (xs : List Item)
    → IsSorted lo xs
    → IsIn v xs
    → remove_first v.seq xs ≡ some (without v.seq xs)
unfolding remove_first
remove_first_lem lo v [] s h = absurd h
remove_first_lem lo v (x ∷ xs) s (inl e) = ground (arith, without_absent_low v.seq x.seq xs s.1)
remove_first_lem lo v (x ∷ xs) s (inr h) =
    ground (arith, remove_first_lem x.seq v xs s.1 h, above_low x.seq v xs s.1 h)

pub remove_first_absent :
    (n lo : ℕ) (xs : List Item) → IsSorted lo xs → n ≤ lo → remove_first n xs ≡ none
unfolding remove_first
remove_first_absent n lo [] s h = refl
remove_first_absent n lo (x ∷ xs) s h = ground (arith, remove_first_absent n x.seq xs s.1)
