-- ===== src/AgentBuffer/Order.antt =====
-- Items in the order of their sequence numbers.
use bitacora.Base.{
  ℕ, zero, suc, ◌≤◌, ◌<◌, ◌≡◌, refl, Bool, not, List, [], ◌∷◌, ◌++◌, arith, ltb, ◌==◌, ◌+◌,
  if◌then◌else◌, filter, length, take, drop, take-append-drop,
}
use bitacora.AgentBuffer.Segment.{Item, first_seq, last_seq}

-- strictly increasing sequence numbers, all of them past `lo`
abbrev pub IsSorted : ℕ → List Item → Type 0
IsSorted lo [] = Unit
IsSorted lo (x ∷ xs) = (lo < x.seq) × IsSorted x.seq xs

-- what an acknowledgement up to the number leaves
abbrev pub above : ℕ → List Item → List Item
above n = filter (λ x. ltb n x.seq)

-- the items but those with the number
abbrev pub without : ℕ → List Item → List Item
without n = filter (λ x. not (x.seq == n))

IsSorted-weaken : (a b : ℕ) (xs : List Item) → a ≤ b → IsSorted b xs → IsSorted a xs
IsSorted-weaken a b [] h s = tt
IsSorted-weaken a b (x ∷ xs) h s = (omega arith, s.1)

pub le-last_seq : (lo : ℕ) (xs : List Item) → IsSorted lo xs → lo ≤ last_seq lo xs
le-last_seq lo [] s = omega arith
le-last_seq lo (x ∷ xs) s = omega (arith, le-last_seq x.seq xs s.1)

pub last_seq_mono : (a b : ℕ) (xs : List Item) → a ≤ b → last_seq a xs ≤ last_seq b xs
last_seq_mono a b [] h = h
last_seq_mono a b (x ∷ xs) h = omega arith

pub last_seq-append :
    (lo : ℕ) (xs ys : List Item) → last_seq lo (xs ++ ys) ≡ last_seq (last_seq lo xs) ys
last_seq-append lo [] ys = refl
last_seq-append lo (x ∷ xs) ys = last_seq-append x.seq xs ys

pub IsSorted-append :
    (lo : ℕ) (xs ys : List Item)
    → IsSorted lo xs
    → IsSorted (last_seq lo xs) ys
    → IsSorted lo (xs ++ ys)
IsSorted-append lo [] ys s t = t
IsSorted-append lo (x ∷ xs) ys s t = (s.0, IsSorted-append x.seq xs ys s.1 t)

pub IsSorted-left : (lo : ℕ) (xs ys : List Item) → IsSorted lo (xs ++ ys) → IsSorted lo xs
IsSorted-left lo [] ys s = tt
IsSorted-left lo (x ∷ xs) ys s = (s.0, IsSorted-left x.seq xs ys s.1)

pub IsSorted-right :
    (lo : ℕ) (xs ys : List Item) → IsSorted lo (xs ++ ys) → IsSorted (last_seq lo xs) ys
IsSorted-right lo [] ys s = s
IsSorted-right lo (x ∷ xs) ys s = IsSorted-right x.seq xs ys s.1

pub filter-IsSorted :
    (p : Item → Bool) (lo : ℕ) (xs : List Item) → IsSorted lo xs → IsSorted lo (filter p xs)
filter-IsSorted p lo [] s = tt
filter-IsSorted p lo (x ∷ xs) s =
    ground (arith, filter-IsSorted p x.seq xs s.1, IsSorted-weaken lo x.seq (filter p xs))

pub last_seq-filter-le :
    (p : Item → Bool) (lo : ℕ) (xs : List Item)
    → IsSorted lo xs
    → last_seq lo (filter p xs) ≤ last_seq lo xs
last_seq-filter-le p lo [] s = omega arith
last_seq-filter-le p lo (x ∷ xs) s =
    ground (arith, last_seq-filter-le p x.seq xs s.1, last_seq_mono lo x.seq (filter p xs))

above_all : (n lo : ℕ) (xs : List Item) → IsSorted lo xs → n ≤ lo → above n xs ≡ xs
above_all n lo [] s h = refl
above_all n lo (x ∷ xs) s h = ground (arith, above_all n x.seq xs s.1)

above_none : (n lo : ℕ) (xs : List Item) → IsSorted lo xs → last_seq lo xs ≤ n → above n xs ≡ []
above_none n lo [] s h = refl
above_none n lo (x ∷ xs) s h = ground (arith, above_none n x.seq xs s.1, le-last_seq x.seq xs s.1)

-- a number that stands nowhere is removed nowhere
pub without_absent_low : (n lo : ℕ) (xs : List Item) → IsSorted lo xs → n ≤ lo → without n xs ≡ xs
without_absent_low n lo [] s h = refl
without_absent_low n lo (x ∷ xs) s h = ground (arith, without_absent_low n x.seq xs s.1)

pub without_absent_high :
    (n lo : ℕ) (xs : List Item) → IsSorted lo xs → last_seq lo xs < n → without n xs ≡ xs
without_absent_high n lo [] s h = refl
without_absent_high n lo (x ∷ xs) s h =
    ground (arith, without_absent_high n x.seq xs s.1, le-last_seq x.seq xs s.1)

-- how many items an acknowledgement up to the number covers
abbrev pub acked : ℕ → List Item → ℕ
acked n [] = 0
acked n (x ∷ xs) = (if ltb n x.seq then 0 else 1) + acked n xs

pub length-above : (n : ℕ) (xs : List Item) → length (above n xs) + acked n xs ≡ length xs
length-above n [] = omega arith
length-above n (x ∷ xs) = ground (arith, length-above n xs)

pub acked-append : (n : ℕ) (xs ys : List Item) → acked n (xs ++ ys) ≡ acked n xs + acked n ys
acked-append n [] ys = omega arith
acked-append n (x ∷ xs) ys = omega (arith, acked-append n xs ys)

pub above_first : (n lo : ℕ) (xs : List Item) → IsSorted lo xs → n < first_seq xs → above n xs ≡ xs
above_first n lo [] s h = refl
above_first n lo (x ∷ xs) s h = ground (arith, above_all n x.seq xs s.1)

pub above_last : (n lo : ℕ) (xs : List Item) → IsSorted lo xs → last_seq 0 xs ≤ n → above n xs ≡ []
above_last n lo xs s h = above_none n 0 xs (IsSorted-weaken 0 lo xs (omega arith) s) h

take-IsSorted : (n lo : ℕ) (xs : List Item) → IsSorted lo xs → IsSorted lo (take n xs)
take-IsSorted n lo xs s = IsSorted-left lo (take n xs) (drop n xs) (rw (take-append-drop n xs) s)

-- acknowledging the last of the first `n` items leaves the items after them
pub above-last_seq-take :
    (n lo : ℕ) (xs : List Item) → IsSorted lo xs → above (last_seq lo (take n xs)) xs ≡ drop n xs
above-last_seq-take zero lo xs s = above_all lo lo xs s (omega arith)
above-last_seq-take (suc n) lo [] s = refl
above-last_seq-take (suc n) lo (x ∷ xs) s = ground (
  arith,
  above-last_seq-take n x.seq xs s.1,
  le-last_seq x.seq (take n xs) (take-IsSorted n x.seq xs s.1),
)
