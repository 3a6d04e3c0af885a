-- ===== src/Metrics/Sort.antt =====
-- `sort.Slice(data, func(i, j int) bool { return data[i] < data[j] })` on durations: what any
-- sorting algorithm leaves, since `<` is a total order; here by insertion.
use mathlib.Core.List.{Perm}
use mathlib.Core.List.Perm
use sentinelstream.Prelude.{
  ℕ, zero, suc, ◌≤◌, ◌≡◌, refl, List, [], ◌∷◌, some, arith, if◌then◌else◌, ℤ, ◌≤ℤ◌, ltb_ℤ,
  Bool-cases, inl, inr, length, get_elem?, All,
}

pub place : ℤ → List ℤ → List ℤ
place x [] = x ∷ []
place x (y ∷ ys) = if ltb_ℤ y x then y ∷ place x ys else x ∷ y ∷ ys

unfoldable pub sort : List ℤ → List ℤ
unfolding place
sort [] = []
sort (x ∷ xs) = place x (sort xs)

abbrev pub IsSorted : List ℤ → Type 0
IsSorted [] = Unit
IsSorted (x ∷ xs) = All (λ y. x ≤ℤ y) xs × IsSorted xs

place-perm : (x : ℤ) (ys : List ℤ) → Perm (place x ys) (x ∷ ys)
unfolding place
place-perm x [] = Perm.refl _
place-perm x (y ∷ ys) = elim (Bool-cases (ltb_ℤ y x)) [
  | inl e ↦ rw (e, place) (Perm.trans (Perm.cons y (place-perm x ys)) (Perm.swap x y ys))
  | inr e ↦ rw (e, place) (Perm.refl _)
]

-- Sorting keeps the samples.
pub sort-perm : (xs : List ℤ) → Perm (sort xs) xs
unfolding sort
sort-perm [] = Perm.refl _
sort-perm (x ∷ xs) = Perm.trans (place-perm x (sort xs)) (Perm.cons x (sort-perm xs))

All-le_trans : (x y : ℤ) (zs : List ℤ) → x ≤ℤ y → All (λ z. y ≤ℤ z) zs → All (λ z. x ≤ℤ z) zs
All-le_trans x y [] h a = tt
All-le_trans x y (z ∷ zs) h a = (omega (arith, a.0), All-le_trans x y zs h a.1)

All-place : (x y : ℤ) (zs : List ℤ) → x ≤ℤ y → All (λ z. x ≤ℤ z) zs → All (λ z. x ≤ℤ z) (place y zs)
unfolding place
All-place x y [] h a = (h, tt)
All-place x y (z ∷ zs) h a = ground (arith, All-place x y zs h a.1)

place-IsSorted : (x : ℤ) (ys : List ℤ) → IsSorted ys → IsSorted (place x ys)
unfolding place
place-IsSorted x [] s = (tt, tt)
place-IsSorted x (y ∷ ys) s =
    ground (arith, place-IsSorted x ys s.1, All-place y x ys, All-le_trans x y ys)

pub sort-IsSorted : (xs : List ℤ) → IsSorted (sort xs)
unfolding sort
sort-IsSorted [] = tt
sort-IsSorted (x ∷ xs) = place-IsSorted x (sort xs) (sort-IsSorted xs)

length-place : (x : ℤ) (ys : List ℤ) → length (place x ys) ≡ suc (length ys)
unfolding place
length-place x [] = refl
length-place x (y ∷ ys) = ground (arith, length-place x ys)

pub length-sort : (xs : List ℤ) → length (sort xs) ≡ length xs
unfolding sort
length-sort [] = refl
length-sort (x ∷ xs) = omega (arith, length-place x (sort xs), length-sort xs)

All-get :
    (x : ℤ) (ys : List ℤ) (j : ℕ) (b : ℤ) → All (λ y. x ≤ℤ y) ys → get_elem? ys j ≡ some b → x ≤ℤ b
All-get x [] j b a e = absurd (ground arith)
All-get x (y ∷ ys) zero b a e = ground (arith, a.0)
All-get x (y ∷ ys) (suc j) b a e = All-get x ys j b a.1 e

-- In a sorted list a later element is no smaller.
pub IsSorted-get :
    (xs : List ℤ) (i j : ℕ) (a b : ℤ)
    → IsSorted xs
    → i ≤ j
    → get_elem? xs i ≡ some a
    → get_elem? xs j ≡ some b
    → a ≤ℤ b
IsSorted-get [] i j a b s h p q = absurd (ground arith)
IsSorted-get (x ∷ xs) zero zero a b s h p q = ground arith
IsSorted-get (x ∷ xs) zero (suc j) a b s h p q = ground (arith, All-get x xs j b s.0 q)
IsSorted-get (x ∷ xs) (suc i) zero a b s h p q = absurd (omega arith)
IsSorted-get (x ∷ xs) (suc i) (suc j) a b s h p q = IsSorted-get xs i j a b s.1 (omega arith) p q
