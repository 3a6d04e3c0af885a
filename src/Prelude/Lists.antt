-- ===== src/Prelude/Lists.antt =====
-- Lists measured by native numbers, membership as a test, and predicates on all entries.
use Prim.Native.Nat.{ℕ, suc, ◌+◌}
use mathlib.Core.Path.{◌≡◌}
use mathlib.Core.Bool.{Bool, false, ◌||◌, ◌&&◌}
use mathlib.Core.Logic.{inl, inr}
use mathlib.Core.List.{List, [], ◌∷◌, ◌++◌}
use native.Mathlib.Omega.{arith}
use sentinelstream.Prelude.Tests.{◌==◌, ==_iff, Bool-cases, if◌then◌else◌}

module _ {ℓ} {A : Type ℓ} where
  abbrev pub length : List A → ℕ
  length [] = 0
  length (x ∷ xs) = suc (length xs)

  -- The entries that pass a test.
  unfoldable pub keep : (A → Bool) → List A → List A
  keep p [] = []
  keep p (x ∷ xs) = if p x then x ∷ keep p xs else keep p xs

  pub length-append : (xs ys : List A) → length (xs ++ ys) ≡ length xs + length ys
  length-append [] ys = omega arith
  length-append (x ∷ xs) ys = omega (arith, length-append xs ys)

  abbrev pub All {κ} : (A → Type κ) → List A → Type κ
  All P [] = Unit
  All P (x ∷ xs) = P x × All P xs

-- Is the number in the list?
unfoldable pub contains : List ℕ → ℕ → Bool
contains [] a = false
contains (x ∷ xs) a = a == x || contains xs a

pub contains-keep :
    (p : ℕ → Bool) (l : List ℕ) (a : ℕ) → contains (keep p l) a ≡ (p a && contains l a)
unfolding contains keep
contains-keep p [] a = ground arith
contains-keep p (x ∷ l) a = elim (Bool-cases (a == x)) [
  | inl e ↦ rw ((==_iff a x).0 e) (ground (arith, contains-keep p l x))
  | inr n ↦ ground (arith, contains-keep p l a)
]
