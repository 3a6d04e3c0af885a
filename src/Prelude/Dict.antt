-- ===== src/Prelude/Dict.antt =====
-- A Go map from strings, as an association list with one entry for each key.
use Prim.Native.String.{String}
use mathlib.Core.Path.{◌≡◌, refl}
use mathlib.Core.List.{List, [], ◌∷◌}
use mathlib.Core.Option
use Prim.Native.Nat.{◌+◌}
use sentinelstream.Prelude.Lists.{length}
use mathlib.Core.Option.{Option, none, some}
use native.Mathlib.Omega.{arith}
use text.Mathlib.Text.{◌==◌ as str_eq}
use text.Mathlib.TextEquality.{eq_iff}
use sentinelstream.Prelude.Tests.{if◌then◌else◌}

abbrev pub Dict {ℓ} : Type ℓ → Type ℓ
Dict V = List (String × V)

module _ {ℓ} {V : Type ℓ} where
  unfoldable pub lookup : String → Dict V → Option V
  lookup key [] = none
  lookup key ((other, a) ∷ rest) = if str_eq other key then some a else lookup key rest

  unfoldable pub insert : String → V → Dict V → Dict V
  insert key a [] = (key, a) ∷ []
  insert key a ((other, b) ∷ rest) =
      if str_eq other key then (key, a) ∷ rest else (other, b) ∷ insert key a rest

  -- A write through the pointer that the map holds; nothing, if the key is missing.
  unfoldable pub adjust : (V → V) → String → Dict V → Dict V
  adjust f key [] = []
  adjust f key ((other, a) ∷ rest) =
      if str_eq other key then (other, f a) ∷ rest else (other, a) ∷ adjust f key rest

  abbrev pub values : Dict V → List V
  values [] = []
  values ((other, a) ∷ rest) = a ∷ values rest

  abbrev pub IsDict : Dict V → Type ℓ
  IsDict [] = Unit
  IsDict ((other, a) ∷ rest) = (lookup other rest ≡ none) × IsDict rest

  pub lookup-insert :
      (key other : String) (a : V) (rest : Dict V)
      → lookup other (insert key a rest) ≡ (if str_eq key other then some a else lookup other rest)
  unfolding lookup insert
  lookup-insert key other a [] = refl
  lookup-insert key other a ((name, b) ∷ rest) =
      ground (
        arith,
        lookup-insert key other a rest,
        eq_iff name other,
        eq_iff name key,
        eq_iff key other,
      )

  pub lookup-adjust :
      (f : V → V) (key other : String) (rest : Dict V)
      → lookup other (adjust f key rest)
        ≡ (if str_eq key other then Option.map f (lookup other rest) else lookup other rest)
  unfolding lookup adjust
  lookup-adjust f key other [] = ground arith
  lookup-adjust f key other ((name, b) ∷ rest) =
      ground (
        arith,
        eq_iff key other,
        eq_iff name key,
        eq_iff name other,
        lookup-adjust f key other rest,
      )

  pub length-insert :
      (key : String) (a : V) (rest : Dict V)
      → length (insert key a rest)
        ≡ elim (lookup key rest) [ none ↦ length rest + 1 | some _ ↦ length rest ]
  unfolding lookup insert
  length-insert key a [] = ground arith
  length-insert key a ((name, b) ∷ rest) = ground (arith, length-insert key a rest)

  pub length-adjust :
      (f : V → V) (key : String) (rest : Dict V) → length (adjust f key rest) ≡ length rest
  unfolding adjust
  length-adjust f key [] = refl
  length-adjust f key ((name, b) ∷ rest) = ground (arith, length-adjust f key rest)

  pub insert-IsDict :
      (key : String) (a : V) (rest : Dict V) → IsDict rest → IsDict (insert key a rest)
  unfolding lookup insert
  insert-IsDict key a [] d = ground arith
  insert-IsDict key a ((name, b) ∷ rest) d = ground (
    arith,
    eq_iff name key,
    eq_iff key name,
    lookup-insert key name a rest,
    insert-IsDict key a rest d.1,
  )

  pub adjust-IsDict :
      (f : V → V) (key : String) (rest : Dict V) → IsDict rest → IsDict (adjust f key rest)
  unfolding lookup adjust
  adjust-IsDict f key [] d = ground arith
  adjust-IsDict f key ((name, b) ∷ rest) d =
      ground (arith, lookup-adjust f key name rest, adjust-IsDict f key rest d.1)
