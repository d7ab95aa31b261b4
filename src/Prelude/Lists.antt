-- ===== src/Prelude/Lists.antt =====
-- Lists measured by native numbers, and tests on lists, under the library's names.
use Prim.Native.Nat.{ℕ, zero, suc, ◌+◌, ◌≤◌}
use mathlib.Core.Path.{◌≡◌}
use mathlib.Core.Logic.{inl, inr}
use mathlib.Core.Bool.{Bool, true, false, ◌&&◌, ◌||◌}
use mathlib.Core.List.{List, [], ◌∷◌, ◌++◌}
use mathlib.Core.Option.{Option, none, some}
use native.Mathlib.Omega.{arith}
use osds.Prelude.Tests.{Bool-cases, if◌then◌else◌}

module _ {ℓ} {A : Type ℓ} where
  abbrev pub length : List A → ℕ
  length [] = 0
  length (x ∷ xs) = suc (length xs)

  abbrev pub take : ℕ → List A → List A
  take zero xs = []
  take (suc n) [] = []
  take (suc n) (x ∷ xs) = x ∷ take n xs

  abbrev pub is_empty : List A → Bool
  is_empty [] = true
  is_empty (x ∷ xs) = false

  -- `next((x for x in xs if test(x)), None)`: the `.first()` of a filtered query
  abbrev pub find : (A → Bool) → List A → Option A
  find test [] = none
  find test (x ∷ xs) = if test x then some x else find test xs

  -- the rows that a query's filter keeps, in order
  abbrev pub select : (A → Bool) → List A → List A
  select test [] = []
  select test (x ∷ xs) = if test x then x ∷ select test xs else select test xs

  abbrev pub any : (A → Bool) → List A → Bool
  any test [] = false
  any test (x ∷ xs) = test x || any test xs

  abbrev pub all : (A → Bool) → List A → Bool
  all test [] = true
  all test (x ∷ xs) = test x && all test xs

  pub length-append : (xs ys : List A) → length (xs ++ ys) ≡ length xs + length ys
  length-append [] ys = omega arith
  length-append (x ∷ xs) ys = omega (arith, length-append xs ys)

  pub length-take-le : (n : ℕ) (xs : List A) → length (take n xs) ≤ n
  length-take-le zero xs = omega arith
  length-take-le (suc n) [] = omega arith
  length-take-le (suc n) (x ∷ xs) = omega (arith, length-take-le n xs)

module _ {ℓ} {A : Type ℓ} where
  pub find_of_any :
      (test : A → Bool) (xs : List A) → any test xs ≡ true → (x : A) × (find test xs ≡ some x)
  find_of_any test [] h = cc
  find_of_any test (x ∷ xs) h = elim (Bool-cases (test x)) [
    | inl e ↦ (x, rw e)
    | inr e ↦ let (y, f) = find_of_any test xs (ground arith) in (y, rw e f)
  ]

  pub any_of_find :
      (test : A → Bool) (xs : List A) {x : A} → find test xs ≡ some x → any test xs ≡ true
  any_of_find test [] h = cc
  any_of_find test (x ∷ xs) {x = y} h = ground (arith, any_of_find test xs {x = y})

  pub any-append_left :
      (test : A → Bool) (xs ys : List A) → any test xs ≡ true → any test (xs ++ ys) ≡ true
  any-append_left test [] ys h = cc
  any-append_left test (x ∷ xs) ys h = ground (arith, any-append_left test xs ys)

  pub any-append_last :
      (test : A → Bool) (xs : List A) (y : A) → test y ≡ true → any test (xs ++ y ∷ []) ≡ true
  any-append_last test [] y h = ground arith
  any-append_last test (x ∷ xs) y h = ground (arith, any-append_last test xs y h)
