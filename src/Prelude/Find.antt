-- ===== src/Prelude/Find.antt =====
-- Loops over a slice that stop at the first element that passes a test, and those that rewrite
-- or drop elements in place.
use Prim.Native.Nat.{ℕ, suc}
use mathlib.Core.Path.{◌≡◌, refl}
use mathlib.Core.Bool.{Bool, true, false}
use mathlib.Core.Option.{Option, none, some}
use mathlib.Core.List.{List, [], ◌∷◌, ◌++◌}
use native.Mathlib.Omega.{arith}
use changeguard.Prelude.Tests.{if◌then◌else◌}
use changeguard.Prelude.Lists.{length, set?}

module _ {ℓ} {A : Type ℓ} where
  -- the first element that passes the test
  unfoldable pub find : (A → Bool) → List A → Option A
  find p [] = none
  find p (x ∷ xs) = let rest = find p xs in if p x then some x else rest

  unfoldable pub any : (A → Bool) → List A → Bool
  any p [] = false
  any p (x ∷ xs) = let rest = any p xs in if p x then true else rest

  unfoldable pub filter : (A → Bool) → List A → List A
  filter p [] = []
  filter p (x ∷ xs) = let rest = filter p xs in if p x then x ∷ rest else rest

  -- the last element that passes the test: a loop from the end of the slice
  unfoldable pub find_last : (A → Bool) → List A → Option A
  find_last p [] = none
  find_last p (x ∷ xs) =
      let rest = find_last p xs in
      elim rest [ some y ↦ some y | none ↦ if p x then some x else none ]

  -- the first element that passes the test is replaced
  unfoldable pub replace_first : (A → Bool) → A → List A → List A
  replace_first p v [] = []
  replace_first p v (x ∷ xs) = let rest = replace_first p v xs in if p x then v ∷ xs else x ∷ rest

  -- its index
  unfoldable pub position : (A → Bool) → List A → ℕ
  position p [] = 0
  position p (x ∷ xs) = let rest = position p xs in if p x then 0 else suc rest

  -- and is dropped
  unfoldable pub drop_first : (A → Bool) → List A → List A
  drop_first p [] = []
  drop_first p (x ∷ xs) = let rest = drop_first p xs in if p x then xs else x ∷ rest

module _ {ℓ} {A : Type ℓ} (p : A → Bool) where
  pub find_holds : (xs : List A) (x : A) → find p xs ≡ some x → p x ≡ true
  unfolding find
  find_holds [] x h = ground arith
  find_holds (y ∷ xs) x h = ground (arith, find_holds xs x)

  -- the replaced element is the one that is found from then on
  pub find-replace_first :
      (xs : List A) (v x : A)
      → find p xs ≡ some x
      → p v ≡ true
      → find p (replace_first p v xs) ≡ some v
  unfolding find replace_first
  find-replace_first [] v x h hv = ground arith
  find-replace_first (y ∷ xs) v x h hv = ground (arith, find-replace_first xs v x)

  -- a test that tells neither the old nor the new element apart does not see the replacement
  pub find-replace_first_other :
      (q : A → Bool) (xs : List A) (v x : A)
      → find p xs ≡ some x
      → q x ≡ false
      → q v ≡ false
      → find q (replace_first p v xs) ≡ find q xs
  unfolding find replace_first
  find-replace_first_other q [] v x h hx hv = refl
  find-replace_first_other q (y ∷ xs) v x h hx hv =
      ground (arith, find-replace_first_other q xs v x)

  pub length-replace_first : (xs : List A) (v : A) → length (replace_first p v xs) ≡ length xs
  unfolding replace_first
  length-replace_first [] v = refl
  length-replace_first (y ∷ xs) v = ground (arith, length-replace_first xs v)

  pub any-of_find : (xs : List A) (x : A) → find p xs ≡ some x → any p xs ≡ true
  unfolding find any
  any-of_find [] x h = ground arith
  any-of_find (y ∷ xs) x h = ground (arith, any-of_find xs x)

  pub find-none-of_any : (xs : List A) → any p xs ≡ false → find p xs ≡ none
  unfolding find any
  find-none-of_any [] h = refl
  find-none-of_any (y ∷ xs) h = ground (arith, find-none-of_any xs)

  -- writing the old element back at its index undoes a replacement
  pub set?-position :
      (xs : List A) (v x : A)
      → find p xs ≡ some x
      → set? (replace_first p v xs) (position p xs) x ≡ some xs
  unfolding find replace_first position
  set?-position [] v x h = ground arith
  set?-position (y ∷ xs) v x h = ground (arith, set?-position xs v x)

  pub set?-position_same :
      (xs : List A) (x : A) → find p xs ≡ some x → set? xs (position p xs) x ≡ some xs
  unfolding find position
  set?-position_same [] x h = ground arith
  set?-position_same (y ∷ xs) x h = ground (arith, set?-position_same xs x)

  -- nor does a test see another element than the new one where a narrower test has replaced
  pub find-replace_first_narrow :
      (q : A → Bool) (xs : List A) (v x : A)
      → ((y : A) → q y ≡ true → p y ≡ true)
      → find p xs ≡ some x
      → q x ≡ true
      → p v ≡ true
      → find p (replace_first q v xs) ≡ some v
  unfolding find replace_first
  find-replace_first_narrow q [] v x n h hx hv = ground arith
  find-replace_first_narrow q (y ∷ xs) v x n h hx hv =
      ground (arith, n y, find-replace_first_narrow q xs v x n)

  -- the element that is found is also the first that passes a narrower test which it passes
  pub find-narrow :
      (q : A → Bool) (xs : List A) (x : A)
      → ((y : A) → q y ≡ true → p y ≡ true)
      → find p xs ≡ some x
      → q x ≡ true
      → find q xs ≡ some x
  unfolding find
  find-narrow q [] x i h hx = ground arith
  find-narrow q (y ∷ xs) x i h hx = ground (arith, i y, find-narrow q xs x i)

  pub find-append :
      (xs : List A) (x : A) → find p xs ≡ none → p x ≡ true → find p (xs ++ x ∷ []) ≡ some x
  unfolding find
  find-append [] x n h = ground arith
  find-append (y ∷ xs) x n h = ground (arith, find-append xs x)

  pub any-of_find-none : (xs : List A) → find p xs ≡ none → any p xs ≡ false
  unfolding find any
  any-of_find-none [] h = refl
  any-of_find-none (y ∷ xs) h = ground (arith, any-of_find-none xs)
