-- ===== src/Prelude/Sort.antt =====
-- `sort.Slice` of Go's library, for one of the orders that it may leave equal elements in.
use mathlib.Core.Path.{◌≡◌, refl, ap}
use mathlib.Core.Logic.{inl, inr}
use mathlib.Core.Bool.{Bool, true, ◌&&◌, ◌||◌}
use mathlib.Core.List.{List, [], ◌∷◌, Perm}
use mathlib.Core.List.Perm
use native.Mathlib.Omega.{arith}
use changeguard.Prelude.Tests.{if◌then◌else◌, Bool-cases}
use changeguard.Prelude.Find.{any, filter}

unfoldable pub insert_by : {A : Type 0} → (A → A → Bool) → A → List A → List A
insert_by less a [] = a ∷ []
insert_by less a (b ∷ rest) =
    let later = insert_by less a rest in if less b a then b ∷ later else a ∷ b ∷ rest

unfoldable pub sort_by : {A : Type 0} → (A → A → Bool) → List A → List A
unfolding insert_by
sort_by less [] = []
sort_by less (a ∷ rest) = insert_by less a (sort_by less rest)

module _ {A : Type 0} (p : A → Bool) where
  any-cons : (x : A) (xs : List A) → any p (x ∷ xs) ≡ (p x || any p xs)
  unfolding any
  any-cons x xs = ground arith

  any-insert_by :
      (less : A → A → Bool) (a : A) (xs : List A) → any p (insert_by less a xs) ≡ (p a || any p xs)
  unfolding insert_by
  any-insert_by less a [] = any-cons a []
  any-insert_by less a (b ∷ xs) = elim (Bool-cases (less b a)) [
    | inl h ↦
        rw h
          (ground (arith, any-insert_by less a xs, any-cons b (insert_by less a xs), any-cons b xs))
    | inr h ↦ rw h (any-cons a (b ∷ xs))
  ]

  pub any-sort_by : (less : A → A → Bool) (xs : List A) → any p (sort_by less xs) ≡ any p xs
  unfolding sort_by
  any-sort_by less [] = refl
  any-sort_by less (a ∷ xs) =
      ground (arith, any-insert_by less a (sort_by less xs), any-sort_by less xs, any-cons a xs)

pub any-filter :
    {A : Type 0} (p q : A → Bool) (xs : List A) → any p (filter q xs) ≡ any (λ x. q x && p x) xs
unfolding any filter
any-filter p q [] = refl
any-filter p q (x ∷ xs) = elim (Bool-cases (q x)) [
  | inl h ↦ rw h (ap (λ b. if p x then true else b) (any-filter p q xs))
  | inr h ↦ rw h (any-filter p q xs)
]

module _ {A : Type 0} (less : A → A → Bool) where
  insert_by-Perm : (a : A) (xs : List A) → Perm (insert_by less a xs) (a ∷ xs)
  unfolding insert_by
  insert_by-Perm a [] = Perm.refl (a ∷ [])
  insert_by-Perm a (b ∷ xs) = elim (Bool-cases (less b a)) [
    | inl h ↦ rw h (Perm.trans (Perm.cons b (insert_by-Perm a xs)) (Perm.swap a b xs))
    | inr h ↦ rw h (Perm.refl (a ∷ b ∷ xs))
  ]

  pub sort_by-Perm : (xs : List A) → Perm (sort_by less xs) xs
  unfolding sort_by
  sort_by-Perm [] = Perm.nil
  sort_by-Perm (a ∷ xs) =
      Perm.trans (insert_by-Perm a (sort_by less xs)) (Perm.cons a (sort_by-Perm xs))
