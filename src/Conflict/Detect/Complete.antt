-- ===== src/Conflict/Detect/Complete.antt =====
-- The pairs of changes that `Detect` of internal/conflict/detector.go goes through.
use changeguard.Prelude.{
  insert_by, sort_by, ◌≡◌, refl, ap, ◌∙◌, subst, Bool, true, some, filter, List, [], ◌∷◌, ◌++◌,
  Bool-cases, Option-cases, ◌⊎◌, inl, inr, Has,
}
use changeguard.Model.Status.{Time}
use changeguard.Conflict.{Application, Planned, Extract, ChangeConflict}
use changeguard.Conflict.Detect.{
  with_others, pairs, conflict_of, conflict_lt, active_changes, start_of, end_of, detect,
}

-- the first stands in the list somewhere before the second
abbrev pub Precedes : {A : Type 0} → A → A → List A → Type 0
Precedes a b [] = ⊥
Precedes a b (x ∷ xs) = ((a ≡ x) × Has b xs) ⊎ Precedes a b xs

module _ {A : Type 0} where
  Has-insert_by :
      (less : A → A → Bool) (a b : A) (xs : List A)
      → (a ≡ b) ⊎ Has a xs
      → Has a (insert_by less b xs)
  unfolding insert_by
  Has-insert_by less a b [] h = h
  Has-insert_by less a b (x ∷ xs) h = elim (Bool-cases (less x b)) [
    | inr l ↦ rw l h
    | inl l ↦ rw l (elim h [
      | inl e ↦ inr (Has-insert_by less a b xs (inl e))
      | inr (inl e) ↦ inl e
      | inr (inr g) ↦ inr (Has-insert_by less a b xs (inr g))
    ])
  ]

  Has-sort_by : (less : A → A → Bool) (a : A) (xs : List A) → Has a xs → Has a (sort_by less xs)
  unfolding sort_by
  Has-sort_by less a [] h = elim h [ ]
  Has-sort_by less a (x ∷ xs) (inl e) = Has-insert_by less a x (sort_by less xs) (inl e)
  Has-sort_by less a (x ∷ xs) (inr h) =
      Has-insert_by less a x (sort_by less xs) (inr (Has-sort_by less a xs h))

  pub Has-insert_by_back :
      (less : A → A → Bool) (a b : A) (xs : List A)
      → Has a (insert_by less b xs)
      → (a ≡ b) ⊎ Has a xs
  unfolding insert_by
  Has-insert_by_back less a b [] h = h
  Has-insert_by_back less a b (x ∷ xs) h = elim (Bool-cases (less x b)) [
    | inr l ↦ rw l at h
    | inl l ↦
        let g : (a ≡ x) ⊎ Has a (insert_by less b xs) = rw l at h in
        elim g [
          | inl e ↦ inr (inl e)
          | inr i ↦ elim (Has-insert_by_back less a b xs i) [ inl e ↦ inl e | inr m ↦ inr (inr m) ]
        ]
  ]

  pub Has-sort_by_back :
      (less : A → A → Bool) (a : A) (xs : List A) → Has a (sort_by less xs) → Has a xs
  unfolding sort_by
  Has-sort_by_back less a [] h = h
  Has-sort_by_back less a (x ∷ xs) h = elim (Has-insert_by_back less a x (sort_by less xs) h) [
    | inl e ↦ inl e
    | inr g ↦ inr (Has-sort_by_back less a xs g)
  ]

  pub Has-filter_back :
      (q : A → Bool) (a : A) (xs : List A) → Has a (filter q xs) → (q a ≡ true) × Has a xs
  unfolding filter
  Has-filter_back q a [] h = elim h [ ]
  Has-filter_back q a (x ∷ xs) h = elim (Bool-cases (q x)) [
    | inr b ↦ let (holds, g) = Has-filter_back q a xs (rw b at h) in (holds, inr g)
    | inl b ↦
        let g : (a ≡ x) ⊎ Has a (filter q xs) = rw b at h in
        elim g [
          | inl e ↦ (ap q e ∙ b, inl e)
          | inr i ↦ let (holds, m) = Has-filter_back q a xs i in (holds, inr m)
        ]
  ]

  pub Precedes-Has : (a b : A) (xs : List A) → Precedes a b xs → Has a xs × Has b xs
  Precedes-Has a b [] h = elim h [ ]
  Precedes-Has a b (x ∷ xs) (inl (e, h)) = (inl e, inr h)
  Precedes-Has a b (x ∷ xs) (inr h) = let (f, g) = Precedes-Has a b xs h in (inr f, inr g)

  Has-append_left : (a : A) (xs ys : List A) → Has a xs → Has a (xs ++ ys)
  Has-append_left a [] ys h = elim h [ ]
  Has-append_left a (x ∷ xs) ys (inl e) = inl e
  Has-append_left a (x ∷ xs) ys (inr h) = inr (Has-append_left a xs ys h)

  Has-append_right : (a : A) (xs ys : List A) → Has a ys → Has a (xs ++ ys)
  Has-append_right a [] ys h = h
  Has-append_right a (x ∷ xs) ys h = inr (Has-append_right a xs ys h)

module _ (x : Extract) (apps : List Application) (left right : Planned) (c : ChangeConflict)
    (met : conflict_of x apps left right ≡ some c) where
  with_others-Has :
      (others : List Planned) → Has right others → Has c (with_others x apps left others)
  unfolding with_others
  with_others-Has [] h = elim h [ ]
  with_others-Has (y ∷ others) (inl e) =
      rw (subst (λ z. conflict_of x apps left z ≡ some c) e met) (inl refl)
  with_others-Has (y ∷ others) (inr h) = elim (Option-cases (conflict_of x apps left y)) [
    | inl clear ↦ rw clear (with_others-Has others h)
    | inr (d, found) ↦ rw found (inr (with_others-Has others h))
  ]

  pairs-Has : (active : List Planned) → Precedes left right active → Has c (pairs x apps active)
  unfolding pairs
  pairs-Has [] h = elim h [ ]
  pairs-Has (y ∷ active) (inl (e, h)) =
      Has-append_left c (with_others x apps y active) (pairs x apps active)
        (subst (λ z. Has c (with_others x apps z active)) e (with_others-Has active h))
  pairs-Has (y ∷ active) (inr h) =
      Has-append_right c (with_others x apps y active) (pairs x apps active) (pairs-Has active h)

  -- If two changes stand one before the other among the changes of the window, in the order in which
  -- they are planned, and are found in conflict, then `Detect` reports their conflict.
  pub detect-Has :
      (now : Time) (changes : List Planned) (from to : Time)
      → Precedes left right
          (active_changes (start_of now from) (end_of (start_of now from) to) changes)
      → Has c (detect x now changes apps from to).conflicts
  unfolding detect
  detect-Has now changes from to h =
      let start = start_of now from in
      let active = active_changes start (end_of start to) changes in
      Has-sort_by conflict_lt c (pairs x apps active) (pairs-Has active h)
