-- ===== src/Store/Idempotency/Unique.antt =====
-- One record for each scope: the organization, the actor, the operation, the resource and the key.
use changeguard.Prelude.{
  ℕ, ◌+◌, String, ◌≡◌, refl, ◌∙◌, subst, Bool, true, false, some, List, [], ◌∷◌, ◌++◌, eq_iff,
  eq_refl, arith, ltb, ◌&&◌, find, any, replace_first, drop_first, Bool-cases, inl, inr,
}
use changeguard.Model.Status.{Time}
use changeguard.Model.{IdempotencyRecord}
use changeguard.Store.Idempotency.{same_scope, cleaned, is_removable}

-- some record has the scope
abbrev pub in_scope : IdempotencyRecord → List IdempotencyRecord → Bool
in_scope r items = any (λ item. same_scope item r) items

abbrev pub Unique : List IdempotencyRecord → Type 0
Unique [] = Unit
Unique (x ∷ xs) = (in_scope x xs ≡ false) × Unique xs

-- the records have the same scope
abbrev pub Same : IdempotencyRecord → IdempotencyRecord → Type 0
Same x v = (r : IdempotencyRecord) → same_scope v r ≡ same_scope x r

pub same_scope_comm : (x y : IdempotencyRecord) → same_scope x y ≡ true → same_scope y x ≡ true
unfolding same_scope
same_scope_comm x y h = ground (
  arith,
  eq_iff x.organization_id y.organization_id,
  eq_iff x.actor_id y.actor_id,
  eq_iff x.operation y.operation,
  eq_iff x.resource y.resource,
  eq_iff x.key y.key,
  eq_refl x.organization_id,
  eq_refl x.actor_id,
  eq_refl x.operation,
  eq_refl x.resource,
  eq_refl x.key,
)

in_scope-append :
    (r v : IdempotencyRecord) (xs : List IdempotencyRecord)
    → in_scope r xs ≡ false
    → same_scope v r ≡ false
    → in_scope r (xs ++ v ∷ []) ≡ false
unfolding any
in_scope-append r v [] h n = ground arith
in_scope-append r v (x ∷ xs) h n = ground (arith, in_scope-append r v xs)

pub Unique-append :
    (v : IdempotencyRecord) (xs : List IdempotencyRecord)
    → in_scope v xs ≡ false
    → Unique xs
    → Unique (xs ++ v ∷ [])
unfolding any
Unique-append v [] h u = (refl, tt)
Unique-append v (x ∷ xs) h (n, u) = (
  in_scope-append x v xs n (ground (arith, same_scope_comm v x)),
  Unique-append v xs (ground arith) u,
)

in_scope-replace :
    (p : IdempotencyRecord → Bool) (r x v : IdempotencyRecord) (xs : List IdempotencyRecord)
    → find p xs ≡ some x
    → same_scope v r ≡ same_scope x r
    → in_scope r xs ≡ false
    → in_scope r (replace_first p v xs) ≡ false
unfolding find any replace_first
in_scope-replace p r x v [] f e h = ground arith
in_scope-replace p r x v (y ∷ xs) f e h = ground (arith, in_scope-replace p r x v xs)

pub in_scope-Same :
    (x v : IdempotencyRecord) (xs : List IdempotencyRecord)
    → ((y : IdempotencyRecord) → same_scope y v ≡ same_scope y x)
    → in_scope v xs ≡ in_scope x xs
unfolding any
in_scope-Same x v [] e = refl
in_scope-Same x v (y ∷ xs) e = rw (e y, in_scope-Same x v xs e) refl

pub Unique-replace :
    (p : IdempotencyRecord → Bool) (x v : IdempotencyRecord) (xs : List IdempotencyRecord)
    → find p xs ≡ some x
    → Same x v
    → ((y : IdempotencyRecord) → same_scope y v ≡ same_scope y x)
    → Unique xs
    → Unique (replace_first p v xs)
unfolding find replace_first
Unique-replace p x v [] f e e' u = tt
Unique-replace p x v (y ∷ xs) f e e' (n, u) = elim (Bool-cases (p y)) [
  | inl h ↦
      let same : y ≡ x = ground arith in
      rw h (in_scope-Same x v xs e' ∙ subst (λ z. in_scope z xs ≡ false) same n, u)
  | inr h ↦ rw h (
    in_scope-replace p y x v xs (ground arith) (e y) n,
    Unique-replace p x v xs (ground arith) e e' u,
  )
]

-- some of the records, in their order
pub data Part : List IdempotencyRecord → List IdempotencyRecord → Type 0 where
  end : Part [] []
  left_out :
      {ys xs : List IdempotencyRecord} {x : IdempotencyRecord} → Part ys xs → Part ys (x ∷ xs)
  kept :
      {ys xs : List IdempotencyRecord} {x : IdempotencyRecord} → Part ys xs → Part (x ∷ ys) (x ∷ xs)

Part-all : (xs : List IdempotencyRecord) → Part xs xs
Part-all [] = end
Part-all (x ∷ xs) = kept (Part-all xs)

pub in_scope-Part :
    (r : IdempotencyRecord) {ys xs : List IdempotencyRecord}
    → Part ys xs
    → in_scope r xs ≡ false
    → in_scope r ys ≡ false
unfolding any
in_scope-Part r end h = refl
in_scope-Part r (left_out p) h = ground (arith, in_scope-Part r p)
in_scope-Part r (kept p) h = ground (arith, in_scope-Part r p)

pub Unique-Part : {ys xs : List IdempotencyRecord} → Part ys xs → Unique xs → Unique ys
Unique-Part end u = tt
Unique-Part (left_out p) (n, u) = Unique-Part p u
Unique-Part (kept {x = x} p) (n, u) = (in_scope-Part x p n, Unique-Part p u)

pub drop_first-Part :
    (p : IdempotencyRecord → Bool) (xs : List IdempotencyRecord) → Part (drop_first p xs) xs
unfolding drop_first
drop_first-Part p [] = end
drop_first-Part p (x ∷ xs) = elim (Bool-cases (p x)) [
  | inl h ↦ rw h (left_out (Part-all xs))
  | inr h ↦ rw h (kept (drop_first-Part p xs))
]

pub cleaned-Part :
    (org : String) (at : Time) (limit removed : ℕ) (xs : List IdempotencyRecord)
    → Part (cleaned org at limit removed xs).1 xs
unfolding cleaned
cleaned-Part org at limit removed [] = end
cleaned-Part org at limit removed (x ∷ xs) =
    elim (Bool-cases (ltb removed limit && is_removable org at x)) [
      | inl h ↦ rw h (left_out (cleaned-Part org at limit (removed + 1) xs))
      | inr h ↦ rw h (kept (cleaned-Part org at limit removed xs))
    ]
