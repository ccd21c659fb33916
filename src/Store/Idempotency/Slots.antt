-- ===== src/Store/Idempotency/Slots.antt =====
-- What a client may rely on about internal/store/idempotency.go: for each scope, a slot that a request
-- claims, that is answered once, and that is freed. The records, their generations and their tokens
-- implement it.
use changeguard.Prelude.{
  String, ◌≡◌, refl, sym, ap, ◌∙◌, subst, Bool, true, false, Option, none, some, List, [], ◌∷◌,
  ◌++◌, find, any, replace_first, find-replace_first_other, find-none-of_any, any-of_find,
  find-append, arith, ◌⊎◌, inl, inr, Bool-cases, if◌then◌else◌,
}
use changeguard.Model.Status.{pending, succeeded, is_idempotency}
use changeguard.Model.{IdempotencyRecord}
use changeguard.Crypto.{Crypto}
use changeguard.Store.Base.{State}
use changeguard.Store.Idempotency.{same_scope}
use changeguard.Store.Idempotency.Unique.{
  in_scope, Unique, Same, in_scope-Part, Part, end, left_out, kept,
}
use changeguard.Store.Idempotency.Kept.{same_scope-congr}
use changeguard.Store.Idempotency.Changes.{Changed, same, added, rewritten, shrunk}
use changeguard.Store.Idempotency.Runs.{Step, Run, Run-Unique, Step-Changed}

-- a slot holds the digest of the request, and then the digest of its answer too
pub data Slot : Type 0 where
  free : Slot
  running : String → Slot
  answered : String → String → Slot

pub data Move : Slot → Slot → Type 0 where
  claims : (request : String) → Move free (running request)
  answers : (request answer : String) → Move (running request) (answered request answer)
  frees : (x : Slot) → Move x free

-- the slot stays, or makes one move
abbrev pub Moves : Slot → Slot → Type 0
Moves x y = (y ≡ x) ⊎ Move x y

abbrev pub slot_of_record : IdempotencyRecord → Slot
slot_of_record x =
    if is_idempotency x.status succeeded
    then answered x.request_digest x.result_digest
    else running x.request_digest

abbrev pub slot_of : Option IdempotencyRecord → Slot
slot_of none = free
slot_of (some x) = slot_of_record x

-- the slot of a scope
abbrev pub slot : IdempotencyRecord → List IdempotencyRecord → Slot
slot r items = slot_of (find (λ x. same_scope x r) items)

-- of the records of a scope there is one, so its replacement is found
replaced_in_scope :
    (r : IdempotencyRecord) (p : IdempotencyRecord → Bool) (item v : IdempotencyRecord)
    (xs : List IdempotencyRecord)
    → find p xs ≡ some item
    → same_scope item r ≡ true
    → same_scope v r ≡ true
    → Unique xs
    → (find (λ x. same_scope x r) xs ≡ some item)
      × (find (λ x. same_scope x r) (replace_first p v xs) ≡ some v)
unfolding find replace_first
replaced_in_scope r p item v [] f h g u = absurd (ground arith)
replaced_in_scope r p item v (y ∷ ys) f h g (alone, u) = elim (Bool-cases (p y)) [
  | inl e ↦
      let first : some y ≡ some item = rw e at f in
      let is : y ≡ item = ground arith in
      (rw (subst (λ z. same_scope z r ≡ true) (sym is) h) first, rw (e, g) refl)
  | inr e ↦
      let later : find p ys ≡ some item = rw e at f in
      let (old, new) = replaced_in_scope r p item v ys later h g u in
      elim (Bool-cases (same_scope y r)) [
        | inl d ↦
            let there : in_scope y ys ≡ true =
              subst (λ q. any q ys ≡ true) (sym (same_scope-congr y r d))
                (any-of_find (λ x. same_scope x r) ys item old) in
            absurd (ground (arith, there, alone))
        | inr d ↦ (rw d old, rw (e, d) new)
      ]
]

Part-slot :
    (r : IdempotencyRecord) {ys xs : List IdempotencyRecord}
    → Part ys xs
    → Unique xs
    → (find (λ x. same_scope x r) ys ≡ find (λ x. same_scope x r) xs)
      ⊎ (find (λ x. same_scope x r) ys ≡ none)
unfolding find
Part-slot r end u = inl refl
Part-slot r (left_out {ys} {xs} {x} part) (alone, u) = elim (Bool-cases (same_scope x r)) [
  | inl e ↦ inr (
      find-none-of_any (λ z. same_scope z r) ys
        (subst (λ q. any q ys ≡ false) (same_scope-congr x r e) (in_scope-Part x part alone)))
  | inr e ↦ rw e (Part-slot r part u)
]
Part-slot r (kept {ys} {xs} {x} part) (alone, u) = elim (Bool-cases (same_scope x r)) [
  | inl e ↦ rw e (inl refl)
  | inr e ↦ rw e (Part-slot r part u)
]

find-append_other :
    {A : Type 0} (q : A → Bool) (xs : List A) (v : A)
    → q v ≡ false
    → find q (xs ++ v ∷ []) ≡ find q xs
unfolding find
find-append_other q [] v h = rw h refl
find-append_other q (x ∷ xs) v h = ap (λ z. if q x then some x else z) (find-append_other q xs v h)

still :
    (r : IdempotencyRecord) (xs ys : List IdempotencyRecord)
    → find (λ x. same_scope x r) ys ≡ find (λ x. same_scope x r) xs
    → Moves (slot r xs) (slot r ys)
still r xs ys e = inl (ap slot_of e)

added-Moves :
    (r v : IdempotencyRecord) (xs : List IdempotencyRecord)
    → in_scope v xs ≡ false
    → v.status ≡ pending
    → Moves (slot r xs) (slot r (xs ++ v ∷ []))
added-Moves r v xs alone p = elim (Bool-cases (same_scope v r)) [
  | inl e ↦
      let none_here : find (λ x. same_scope x r) xs ≡ none =
        find-none-of_any (λ x. same_scope x r) xs
          (subst (λ q. any q xs ≡ false) (same_scope-congr v r e) alone) in
      let found : find (λ x. same_scope x r) (xs ++ v ∷ []) ≡ some v =
        find-append (λ x. same_scope x r) xs v none_here e in
      rw (none_here, found) (rw p (inr (claims v.request_digest)))
  | inr e ↦ still r xs (xs ++ v ∷ []) (find-append_other (λ x. same_scope x r) xs v e)
]

answers-Moves :
    (item v : IdempotencyRecord)
    → is_idempotency item.status succeeded ≡ false
    → v.request_digest ≡ item.request_digest
    → Moves (slot_of_record item) (slot_of_record v)
answers-Moves item v n i = elim (Bool-cases (is_idempotency v.status succeeded)) [
  | inl e ↦ rw (n, e, i) (inr (answers item.request_digest v.result_digest))
  | inr e ↦ rw (n, e, i) (inl refl)
]

rewritten-Moves :
    (r : IdempotencyRecord) (p : IdempotencyRecord → Bool) (item v : IdempotencyRecord)
    (xs : List IdempotencyRecord)
    → find p xs ≡ some item
    → is_idempotency item.status succeeded ≡ false
    → Same item v
    → v.request_digest ≡ item.request_digest
    → Unique xs
    → Moves (slot r xs) (slot r (replace_first p v xs))
rewritten-Moves r p item v xs f n e i u = elim (Bool-cases (same_scope item r)) [
  | inl h ↦
      let (old, new) = replaced_in_scope r p item v xs f h (e r ∙ h) u in
      rw (old, new) (answers-Moves item v n i)
  | inr h ↦
      still r xs (replace_first p v xs)
        (find-replace_first_other p (λ x. same_scope x r) xs v item f h (e r ∙ h))
]

shrunk-Moves :
    (r : IdempotencyRecord) (xs ys : List IdempotencyRecord)
    → (find (λ x. same_scope x r) ys ≡ find (λ x. same_scope x r) xs)
      ⊎ (find (λ x. same_scope x r) ys ≡ none)
    → Moves (slot r xs) (slot r ys)
shrunk-Moves r xs ys (inl e) = still r xs ys e
shrunk-Moves r xs ys (inr e) = rw e (inr (frees (slot r xs)))

Changed-Moves :
    (k : Crypto) (r : IdempotencyRecord) (xs ys : List IdempotencyRecord)
    → Changed k xs ys
    → Unique xs
    → Moves (slot r xs) (slot r ys)
Changed-Moves k r xs ys same u = inl refl
Changed-Moves k r xs ys (added v alone p) u = added-Moves r v xs alone p
Changed-Moves k r xs ys (rewritten p item v f n e e' h i) u =
    rewritten-Moves r p item v xs f n e i u
Changed-Moves k r xs ys (shrunk part) u = shrunk-Moves r xs ys (Part-slot r part u)

-- The calls on the idempotency records implement a slot for each scope: in every state that calls lead
-- to from one with one record for each scope, failing calls included, if a failed cleanup restores the
-- last saved state, a call leaves the slot of a scope as it is, or claims it while it is free, or
-- answers the request that runs in it, or frees it. So a slot that is claimed passes to no other
-- request, and an answer is not replaced, before it is freed.
pub Run-Moves :
    {k : Crypto} {s t u : State}
    → Run k s t
    → Step k t u
    → Unique s.idempotency_records
    → (r : IdempotencyRecord) → Moves (slot r t.idempotency_records) (slot r u.idempotency_records)
Run-Moves {k = k} {t = t} {u = u} run step unique r =
    Changed-Moves k r t.idempotency_records u.idempotency_records (Step-Changed step)
      (Run-Unique run unique)
