-- ===== src/Store/Idempotency/Kept.antt =====
-- The record of a completed request, and what a request of its scope finds.
use std.Path.{fun_ext}
use changeguard.Prelude.{
  ◌&&◌, ◌∙◌, if◌then◌else◌, ℕ, String, ◌≡◌, refl, ap, ◌∙◌, subst, Bool, true, false, none, some,
  List, [], ◌∷◌, ◌==◌, eq_iff, eq_refl, arith, find, any, find_holds, Bool-cases, inl, inr,
}
use changeguard.Model.Status.{succeeded}
use changeguard.Model.{IdempotencyRecord, idempotency_conflict, Result}
use changeguard.Crypto.{Crypto}
use changeguard.Store.Base.{State, Call}
use changeguard.Store.Idempotency.{
  same_scope, same_request, Begun, begin_idempotency, same_result, answer_existing,
  public_idempotency_record,
}
use changeguard.Store.Idempotency.Unique.{in_scope, Unique}

-- the request is completed in the state, with this result
pub record Done (k : Crypto) (r : IdempotencyRecord) (encoded ref : String) (status : ℕ) (t : State)
    (item : IdempotencyRecord) : Type 0 where
  pub stands : find (same_request r) t.idempotency_records ≡ some item
  pub finished : item.status ≡ succeeded
  pub kept : same_result k encoded ref status item ≡ true

pub same_scope_trans :
    (x y r : IdempotencyRecord)
    → same_scope x r ≡ true
    → same_scope y r ≡ true
    → same_scope x y ≡ true
unfolding same_scope
same_scope_trans x y r h g = ground (
  arith,
  eq_iff x.organization_id r.organization_id,
  eq_iff x.actor_id r.actor_id,
  eq_iff x.operation r.operation,
  eq_iff x.resource r.resource,
  eq_iff x.key r.key,
  eq_iff y.organization_id r.organization_id,
  eq_iff y.actor_id r.actor_id,
  eq_iff y.operation r.operation,
  eq_iff y.resource r.resource,
  eq_iff y.key r.key,
  eq_refl y.organization_id,
  eq_refl y.actor_id,
  eq_refl y.operation,
  eq_refl y.resource,
  eq_refl y.key,
)

pub same_scope_refl : (x : IdempotencyRecord) → same_scope x x ≡ true
unfolding same_scope
same_scope_refl x = ground (
  arith,
  eq_refl x.organization_id,
  eq_refl x.actor_id,
  eq_refl x.operation,
  eq_refl x.resource,
  eq_refl x.key,
)

pub same_request-scope :
    (r z : IdempotencyRecord)
    → same_request r z ≡ true
    → (same_scope z r ≡ true) × (z.request_digest ≡ r.request_digest)
unfolding same_request
same_request-scope r z h =
    let digest : z.request_digest ≡ r.request_digest =
      ground (arith, eq_iff z.request_digest r.request_digest) in
    (ground arith, digest)

pub same_scope-congr :
    (o r : IdempotencyRecord)
    → same_scope o r ≡ true
    → ◌≡◌ {A = IdempotencyRecord → Bool} (λ item. same_scope item o) (λ item. same_scope item r)
unfolding same_scope
same_scope-congr o r h = fun_ext (λ item. ground (
  arith,
  eq_iff o.organization_id r.organization_id,
  eq_iff o.actor_id r.actor_id,
  eq_iff o.operation r.operation,
  eq_iff o.resource r.resource,
  eq_iff o.key r.key,
))

pub same_request-congr :
    (o r : IdempotencyRecord)
    → same_scope o r ≡ true
    → o.request_digest ≡ r.request_digest
    → ◌≡◌ {A = IdempotencyRecord → Bool} (same_request o) (same_request r)
unfolding same_request
same_request-congr o r h e = fun_ext (λ (item : IdempotencyRecord).
    ap (λ p. p item && item.request_digest == o.request_digest) (same_scope-congr o r h)
    ∙ ap (λ d. same_scope item r && item.request_digest == d) e)

in_scope-found :
    (r y : IdempotencyRecord) (xs : List IdempotencyRecord) (x : IdempotencyRecord)
    → find (same_request r) xs ≡ some x
    → same_scope y r ≡ true
    → in_scope y xs ≡ true
unfolding find any
in_scope-found r y [] x h g = absurd (ground arith)
in_scope-found r y (z ∷ xs) x h g = elim (Bool-cases (same_request r z)) [
  | inl m ↦ rw (same_scope_trans z y r (same_request-scope r z m).0 g) refl
  | inr m ↦ elim (Bool-cases (same_scope z y)) [
    | inl e ↦ rw e refl
    | inr e ↦ rw e (in_scope-found r y xs x (rw m at h) g)
  ]
]

-- the only record of a scope is the first one of that scope
first_in_scope :
    (r : IdempotencyRecord) (xs : List IdempotencyRecord) (x : IdempotencyRecord)
    → Unique xs
    → find (same_request r) xs ≡ some x
    → find (λ item. same_scope item r) xs ≡ some x
unfolding find any
first_in_scope r [] x u h = absurd (ground arith)
first_in_scope r (y ∷ xs) x (n, u) h = elim (Bool-cases (same_request r y)) [
  | inl m ↦ rw (same_request-scope r y m).0 (rw m at h)
  | inr m ↦ elim (Bool-cases (same_scope y r)) [
    | inl e ↦
        let later : find (same_request r) xs ≡ some x = rw m at h in
        absurd (ground (arith, in_scope-found r y xs x later e))
    | inr e ↦ rw e (first_in_scope r xs x u (rw m at h))
  ]
]

replays :
    (t : State) (item r r' answer : IdempotencyRecord)
    → answer ≡ public_idempotency_record item
    → item.request_digest ≡ r.request_digest
    → item.status ≡ succeeded
    → ◌≡◌ {A = State × Begun}
        (t, answer_existing item r')
        (
          t,
          record {
            claim = answer;
            created = false;
            failure =
                if r.request_digest == r'.request_digest then none else some idempotency_conflict;
          },
        )
unfolding answer_existing
replays t item r r' answer a e f = elim (Bool-cases (r.request_digest == r'.request_digest)) [
  | inl h ↦ rw (a, e, f) (rw h refl)
  | inr h ↦ rw (a, e, f) (rw h refl)
]

-- the same records in another state
pub Done-moved :
    (k : Crypto) (r : IdempotencyRecord) (encoded ref : String) (status : ℕ) (s t : State)
    (item : IdempotencyRecord)
    → t.idempotency_records ≡ s.idempotency_records
    → Done k r encoded ref status s item
    → Done k r encoded ref status t item
Done-moved k r encoded ref status s t item same d = record {
  stands = ap (find (same_request r)) same ∙ d.stands;
  finished = d.finished;
  kept = d.kept;
}

module _ (k : Crypto) (r : IdempotencyRecord) (encoded ref : String) (status : ℕ) (t : State)
    (item : IdempotencyRecord) (d : Done k r encoded ref status t item) where
  pub digest-Done : item.request_digest ≡ r.request_digest
  digest-Done =
      (same_request-scope r item
        (find_holds (same_request r) t.idempotency_records item d.stands)).1

  -- an attempt to begin a request of the scope is given the record, and changes nothing
  pub Done-replay :
      (c' : Call) (random : Result String) (r' : IdempotencyRecord)
      → same_scope r r' ≡ true
      → Unique t.idempotency_records
      → begin_idempotency k c' random r' t ≡ (
        t,
        record {
          claim = public_idempotency_record item;
          created = false;
          failure =
              if r.request_digest == r'.request_digest then none else some idempotency_conflict;
        },
      )
  unfolding begin_idempotency
  Done-replay c' random r' same u =
      let first = first_in_scope r t.idempotency_records item u d.stands in
      let first' : find (λ i. same_scope i r') t.idempotency_records ≡ some item =
        subst (λ p. find p t.idempotency_records ≡ some item) (same_scope-congr r r' same) first in
      rw (first', begin_idempotency)
        (replays t item r r' (public_idempotency_record item) refl digest-Done d.finished)
