-- ===== src/Service/Idempotent/Begins.antt =====
-- What `claimIdempotency` of internal/service/idempotency.go has claimed.
use changeguard.Prelude.{
  ℕ, zero, suc, ◌+◌, ◌-◌, String, ◌≡◌, refl, ap, Bool, true, false, ◌&&◌, none, some, ltb, arith,
  eq_refl, Bool-cases, Option-cases, inl, inr, find,
}
use changeguard.Model.Status.{Time}
use changeguard.Model.{IdempotencyRecord, Err, Result, ok, err, Result-cases, request_in_progress}
use changeguard.Crypto.{Crypto}
use changeguard.Store.Base.{State, Call, Saving, saved, failed, save_locked}
use changeguard.Store.Idempotency.{
  Begun, begun, begin_idempotency, claim_scope, new_claim, assign_claim, same_scope,
  takeover_idempotency, undo_records, answer_existing,
}
use changeguard.Service.Idempotent.{
  World, wait_limit, polls, Outcome, ran_out, done, now_of, retry, is_concurrent, is_lost,
  is_conflict, is_pending_error, complete_within, recovery_grace, Recovered, Reconcile, Claimed,
  replayed_claim, on_taken, on_pending, on_begun, claim_from, claim_idempotency,
}

-- the claim is of the request
abbrev pub IsOf : IdempotencyRecord → IdempotencyRecord → Type 0
IsOf r claim = (same_scope r claim ≡ true) × (claim.request_digest ≡ r.request_digest)

new_claim-IsOf :
    (k : Crypto) (c : Call) (token : String) (r : IdempotencyRecord)
    → IsOf r (new_claim k c token r)
unfolding new_claim assign_claim same_scope
new_claim-IsOf k c token r = (
  ground (
    arith,
    eq_refl r.organization_id,
    eq_refl r.actor_id,
    eq_refl r.operation,
    eq_refl r.resource,
    eq_refl r.key,
  ),
  refl,
)

begun-IsOf :
    (r claim : IdempotencyRecord) (w : Saving) (s t : State)
    → IsOf r claim
    → (begun (save_locked w s (undo_records t) claim)).1.created ≡ true
    → IsOf r (begun (save_locked w s (undo_records t) claim)).1.claim
begun-IsOf r claim saved s t of h = of
begun-IsOf r claim (failed e none) s t of h = absurd (ground arith)
begun-IsOf r claim (failed e (some x)) s t of h = absurd (ground arith)

answer_existing-created : (item r : IdempotencyRecord) → (answer_existing item r).created ≡ false
unfolding answer_existing
answer_existing-created item r = ground arith

begin_idempotency-IsOf :
    (k : Crypto) (c : Call) (random : Result String) (r : IdempotencyRecord) (s : State)
    → (begin_idempotency k c random r s).1.created ≡ true
    → IsOf r (begin_idempotency k c random r s).1.claim
unfolding begin_idempotency claim_scope
begin_idempotency-IsOf k c random r s h =
    elim (Option-cases (find (λ item. same_scope item r) s.idempotency_records)) [
      | inl f ↦ elim (Result-cases random) [
        | inl (e, g) ↦ absurd (ground (arith, (rw (f, begin_idempotency, g, claim_scope) at h)))
        | inr (token, g) ↦
            rw (f, begin_idempotency, g, claim_scope)
              (begun-IsOf r (new_claim k c token r) c.saving _ s (new_claim-IsOf k c token r)
                (rw (f, begin_idempotency, g, claim_scope) at h))
      ]
      | inr (item, f) ↦
          let h' : (answer_existing item r).created ≡ true = rw (f, begin_idempotency) at h in
          absurd (ground (arith, answer_existing-created item r))
    ]

-- a fresh claim that is answered is of the request
abbrev Fresh : IdempotencyRecord → State × Outcome Claimed → Type 0
Fresh r x =
    (claimed : Claimed) → x.1 ≡ done (ok claimed) → claimed.fresh ≡ true → IsOf r claimed.claim

module _ (k : Crypto) (w : World) (reconcile : Reconcile) (r : IdempotencyRecord) where
  replayed_claim-Fresh : (x : State × Outcome IdempotencyRecord) → Fresh r (replayed_claim x)
  replayed_claim-Fresh (s, ran_out) claimed h f = absurd (ground arith)
  replayed_claim-Fresh (s, done (err e)) claimed h f = absurd (ground arith)
  replayed_claim-Fresh (s, done (ok kept)) claimed h f =
      let same : claimed ≡ record { claim = kept; fresh = false } = ground arith in
      absurd (ground (arith, (rw same at f)))

  -- one poll, if the polls after it are so
  module _ (deadline : Time) (i : ℕ) (again : State → State × Outcome Claimed)
      (more : (t : State) → Fresh r (again t)) where
    retry-Fresh :
        (transient : Bool) (e : Err) (s : State) → Fresh r (retry transient w deadline i e s again)
    unfolding retry
    retry-Fresh transient e s = elim (Bool-cases (transient && ltb (now_of w i) deadline)) [
      | inl h ↦ rw (h, retry) (more s)
      | inr h ↦ rw (h, retry) (λ claimed g f. absurd (ground arith))
    ]

    on_taken-Fresh :
        (found : Recovered) (x : State × Result IdempotencyRecord)
        → Fresh r (on_taken k w deadline i found x again)
    unfolding on_taken
    on_taken-Fresh found (s, ok taken) =
        replayed_claim-Fresh
          (complete_within k w taken found.result found.response_ref found.status i s)
    on_taken-Fresh found (s, err e) = retry-Fresh (is_lost e) e s

    on_pending-Fresh :
        (existing : IdempotencyRecord) (s : State)
        → Fresh r (on_pending k w reconcile deadline i existing s again)
    unfolding on_pending
    on_pending-Fresh existing s =
        elim (Bool-cases (ltb (now_of w i - existing.updated_at) recovery_grace)) [
          | inl held ↦ rw (held, on_pending) (retry-Fresh true request_in_progress s)
          | inr stale ↦ elim (Result-cases (reconcile existing s)) [
            | inl (e, h) ↦ rw (stale, h, on_pending) (λ claimed g f. absurd (ground arith))
            | inr (found, h) ↦ elim (Option-cases found) [
              | inl nothing ↦
                  rw (stale, h, nothing, on_pending) (retry-Fresh true request_in_progress s)
              | inr (effect, some_effect) ↦
                  rw (stale, h, some_effect, on_pending)
                    (on_taken-Fresh effect
                      (takeover_idempotency k (w.call i) (w.random i) existing s))
            ]
          ]
        ]

    on_begun-Fresh :
        (s : State) (b : Begun)
        → (b.created ≡ true → IsOf r b.claim)
        → Fresh r (on_begun k w reconcile deadline i s b again)
    unfolding on_begun
    on_begun-Fresh s b of = elim (Option-cases b.failure) [
      | inl clear ↦
          rw (clear, on_begun)
            (λ claimed g f.
              let same : claimed ≡ record { claim = b.claim; fresh = b.created } = ground arith in
              rw same (of (rw same at f)))
      | inr (e, h) ↦ elim (Bool-cases (is_conflict e)) [
        | inl other ↦ rw (h, other, on_begun) (λ claimed g f. absurd (ground arith))
        | inr same ↦ elim (Bool-cases (is_pending_error e)) [
          | inl held ↦ rw (h, same, held, on_begun) (on_pending-Fresh b.claim s)
          | inr free ↦ rw (h, same, free, on_begun) (retry-Fresh (is_concurrent e) e s)
        ]
      ]
    ]

  claim_from-Fresh :
      (deadline : Time) (f i : ℕ) (s : State) → Fresh r (claim_from k w reconcile r deadline f i s)
  unfolding claim_from
  claim_from-Fresh deadline zero i s = λ claimed h g. absurd (ground arith)
  claim_from-Fresh deadline (suc f) i s =
      let (t, b) = begin_idempotency k (w.call i) (w.random i) r s in
      on_begun-Fresh deadline i
        (λ u. claim_from k w reconcile r deadline f (suc i) (w.meanwhile i u))
        (λ u. claim_from-Fresh deadline f (suc i) (w.meanwhile i u)) t b
        (begin_idempotency-IsOf k (w.call i) (w.random i) r s)

  -- A fresh claim is of the request, in its scope and with its digest.
  pub claim_idempotency-IsOf :
      (s u : State) (claimed : Claimed)
      → claim_idempotency k w reconcile r s ≡ (u, done (ok claimed))
      → claimed.fresh ≡ true
      → IsOf r claimed.claim
  unfolding claim_idempotency
  claim_idempotency-IsOf s u claimed h =
      claim_from-Fresh (now_of w 0 + wait_limit) polls 0 s claimed (ap (λ x. x.1) h)
