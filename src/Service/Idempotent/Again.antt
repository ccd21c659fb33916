-- ===== src/Service/Idempotent/Again.antt =====
-- What `claimIdempotency` of internal/service/idempotency.go answers about a request that is done.
use changeguard.Prelude.{◌+◌, ◌≡◌, refl, ap, ◌∙◌, Bool, true, false, none, some, if◌then◌else◌}
use changeguard.Model.Status.{Time}
use changeguard.Model.{IdempotencyRecord, idempotency_conflict, request_conflict, ok, err}
use changeguard.Crypto.{Crypto}
use changeguard.Store.Base.{State}
use changeguard.Store.Idempotency.{begin_idempotency}
use changeguard.Service.Idempotent.{
  World, Outcome, done, now_of, wait_limit, Reconcile, Claimed, on_begun, claim_from,
  claim_idempotency,
}

on_begun_again :
    (k : Crypto) (w : World) (reconcile : Reconcile) (deadline : Time) (v : State)
    (kept : IdempotencyRecord) (again : State → State × Outcome Claimed) (same : Bool)
    → on_begun k w reconcile deadline 0 v
        (record {
          claim = kept;
          created = false;
          failure = if same then none else some idempotency_conflict;
        })
        again
      ≡ (
        v,
        done (if same then ok (record { claim = kept; fresh = false }) else err request_conflict),
      )
unfolding on_begun
on_begun_again k w reconcile deadline v kept again true = refl
on_begun_again k w reconcile deadline v kept again false = refl

pub claim_idempotency_again :
    (k : Crypto) (w : World) (reconcile : Reconcile) (r : IdempotencyRecord) (v : State)
    (kept : IdempotencyRecord) (same : Bool)
    → begin_idempotency k (w.call 0) (w.random 0) r v ≡ (
      v,
      record {
        claim = kept;
        created = false;
        failure = if same then none else some idempotency_conflict;
      },
    )
    → claim_idempotency k w reconcile r v ≡ (
      v,
      done (if same then ok (record { claim = kept; fresh = false }) else err request_conflict),
    )
unfolding claim_idempotency claim_from
claim_idempotency_again k w reconcile r v kept same e =
    let deadline = now_of w 0 + wait_limit in
    let again : State → State × Outcome Claimed =
      λ u. claim_from k w reconcile r deadline 500 1 (w.meanwhile 0 u) in
    ap (λ x. on_begun k w reconcile deadline 0 x.0 x.1 again) e
    ∙ on_begun_again k w reconcile deadline v kept again same
