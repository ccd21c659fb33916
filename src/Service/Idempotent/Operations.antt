-- ===== src/Service/Idempotent/Operations.antt =====
-- The operations of internal/service/idempotency.go, and how each finds the effect of a request whose
-- answer was not kept. The creation of a change stands outside, with the creation itself.

pub mod Requeue
use Prim.Native.String.{◌++◌ as text_append}
use changeguard.Prelude.{
  ℕ, String, Bool, true, false, not, ◌&&◌, ◌||◌, Option, none, some, List, [], ◌∷◌, ◌==◌, leb,
  if◌then◌else◌, any, find,
}
use changeguard.Model.Status.{
  Time, second, ChangeStatus, experiment_queued, experiment_running, waiting_approval, approved,
  completed, is_change,
}
use changeguard.Model.{
  IdempotencyRecord, User, ChangeRequest, OutboxEvent, AuditEvent, Passport, PassportCredential,
  Err, forbidden, malformed_json, Result, ok, err, ◌>>=◌,
}
use changeguard.Crypto.{Crypto}
use changeguard.Changegate.Token.{Signer}
use changeguard.Store.Base.{State, Call, change}
use changeguard.Store.UsePassport.{record_audit}
use changeguard.Store.Idempotency.{abort_idempotency}
use changeguard.Store.Listing.{outbox_by_organization, passports_by_change}
use changeguard.Service.Access.{active_actor, audit}
use changeguard.Service.Queue.{queue_experiment}
use changeguard.Service.Review.{approve}
use changeguard.Service.Issue.{issue_passport, truncate}
use changeguard.Service.Idempotent.{
  World, Outcome, ran_out, done, Recovered, Reconcile, Claimed, claim_idempotency, complete_within,
}
use changeguard.Service.Idempotent.Execute.{
  Json, Request, Replied, request_record, change_ref, execute_idempotent,
}

abbrev pub request_of : String → String → String → String → String → Request
request_of actor_id operation id key digest = record {
  actor_id = actor_id;
  operation = operation;
  resource = id;
  key = key;
  digest = digest;
  status = 200;
}

abbrev pub recovered_change : Json ChangeRequest → String → ChangeRequest → Recovered
recovered_change json id x = record {
  result = json.encode x;
  response_ref = text_append "change:" id;
  status = 200;
}

-- a change that was queued, or has gone on from there
abbrev pub was_queued : ChangeRequest → Bool
was_queued x =
    is_change x.status experiment_queued
    || is_change x.status experiment_running
    || is_change x.status waiting_approval
    || is_change x.status approved
    || is_change x.status completed

abbrev pub requests_rehearsal : String → IdempotencyRecord → OutboxEvent → Bool
requests_rehearsal id r e =
    e.aggregate_id == id && e.event_type == "experiment.requested" && leb r.created_at e.created_at

unfoldable pub queue_found : Json ChangeRequest → String → Reconcile
unfolding change any outbox_by_organization
queue_found json id r s = change id s >>= (λ x. ok (
    if was_queued x
      && any (requests_rehearsal id r) (outbox_by_organization r.organization_id true 0 s)
    then some (recovered_change json id x)
    else none))

-- `QueueExperimentIdempotent`
unfoldable pub queue_experiment_idempotent :
    Json ChangeRequest
    → Crypto
    → World
    → Call
    → World
    → Call
    → Call
    → String
    → String
    → String
    → String
    → State
    → State × Outcome (Replied ChangeRequest)
unfolding execute_idempotent queue_experiment queue_found
queue_experiment_idempotent json k w c w₁ c₀ c₁ id actor_id key digest =
    execute_idempotent json k w c w₁ (queue_found json id) (queue_experiment k c₀ c₁ id actor_id)
      (request_of actor_id "QUEUE_EXPERIMENT" id key digest)

unfoldable pub approve_found : Json ChangeRequest → String → Reconcile
unfolding change
approve_found json id r s = change id s >>= (λ x. ok (
    if is_change x.status approved && x.reviewer_id == r.actor_id && leb r.created_at x.updated_at
    then some (recovered_change json id x)
    else none))

-- `ApproveIdempotent`
unfoldable pub approve_idempotent :
    Json ChangeRequest
    → Crypto
    → World
    → Call
    → World
    → Call
    → Call
    → String
    → String
    → String
    → String
    → String
    → State
    → State × Outcome (Replied ChangeRequest)
unfolding execute_idempotent approve approve_found
approve_idempotent json k w c w₁ c₀ c₁ id actor_id key digest comment =
    execute_idempotent json k w c w₁ (approve_found json id) (approve k c₀ c₁ id actor_id comment)
      (request_of actor_id "APPROVE" id key digest)
