-- ===== src/Service/Idempotent/Execute.antt =====
-- `executeIdempotent` of internal/service/idempotency.go, for an operation and its answer's type.
pub mod Recover
pub mod Repeat
pub mod Total
use Prim.Native.String.{◌++◌ as text_append}
use changeguard.Prelude.{ℕ, String, Bool, true, false, Option, none, some, if◌then◌else◌}
use changeguard.Model.{IdempotencyRecord, User, Err, forbidden, malformed_json, Result, ok, err}
use changeguard.Crypto.{Crypto}
use changeguard.Store.Base.{State, Call}
use changeguard.Store.Idempotency.{no_claim, abort_idempotency}
use changeguard.Service.Access.{active_actor}
use changeguard.Service.Idempotent.{
  World, Outcome, ran_out, done, complete_within, Reconcile, Claimed, claim_idempotency,
}

-- `json.Marshal` and `json.Unmarshal` of the answer
pub record Json (A : Type 0) : Type 0 where
  pub encode : A → Result String
  pub decode : String → Option A

-- what a client sends beside the operation's own input
pub record Request : Type 0 where
  pub actor_id : String
  pub operation : String
  pub resource : String
  pub key : String
  pub digest : String
  pub status : ℕ

pub record Replied (A : Type 0) : Type 0 where
  pub value : A
  pub replayed : Bool

abbrev pub request_record : User → Request → IdempotencyRecord
request_record actor q = record no_claim {
  organization_id = actor.organization_id;
  actor_id = actor.id;
  operation = q.operation;
  resource = q.resource;
  key = q.key;
  request_digest = q.digest;
}

abbrev pub change_ref : Request → String
change_ref q = text_append "change:" q.resource

module _ {A : Type 0} where
  abbrev pub replay : Json A → String → Result (Replied A)
  replay json text = elim (json.decode text) [
    | none ↦ err malformed_json
    | some a ↦ ok (record { value = a; replayed = true })
  ]

  abbrev pub answered : A → State × Outcome IdempotencyRecord → State × Outcome (Replied A)
  answered a (s, ran_out) = (s, ran_out)
  answered a (s, done (err e)) = (s, done (err e))
  answered a (s, done (ok r)) = (s, done (ok (record { value = a; replayed = false })))

  -- after the operation: its claim is dropped if it has failed, and completed if it has not
  unfoldable pub after_execute :
      Json A
      → Crypto
      → Call
      → World
      → Request
      → IdempotencyRecord
      → State × Result A
      → State × Outcome (Replied A)
  unfolding abort_idempotency complete_within
  after_execute json k c w q claim (s, err e) = ((abort_idempotency k c claim s).0, done (err e))
  after_execute json k c w q claim (s, ok a) =
      answered a (complete_within k w claim (json.encode a) (change_ref q) q.status 0 s)

  -- with the claim, or the answer that was kept
  unfoldable pub on_claim :
      Json A
      → Crypto
      → Call
      → World
      → (State → State × Result A)
      → Request
      → State × Outcome Claimed
      → State × Outcome (Replied A)
  unfolding after_execute
  on_claim json k c w execute q (s, ran_out) = (s, ran_out)
  on_claim json k c w execute q (s, done (err e)) = (s, done (err e))
  on_claim json k c w execute q (s, done (ok claimed)) =
      if claimed.fresh
      then after_execute json k c w q claimed.claim (execute s)
      else (s, done (replay json claimed.claim.result))

  -- `executeIdempotent`: the worlds of the claim and of the completion, and the call of the abort
  unfoldable pub execute_idempotent :
      Json A
      → Crypto
      → World
      → Call
      → World
      → Reconcile
      → (State → State × Result A)
      → Request
      → State
      → State × Outcome (Replied A)
  unfolding active_actor claim_idempotency on_claim
  execute_idempotent json k w c w₁ reconcile execute q s = elim (active_actor q.actor_id s) [
    | err e ↦ (s, done (err forbidden))
    | ok actor ↦
        on_claim json k c w₁ execute q (claim_idempotency k w reconcile (request_record actor q) s)
  ]
