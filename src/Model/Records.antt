-- ===== src/Model/Records.antt =====
-- internal/model: the records that the store's protocols keep (passports, idempotency claims and
-- outbox events), and what a gate call takes and returns.
use changeguard.Prelude.{ℕ, String, Bool, Option}
use changeguard.Model.Status.{Time, PassportStatus, IdempotencyStatus, OutboxStatus, OutboxStage}

pub record Passport : Type 0 where
  pub id : String
  pub organization_id : String
  pub change_id : String
  pub artifact_sha256 : String
  pub environment : String
  pub rule_set_version : String
  pub approver_id : String
  pub approver_name : String
  pub status : PassportStatus
  pub token_sha256 : String
  pub issued_at : Time
  pub expires_at : Time
  pub revoked_at : Option Time
  pub revoked_by_id : String
  pub consumed_at : Option Time
  pub consumed_by : String

-- a passport with the token's hash, as the state keeps it
pub record StoredPassport : Type 0 where
  pub passport : Passport
  pub open passport use *
  pub token_sha256_stored : String

pub record PassportCredential : Type 0 where
  pub passport : Passport
  pub token : String

pub record GateRequest : Type 0 where
  pub token : String
  pub artifact_sha256 : String
  pub environment : String
  pub consumer : String

-- an allowed gate call; a refusal is an error
pub record GateResult : Type 0 where
  pub passport : Passport
  pub replayed : Bool

pub record IdempotencyRecord : Type 0 where
  pub organization_id : String
  pub actor_id : String
  pub operation : String
  pub resource : String
  pub key : String
  pub request_digest : String
  pub status : IdempotencyStatus
  pub generation : ℕ
  pub claim_token : String
  pub claim_token_sha256 : String
  pub http_status : ℕ
  pub result : String
  pub result_digest : String
  pub response_ref : String
  pub created_at : Time
  pub updated_at : Time
  pub completed_at : Option Time
  pub expires_at : Option Time

pub record OutboxEvent : Type 0 where
  pub id : String
  pub organization_id : String
  pub aggregate_type : String
  pub aggregate_id : String
  pub event_type : String
  pub status : OutboxStatus
  pub attempts : ℕ
  pub max_attempts : ℕ
  pub attempt_id : String
  pub lease_generation : ℕ
  pub stage : OutboxStage
  pub stage_started_at : Option Time
  pub stage_updated_at : Option Time
  pub input_sha256 : String
  pub result_digest : String
  pub next_attempt_at : Time
  pub locked_by : String
  pub locked_until : Option Time
  pub last_error : String
  pub created_at : Time
  pub updated_at : Time
  pub completed_at : Option Time
