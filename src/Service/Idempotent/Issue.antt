-- ===== src/Service/Idempotent/Issue.antt =====
-- `IssuePassportIdempotent` of internal/service/idempotency.go.
pub mod Shown
use Prim.Native.String.{◌++◌ as text_append}
use changeguard.Prelude.{
  ℕ, String, ◌≡◌, refl, Bool, true, false, not, ◌&&◌, Option, none, some, List, [], ◌∷◌, ◌==◌, leb,
  if◌then◌else◌, find, arith, Bool-cases, Option-cases, inl, inr,
}
use changeguard.Model.Status.{Time}
use changeguard.Model.{
  IdempotencyRecord, User, AuditEvent, Passport, PassportCredential, Err, forbidden, malformed_json,
  Result, ok, err, Result-cases,
}
use changeguard.Crypto.{Crypto}
use changeguard.Changegate.Token.{Signer}
use changeguard.Store.Base.{State, Call}
use changeguard.Store.UsePassport.{record_audit}
use changeguard.Store.Idempotency.{abort_idempotency}
use changeguard.Store.Listing.{passports_by_change}
use changeguard.Service.Access.{active_actor, audit}
use changeguard.Service.Issue.{issue_passport, truncate}
use changeguard.Service.Idempotent.{
  World, Outcome, ran_out, done, Recovered, Reconcile, Claimed, claim_idempotency, complete_within,
}
use changeguard.Service.Idempotent.Execute.{Json, Request, Replied, request_record}
use changeguard.Service.Idempotent.Operations.{request_of}

pub record PassportIssueResult : Type 0 where
  pub credential : Option PassportCredential
  pub passport : Option Passport
  pub code : String
  pub message : String

abbrev pub already_issued : Passport → PassportIssueResult
already_issued p = record {
  credential = none;
  passport = some p;
  code = "PASSPORT_ALREADY_ISSUED_TOKEN_NOT_REPLAYABLE";
  message = "通行证已签发；明文 Token 仅在首次成功响应中显示，不能重显或重新签发";
}

abbrev pub just_issued : PassportCredential → PassportIssueResult
just_issued credential = record {
  credential = some credential;
  passport = none;
  code = "";
  message = "";
}

abbrev idempotency_audit : Call → User → IdempotencyRecord → String → AuditEvent
idempotency_audit c actor r action =
    record (audit c actor r.resource action (text_append "幂等请求 " r.operation)) {
      request_id = r.key;
      request_digest = r.request_digest;
      resource_id = r.resource;
    }

-- `recordIdempotencyAudit`; a failed write is passed over
unfoldable pub record_idempotency_audit :
    Crypto → Call → Call → User → IdempotencyRecord → String → State → State
unfolding record_audit audit
record_idempotency_audit k c c₁ actor r action s =
    (record_audit k c₁ (idempotency_audit c actor r action) s).0

abbrev pub passport_ref : Passport → String
passport_ref p = text_append "passport:" p.id

-- a passport that the actor issued for the change after the claim was made
unfoldable pub issue_found : Json Passport → Time → String → Reconcile
unfolding find passports_by_change
issue_found json now change_id r s =
    let issued =
      find
        (λ (p : Passport). p.approver_id == r.actor_id && leb (truncate r.created_at) p.issued_at)
        (passports_by_change now r.organization_id change_id s) in
    elim issued [
      | none ↦ ok none
      | some p ↦
          ok (some (record { result = json.encode p; response_ref = passport_ref p; status = 201 }))
    ]

abbrev pub replay_issue : Json Passport → String → Result (Replied PassportIssueResult)
replay_issue json text = elim (json.decode text) [
  | none ↦ err malformed_json
  | some p ↦ ok (record { value = already_issued p; replayed = true })
]

abbrev pub answered_issue :
    PassportCredential
    → State × Outcome IdempotencyRecord
    → State × Outcome (Replied PassportIssueResult)
answered_issue credential (s, ran_out) = (s, ran_out)
answered_issue credential (s, done (err e)) = (s, done (err e))
answered_issue credential (s, done (ok r)) =
    (s, done (ok (record { value = just_issued credential; replayed = false })))

unfoldable pub after_issue :
    Json Passport
    → Crypto
    → Call
    → World
    → IdempotencyRecord
    → State × Result PassportCredential
    → State × Outcome (Replied PassportIssueResult)
unfolding abort_idempotency complete_within
after_issue json k c w claim (s, err e) = ((abort_idempotency k c claim s).0, done (err e))
after_issue json k c w claim (s, ok credential) = answered_issue credential (
    complete_within k w claim (json.encode credential.passport) (passport_ref credential.passport)
      201 0 s)

unfoldable pub on_issue_claim :
    Json Passport
    → Crypto
    → Call
    → World
    → (State → State × Result PassportCredential)
    → State × Outcome Claimed
    → State × Outcome (Replied PassportIssueResult)
unfolding after_issue
on_issue_claim json k c w issue (s, ran_out) = (s, ran_out)
on_issue_claim json k c w issue (s, done (err e)) = (s, done (err e))
on_issue_claim json k c w issue (s, done (ok claimed)) =
    if claimed.fresh
    then after_issue json k c w claimed.claim (issue s)
    else (s, done (replay_issue json claimed.claim.result))

-- `IssuePassportIdempotent`: the calls of the audit, the world of the claim, the time at which
-- passports are listed, the call of an abort, the world of the completion, then what `IssuePassport` takes
unfoldable pub issue_passport_idempotent :
    Json Passport
    → Crypto
    → Call
    → Call
    → World
    → Time
    → Call
    → World
    → Option Signer
    → Time
    → Call
    → Call
    → Result String
    → String
    → String
    → String
    → String
    → ℕ
    → State
    → State × Outcome (Replied PassportIssueResult)
unfolding active_actor record_idempotency_audit claim_idempotency issue_found on_issue_claim
    issue_passport
issue_passport_idempotent json k a a₁ w now c w₁ signer ttl c₀ c₁ new_id change_id actor_id key
      digest seconds s =
    let q : Request = request_of actor_id "ISSUE_PASSPORT" change_id key digest in
    elim (active_actor actor_id s) [
      | err e ↦ (s, done (err forbidden))
      | ok actor ↦
          let r = request_record actor q in
          on_issue_claim json k c w₁
            (issue_passport k signer ttl c₀ c₁ new_id change_id actor_id seconds)
            (claim_idempotency k w (issue_found json now change_id) r
              (record_idempotency_audit k a a₁ actor r "IDEMPOTENCY_CLAIM" s))
    ]
