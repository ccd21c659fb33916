-- ===== src/Service/Issue.antt =====
-- internal/service/passport.go: issuing a passport for an approved change.
pub mod Requires
pub mod Rules
use Prim.Native.String.{◌++◌ as text_append}
use changeguard.Prelude.{
  ℕ, ◌+◌, ◌*◌, ◌/◌, ◌%◌, ◌^◌, String, byte_len, Bool, true, false, not, ◌&&◌, ◌||◌, Option, none,
  some, List, [], ◌∷◌, ◌==◌, if◌then◌else◌, trim_space, equal_fold, ltb, leb, nat_eq,
}
use changeguard.Model.Status.{
  Time, second, minute, ChangeStatus, approved, is_change, PassportStatus, active, consumed,
  revoked, expired, is_passport, CheckStatus, is_passed,
}
use changeguard.Model.{
  User, CheckRun, ChangeRequest, ExperimentReport, AuditEvent, Passport, PassportCredential,
  GateRequest, GateResult, Err, not_found, conflict, passport_expired, passport_inactive,
  passport_token_mismatch, passport_change_invalid, passport_replay, invalid_state, forbidden,
  validation, gate_unavailable, gate_invalid, gate_expired, gate_revoked, gate_replay,
  artifact_mismatch, environment_mismatch, rule_set_changed, Result, ok, err, ◌>>=◌, ◌>>◌, require,
}
use changeguard.Crypto.{Crypto}
use changeguard.Changegate.Rules.{rule_set_version}
use changeguard.Changegate.Token.{PassportClaims, Signer, issued_at, expires_at}
use changeguard.Store.Base.{State, Call, change}
use changeguard.Store.Passport.{create_passport, passport}
use changeguard.Store.UsePassport.{use_passport, revoke_passport, record_audit}
use changeguard.Store.Listing.{policies_by_organization}
use changeguard.Service.Access.{
  active_actor, can_use_application, review, trusted_for_release, trusted_sql_experiment, audit,
  audit_passport,
}
use changeguard.Service.Review.{run_passed, has_sql}

-- the error is replaced
abbrev pub or_else : {A : Type 0} → Err → Result A → Result A
or_else e (err e') = err e
or_else e (ok a) = ok a

abbrev run_binds : ChangeRequest → Option CheckRun → Bool
run_binds x none = false
run_binds x (some r) =
    r.artifact_sha256 == x.artifact_sha256 && r.rule_set_version == x.rule_set_version

abbrev demo_only : Option ExperimentReport → Bool
demo_only none = false
demo_only (some r) = equal_fold r.mode "DEMO_ONLY" || equal_fold r.status "NOT_RUN"

unfoldable pub current_rules : Crypto → String → State → String
unfolding rule_set_version policies_by_organization
current_rules k org s = rule_set_version k (policies_by_organization org s)

-- the checks of `IssuePassport` on the actor and the change, in the code's order
unfoldable pub may_issue : Crypto → User → ChangeRequest → State → Result (Unit {0})
unfolding can_use_application trusted_for_release trusted_sql_experiment current_rules trim_space
    equal_fold
may_issue k actor x s =
    require forbidden (
      x.organization_id == actor.organization_id
      && can_use_application actor x.application_id review s)
    >> (require forbidden (trusted_for_release x)
        >> (require forbidden (
              not (
                actor.id == x.submitter_id
                || x.reviewer_id == ""
                || not (actor.id == x.reviewer_id)))
            >> (require invalid_state (is_change x.status approved && run_passed x.check_run)
                >> (require gate_invalid (
                      not (x.artifact_sha256 == "" || x.rule_set_version == "")
                      && run_binds x x.check_run)
                    >> (require rule_set_changed
                          (current_rules k x.organization_id s == x.rule_set_version)
                        >> (require invalid_state (not (demo_only x.experiment))
                            >> require invalid_state
                                (not (has_sql x && not (trusted_sql_experiment x)))))))))

-- the lifetime that is asked for, if one is: a `time.Duration` of 64 bits, in which a negative one
-- lies above every limit
unfoldable pub lifetime : Time → ℕ → Result Time
lifetime default seconds =
    let requested = seconds * second % 2 ^ 64 in
    if nat_eq seconds 0
    then ok default
    else require validation (not (ltb requested minute || ltb (30 * minute) requested))
      >> ok requested

-- `now.Truncate(time.Second)`
abbrev pub truncate : Time → Time
truncate now = now / second * second

unfoldable pub claims_of : String → Time → Time → ChangeRequest → PassportClaims
claims_of id now until x = record {
  version = 0;
  passport_id = id;
  organization_id = x.organization_id;
  change_id = x.id;
  artifact_sha256 = x.artifact_sha256;
  environment = x.environment;
  rule_set_version = x.rule_set_version;
  approver_id = x.reviewer_id;
  issued_at_unix = now / second;
  expires_at_unix = until / second;
}

unfoldable pub new_passport : Crypto → String → Time → Time → String → ChangeRequest → Passport
new_passport k id now until token x = record {
  id = id;
  organization_id = x.organization_id;
  change_id = x.id;
  artifact_sha256 = x.artifact_sha256;
  environment = x.environment;
  rule_set_version = x.rule_set_version;
  approver_id = x.reviewer_id;
  approver_name = x.reviewer_name;
  status = active;
  token_sha256 = k.sha256 token;
  issued_at = now;
  expires_at = until;
  revoked_at = none;
  revoked_by_id = "";
  consumed_at = none;
  consumed_by = "";
}

abbrev issued_detail : Passport → String
issued_detail p = text_append "签发短时一次性通行证 " (
    text_append p.id (
      text_append "，绑定制品 " (
        text_append p.artifact_sha256 (
          text_append "、环境 "
            (text_append p.environment (text_append " 和规则版本 " p.rule_set_version))))))

abbrev pub issue_audit : Call → User → Passport → ChangeRequest → AuditEvent
issue_audit c actor p x =
    record (audit_passport (audit c actor x.id "PASSPORT_ISSUED" (issued_detail p)) p.id) {
      request_digest = x.artifact_sha256;
    }

-- a change that has a usable passport gets no other
unfoldable pub issue_error : Err → Err
issue_error conflict = invalid_state
issue_error e = e

abbrev pub credential_of :
    Passport → String → State × Result (Unit {0}) → State × Result PassportCredential
credential_of p token (s, ok _) =
    (s, ok (record { passport = record p { token_sha256 = "" }; token = token }))
credential_of p token (s, err e) = (s, err (issue_error e))

-- what `IssuePassport` has found when it goes on to sign
pub record Issuing : Type 0 where
  pub actor : User
  pub target : ChangeRequest
  pub ttl : Time
  pub id : String

unfoldable pub issue_checks :
    Crypto → Time → Result String → String → String → ℕ → State → Result Issuing
unfolding active_actor change may_issue lifetime
issue_checks k default new_id change_id actor_id seconds s = active_actor actor_id s >>= (λ actor.
    change change_id s >>= (λ x.
      may_issue k actor x s
      >> (lifetime default seconds >>= (λ ttl.
          or_else gate_unavailable new_id
          >>= (λ id. ok (record { actor = actor; target = x; ttl = ttl; id = id }))))))

-- `IssuePassport`, with the configured lifetime and the outcome of `NewPassportID`
unfoldable pub issue_passport :
    Crypto
    → Option Signer
    → Time
    → Call
    → Call
    → Result String
    → String
    → String
    → ℕ
    → State
    → State × Result PassportCredential
unfolding issue_checks claims_of new_passport create_passport issue_error
issue_passport k none default c c₁ new_id change_id actor_id seconds s = (s, err gate_unavailable)
issue_passport k (some signer) default c c₁ new_id change_id actor_id seconds s =
    elim (issue_checks k default new_id change_id actor_id seconds s) [
      | err e ↦ (s, err e)
      | ok i ↦
          let now = truncate c.now in
          elim (signer.sign (claims_of i.id now (now + i.ttl) i.target)) [
            | err e ↦ (s, err gate_unavailable)
            | ok token ↦
                let p = new_passport k i.id now (now + i.ttl) token i.target in
                credential_of p token (create_passport k c₁ p (issue_audit c i.actor p i.target) s)
          ]
    ]
