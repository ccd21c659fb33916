-- ===== src/Service/Gate.antt =====
-- internal/service/passport.go: the gate that CI calls with a passport's token, and the revocation of a
-- passport by a reviewer.
pub mod Admission
pub mod Releasable
pub mod Release
pub mod Fresh
use Prim.Native.String.{◌++◌ as text_append}
use changeguard.Prelude.{
  ℕ, ◌+◌, ◌*◌, ◌/◌, ◌%◌, ◌^◌, String, byte_len, Bool, true, false, not, ◌&&◌, ◌||◌, Option, none,
  some, List, [], ◌∷◌, ◌==◌, if◌then◌else◌, trim_space, equal_fold, ltb, leb, nat_eq,
}
use changeguard.Model.Status.{
  Time, second, minute, ChangeStatus, approved, is_change, PassportStatus, active, consumed,
  revoked, expired, is_passport, CheckStatus, is_passed,
}
use changeguard.Model.{
  User, CheckRun, ChangeRequest, ExperimentReport, AuditEvent, Passport, PassportCredential,
  GateRequest, GateResult, Err, not_found, conflict, passport_expired, passport_inactive,
  passport_token_mismatch, passport_change_invalid, passport_replay, invalid_state, forbidden,
  validation, gate_unavailable, gate_invalid, gate_expired, gate_revoked, gate_replay,
  artifact_mismatch, environment_mismatch, rule_set_changed, Result, ok, err, ◌>>=◌, ◌>>◌, require,
}
use changeguard.Crypto.{Crypto}
use changeguard.Changegate.Rules.{rule_set_version}
use changeguard.Changegate.Token.{PassportClaims, Signer, issued_at, expires_at}
use changeguard.Store.Base.{State, Call, change}
use changeguard.Store.Passport.{create_passport, passport}
use changeguard.Store.UsePassport.{
  use_passport, revoke_passport, record_audit, organization_policies,
}
use changeguard.Service.Access.{
  active_actor, can_use_application, review, trusted_for_release, trusted_sql_experiment, audit,
  audit_passport,
}
use changeguard.Service.Review.{run_passed, has_sql}
use changeguard.Service.Issue.{or_else, current_rules}

-- what the gate has found when it goes on to the store
pub record Admitted : Type 0 where
  pub claims : PassportClaims
  pub held : Passport
  pub consumer : String

-- a passport that is consumed is only looked at again by a consumption
abbrev pub status_allows : Bool → PassportStatus → Result (Unit {0})
status_allows consume active = ok tt
status_allows consume revoked = err gate_revoked
status_allows consume expired = err gate_expired
status_allows consume consumed = require gate_replay consume

abbrev pub claims_match : PassportClaims → Passport → Bool
claims_match claims p =
    p.organization_id == claims.organization_id
    && p.change_id == claims.change_id
    && p.artifact_sha256 == claims.artifact_sha256
    && p.environment == claims.environment
    && p.rule_set_version == claims.rule_set_version
    && p.approver_id == claims.approver_id

abbrev pub times_match : PassportClaims → Passport → Bool
times_match claims p =
    nat_eq p.issued_at (issued_at claims) && nat_eq p.expires_at (expires_at claims)

abbrev pub change_matches : Passport → ChangeRequest → Bool
change_matches p x =
    x.organization_id == p.organization_id
    && x.artifact_sha256 == p.artifact_sha256
    && x.environment == p.environment
    && x.rule_set_version == p.rule_set_version

abbrev pub is_replay : Bool → Passport → Bool
is_replay consume p = consume && is_passport p.status consumed

unfoldable pub consumer_name : String → String
unfolding trim_space
consumer_name s = let consumer = trim_space s in if consumer == "" then "ci-gate" else consumer

-- the checks on the passport and its change
unfoldable pub admit_passport :
    Crypto → PassportClaims → Passport → ChangeRequest → String → Bool → State → Result Admitted
unfolding current_rules byte_len
admit_passport k claims p x consumer consume s =
    require gate_invalid (change_matches p x)
    >> (require gate_invalid
          (is_change x.status (if is_replay consume p then ChangeStatus.completed else approved))
        >> (require rule_set_changed (current_rules k x.organization_id s == p.rule_set_version)
            >> (require validation (not (ltb 200 (byte_len consumer)))
                >> ok (record { claims = claims; held = p; consumer = consumer }))))

-- the checks on the token and what it claims
unfoldable pub admit_claims :
    Crypto → Call → GateRequest → Bool → State → PassportClaims → Result Admitted
unfolding passport change admit_passport equal_fold trim_space consumer_name
admit_claims k c req consume s claims =
    require artifact_mismatch (equal_fold (trim_space req.artifact_sha256) claims.artifact_sha256)
    >> (require environment_mismatch
          (equal_fold (trim_space req.environment) (trim_space claims.environment))
        >> (or_else gate_invalid (passport c claims.passport_id s) >>= (λ p.
            status_allows consume p.status
            >> (require gate_invalid (claims_match claims p)
                >> (require gate_invalid (times_match claims p)
                    >> (or_else gate_invalid (change p.change_id s) >>= (λ x.
                        admit_passport k claims p x (consumer_name req.consumer) consume s)))))))

-- the error of the store as the gate reports it
unfoldable pub gate_error : Bool → Err → Err
gate_error consume passport_expired = gate_expired
gate_error consume passport_replay = gate_replay
gate_error consume passport_inactive = if consume then gate_replay else gate_revoked
gate_error consume passport_token_mismatch = gate_invalid
gate_error consume passport_change_invalid = gate_invalid
gate_error consume e = e

abbrev pub gate_actor : Admitted → User
gate_actor a = record {
  id = text_append "ci:" a.consumer;
  organization_id = a.held.organization_id;
  name = a.consumer;
  email = "";
  role = "CI";
  enterprise_admin = false;
  active = true;
}

abbrev pub gate_audit : Call → Bool → GateRequest → Admitted → AuditEvent
gate_audit c consume req a =
    record (audit_passport
      (audit c (gate_actor a) a.held.change_id
        (if consume then "PASSPORT_CONSUMED" else "PASSPORT_VERIFIED")
        (text_append "CI 校验通行证 " (text_append a.held.id "，制品与环境匹配")))
      a.held.id) { request_digest = req.artifact_sha256 }

abbrev pub verify_audit : Call → GateRequest → Admitted → AuditEvent
verify_audit c req a =
    record (audit_passport
      (audit c (gate_actor a) a.held.change_id "PASSPORT_VERIFIED"
        (text_append "CI 验签通过：" a.held.id))
      a.held.id) { request_digest = req.artifact_sha256 }

-- the answer; a verification is audited once more, and an error of that is dropped
abbrev pub gate_answer :
    Crypto
    → Call
    → Call
    → Bool
    → GateRequest
    → Admitted
    → State × Result Passport
    → State × Result GateResult
gate_answer k c c₂ consume req a (s, err e) = (s, err (gate_error consume e))
gate_answer k c c₂ consume req a (s, ok p) = (
  if consume then s else (record_audit k c₂ (verify_audit c req a) s).0,
  ok (record { passport = p; replayed = is_replay consume a.held }),
)

-- `VerifyGate`
unfoldable pub verify_gate :
    Crypto
    → Option Signer
    → Call
    → Call
    → Call
    → GateRequest
    → Bool
    → State
    → State × Result GateResult
unfolding admit_claims use_passport record_audit gate_error trim_space
verify_gate k none c c₁ c₂ req consume s = (s, err gate_unavailable)
verify_gate k (some signer) c c₁ c₂ req consume s =
    elim (or_else gate_invalid (signer.verify (trim_space req.token))
      >>= admit_claims k c req consume s) [
        | err e ↦ (s, err e)
        | ok a ↦ gate_answer k c c₂ consume req a (
            use_passport k c₁ a.held.id (k.sha256 (trim_space req.token)) a.consumer c.now consume
              (gate_audit c consume req a) s)
      ]

abbrev same_change : ChangeRequest → Result Passport → Result Passport
same_change x (err e) = err not_found
same_change x (ok p) = if p.change_id == x.id then ok p else err not_found

unfoldable pub may_revoke : Call → String → String → String → State → Result (User × ChangeRequest)
unfolding active_actor change can_use_application passport
may_revoke c change_id passport_id actor_id s = active_actor actor_id s >>= (λ actor.
    change change_id s >>= (λ x.
      require forbidden (
        x.organization_id == actor.organization_id
        && can_use_application actor x.application_id review s
        && not (actor.id == x.submitter_id))
      >> (same_change x (passport c passport_id s) >>= (λ p. ok (actor, x)))))

-- `RevokePassport` of the service
unfoldable pub revoke_by_reviewer :
    Crypto → Call → Call → String → String → String → State → State × Result Passport
unfolding may_revoke revoke_passport
revoke_by_reviewer k c c₁ change_id passport_id actor_id s =
    elim (may_revoke c change_id passport_id actor_id s) [
      | err e ↦ (s, err e)
      | ok (actor, x) ↦
          revoke_passport k c₁ x.organization_id passport_id actor.id c.now
            (audit c actor x.id "PASSPORT_REVOKED" (text_append "人工撤销变更通行证 " passport_id)) s
    ]
