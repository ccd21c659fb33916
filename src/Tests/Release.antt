-- ===== src/Tests/Release.antt =====
-- A token from its signature to the gate.
use changeguard.Prelude.{String, ◌+◌, ◌*◌, ◌≡◌, refl, false, some, none}
use changeguard.Model.Status.{minute, second, PassportStatus}
use changeguard.Model.{User, Passport, PassportCredential, GateRequest, Result, ok, err}
use changeguard.Service.Access.{active_actor}
use changeguard.Changegate.Token.{PassportClaims, signer_of, sign, verify}
use changeguard.Changegate.Token.RoundTrip.{verify-sign, verify-IsAuthentic, IsAuthentic}
use changeguard.Store.Base.{State}
use changeguard.Service.Issue.{issue_passport}
use changeguard.Service.Idempotent.{Outcome, done}
use changeguard.Service.Idempotent.Execute.{Json, Replied}
use changeguard.Service.Idempotent.Issue.{
  PassportIssueResult, just_issued, issue_passport_idempotent,
}
use changeguard.Service.Idempotent.Issue.Shown.{
  Shows, claimed_issue, issue_passport_idempotent-Shows,
}
use changeguard.Tests.Idempotent.{world}
use changeguard.Tests.Codec.{codec, key}
use changeguard.Tests.Fixtures.{crypto, call, empty_state, rules}

abbrev claims : PassportClaims
claims = record {
  version = 0;
  passport_id = "p";
  organization_id = "o";
  change_id = "c";
  artifact_sha256 = "a";
  environment = "";
  rule_set_version = "";
  approver_id = "r";
  issued_at_unix = 7;
  expires_at_unix = 127;
}

abbrev text_of : Result String → String
text_of (ok s) = s
text_of (err e) = ""

abbrev token : String
token = text_of (sign codec key claims)

signed : sign codec key claims ≡ ok token
unfolding sign codec key
signed = refl

verify-sign_example : verify codec key token ≡ ok (record claims { version = 1 })
verify-sign_example = verify-sign codec key claims token refl signed

verify-IsAuthentic_example : IsAuthentic codec key token (record claims { version = 1 })
verify-IsAuthentic_example =
    verify-IsAuthentic codec key (record claims { version = 1 }) token verify-sign_example

abbrev issuance : State × Result PassportCredential
issuance =
    issue_passport crypto (some (signer_of codec key)) (10 * minute) (call (7 * second + 5))
      (call (7 * second + 5)) (ok "pass_1") "chg" "rev" 120 empty_state

abbrev credential_of : State × Result PassportCredential → Result PassportCredential
credential_of (s, r) = r

abbrev issued_token : String
issued_token = text_of (
    sign codec key (record claims {
      passport_id = "pass_1";
      organization_id = "org";
      change_id = "chg";
      artifact_sha256 = "art";
      environment = "production";
      rule_set_version = rules;
      approver_id = "rev";
    }))

abbrev credential : PassportCredential
credential = record {
  passport = record {
    id = "pass_1";
    organization_id = "org";
    change_id = "chg";
    artifact_sha256 = "art";
    environment = "production";
    rule_set_version = rules;
    approver_id = "rev";
    approver_name = "Reviewer";
    status = PassportStatus.active;
    token_sha256 = "";
    issued_at = 7 * second;
    expires_at = 127 * second;
    revoked_at = none;
    revoked_by_id = "";
    consumed_at = none;
    consumed_by = "";
  };
  token = issued_token;
}

abbrev request : GateRequest
request = record {
  token = issued_token;
  artifact_sha256 = "ART";
  environment = "Production ";
  consumer = "gitlab";
}

abbrev json : Json Passport
json = record { encode = λ p. ok p.id; decode = λ text. none }

abbrev issued_once : State × Outcome (Replied PassportIssueResult)
issued_once =
    issue_passport_idempotent json crypto (call 1) (call 1) (world 10) 20 (call 20) (world 30)
      (some (signer_of codec key)) (10 * minute) (call (7 * second + 5)) (call (7 * second + 5))
      (ok "pass_1") "chg" "rev" "key" "d" 120 empty_state

issued_once_ok :
    issued_once
    ≡ (issued_once.0, done (ok (record { value = just_issued credential; replayed = false })))
unfolding issue_passport_idempotent sign codec key
issued_once_ok = refl

issue_passport_idempotent-Shows_example :
    (actor : User) × (active_actor "rev" empty_state ≡ ok actor)
    × Shows json crypto
        (world 30)
        (issue_passport crypto
          (some (signer_of codec key))
          (10 * minute)
          (call (7 * second + 5))
          (call (7 * second + 5))
          (ok "pass_1")
          "chg"
          "rev"
          120)
        (claimed_issue json crypto
          (call 1)
          (call 1)
          (world 10)
          20
          "chg"
          "key"
          "d"
          "rev"
          actor
          empty_state)
        issued_once.0
        (record { value = just_issued credential; replayed = false })
issue_passport_idempotent-Shows_example =
    issue_passport_idempotent-Shows json crypto (call 1) (call 1) (world 10) 20 (call 20) (world 30)
      (some (signer_of codec key)) (10 * minute) (call (7 * second + 5)) (call (7 * second + 5))
      (ok "pass_1") "chg" "rev" "key" "d" 120 empty_state issued_once.0
      (record { value = just_issued credential; replayed = false }) issued_once_ok
