-- ===== src/Tests/Service.antt =====
-- A change on its way to production: approved, issued a passport and let through the gate.
use Prim.Native.String.{◌++◌ as text_append}
use changeguard.Prelude.{
  ◌+◌, ◌*◌, ◌≡◌, refl, true, false, not, ◌&&◌, some, none, [], ◌∷◌, any, arith,
}
use changeguard.Model.Status.{
  waiting_approval, approved, low, PassportStatus, verified, minute, second,
}
use changeguard.Model.{
  ChangeRequest, StoredPassport, Finding, PassportCredential, GateRequest, GateResult, Result, ok,
}
use changeguard.Changegate.Token.{PassportClaims, Signer}
use changeguard.Store.Base.{State}
use changeguard.Service.Findings.{
  is_blocking_finding, has_blocking_finding, all_blocking_findings_verified,
  all_blocking_findings_verified-eq,
}
use changeguard.Service.Review.{approve}
use changeguard.Service.Review.Duties.{IsApproval, approve-IsApproval}
use changeguard.Service.Issue.{issue_passport}
use changeguard.Service.Issue.Requires.{IsIssued, issue_passport-IsIssued}
use changeguard.Service.Gate.{verify_gate, consumer_name}
use changeguard.Service.Gate.Releasable.{IsReleasable}
use changeguard.Service.Gate.Release.{IsRelease, verify_gate-releases}
use changeguard.Service.Gate.Admission.{IsAllowed, verify_gate-IsAllowed}
use changeguard.Tests.Fixtures.{crypto, call, change, empty_state}

abbrev finding : Finding
finding = record {
  id = "f";
  code = "DROP_TABLE";
  severity = low;
  blocking = false;
  status = verified;
  owner_id = "";
  owner_name = "";
  due_at = none;
  resolution = "";
  resolved_at = none;
  verified_by_id = "";
  verified_by_name = "";
  verification_comment = "";
  verified_at = none;
  updated_at = 0;
}

all_blocking_findings_verified-eq_example :
    all_blocking_findings_verified (finding ∷ [])
    ≡ (not (has_blocking_finding (finding ∷ [])) && any is_blocking_finding (finding ∷ []))
all_blocking_findings_verified-eq_example = all_blocking_findings_verified-eq (finding ∷ [])

abbrev waiting : State
waiting = record empty_state {
  changes = record change { status = waiting_approval; reviewer_id = "" } ∷ [];
}

abbrev decision : State × Result ChangeRequest
decision = approve crypto (call 20) (call 20) "chg" "rev" " fine " waiting

abbrev decided : ChangeRequest
decided = record change {
  review_comment = "fine";
  updated_at = 20;
  version = 5;
  timeline =
      record {
        id = "tl_";
        status = approved;
        title = "审批通过";
        detail = "fine";
        actor = "Reviewer";
        created_at = 20;
      }
      ∷ [];
}

decision_ok : decision ≡ (decision.0, ok decided)
unfolding approve
decision_ok = refl

approve-IsApproval_example : IsApproval "chg" "rev" waiting decision.0 decided
approve-IsApproval_example =
    approve-IsApproval crypto (call 20) (call 20) "chg" "rev" " fine " waiting decision.0 decided
      decision_ok

-- a stand-in for the signature: the token is the passport's id
abbrev claims : PassportClaims
claims = record {
  version = 1;
  passport_id = "pass_1";
  organization_id = "org";
  change_id = "chg";
  artifact_sha256 = "art";
  environment = "production";
  rule_set_version = change.rule_set_version;
  approver_id = "rev";
  issued_at_unix = 7;
  expires_at_unix = 127;
}

abbrev signer : Signer
signer = record { sign = λ c. ok (text_append "cg1." c.passport_id); verify = λ token. ok claims }

abbrev issuance : State × Result PassportCredential
issuance =
    issue_passport crypto (some signer) (10 * minute) (call (7 * second + 5))
      (call (7 * second + 5)) (ok "pass_1") "chg" "rev" 120 empty_state

abbrev credential : PassportCredential
credential = record {
  passport = record {
    id = "pass_1";
    organization_id = "org";
    change_id = "chg";
    artifact_sha256 = "art";
    environment = "production";
    rule_set_version = change.rule_set_version;
    approver_id = "rev";
    approver_name = "Reviewer";
    status = PassportStatus.active;
    token_sha256 = "";
    issued_at = 7 * second;
    expires_at = 127 * second;
    revoked_at = none;
    revoked_by_id = "";
    consumed_at = none;
    consumed_by = "";
  };
  token = "cg1.pass_1";
}

issuance_ok : issuance ≡ (issuance.0, ok credential)
unfolding issue_passport
issuance_ok = refl

issue_passport-IsIssued_example :
    IsIssued crypto signer
      (10 * minute)
      (call (7 * second + 5))
      (call (7 * second + 5))
      "chg"
      "rev"
      empty_state
      issuance.0
      credential
issue_passport-IsIssued_example =
    issue_passport-IsIssued crypto signer (10 * minute) (call (7 * second + 5))
      (call (7 * second + 5)) (ok "pass_1") "chg" "rev" 120 empty_state issuance.0 credential
      issuance_ok

abbrev request : GateRequest
request = record {
  token = " cg1.pass_1\n";
  artifact_sha256 = "ART";
  environment = "Production ";
  consumer = "gitlab";
}

abbrev release : State × Result GateResult
release =
    verify_gate crypto (some signer) (call (20 * second)) (call (20 * second)) (call (20 * second))
      request true issuance.0

abbrev answer : GateResult
answer = record {
  passport = record credential.passport {
    status = PassportStatus.consumed;
    consumed_at = some (20 * second);
    consumed_by = "gitlab";
  };
  replayed = false;
}

release_ok : release ≡ (release.0, ok answer)
unfolding verify_gate issue_passport
release_ok = refl

verify_gate-IsAllowed_example :
    IsAllowed crypto signer (call (20 * second)) (call (20 * second)) request true issuance.0 answer
verify_gate-IsAllowed_example =
    verify_gate-IsAllowed crypto signer (call (20 * second)) (call (20 * second))
      (call (20 * second)) request true issuance.0 release.0 answer release_ok

abbrev held : StoredPassport
held = record { passport = credential.passport; token_sha256_stored = "hcg1.pass_1" }

releasable : IsReleasable crypto signer (call (20 * second)) request issuance.0 held change claims
unfolding issue_passport verify_gate
releasable = record {
  verified = refl;
  artifact = refl;
  environment = refl;
  found = refl;
  is_active = refl;
  token = refl;
  bound = refl;
  timed = refl;
  target = refl;
  matches = refl;
  is_approved = refl;
  rules = refl;
  short_name = refl;
  live = ground arith;
}

verify_gate-releases_example :
    IsRelease (20 * second) (consumer_name request.consumer) held change issuance.0 (
      verify_gate crypto
        (some signer)
        (call (20 * second))
        (call (20 * second))
        (call (20 * second))
        request
        true
        issuance.0)
verify_gate-releases_example =
    verify_gate-releases crypto signer (call (20 * second)) (call (20 * second))
      (call (20 * second)) request issuance.0 held change claims releasable refl
