-- ===== src/Tests/Fixtures.antt =====
-- An organization with one approved change and its passport.
use Prim.Native.String.{◌++◌ as text_append}
use changeguard.Prelude.{String, true, false, none, some, [], ◌∷◌}
use changeguard.Model.Status.{Time, low, approved, active, passed}
use changeguard.Model.{User, ChangeRequest, CheckRun, AuditEvent, Passport, StoredPassport}
use changeguard.Crypto.{Crypto}
use changeguard.Store.Base.{State, Call, saved}
use changeguard.Store.Passport.{empty_audit}

-- a stand-in for the hash functions: any functions serve
abbrev pub crypto : Crypto
crypto = record { sha256 = λ s. text_append "h" s; digest = λ e. text_append "d" e.id }

abbrev pub call : Time → Call
call now = record { now = now; new_id = λ prefix n. prefix; saving = saved }

-- the version of an empty rule set
abbrev pub rules : String
rules = "sha256:h"

abbrev pub run : CheckRun
run = record {
  id = "check_1";
  artifact_sha256 = "art";
  rule_set_version = rules;
  status = passed;
  findings = 0;
  blocking = 0;
  checked_at = 5;
}

abbrev pub change : ChangeRequest
change = record {
  organization_id = "org";
  id = "chg";
  application_id = "app";
  environment = "production";
  artifact_sha256 = "art";
  rule_set_version = rules;
  sql = "";
  source = "console";
  submitter_id = "dev";
  reviewer_id = "rev";
  reviewer_name = "Reviewer";
  review_comment = "ok";
  status = approved;
  risk = low;
  updated_at = 9;
  version = 4;
  findings = [];
  check_run = some run;
  experiment = none;
  timeline = [];
}

abbrev pub passport : Passport
passport = record {
  id = "pass_1";
  organization_id = "org";
  change_id = "chg";
  artifact_sha256 = "art";
  environment = "production";
  rule_set_version = rules;
  approver_id = "rev";
  approver_name = "Reviewer";
  status = active;
  token_sha256 = "htoken";
  issued_at = 10;
  expires_at = 700;
  revoked_at = none;
  revoked_by_id = "";
  consumed_at = none;
  consumed_by = "";
}

abbrev pub stored : StoredPassport
stored = record { passport = record passport { token_sha256 = "" }; token_sha256_stored = "htoken" }

abbrev pub reviewer : User
reviewer = record {
  id = "rev";
  organization_id = "org";
  name = "Reviewer";
  email = "rev@corp";
  role = "数据库审核人";
  enterprise_admin = false;
  active = true;
}

abbrev pub developer : User
developer = record {
  id = "dev";
  organization_id = "org";
  name = "Developer";
  email = "dev@corp";
  role = "后端开发";
  enterprise_admin = false;
  active = true;
}

abbrev pub empty_state : State
empty_state = record {
  organizations =
      record { id = "org"; slug = "org"; updated_at = 1; application_access_controlled = false }
      ∷ [];
  users = reviewer ∷ developer ∷ [];
  credentials = [];
  invites = [];
  applications = [];
  grants = [];
  policies = [];
  changes = change ∷ [];
  audits = [];
  passports = [];
  idempotency_records = [];
  outbox = [];
}

abbrev pub state : State
state = record empty_state { passports = stored ∷ [] }

abbrev pub note : AuditEvent
note = record empty_audit {
  organization_id = "org";
  id = "audit_1";
  change_id = "chg";
  actor_id = "ci:gitlab";
}
