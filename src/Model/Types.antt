-- ===== src/Model/Types.antt =====
-- internal/model: the records of users, organizations, policies, findings, changes and audits.
-- Left out are the display fields that no modelled operation reads or writes (titles, names of
-- databases, floats of a report, tool logs of an analysis).
use changeguard.Prelude.{ℕ, String, Bool, Option, List}
use changeguard.Model.Status.{
  Time, InviteStatus, RiskLevel, FindingStatus, ChangeStatus, CheckStatus,
}

pub record Organization : Type 0 where
  pub id : String
  pub slug : String
  pub updated_at : Time
  pub application_access_controlled : Bool

pub record User : Type 0 where
  pub id : String
  pub organization_id : String
  pub name : String
  pub email : String
  pub role : String
  pub enterprise_admin : Bool
  pub active : Bool

pub record ApplicationGrant : Type 0 where
  pub organization_id : String
  pub user_id : String
  pub application_id : String
  pub can_submit : Bool
  pub can_review : Bool
  pub updated_by : String
  pub updated_at : Time

-- what an administrator asks for
pub record ApplicationGrantInput : Type 0 where
  pub application_id : String
  pub can_submit : Bool
  pub can_review : Bool

pub record Application : Type 0 where
  pub organization_id : String
  pub id : String

pub record OrganizationInvite : Type 0 where
  pub id : String
  pub organization_id : String
  pub email : String
  pub role : String
  pub token_hash : String
  pub status : InviteStatus
  pub expires_at : Time
  pub accepted_by_id : String
  pub accepted_at : Option Time

pub record UserCredential : Type 0 where
  pub user_id : String
  pub identity_provider : String
  pub subject : String

pub record RiskPolicy : Type 0 where
  pub organization_id : String
  pub id : String
  pub code : String
  pub pattern : String
  pub severity : RiskLevel
  pub blocking : Bool
  pub enabled : Bool
  pub builtin : Bool
  pub environments : List String
  pub change_types : List String
  pub artifact_kinds : List String
  pub version : ℕ
  pub hit_count : ℕ
  pub last_hit_at : Option Time
  pub updated_at : Time

pub record Finding : Type 0 where
  pub id : String
  pub code : String
  pub severity : RiskLevel
  pub blocking : Bool
  pub status : FindingStatus
  pub owner_id : String
  pub owner_name : String
  pub due_at : Option Time
  pub resolution : String
  pub resolved_at : Option Time
  pub verified_by_id : String
  pub verified_by_name : String
  pub verification_comment : String
  pub verified_at : Option Time
  pub updated_at : Time

pub record CheckRun : Type 0 where
  pub id : String
  pub artifact_sha256 : String
  pub rule_set_version : String
  pub status : CheckStatus
  pub findings : ℕ
  pub blocking : ℕ
  pub checked_at : Time

pub record ExperimentReport : Type 0 where
  pub id : String
  pub kind : String
  pub mode : String
  pub status : String
  pub rollback_verified : Bool
  pub execution_error : String
  pub artifact_sha256 : String
  pub rule_set_version : String
  pub attempt_id : String
  pub lease_generation : ℕ
  pub input_sha256 : String
  pub result_digest : String

pub record TimelineEntry : Type 0 where
  pub id : String
  pub status : ChangeStatus
  pub title : String
  pub detail : String
  pub actor : String
  pub created_at : Time

pub record ChangeRequest : Type 0 where
  pub organization_id : String
  pub id : String
  pub application_id : String
  pub environment : String
  pub artifact_sha256 : String
  pub rule_set_version : String
  pub sql : String
  pub source : String
  pub submitter_id : String
  pub reviewer_id : String
  pub reviewer_name : String
  pub review_comment : String
  pub status : ChangeStatus
  pub risk : RiskLevel
  pub updated_at : Time
  pub version : ℕ
  pub findings : List Finding
  pub check_run : Option CheckRun
  pub experiment : Option ExperimentReport
  pub timeline : List TimelineEntry

pub record AuditEvent : Type 0 where
  pub organization_id : String
  pub id : String
  pub change_id : String
  pub request_id : String
  pub actor_id : String
  pub actor_name : String
  pub actor_type : String
  pub auth_method : String
  pub action : String
  pub resource_type : String
  pub resource_id : String
  pub resource_version_before : ℕ
  pub resource_version_after : ℕ
  pub request_digest : String
  pub result : String
  pub reason_code : String
  pub related_event_id : String
  pub attempt_id : String
  pub passport_id : String
  pub detail : String
  pub created_at : Time
  pub prev_hash : String
  pub hash : String
