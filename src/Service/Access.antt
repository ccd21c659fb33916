-- ===== src/Service/Access.antt =====
-- internal/service/service.go: who may act on a change, and the records of what was done. Texts that
-- are only shown to people are kept where an operation stores them.
pub mod Updated
use changeguard.Prelude.{
  ℕ, ◌+◌, String, Bool, true, false, not, ◌&&◌, ◌||◌, Option, none, some, [], ◌∷◌, ◌++◌, ◌==◌, find,
  if◌then◌else◌, trim_space, equal_fold, has_prefix_lower, rune_count, leb,
}
use changeguard.Model.Status.{ChangeStatus}
use changeguard.Model.{
  Organization, User, ApplicationGrant, ChangeRequest, ExperimentReport, TimelineEntry, AuditEvent,
  forbidden, Result, ok, err,
}
use changeguard.Store.Base.{State, Call, user}
use changeguard.Store.Passport.{empty_audit}

abbrev pub role_owner : String
role_owner = "技术负责人"

abbrev pub role_reviewer : String
role_reviewer = "数据库审核人"

abbrev pub is_reviewer : User → Bool
is_reviewer u = u.role == role_reviewer || u.role == role_owner

abbrev pub if_active : Result User → Result User
if_active (err e) = err forbidden
if_active (ok u) = if u.active then ok u else err forbidden

unfoldable pub active_actor : String → State → Result User
unfolding user
active_actor id s = if_active (user id s)

-- `HasApplicationGrants`
unfoldable pub has_application_grants : String → State → Bool
unfolding find
has_application_grants org s = elim (find (λ (o : Organization). o.id == org) s.organizations) [
  | none ↦ false
  | some o ↦ o.application_access_controlled
]

-- the capabilities that `canUseApplication` is asked for
pub data Capability : Type 0 where
  submit review view : Capability

abbrev pub grants_it : Capability → ApplicationGrant → Bool
grants_it submit g = g.can_submit
grants_it review g = g.can_review
grants_it view g = g.can_submit || g.can_review

abbrev pub is_grant_of : User → String → ApplicationGrant → Bool
is_grant_of u application g =
    g.organization_id == u.organization_id && g.user_id == u.id && g.application_id == application

-- the first grant of the user for the application decides
unfoldable pub can_use_application : User → String → Capability → State → Bool
unfolding has_application_grants find
can_use_application u application cap s =
    if u.enterprise_admin || u.role == role_owner
    then true
    else if not (has_application_grants u.organization_id s)
    then true
    else elim (find (is_grant_of u application) s.grants) [
      | none ↦ false
      | some g ↦ grants_it cap g
    ]

-- the sources whose changes may be released
unfoldable pub trusted_for_release : ChangeRequest → Bool
unfolding trim_space
trusted_for_release x =
    let source = trim_space x.source in
    source == "" || source == "console" || source == "agent_task"

abbrev trusted_report : ChangeRequest → Option ExperimentReport → Bool
trusted_report x none = false
trusted_report x (some r) =
    equal_fold r.mode "POSTGRES"
    && equal_fold r.status "PASSED"
    && r.rollback_verified
    && r.artifact_sha256 == x.artifact_sha256
    && r.rule_set_version == x.rule_set_version

-- `trustedSQLExperiment`, of the change's own report
unfoldable pub trusted_sql_experiment : ChangeRequest → Bool
unfolding equal_fold
trusted_sql_experiment x = trusted_report x x.experiment

unfoldable pub valid_rune_length : String → ℕ → ℕ → Bool
valid_rune_length s low high = leb low (rune_count s) && leb (rune_count s) high

abbrev pub timeline : Call → ℕ → ChangeStatus → String → String → String → TimelineEntry
timeline c n status title detail actor = record {
  id = c.new_id "tl_" n;
  status = status;
  title = title;
  detail = detail;
  actor = actor;
  created_at = c.now;
}

abbrev pub on_timeline : TimelineEntry → ChangeRequest → ChangeRequest
on_timeline e x = record x { timeline = x.timeline ++ e ∷ [] }

-- who the actor is and how it was authenticated
unfoldable pub actor_kind : String → String × String
unfolding has_prefix_lower
actor_kind id =
    if has_prefix_lower id "ci:"
    then ("CI", "BEARER_PASSPORT")
    else if has_prefix_lower id "system" || has_prefix_lower id "integration"
    then ("SYSTEM", "INTERNAL")
    else ("USER", "SESSION")

unfoldable pub audit : Call → User → String → String → String → AuditEvent
unfolding actor_kind
audit c actor change_id action detail =
    let (kind, method) = actor_kind actor.id in
    record empty_audit {
      organization_id = actor.organization_id;
      id = c.new_id "audit_" 0;
      change_id = change_id;
      actor_id = actor.id;
      actor_name = actor.name;
      actor_type = kind;
      auth_method = method;
      action = action;
      resource_type = "CHANGE";
      resource_id = change_id;
      result = "SUCCESS";
      detail = detail;
      created_at = c.now;
    }

abbrev pub audit_change_version : AuditEvent → ChangeRequest → AuditEvent
audit_change_version e x = record e {
  resource_version_before = x.version;
  resource_version_after = x.version + 1;
  request_digest = x.artifact_sha256;
}

abbrev pub audit_passport : AuditEvent → String → AuditEvent
audit_passport e id = record e { passport_id = id }
