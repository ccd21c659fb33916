-- ===== src/Audit.antt =====
-- internal/audit/audit.go: the canonical form of an audit event, the hash chain of each
-- organization, and its verification. The digest (SHA-256 of the JSON of the canonical payload,
-- in hexadecimal) is an argument, a function of that payload.
pub mod Normal
pub mod Chain
pub mod Appended
pub mod Tamper
use changeguard.Prelude.{
  String, ◌||◌, Option, none, some, ◌==◌, trim_space, upper, lower, has_prefix_lower, if◌then◌else◌,
}
use changeguard.Model.{AuditEvent}

abbrev pub Digest : Type 0
Digest = AuditEvent → String

trim_fields : AuditEvent → AuditEvent
unfolding trim_space upper lower
trim_fields e = record e {
  organization_id = trim_space e.organization_id;
  id = trim_space e.id;
  change_id = trim_space e.change_id;
  request_id = trim_space e.request_id;
  actor_id = trim_space e.actor_id;
  actor_name = trim_space e.actor_name;
  actor_type = upper (trim_space e.actor_type);
  auth_method = upper (trim_space e.auth_method);
  action = upper (trim_space e.action);
  resource_type = upper (trim_space e.resource_type);
  resource_id = trim_space e.resource_id;
  request_digest = lower (trim_space e.request_digest);
  result = upper (trim_space e.result);
  reason_code = upper (trim_space e.reason_code);
  related_event_id = trim_space e.related_event_id;
  attempt_id = trim_space e.attempt_id;
  passport_id = trim_space e.passport_id;
  detail = trim_space e.detail;
  prev_hash = lower (trim_space e.prev_hash);
  hash = lower (trim_space e.hash);
}

-- the actor's type, where the event does not say it
unfoldable pub actor_type_of : String → String
unfolding has_prefix_lower
actor_type_of id =
    if has_prefix_lower id "ci:"
    then "CI"
    else if has_prefix_lower id "system" || has_prefix_lower id "integration"
    then "SYSTEM"
    else "USER"

abbrev or_default : String → String → String
or_default s d = if s == "" then d else s

fill_defaults : AuditEvent → AuditEvent
unfolding actor_type_of
fill_defaults e = record e {
  resource_type =
      if e.change_id == "" then e.resource_type else or_default e.resource_type "CHANGE";
  resource_id = if e.change_id == "" then e.resource_id else or_default e.resource_id e.change_id;
  actor_type = or_default e.actor_type (actor_type_of e.actor_id);
  result = or_default e.result "SUCCESS";
}

unfoldable pub normalize : AuditEvent → AuditEvent
unfolding trim_fields fill_defaults
normalize e = fill_defaults (trim_fields e)

-- the payload leaves the hash out
unfoldable pub canonical : AuditEvent → AuditEvent
unfolding normalize
canonical e = record (normalize e) { hash = "" }

unfoldable pub digest : Digest → AuditEvent → String
unfolding canonical
digest h e = h (canonical e)

-- the hash that the next event of the organization refers to
unfoldable pub anchor : Digest → Option AuditEvent → String
unfolding digest lower
anchor h none = ""
anchor h (some p) = if p.hash == "" then digest h p else lower p.hash

unfoldable pub link : Digest → AuditEvent → Option AuditEvent → AuditEvent
unfolding normalize anchor digest
link h e previous =
    let n = normalize e in
    let l = record n { hash = ""; prev_hash = anchor h previous } in record l { hash = digest h l }
