-- ===== src/Service/Review.antt =====
-- internal/service/service.go: the decision of a reviewer. `Approve` and `Reject` read the actor and
-- the change, decide, and then write the change under the store's lock; no other request comes in
-- between here.
pub mod Duties
use changeguard.Prelude.{
  ℕ, String, Bool, true, false, not, ◌&&◌, ◌||◌, Option, none, some, List, [], ◌∷◌, ◌==◌,
  if◌then◌else◌, trim_space, nat_eq,
}
use changeguard.Model.Status.{
  RiskLevel, high, ChangeStatus, waiting_approval, approved, rejected, is_change, is_high,
  CheckStatus, is_passed,
}
use changeguard.Model.{
  User, CheckRun, ChangeRequest, Err, invalid_state, forbidden, validation, Result, ok, err, ◌>>=◌,
  ◌>>◌, require,
}
use changeguard.Crypto.{Crypto}
use changeguard.Store.Base.{State, Call, change}
use changeguard.Store.Changes.{Update, update_change}
use changeguard.Store.UsePassport.{revoke_passports_by_change}
use changeguard.Service.Access.{
  active_actor, can_use_application, review, trusted_for_release, trusted_sql_experiment,
  valid_rune_length, is_reviewer, role_owner, timeline, on_timeline, audit, audit_change_version,
}
use changeguard.Service.Findings.{has_blocking_finding, all_blocking_findings_verified}

abbrev pub run_passed : Option CheckRun → Bool
run_passed none = false
run_passed (some r) = is_passed r.status && nat_eq r.blocking 0

-- the checks that an approval and a rejection share, in the code's order
unfoldable pub may_review : User → ChangeRequest → State → Result (Unit {0})
unfolding can_use_application trusted_for_release
may_review actor x s =
    require forbidden (
      x.organization_id == actor.organization_id
      && can_use_application actor x.application_id review s)
    >> require forbidden (trusted_for_release x)
    >> require invalid_state (is_change x.status waiting_approval)
    >> require forbidden (not (actor.id == x.submitter_id || not (is_reviewer actor)))

abbrev pub has_sql : ChangeRequest → Bool
has_sql x = not (trim_space x.sql == "")

-- the evidence that an approval needs
unfoldable pub evidence_holds : User → ChangeRequest → Result (Unit {0})
unfolding trusted_sql_experiment all_blocking_findings_verified has_blocking_finding trim_space
evidence_holds actor x =
    (if has_sql x
      then require invalid_state (trusted_sql_experiment x)
      else require invalid_state (run_passed x.check_run))
    >> require invalid_state
        (not (not (all_blocking_findings_verified x.findings) && has_blocking_finding x.findings))
    >> require forbidden (not (is_high x.risk && not (actor.role == role_owner)))

abbrev pub decided : ChangeStatus → User → String → ChangeRequest → ChangeRequest
decided status actor comment x = record x {
  status = status;
  reviewer_id = actor.id;
  reviewer_name = actor.name;
  review_comment = comment;
}

unfoldable pub approve_update : Call → User → String → Update
approve_update c actor comment x = (
  on_timeline (timeline c 0 approved "审批通过" comment actor.name) (decided approved actor comment x),
  none,
)

unfoldable pub approval_comment : String → String
unfolding trim_space
approval_comment comment =
    let comment = trim_space comment in if comment == "" then "证据已核对，同意按计划窗口执行" else comment

unfoldable pub approve_change_checks :
    String → State → User → ChangeRequest → Result (User × ChangeRequest)
unfolding may_review evidence_holds valid_rune_length approval_comment
approve_change_checks comment s actor x =
    may_review actor x s
    >> (evidence_holds actor x
        >> (require validation (valid_rune_length (approval_comment comment) 1 2000)
            >> ok (actor, x)))

-- `Approve` until it writes
unfoldable pub approve_checks : String → String → String → State → Result (User × ChangeRequest)
unfolding active_actor change approve_change_checks
approve_checks id actor_id comment s =
    active_actor actor_id s
    >>= (λ actor. change id s >>= (λ x. approve_change_checks comment s actor x))

-- `Approve`; the calls are the service's own, then the one of the write
unfoldable pub approve :
    Crypto → Call → Call → String → String → String → State → State × Result ChangeRequest
unfolding approve_checks update_change approve_update
approve k c c₁ id actor_id comment s = elim (approve_checks id actor_id comment s) [
  | err e ↦ (s, err e)
  | ok (actor, x) ↦
      let comment = approval_comment comment in
      update_change k c₁ id (approve_update c actor comment)
        (audit_change_version (audit c actor id "APPROVE" comment) x ∷ []) s
]

unfoldable pub reject_update : Call → User → String → Update
reject_update c actor comment x = (
  on_timeline (timeline c 0 rejected "审批驳回" comment actor.name) (decided rejected actor comment x),
  none,
)

unfoldable pub reject_checks : String → String → String → State → Result User
unfolding active_actor change may_review valid_rune_length trim_space
reject_checks id actor_id comment s = active_actor actor_id s >>= (λ actor. change id s >>= (λ x.
    may_review actor x s
    >> require validation (valid_rune_length (trim_space comment) 1 2000)
    >> ok actor))

-- the revocation after a rejection; its error is dropped
abbrev pub then_revoke :
    Crypto
    → Call
    → Call
    → String
    → User
    → State × Result ChangeRequest
    → State × Result ChangeRequest
then_revoke k c c₂ id actor (s, err e) = (s, err e)
then_revoke k c c₂ id actor (s, ok x) = (
  (revoke_passports_by_change k c₂ actor.organization_id id actor.id c.now
      (audit c actor id "PASSPORTS_REVOKED" "审批驳回，撤销旧通行证") s).0,
  ok x,
)

unfoldable pub reject :
    Crypto → Call → Call → Call → String → String → String → State → State × Result ChangeRequest
unfolding reject_checks update_change reject_update revoke_passports_by_change
reject k c c₁ c₂ id actor_id comment s = elim (reject_checks id actor_id comment s) [
  | err e ↦ (s, err e)
  | ok actor ↦
      let comment = trim_space comment in
      then_revoke k c c₂ id actor (
        update_change k c₁ id (reject_update c actor comment)
          (audit c actor id "REJECT" comment ∷ []) s)
]

-- `Complete`: a production change is completed by the consumption of its passport only
unfoldable pub complete : String → String → State → State × Result ChangeRequest
complete id actor_id s = (s, err invalid_state)
