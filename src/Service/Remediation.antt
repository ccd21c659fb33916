-- ===== src/Service/Remediation.antt =====
-- internal/service/service.go: the way of a blocking finding to its release: `AssignFinding`,
-- `ResolveFinding` and `VerifyFinding`.
pub mod Separation
use Prim.Native.String.{◌++◌ as text_append}
use changeguard.Prelude.{
  ℕ, ◌+◌, ◌*◌, String, Bool, true, false, not, ◌&&◌, ◌||◌, Option, none, some, List, [], ◌∷◌, ◌==◌,
  length, if◌then◌else◌, trim_space, rune_count, ltb, nat_eq, find, replace_first,
}
use changeguard.Model.Status.{
  Time, hour, FindingStatus, assigned, resolved, verified, is_finding, ChangeStatus, approved,
  check_failed, ready_for_experiment, waiting_approval, is_change, CheckStatus, passed,
}
use changeguard.Model.{
  User, Finding, CheckRun, ChangeRequest, Err, invalid_state, forbidden, validation, Result, ok,
  err, ◌>>=◌, ◌>>◌, require,
}
use changeguard.Crypto.{Crypto}
use changeguard.Store.Base.{State, Call, user, change}
use changeguard.Store.Changes.{Update, update_change}
use changeguard.Service.Access.{
  active_actor, can_use_application, submit, review, is_reviewer, role_owner, timeline, on_timeline,
  audit,
}
use changeguard.Service.Findings.{all_blocking_findings_verified}
use changeguard.Service.Review.{has_sql}

abbrev pub has_finding_id : String → Finding → Bool
has_finding_id id f = f.id == id

-- `findingIndex` and the element there
unfoldable pub finding_of : String → ChangeRequest → Result Finding
unfolding find
finding_of id x = elim (find (has_finding_id id) x.findings) [
  | none ↦ err validation
  | some f ↦ ok f
]

abbrev pub with_finding : String → Finding → ChangeRequest → ChangeRequest
with_finding id f x = record x { findings = replace_first (has_finding_id id) f x.findings }

abbrev pub is_closed : ChangeRequest → Bool
is_closed x = is_change x.status approved || is_change x.status ChangeStatus.completed

-- an active reviewer
unfoldable pub reviewing_actor : String → State → Result User
unfolding active_actor
reviewing_actor id s = active_actor id s >>= (λ u. require forbidden (is_reviewer u) >> ok u)

abbrev or_invalid : Result User → Result User
or_invalid (err e) = err validation
or_invalid (ok u) = if u.active then ok u else err validation

-- the finding that `AssignFinding` writes
unfoldable pub assigned_finding : Call → User → Time → Finding → Finding
assigned_finding c owner due f = record f {
  status = assigned;
  owner_id = owner.id;
  owner_name = owner.name;
  due_at = some due;
  updated_at = c.now;
}

-- a change of the finding by its id, with an entry on the timeline
unfoldable pub finding_update :
    String → (Finding → Finding) → (ChangeRequest → ChangeRequest) → Update
unfolding find replace_first
finding_update id f then_do x = elim (find (has_finding_id id) x.findings) [
  | none ↦ (x, some validation)
  | some y ↦ (then_do (with_finding id (f y) x), none)
]

-- what `AssignFinding` has found: the actor and the owner
unfoldable pub assign_checks :
    Call → String → String → String → String → Time → State → Result (User × User)
unfolding reviewing_actor user change can_use_application finding_of
assign_checks c change_id finding_id actor_id owner_id due s =
    reviewing_actor actor_id s >>= (λ actor. or_invalid (user owner_id s) >>= (λ owner.
      change change_id s >>= (λ x.
        require forbidden (
          x.organization_id == actor.organization_id
          && owner.organization_id == actor.organization_id
          && can_use_application actor x.application_id review s
          && can_use_application owner x.application_id submit s)
        >> (require invalid_state (not (is_closed x))
            >> (finding_of finding_id x
                >>= (λ f. require validation (ltb c.now due) >> ok (actor, owner)))))))

-- the time that is set if none is asked for
abbrev due_of : Call → Time → Time
due_of c due = if nat_eq due 0 then c.now + 72 * hour else due

-- `AssignFinding`, with Go's format of a time
unfoldable pub assign_finding :
    Crypto
    → (Time → String)
    → Call
    → Call
    → String
    → String
    → String
    → String
    → Time
    → State
    → State × Result ChangeRequest
unfolding assign_checks assigned_finding finding_update update_change
assign_finding k format c c₁ change_id finding_id actor_id owner_id due s =
    let due = due_of c due in
    elim (assign_checks c change_id finding_id actor_id owner_id due s) [
      | err e ↦ (s, err e)
      | ok (actor, owner) ↦
          let detail = text_append "风险项 " (
            text_append finding_id (
              text_append " 已派给 " (
                text_append owner.name
                  (text_append "，要求于 " (text_append (format due) " 前完成整改"))))) in
          update_change k c₁ change_id
            (finding_update finding_id (assigned_finding c owner due)
              (λ x. on_timeline (timeline c 0 x.status "风险整改派单" detail actor.name) x))
            (audit c actor change_id "ASSIGN_FINDING" detail ∷ []) s
    ]

unfoldable pub may_resolve : User → ChangeRequest → Finding → Bool
may_resolve actor x f =
    let close = x.submitter_id == actor.id || actor.role == role_owner in
    if f.owner_id == "" then close else f.owner_id == actor.id || close

unfoldable pub resolve_checks : String → String → String → String → State → Result User
unfolding active_actor change can_use_application finding_of may_resolve
resolve_checks change_id finding_id actor_id resolution s = active_actor actor_id s >>= (λ actor.
    change change_id s >>= (λ x.
      require invalid_state (not (is_closed x))
      >> (require forbidden (
            x.organization_id == actor.organization_id
            && can_use_application actor x.application_id submit s)
          >> (finding_of finding_id x >>= (λ f.
              require forbidden (may_resolve actor x f)
              >> (require invalid_state (not (is_finding f.status verified))
                  >> (require validation
                        (not (ltb (rune_count resolution) 5 || ltb 1000 (rune_count resolution)))
                      >> ok actor)))))))

unfoldable pub resolved_finding : Call → User → String → Finding → Finding
resolved_finding c actor resolution f = record f {
  status = resolved;
  owner_id = if f.owner_id == "" then actor.id else f.owner_id;
  owner_name = if f.owner_id == "" then actor.name else f.owner_name;
  resolution = resolution;
  resolved_at = some c.now;
  verified_at = none;
  verified_by_id = "";
  verified_by_name = "";
  verification_comment = "";
  updated_at = c.now;
}

-- `ResolveFinding`
unfoldable pub resolve_finding :
    Crypto → Call → Call → String → String → String → String → State → State × Result ChangeRequest
unfolding resolve_checks resolved_finding finding_update update_change trim_space
resolve_finding k c c₁ change_id finding_id actor_id text s =
    let resolution = trim_space text in
    elim (resolve_checks change_id finding_id actor_id resolution s) [
      | err e ↦ (s, err e)
      | ok actor ↦
          let detail = text_append "风险项 " (text_append finding_id " 已提交整改，等待审核人复核") in
          update_change k c₁ change_id
            (finding_update finding_id (resolved_finding c actor resolution)
              (λ x. on_timeline (timeline c 0 x.status "提交风险整改" detail actor.name) x))
            (audit c actor change_id "RESOLVE_FINDING" detail ∷ []) s
    ]

unfoldable pub verification_comment_of : String → Bool → Result String
unfolding trim_space
verification_comment_of text accepted =
    let comment = trim_space text in
    require validation (not (ltb 1000 (rune_count comment)))
    >> (if not (comment == "")
        then ok comment
        else if accepted
        then ok "整改证据已核对，复核通过"
        else err validation)

unfoldable pub verify_checks :
    String → String → String → String → Bool → State → Result (User × String)
unfolding reviewing_actor change can_use_application finding_of verification_comment_of
verify_checks change_id finding_id actor_id text accepted s =
    reviewing_actor actor_id s >>= (λ actor. change change_id s >>= (λ x.
      require invalid_state (not (is_closed x))
      >> (require forbidden (
            x.organization_id == actor.organization_id
            && can_use_application actor x.application_id review s)
          >> (finding_of finding_id x >>= (λ f.
              require invalid_state (is_finding f.status resolved)
              >> (require forbidden (not (f.owner_id == actor.id))
                  >> (verification_comment_of text accepted
                      >>= (λ comment. ok (actor, comment)))))))))

unfoldable pub verified_finding : Call → User → String → Bool → Finding → Finding
verified_finding c actor comment accepted f = record f {
  verified_by_id = actor.id;
  verified_by_name = actor.name;
  verification_comment = comment;
  updated_at = c.now;
  status = if accepted then verified else assigned;
  verified_at = if accepted then some c.now else none;
}

abbrev run_id : Call → Option CheckRun → String
run_id c none = c.new_id "check_" 0
run_id c (some r) = r.id

-- the check run of a change whose blocking findings have all been verified
unfoldable pub closed_run : Call → ChangeRequest → CheckRun
closed_run c x = record {
  id = run_id c x.check_run;
  artifact_sha256 = x.artifact_sha256;
  rule_set_version = x.rule_set_version;
  status = passed;
  findings = length x.findings;
  blocking = 0;
  checked_at = c.now;
}

abbrev moved_on : Call → User → ChangeRequest → ChangeRequest
moved_on c actor x =
    if has_sql x
    then on_timeline
        (timeline c 1 ready_for_experiment "阻断风险已闭环" "所有阻断风险项均完成整改与独立复核，可以进入 PostgreSQL 影子演练"
          actor.name)
        (record x { status = ready_for_experiment })
    else on_timeline
        (timeline c 1 waiting_approval "阻断风险已闭环" "所有阻断风险项均完成整改与独立复核，静态门禁通过，等待独立审批" actor.name)
        (record x { status = waiting_approval })

-- a failed check is passed once its last blocking finding is verified
unfoldable pub after_verification : Call → User → Bool → ChangeRequest → ChangeRequest
unfolding all_blocking_findings_verified closed_run trim_space
after_verification c actor accepted x =
    if accepted && is_change x.status check_failed && all_blocking_findings_verified x.findings
    then moved_on c actor (record x { check_run = some (closed_run c x) })
    else x

abbrev pub verdict : Bool → String × String
verdict true = ("风险复核通过", "VERIFY_FINDING")
verdict false = ("风险整改退回", "REJECT_FINDING")

unfoldable pub verify_update : Call → User → String → String → Bool → Update
unfolding finding_update verified_finding after_verification
verify_update c actor finding_id comment accepted =
    finding_update finding_id (verified_finding c actor comment accepted) (λ x.
      after_verification c actor accepted
        (on_timeline (timeline c 0 x.status (verdict accepted).0 comment actor.name) x))

-- `VerifyFinding`
unfoldable pub verify_finding :
    Crypto
    → Call
    → Call
    → String
    → String
    → String
    → String
    → Bool
    → State
    → State × Result ChangeRequest
unfolding verify_checks verify_update update_change
verify_finding k c c₁ change_id finding_id actor_id text accepted s =
    elim (verify_checks change_id finding_id actor_id text accepted s) [
      | err e ↦ (s, err e)
      | ok (actor, comment) ↦
          update_change k c₁ change_id (verify_update c actor finding_id comment accepted)
            (audit c actor change_id (verdict accepted).1 comment ∷ []) s
    ]
