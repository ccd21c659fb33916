-- ===== src/Service/Review/Duties.antt =====
-- What an approval rests on: the separation of duties and the evidence.
use changeguard.Prelude.{
  String, ◌≡◌, ◌≢◌, subst, ap, sym, Bool, true, false, not, ◌&&◌, [], ◌∷◌, ◌==◌, eq_iff,
  if◌then◌else◌, arith, Bool-cases, ◌⊎◌, inl, inr,
}
use changeguard.Model.Status.{ChangeStatus, waiting_approval, approved, is_change, is_high}
use changeguard.Model.{
  User, ChangeRequest, invalid_state, forbidden, validation, Result, ok, err, ◌>>=◌, ◌>>◌, require,
  bind-ok, then-ok, Result-cases, ok-injective,
}
use changeguard.Crypto.{Crypto}
use changeguard.Store.Base.{State, Call, change, user}
use changeguard.Store.Changes.Written.{update_change-Written, written_state-change}
use changeguard.Store.Changes.{update_change}
use changeguard.Service.Access.{
  active_actor, if_active, can_use_application, review, trusted_for_release, trusted_sql_experiment,
  valid_rune_length, is_reviewer, role_owner, audit, audit_change_version,
}
use changeguard.Service.Findings.{
  has_blocking_finding, all_blocking_findings_verified, all_blocking_findings_verified-eq,
}
use changeguard.Service.Review.{
  approve_change_checks, may_review, evidence_holds, approve_checks, approve, approve_update,
  approval_comment, run_passed, has_sql,
}

-- an active user of the change's organization who may review it and did not submit it
pub record IsIndependent (s : State) (actor_id : String) (actor : User) (x : ChangeRequest)
    : Type 0 where
  pub known : user actor_id s ≡ ok actor
  pub active : actor.active ≡ true
  pub organization : x.organization_id ≡ actor.organization_id
  pub access : can_use_application actor x.application_id review s ≡ true
  pub not_submitter : actor.id ≢ x.submitter_id
  pub role : is_reviewer actor ≡ true

-- what the change itself must show
pub record IsReady (actor : User) (x : ChangeRequest) : Type 0 where
  pub source : trusted_for_release x ≡ true
  pub waiting : x.status ≡ waiting_approval
  pub evidence :
      ((has_sql x ≡ true) × (trusted_sql_experiment x ≡ true))
      ⊎ ((has_sql x ≡ false) × (run_passed x.check_run ≡ true))
  pub no_blocker : has_blocking_finding x.findings ≡ false
  pub high_by_owner : (is_high x.risk ≡ false) ⊎ (actor.role ≡ role_owner)

is_waiting-eq : (s : ChangeStatus) → is_change s waiting_approval ≡ true → s ≡ waiting_approval
is_waiting-eq s h = ground arith

guarded :
    (b : Bool) (v u : User) → (if b then ok v else err forbidden) ≡ ok u → (b ≡ true) × (v ≡ u)
guarded b v u h = ground arith

if_active-ok : (r : Result User) (u : User) → if_active r ≡ ok u → (r ≡ ok u) × (u.active ≡ true)
if_active-ok (err e) u h = absurd (ground arith)
if_active-ok (ok v) u h =
    let (a, e) = guarded v.active v u h in
    (ap (λ w. ok w) e, subst (λ (w : User). w.active ≡ true) e a)

active_actor-ok :
    (id : String) (s : State) (u : User)
    → active_actor id s ≡ ok u
    → (user id s ≡ ok u) × (u.active ≡ true)
unfolding active_actor
active_actor-ok id s u h = if_active-ok (user id s) u h

may_review-ok :
    (actor : User) (x : ChangeRequest) (s : State)
    → may_review actor x s ≡ ok tt
    → (x.organization_id ≡ actor.organization_id)
      × (can_use_application actor x.application_id review s ≡ true)
      × (trusted_for_release x ≡ true)
      × (x.status ≡ waiting_approval)
      × (actor.id ≢ x.submitter_id)
      × (is_reviewer actor ≡ true)
unfolding may_review
may_review-ok actor x s h = ground (
  arith,
  eq_iff x.organization_id actor.organization_id,
  eq_iff actor.id x.submitter_id,
  is_waiting-eq x.status,
)

blockers_verified :
    (x : ChangeRequest)
    → not (not (all_blocking_findings_verified x.findings) && has_blocking_finding x.findings)
      ≡ true
    → has_blocking_finding x.findings ≡ false
blockers_verified x h = ground (arith, all_blocking_findings_verified-eq x.findings)

evidence :
    (sql rehearsed checked closed risky owner : Bool)
    → ((if sql then require invalid_state rehearsed else require invalid_state checked)
        >> require invalid_state closed
        >> require forbidden (not (risky && not owner)))
      ≡ ok tt
    → ((sql ≡ true → rehearsed ≡ true) × (sql ≡ false → checked ≡ true))
      × (closed ≡ true)
      × (risky ≡ true → owner ≡ true)
evidence sql rehearsed checked closed risky owner h =
    ((λ a. ground arith, λ a. ground arith), ground arith, λ a. ground arith)

evidence_holds-ok :
    (actor : User) (x : ChangeRequest)
    → evidence_holds actor x ≡ ok tt
    → (has_sql x ≡ true → trusted_sql_experiment x ≡ true)
      × (has_sql x ≡ false → run_passed x.check_run ≡ true)
      × (has_blocking_finding x.findings ≡ false)
      × (is_high x.risk ≡ true → actor.role ≡ role_owner)
unfolding evidence_holds
evidence_holds-ok actor x h =
    let (sql, blockers, owner) =
      evidence (has_sql x) (trusted_sql_experiment x) (run_passed x.check_run)
        (not (not (all_blocking_findings_verified x.findings) && has_blocking_finding x.findings))
        (is_high x.risk) (actor.role == role_owner) h in
    (
      sql.0,
      sql.1,
      blockers_verified x blockers,
      λ risky. ground (arith, owner risky, eq_iff actor.role role_owner),
    )

abbrev MayReview : User → ChangeRequest → State → Type 0
MayReview actor x s =
    (x.organization_id ≡ actor.organization_id)
    × (can_use_application actor x.application_id review s ≡ true)
    × (trusted_for_release x ≡ true)
    × (x.status ≡ waiting_approval)
    × (actor.id ≢ x.submitter_id)
    × (is_reviewer actor ≡ true)

abbrev EvidenceHolds : User → ChangeRequest → Type 0
EvidenceHolds actor x =
    (has_sql x ≡ true → trusted_sql_experiment x ≡ true)
    × (has_sql x ≡ false → run_passed x.check_run ≡ true)
    × (has_blocking_finding x.findings ≡ false)
    × (is_high x.risk ≡ true → actor.role ≡ role_owner)

independent :
    (s : State) (actor_id : String) (actor : User) (x : ChangeRequest)
    → user actor_id s ≡ ok actor
    → actor.active ≡ true
    → MayReview actor x s
    → IsIndependent s actor_id actor x
independent s actor_id actor x k a (o, ac, src, w, n, r) = record {
  known = k;
  active = a;
  organization = o;
  access = ac;
  not_submitter = n;
  role = r;
}

ready :
    (s : State) (actor : User) (x : ChangeRequest)
    → MayReview actor x s
    → EvidenceHolds actor x
    → IsReady actor x
ready s actor x (o, ac, src, w, n, r) (sql, none_sql, blockers, owner) = record {
  source = src;
  waiting = w;
  no_blocker = blockers;
  evidence = elim (Bool-cases (has_sql x)) [ inl h ↦ inl (h, sql h) | inr h ↦ inr (h, none_sql h) ];
  high_by_owner = elim (Bool-cases (is_high x.risk)) [ inl h ↦ inr (owner h) | inr h ↦ inl h ];
}

-- what `Approve` has found before it writes
approve_checks-ok :
    (id actor_id comment : String) (s : State) (actor : User) (x : ChangeRequest)
    → approve_checks id actor_id comment s ≡ ok (actor, x)
    → (change id s ≡ ok x) × IsIndependent s actor_id actor x × IsReady actor x
unfolding approve_checks approve_change_checks
approve_checks-ok id actor_id comment s actor x h =
    let (a, known_h, h₁) =
      bind-ok (active_actor actor_id s)
        (λ a. change id s >>= (λ z. approve_change_checks comment s a z)) (actor, x) h in
    let (z, change_h, h₂) =
      bind-ok (change id s) (λ z. approve_change_checks comment s a z) (actor, x) h₁ in
    let (may, h₃) =
      then-ok (may_review a z s) (evidence_holds a z >> commented a z) (actor, x) h₂ in
    let (evidence_h, h₄) = then-ok (evidence_holds a z) (commented a z) (actor, x) h₃ in
    let (_, h₅) =
      then-ok (require validation (valid_rune_length (approval_comment comment) 1 2000)) (ok (a, z))
        (actor, x) h₄ in
    let (known, act) = active_actor-ok actor_id s a known_h in
    let pairs = ok-injective (a, z) (actor, x) h₅ in
    subst
      (λ (p : User × ChangeRequest).
        (change id s ≡ ok p.1) × IsIndependent s actor_id p.0 p.1 × IsReady p.0 p.1)
      pairs
      (
        change_h,
        independent s actor_id a z known act (may_review-ok a z s may),
        ready s a z (may_review-ok a z s may) (evidence_holds-ok a z evidence_h),
      )
  where
    commented : User → ChangeRequest → Result (User × ChangeRequest)
    commented a z =
        require validation (valid_rune_length (approval_comment comment) 1 2000) >> ok (a, z)

pub record IsApproval (id actor_id : String) (s t : State) (y : ChangeRequest) : Type 0 where
  pub actor : User
  pub old : ChangeRequest
  pub found : change id s ≡ ok old
  pub independent : IsIndependent s actor_id actor old
  pub ready : IsReady actor old
  pub stands : change id t ≡ ok y
  pub is_approved : y.status ≡ approved
  pub reviewer : y.reviewer_id ≡ actor.id
  pub same_content :
      (y.artifact_sha256 ≡ old.artifact_sha256)
      × (y.findings ≡ old.findings)
      × (y.submitter_id ≡ old.submitter_id)

module _ (k : Crypto) (c c₁ : Call) (id actor_id comment : String) (s t : State)
    (y : ChangeRequest) where
  built :
      (actor : User) (x : ChangeRequest)
      → (change id s ≡ ok x) × IsIndependent s actor_id actor x × IsReady actor x
      → update_change k c₁ id
          (approve_update c actor (approval_comment comment))
          (audit_change_version (audit c actor id "APPROVE" (approval_comment comment)) x ∷ [])
          s
        ≡ (t, ok y)
      → IsApproval id actor_id s t y
  unfolding approve_update change
  built actor x (found, who, what) h =
      let w =
        update_change-Written k c₁ id (approve_update c actor (approval_comment comment))
          (audit_change_version (audit c actor id "APPROVE" (approval_comment comment)) x ∷ []) s t
          y h in
      let same : x ≡ w.old = ground (arith, w.found) in
      let new : (approve_update c actor (approval_comment comment) w.old).0 ≡ w.new =
        ap (λ p. p.0) w.updated in
      let stands : change id t ≡ ok y =
        rw (w.state, w.result)
          (written_state-change k c₁ id w.old w.new
            (audit_change_version (audit c actor id "APPROVE" (approval_comment comment)) x ∷ []) s
            w.found (ap (λ (z : ChangeRequest). z.id) (sym new))) in
      record {
        actor = actor;
        old = x;
        found = found;
        independent = who;
        ready = what;
        stands = stands;
        is_approved = rw (w.result) (ap (λ (z : ChangeRequest). z.status) (sym new));
        reviewer = rw (w.result) (ap (λ (z : ChangeRequest). z.reviewer_id) (sym new));
        same_content =
            rw (w.result, same)
              (
                ap (λ (z : ChangeRequest). z.artifact_sha256) (sym new),
                ap (λ (z : ChangeRequest). z.findings) (sym new),
                ap (λ (z : ChangeRequest). z.submitter_id) (sym new),
              );
      }

  -- An approval that returns a change has approved it in the store in the name of an active user of
  -- its organization who is a reviewer with access to its application and did not submit it; the
  -- change was waiting for approval, from a trusted source, without an unverified blocking finding,
  -- with a trusted rehearsal if it has SQL and a passed check if it has none, and approved by the
  -- owner if its risk was high.
  pub approve-IsApproval :
      approve k c c₁ id actor_id comment s ≡ (t, ok y) → IsApproval id actor_id s t y
  unfolding approve
  approve-IsApproval h = elim (Result-cases (approve_checks id actor_id comment s)) [
    | inl (e, f) ↦ absurd (ground arith)
    | inr ((actor, x), f) ↦
        built actor x (approve_checks-ok id actor_id comment s actor x f) (rw (f, approve) at h)
  ]
