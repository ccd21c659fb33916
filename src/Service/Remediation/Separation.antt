-- ===== src/Service/Remediation/Separation.antt =====
-- Who may verify a finding, and what a verification changes.
use changeguard.Prelude.{String, ◌≡◌, ◌≢◌, Bool, true, false, not, ◌&&◌, some, ◌==◌, find, ◌⊎◌}
use changeguard.Model.Status.{resolved, is_finding, check_failed, is_change}
use changeguard.Model.{
  User, Finding, ChangeRequest, invalid_state, forbidden, Result, ok, ◌>>=◌, ◌>>◌, require,
}
use changeguard.Crypto.{Crypto}
use changeguard.Store.Base.{State, Call, change}
use changeguard.Store.Changes.Written.{Written}
use changeguard.Service.Access.{active_actor, can_use_application, review, is_reviewer}
use changeguard.Service.Findings.{all_blocking_findings_verified}
use changeguard.Service.Remediation.{
  has_finding_id, finding_of, is_closed, verification_comment_of, verified_finding,
}

-- the finding was resolved by somebody else, and the actor is a reviewer of its organization
pub record IsSeparate (actor : User) (x : ChangeRequest) (f : Finding) (s : State) : Type 0 where
  pub reviewer : is_reviewer actor ≡ true
  pub organization : x.organization_id ≡ actor.organization_id
  pub access : can_use_application actor x.application_id review s ≡ true
  pub open_change : is_closed x ≡ false
  pub was_resolved : f.status ≡ resolved
  pub not_owner : f.owner_id ≢ actor.id

module _ (change_id finding_id actor_id text : String) (accepted : Bool) (s : State) where
  abbrev Checked : User × String → Type 0
  Checked p =
      (active_actor actor_id s ≡ ok p.0)
      × (x : ChangeRequest) × (change change_id s ≡ ok x)
      × (f : Finding) × (find (has_finding_id finding_id) x.findings ≡ some f)
      × IsSeparate p.0 x f s

  abbrev on_found : User → Finding → Result (User × String)
  on_found actor f =
      require invalid_state (is_finding f.status resolved)
      >> (require forbidden (not (f.owner_id == actor.id))
          >> (verification_comment_of text accepted >>= (λ comment. ok (actor, comment))))

  abbrev on_change : User → ChangeRequest → Result (User × String)
  on_change actor x =
      require invalid_state (not (is_closed x))
      >> (require forbidden (
            x.organization_id == actor.organization_id
            && can_use_application actor x.application_id review s)
          >> (finding_of finding_id x >>= on_found actor))

-- What a verification leaves: the finding with its verdict, and the change where it was, or moved on
-- because its last blocking finding has been verified.
pub record IsVerified (c : Call) (finding_id actor_id : String) (accepted : Bool) (s : State)
    (y : ChangeRequest) : Type 0 where
  pub actor : User
  pub known : active_actor actor_id s ≡ ok actor
  pub old : ChangeRequest
  pub finding : Finding
  pub found : find (has_finding_id finding_id) old.findings ≡ some finding
  pub separate : IsSeparate actor old finding s
  pub comment : String
  pub recorded :
      find (has_finding_id finding_id) y.findings
      ≡ some (verified_finding c actor comment accepted finding)
  pub progress :
      (y.status ≡ old.status)
      ⊎ ((accepted ≡ true)
          × (is_change old.status check_failed ≡ true)
          × (all_blocking_findings_verified y.findings ≡ true))

module _ (c : Call) (actor : User) (accepted : Bool) where
  abbrev Progress : ChangeRequest → ChangeRequest → Type 0
  Progress x y =
      (y.findings ≡ x.findings)
      × ((y.status ≡ x.status)
          ⊎ ((accepted ≡ true)
              × (is_change x.status check_failed ≡ true)
              × (all_blocking_findings_verified x.findings ≡ true)))
