-- ===== src/Store/Members.antt =====
-- internal/store/organization.go: enterprises, invitations, members and their grants. None of these
-- operations undoes its own write: if it fails, the state is what `restoreLocked` has left.
pub mod Emails
pub mod Invited
pub mod Granted
pub mod Updates
use changeguard.Prelude.{
  ℕ, zero, suc, ◌+◌, String, Bool, true, false, not, ◌&&◌, ◌||◌, Option, none, some, List, [], ◌∷◌,
  ◌++◌, ◌==◌, ltb, if◌then◌else◌, trim_space, equal_fold, any, filter, find, replace_first, length,
}
use changeguard.Model.Status.{Time, InviteStatus, is_invited}
use changeguard.Model.{
  Organization, User, UserCredential, OrganizationInvite, Application, ApplicationGrant,
  ApplicationGrantInput, RiskPolicy, AuditEvent, Err, not_found, conflict, Result, ok, err, ◌>>=◌,
}
use changeguard.Crypto.{Crypto}
use changeguard.Store.Base.{State, Call, save_locked, append_audits}

-- a write of a state and an audit event, with an answer
abbrev pub commit : {A : Type 0} → Crypto → Call → AuditEvent → State → A → State × Result A
commit k c a s answer = save_locked c.saving (append_audits k c (a ∷ []) s) (λ r. some r) answer

abbrev pub has_email : String → User → Bool
has_email email u = equal_fold u.email email

-- `CreateEnterprise`
unfoldable pub create_enterprise :
    Crypto
    → Call
    → Organization
    → User
    → UserCredential
    → List RiskPolicy
    → AuditEvent
    → State
    → State × Result (Unit {0})
unfolding any equal_fold append_audits
create_enterprise k c organization u credential policies a s =
    if any (λ (o : Organization). equal_fold o.slug organization.slug) s.organizations
      || any (has_email u.email) s.users
    then (s, err conflict)
    else commit k c a
        (record s {
          organizations = s.organizations ++ organization ∷ [];
          users = s.users ++ u ∷ [];
          credentials = s.credentials ++ credential ∷ [];
          policies = s.policies ++ policies;
        })
        tt

-- an invitation that is open for the same address
abbrev pub is_open_for : Time → OrganizationInvite → OrganizationInvite → Bool
is_open_for now i item =
    item.organization_id == i.organization_id
    && equal_fold item.email i.email
    && is_invited item.status
    && ltb now item.expires_at

-- `CreateInvite`
unfoldable pub create_invite :
    Crypto → Call → OrganizationInvite → AuditEvent → State → State × Result (Unit {0})
unfolding any equal_fold append_audits
create_invite k c i a s =
    if any (is_open_for c.now i) s.invites
    then (s, err conflict)
    else commit k c a (record s { invites = s.invites ++ i ∷ [] }) tt

abbrev pub is_revocable_invite : String → String → OrganizationInvite → Bool
is_revocable_invite org id i = i.id == id && i.organization_id == org && is_invited i.status

-- `RevokeInvite`
unfoldable pub revoke_invite :
    Crypto → Call → String → String → AuditEvent → State → State × Result (Unit {0})
unfolding find replace_first append_audits
revoke_invite k c org id a s = elim (find (is_revocable_invite org id) s.invites) [
  | none ↦ (s, err not_found)
  | some i ↦
      commit k c a
        (record s {
          invites =
              replace_first (is_revocable_invite org id)
                (record i { status = InviteStatus.revoked }) s.invites;
        })
        tt
]

abbrev pub is_acceptable : Time → String → OrganizationInvite → Bool
is_acceptable now id i = not (not (i.id == id) || not (is_invited i.status) || ltb i.expires_at now)

unfoldable pub accepted_invite : Time → User → OrganizationInvite → OrganizationInvite
accepted_invite now u i = record i {
  status = InviteStatus.accepted;
  accepted_by_id = u.id;
  accepted_at = some now;
}

abbrev pub fits : OrganizationInvite → User → Bool
fits i u = not (
    not (i.organization_id == u.organization_id)
    || not (equal_fold i.email u.email)
    || not (i.role == u.role))

-- the state in which the invitation is taken up by the user
unfoldable pub joined_state :
    (OrganizationInvite → Bool) → Time → OrganizationInvite → User → UserCredential → State → State
unfolding replace_first accepted_invite
joined_state p now i u credential s = record s {
  invites = replace_first p (accepted_invite now u i) s.invites;
  users = s.users ++ u ∷ [];
  credentials = s.credentials ++ credential ∷ [];
}

-- `AcceptInvite`
unfoldable pub accept_invite :
    Crypto → Call → String → User → UserCredential → AuditEvent → State → State × Result User
unfolding any find equal_fold append_audits joined_state
accept_invite k c id u credential a s =
    if any (has_email u.email) s.users
    then (s, err conflict)
    else elim (find (is_acceptable c.now id) s.invites) [
      | none ↦ (s, err not_found)
      | some i ↦
          if fits i u
          then commit k c a (joined_state (is_acceptable c.now id) c.now i u credential s) u
          else (s, err conflict)
    ]

abbrev pub is_current : Time → String → OrganizationInvite → Bool
is_current now id i = i.id == id && is_invited i.status && ltb now i.expires_at

-- `CreateSSOUser`
unfoldable pub create_sso_user :
    Crypto → Call → User → UserCredential → String → AuditEvent → State → State × Result User
unfolding any find equal_fold append_audits joined_state
create_sso_user k c u credential id a s =
    if any (has_email u.email) s.users
    then (s, err conflict)
    else if id == ""
    then commit k c a
        (record s { users = s.users ++ u ∷ []; credentials = s.credentials ++ credential ∷ [] }) u
    else elim (find (is_current c.now id) s.invites) [
      | none ↦ (s, err not_found)
      | some i ↦ commit k c a (joined_state (is_current c.now id) c.now i u credential s) u
    ]

unfoldable pub application_exists : String → State → String → Bool
unfolding any
application_exists org s id =
    any (λ (x : Application). x.id == id && x.organization_id == org) s.applications

abbrev pub new_grant : Time → String → String → String → ApplicationGrantInput → ApplicationGrant
new_grant now org user_id by i = record {
  organization_id = org;
  user_id = user_id;
  application_id = trim_space i.application_id;
  can_submit = i.can_submit;
  can_review = i.can_review;
  updated_by = by;
  updated_at = now;
}

-- the loop over the grants that are asked for, with the applications it has seen
unfoldable pub replacement :
    (String → Bool)
    → (ApplicationGrantInput → ApplicationGrant)
    → List String
    → List ApplicationGrantInput
    → Result (List ApplicationGrant)
unfolding any trim_space
replacement exists make seen [] = ok []
replacement exists make seen (i ∷ inputs) =
    let id = trim_space i.application_id in
    let skipped = replacement exists make seen inputs in
    let noted = replacement exists make (id ∷ seen) inputs in
    if id == "" || any (λ x. x == id) seen || not (exists id)
    then (if not (id == "") && not (exists id) then err not_found else skipped)
    else if not i.can_submit && not i.can_review
    then noted
    else noted >>= (λ grants. ok (make i ∷ grants))

abbrev pub is_member : String → String → User → Bool
is_member org id u = not (not (u.id == id) || not (u.organization_id == org))

abbrev pub is_others : String → String → ApplicationGrant → Bool
is_others org id g = not (g.organization_id == org) || not (g.user_id == id)

abbrev pub controlled : Time → Organization → Organization
controlled now o = record o { application_access_controlled = true; updated_at = now }

unfoldable pub with_control : Time → String → List Organization → List Organization
unfolding find replace_first
with_control now org organizations = elim (find (λ (o : Organization). o.id == org) organizations) [
  | none ↦ organizations
  | some o ↦ replace_first (λ (x : Organization). x.id == org) (controlled now o) organizations
]

unfoldable pub member_state : Time → String → String → User → List ApplicationGrant → State → State
unfolding filter replace_first with_control
member_state now org id u grants s = record s {
  grants = filter (is_others org id) s.grants ++ grants;
  organizations = with_control now org s.organizations;
  users = replace_first (is_member org id) u s.users;
}

-- `UpdateMember`
unfoldable pub update_member :
    Crypto
    → Call
    → String
    → String
    → (User → Result User)
    → List ApplicationGrantInput
    → AuditEvent
    → State
    → State × Result User
unfolding find application_exists replacement append_audits member_state
update_member k c org id update inputs a s = elim (find (is_member org id) s.users) [
  | none ↦ (s, err not_found)
  | some u ↦ elim (update u) [
    | err e ↦ (s, err e)
    | ok candidate ↦
        elim (replacement (application_exists org s) (new_grant c.now org id a.actor_id) []
          inputs) [
            | err e ↦ (s, err e)
            | ok grants ↦ commit k c a (member_state c.now org id candidate grants s) candidate
          ]
  ]
]

abbrev pub is_active_admin : String → User → Bool
is_active_admin org u = u.organization_id == org && u.active && u.enterprise_admin

-- `ActiveEnterpriseAdminCount`
unfoldable pub active_enterprise_admin_count : String → State → ℕ
unfolding filter
active_enterprise_admin_count org s = length (filter (is_active_admin org) s.users)
