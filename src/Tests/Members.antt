-- ===== src/Tests/Members.antt =====
-- An enterprise whose administrator invites a member and then sets the member's grants.
use changeguard.Prelude.{
  String, ◌≡◌, refl, true, false, some, none, List, [], ◌∷◌, arith, eq_iff, any, find,
  if◌then◌else◌, ◌≤◌,
}
use changeguard.Model.Status.{InviteStatus}
use changeguard.Model.{
  Organization, User, UserCredential, OrganizationInvite, ApplicationGrantInput, not_found,
  conflict, Result, ok, err,
}
use changeguard.Store.Base.{State}
use changeguard.Store.Passport.{empty_audit}
use changeguard.Store.Members.{
  create_invite, accept_invite, create_sso_user, update_member, active_enterprise_admin_count,
  has_email,
}
use changeguard.Store.Members.Emails.{
  Run, stop, ◌then◌, invite, accept, member, UniqueEmails, Run-UniqueEmails,
}
use changeguard.Store.Members.Invited.{IsAccepted, accept_invite-IsAccepted, accept_invite_once}
use changeguard.Store.Members.Granted.{names}
use changeguard.Service.Access.{submit, can_use_application}
use changeguard.Service.Access.Updated.{asked_access, can_use_application-update_member}
use changeguard.Auth.{UpdateMemberInput, updated_user, put_member}
use changeguard.Auth.Administrator.{
  IsAdministrator, IsTheirs, OthersKept, put_member-IsAdministrator,
}
use changeguard.Tests.Fixtures.{crypto, call, reviewer, empty_state}

abbrev enterprise : Organization
enterprise = record {
  id = "org";
  slug = "org";
  updated_at = 1;
  application_access_controlled = false;
}

abbrev administrator : User
administrator = record reviewer { id = "adm"; email = "adm@corp"; enterprise_admin = true }

abbrev start : State
start = record empty_state {
  users = administrator ∷ [];
  applications = record { organization_id = "org"; id = "app" } ∷ [];
}

abbrev invitation : OrganizationInvite
invitation = record {
  id = "inv";
  organization_id = "org";
  email = "new@corp";
  role = "后端开发";
  token_hash = "ht";
  status = InviteStatus.pending;
  expires_at = 100;
  accepted_by_id = "";
  accepted_at = none;
}

abbrev newcomer : User
newcomer = record {
  id = "new";
  organization_id = "org";
  name = "New";
  email = "New@corp";
  role = "后端开发";
  enterprise_admin = false;
  active = true;
}

abbrev credential : UserCredential
credential = record { user_id = "new"; identity_provider = ""; subject = "" }

abbrev inviting : State
inviting = (create_invite crypto (call 10) invitation empty_audit start).0

abbrev joining : State × Result User
joining = accept_invite crypto (call 20) "inv" newcomer credential empty_audit inviting

joining_ok : joining ≡ (joining.0, ok newcomer)
unfolding create_invite accept_invite
joining_ok = refl

accept_invite-IsAccepted_example :
    IsAccepted (call 20) "inv" newcomer credential inviting joining.0 newcomer
accept_invite-IsAccepted_example =
    accept_invite-IsAccepted crypto (call 20) "inv" newcomer credential empty_audit inviting
      joining.0 newcomer joining_ok

abbrev stranger : User
stranger = record newcomer { id = "other"; email = "other@corp" }

accept_invite_once_example :
    (accept_invite crypto (call 30) "inv" stranger credential empty_audit joining.0 ≡ (
      joining.0,
      err (if any (has_email "other@corp") joining.0.users then conflict else not_found),
    ))
    × (create_sso_user crypto (call 30) stranger credential "inv" empty_audit joining.0 ≡ (
      joining.0,
      err (if any (has_email "other@corp") joining.0.users then conflict else not_found),
    ))
accept_invite_once_example =
    accept_invite_once crypto (call 20) "inv" newcomer credential empty_audit inviting joining.0
      newcomer joining_ok (unfold create_invite in (unfold any in refl, tt))
      (λ e. absurd (ground (arith, eq_iff "inv" ""))) (call 30) stranger credential empty_audit

abbrev asked : List ApplicationGrantInput
asked = record { application_id = " app"; can_submit = true; can_review = false } ∷ []

abbrev input : UpdateMemberInput
input = record {
  role = "后端开发";
  active = true;
  enterprise_admin = false;
  application_grants = asked;
}

abbrev granting : State × Result User
granting =
    update_member crypto (call 40) "org" "new" (updated_user input) asked empty_audit joining.0

granting_ok : granting ≡ (granting.0, ok newcomer)
unfolding create_invite accept_invite update_member
granting_ok = refl

can_use_application-update_member_example :
    can_use_application newcomer "app" submit granting.0
    ≡ asked_access submit (find (names "app") asked)
can_use_application-update_member_example =
    can_use_application-update_member crypto (call 40) "org" "new" (updated_user input) asked
      empty_audit joining.0 granting.0 newcomer granting_ok refl refl refl enterprise
      (unfold find create_invite accept_invite in refl) "app"
      (λ e. absurd (ground (arith, eq_iff "app" ""))) submit

history : Run crypto start granting.0
history =
    invite (call 10) invitation empty_audit tt
    then accept (call 20) "inv" newcomer credential empty_audit tt
    then member (call 40) "org" "new" (updated_user input) asked empty_audit tt
        (λ u v e. ground arith)
    then stop

Run-UniqueEmails_example : UniqueEmails granting.0.users
Run-UniqueEmails_example = Run-UniqueEmails history (unfold any in (refl, tt))

abbrev putting : State × Result User
putting = put_member crypto (call 50) (call 50) (λ s. s) "adm" "new" (some input) joining.0

putting_ok : putting ≡ (putting.0, ok newcomer)
unfolding create_invite accept_invite put_member
putting_ok = refl

put_member-IsAdministrator_example :
    (org : String) × IsAdministrator "adm" org joining.0
    × IsAdministrator "adm" org putting.0
    × IsTheirs "new" org newcomer joining.0 putting.0
    × OthersKept crypto
        (call 50)
        (call 50)
        (λ s. s)
        "adm"
        "new"
        (some input)
        joining.0
        putting.0
        newcomer
        refl
    × (1 ≤ active_enterprise_admin_count org putting.0)
put_member-IsAdministrator_example =
    put_member-IsAdministrator crypto (call 50) (call 50) (λ s. s) "adm" "new" (some input)
      joining.0 putting.0 newcomer refl putting_ok
