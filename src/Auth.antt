-- ===== src/Auth.antt =====
-- internal/auth/enterprise.go: what an administrator may change about a member.

pub mod Administrator
use Prim.Native.String.{◌++◌ as text_append}
use changeguard.Prelude.{
  String, Bool, true, false, not, ◌&&◌, ◌||◌, Option, none, some, List, [], ◌∷◌, ◌==◌, leb,
  if◌then◌else◌, find,
}
use changeguard.Model.Status.{Time}
use changeguard.Model.{
  Organization, User, ApplicationGrantInput, AuditEvent, Err, not_found, conflict, forbidden,
  validation, unauthorized, Result, ok, err, ◌>>=◌, ◌>>◌, require,
}
use changeguard.Crypto.{Crypto}
use changeguard.Store.Base.{State, Call, user, of_option}
use changeguard.Store.Passport.{empty_audit}
use changeguard.Store.Members.{update_member, active_enterprise_admin_count}
use changeguard.Service.Access.{role_owner, role_reviewer}

pub record UpdateMemberInput : Type 0 where
  pub role : String
  pub active : Bool
  pub enterprise_admin : Bool
  pub application_grants : List ApplicationGrantInput

abbrev role_developer : String
role_developer = "后端开发"

abbrev pub valid_role : String → Bool
valid_role role = role == role_developer || role == role_reviewer || role == role_owner

-- `Organization`
unfoldable pub organization : String → State → Result Organization
unfolding find
organization id s = of_option (find (λ (o : Organization). o.id == id) s.organizations)

abbrev pub or_unauthorized : {A : Type 0} → Result A → Result A
or_unauthorized (err e) = err unauthorized
or_unauthorized (ok a) = ok a

-- `currentEnterprise`, for the user of the session
unfoldable pub current_enterprise : String → State → Result (User × Organization)
unfolding user organization
current_enterprise id s = or_unauthorized (user id s) >>= (λ u.
    require unauthorized u.active
    >> (or_unauthorized (organization u.organization_id s) >>= (λ o. ok (u, o))))

abbrev member_of : Organization → Result User → Result User
member_of o (err e) = err not_found
member_of o (ok u) = if not (u.organization_id == o.id) then err not_found else ok u

abbrev pub demotes : UpdateMemberInput → Bool
demotes input = not input.active || not input.enterprise_admin

abbrev pub usable : Option UpdateMemberInput → Result UpdateMemberInput
usable none = err validation
usable (some input) = if valid_role input.role then ok input else err validation

-- the guards of `HandleMember` for a PUT, and what it goes on with
unfoldable pub member_checks :
    String
    → String
    → Option UpdateMemberInput
    → State
    → Result (User × Organization × User × UpdateMemberInput)
unfolding current_enterprise user active_enterprise_admin_count
member_checks actor_id member_id decoded s = current_enterprise actor_id s >>= (λ x.
    require forbidden x.0.enterprise_admin
    >> (require not_found (not (member_id == ""))
        >> (member_of x.1 (user member_id s) >>= (λ member. usable decoded >>= (λ input.
            require conflict (not (member.id == x.0.id && demotes input))
            >> (require conflict (
                  not (
                    member.enterprise_admin
                    && demotes input
                    && leb (active_enterprise_admin_count x.1.id s) 1))
                >> ok (x.0, x.1, member, input)))))))

abbrev pub updated_user : UpdateMemberInput → User → Result User
updated_user input u = ok (record u {
  role = input.role;
  active = input.active;
  enterprise_admin = input.enterprise_admin;
})

abbrev bool_text : Bool → String
bool_text b = if b then "true" else "false"

abbrev pub member_audit : Call → User → Organization → User → UpdateMemberInput → AuditEvent
member_audit c actor o member input = record empty_audit {
  organization_id = o.id;
  id = c.new_id "audit_" 0;
  actor_id = actor.id;
  actor_name = actor.name;
  action = "UPDATE_MEMBER";
  detail = text_append "调整成员 " (
      text_append member.name (
        text_append " 的角色为 " (
          text_append input.role (
            text_append "，启用状态为 " (
              text_append (bool_text input.active)
                (text_append "，企业管理员为 " (bool_text input.enterprise_admin)))))));
  created_at = c.now;
}

-- `HandleMember` for a PUT: its own call, and the one of the write. The checks and the write are calls
-- of their own on the store: other requests may change the state between them.
unfoldable pub put_member :
    Crypto
    → Call
    → Call
    → (State → State)
    → String
    → String
    → Option UpdateMemberInput
    → State
    → State × Result User
unfolding member_checks update_member
put_member k c c₁ between actor_id member_id decoded s =
    elim (member_checks actor_id member_id decoded s) [
      | err e ↦ (s, err e)
      | ok (actor, o, member, input) ↦
          update_member k c₁ o.id member_id (updated_user input) input.application_grants
            (member_audit c actor o member input) (between s)
    ]
